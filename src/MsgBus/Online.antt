-- ===== src/MsgBus/Online.antt =====
-- msgbus/main.go: the bus follows the messages that a comet's scripts publish (comet/redis.go).
pub mod Follows
mod Tests
use slot_golang.Base.{
  ℕ, zero, suc, ◌+◌, ◌≡◌, Bool, true, false, List, [], ◌∷◌, ◌++◌, Option, none, some, if◌then◌else◌,
  All, map,
}
use slot_golang.Base.Int64.{ℤ, pos, negsuc, IsInt64, is_zero}
use slot_golang.Base.Decimal.{parse_int, split}
use slot_golang.Base.Format.{Without}
use slot_golang.Base.Maps.{bytes_eq}
use slot_golang.Base.Run.{Run, done, panics, ◌>>=◌}
use slot_golang.Hlist.{Hlist}
use slot_golang.Comet.Redis.{Hashes, set_user_online, set_user_offline, clear_redis}
use slot_golang.MsgBus.UserMap.{Host, UserMap, load, online, offline, offline_host}

module _ (hl : Hlist Host) where
  -- The three fields; an index past the last one panics.
  abbrev pub handle_fields : List (List ℕ) → UserMap hl → Run (UserMap hl)
  handle_fields [] kv = panics
  handle_fields (user ∷ []) kv = panics
  handle_fields (user ∷ host ∷ []) kv = panics
  handle_fields (user ∷ host ∷ is_online ∷ rest) kv =
      let uid = (parse_int user).0 in
      if bytes_eq is_online (b'1' ∷ [])
      then done (online hl uid host kv)
      else if is_zero uid
      then done (offline_host hl host kv)
      else done (offline hl uid host kv)

  -- One round of the loop of `handleOnlineEvent`.
  unfoldable pub handle_online_event : List ℕ → UserMap hl → Run (UserMap hl)
  handle_online_event user_ori kv = handle_fields (split b'|' user_ori) kv

  -- The loop, over the messages in the order in which redis publishes them.
  unfoldable pub handle_online_events : List (List ℕ) → UserMap hl → Run (UserMap hl)
  unfolding handle_online_event
  handle_online_events [] kv = done kv
  handle_online_events (m ∷ ms) kv = handle_online_event m kv >>= handle_online_events ms

-- What a comet does with its counts.
pub data Call : Type 0 where
  log_in log_out : ℤ → Host → Call
  restart : Host → Call

-- The hashes after a call, and what it publishes.
unfoldable pub perform : Call → Hashes → Hashes × List (List ℕ)
unfolding set_user_online set_user_offline clear_redis
perform (log_in uid host) hs =
    let (hs', messages, count) = set_user_online uid host hs in (hs', messages)
perform (log_out uid host) hs =
    let (hs', messages, count) = set_user_offline uid host hs in (hs', messages)
perform (restart host) hs = clear_redis host hs

unfoldable pub perform_all : List Call → Hashes → Hashes × List (List ℕ)
unfolding perform
perform_all [] hs = (hs, [])
perform_all (c ∷ cs) hs =
    let (hs', messages) = perform c hs in
    let (hs'', more) = perform_all cs hs' in (hs'', messages ++ more)

-- The id is an int64 and, where it logs out, not 0; the host's address has no '|'.
abbrev pub IsCall : Call → Type 0
IsCall (log_in uid host) = IsInt64 uid × Without b'|' host
IsCall (log_out uid host) = IsInt64 uid × Without b'|' host × (is_zero uid ≡ false)
IsCall (restart host) = Without b'|' host

unfoldable pub is_positive : ℤ → Bool
is_positive (pos zero) = false
is_positive (pos (suc n)) = true
is_positive (negsuc n) = false
