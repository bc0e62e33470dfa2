-- ===== src/Comet/Login/Connection.antt =====
-- comet/websocket.go: how `WsHandler` enters a connection that logged in, and what it undoes when its loop ends.
pub mod Undone
use slot_golang.Base.{
  ℕ, Bool, true, false, not, ◌&&◌, List, ◌∷◌, ◌++◌, Option, none, some, if◌then◌else◌, ltb,
}
use slot_golang.Base.Int64.{ℤ, pos, is_pos, is_neg, sub64}
use slot_golang.Base.Run.{Run, done, ◌>>=◌}
use slot_golang.Msgs.Frame.{app_marshal_bytes}
use slot_golang.Msgs.Status.{mst_device_online, mst_device_offline}
use slot_golang.Comet.Redis.{Host, Hashes, set_user_online, set_user_offline, return_mobile_id}
use slot_golang.Comet.Sessions.{
  Session, SessionList, add_session, remove_session, list_calc_dest_ids,
}
use slot_golang.Comet.Udp.Devices.{notice}

-- What a connection changes: the sessions, the counts in redis with the messages published for the bus, and the
-- phone ids in use of its user.
pub record Site : Type 0 where
  pub sessions : SessionList
  pub hashes : Hashes
  pub published : List (List ℕ)
  pub mids : List ℕ

-- A device that comes or goes is announced to all phones of its users.
unfoldable pub announce : ℕ → ℕ → ℤ → Session → Site → Run Site
announce now kind id s site =
    if is_neg id
    then (do
      (m, bytes) ← app_marshal_bytes now (notice now kind id)
      let l = site.sessions
      done (record site {
        sessions = record l { pushed = (id, list_calc_dest_ids s (pos 0) l, bytes) ∷ l.pushed };
      }))
    else done site

abbrev pub counted : Hashes × List (List ℕ) × ℤ → Site → Site
counted (hs, messages, count) site = record site {
  hashes = hs;
  published = messages ++ site.published;
}

-- From `SetUserOnline` to the loop; `none` when redis fails, after which the connection is closed.
unfoldable pub ws_open : ℕ → Host → Bool → Session → Site → Run (Option Site)
unfolding announce
ws_open now host works s site = if not works then done none else (do
  let site = counted (set_user_online s.uid host site.hashes) site
  site ←
      announce now mst_device_online s.uid s
        (record site { sessions = add_session s site.sessions })
  done (some site))

-- `ReturnMobileId`, whose errors are not looked at.
abbrev pub give_back : Bool → ℕ → Site → Site
give_back works mid site =
    if works then record site { mids = (return_mobile_id mid site.mids).0 } else site

-- After the loop; the Booleans are whether redis runs the script of `SetUserOffline` and the one of `ReturnMobileId`.
unfoldable pub ws_close : ℕ → Host → Bool → Bool → ℕ → Session → Site → Run Site
unfolding announce
ws_close now host works returns mid s site = do
  let site = if works then counted (set_user_offline s.uid host site.hashes) site else site
  let phone = is_pos s.uid && ltb 0 mid
  let id = if phone then sub64 s.uid (pos mid) else s.uid
  site ← announce now mst_device_offline id s (if phone then give_back returns mid site else site)
  done (record site { sessions = remove_session s site.sessions })
