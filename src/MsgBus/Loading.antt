-- ===== src/MsgBus/Loading.antt =====
-- msgbus/redis.go `LoadUsers`: what the bus reads from redis when it starts.
pub mod Counted
mod Tests
use slot_golang.Base.{ℕ, List, [], ◌∷◌, Option, none, some}
use slot_golang.Hlist.{Hlist}
use slot_golang.MsgBus.Comets.{host_name}
use slot_golang.MsgBus.UserMap.{Host, UserMap, load}

-- The answers of redis: to "keys" of "Host:*", and to "hkeys" of a hash; `none` is an error.
pub record Redis : Type 0 where
  pub keys : Option (List (List ℕ))
  pub hkeys : List ℕ → Option (List (List ℕ))

module _ (hl : Hlist Host) where
  abbrev pub load_found : Option (List (List ℕ)) → Host → UserMap hl → UserMap hl
  load_found none host kv = kv
  load_found (some users) host kv = load hl users host kv

module _ (hl : Hlist Host) (redis : Redis) where
  -- `GetAllUsers`: a host whose users redis does not give is passed over.
  unfoldable pub get_all_users : List (List ℕ) → UserMap hl → UserMap hl
  unfolding host_name
  get_all_users [] kv = kv
  get_all_users (host ∷ hosts) kv =
      get_all_users hosts (load_found hl (redis.hkeys host) (host_name host) kv)

  -- `LoadUsers`; `none` is the error of `GetAllHosts`.
  unfoldable pub load_users : UserMap hl → Option (UserMap hl)
  unfolding get_all_users
  load_users kv = elim redis.keys [ none ↦ none | some hosts ↦ some (get_all_users hosts kv) ]
