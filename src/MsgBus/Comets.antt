-- ===== src/MsgBus/Comets.antt =====
-- msgbus/comet.go: the comets connected to the bus, with the two mutexes of `Comets`, whose state a
-- call may leave behind. (The mutex of one server is given back on every path.)
pub mod Locks
use slot_golang.Base.{
  ℕ, zero, suc, ◌+◌, ◌-◌, Bool, true, false, List, [], ◌∷◌, ◌++◌, Option, none, some, if◌then◌else◌,
  length, take, drop, set, get_elem?, ◌==◌, ◌%◌, ◌^◌, ltb,
}
use mathlib.Core.Option
use slot_golang.Base.Int64.{ℤ}
use slot_golang.Base.Bytes.{put_le}
use slot_golang.Base.Maps.{Eq, string_eq, int64_eq, lookup, insert, delete, bytes_eq}
use slot_golang.Base.Run.{Run, done, panics, blocks, checked, ◌>>=◌}
use slot_golang.Msgs.Inspect.{CometType, comet_ws, comet_udp}
use slot_golang.MsgBus.UserMap.{Host}

-- A TCP connection, by a number; the set of users as the keys of a map.
pub record CometServer : Type 0 where
  pub users : List (ℤ × Unit {0})
  pub conn : ℕ
  pub comet_type : CometType

abbrev pub Servers : Type 0
Servers = List (Host × CometServer)

pub record Comets : Type 0 where
  -- held mutexes
  pub mu : Bool
  pub mu_udp : Bool
  pub servers : Servers
  pub udp_comet_names : List Host
  pub servers_udp : Servers
  -- what was written to the connections, oldest first
  pub written : List (ℕ × List ℕ)

abbrev pub new_comets : Comets
new_comets = record {
  mu = false;
  mu_udp = false;
  servers = [];
  udp_comet_names = [];
  servers_udp = [];
  written = [];
}

-- `mu.Lock()`
abbrev pub lock : Bool → Run (Unit {0})
lock true = blocks
lock false = done tt

abbrev pub new_server : ℕ → CometType → CometServer
new_server conn kind = record { users = []; conn = conn; comet_type = kind }

unfoldable pub add_server : Host → ℕ → CometType → Comets → Run Comets
add_server host conn comet_ws c = do
  _ ← lock c.mu
  done (record c { servers = insert host (new_server conn comet_ws) c.servers })
add_server host conn comet_udp c = do
  _ ← lock c.mu_udp
  done (record c {
    udp_comet_names = c.udp_comet_names ++ (host ∷ []);
    servers_udp = insert host (new_server conn comet_udp) c.servers_udp;
  })

-- The first position of a name.
unfoldable pub position : Host → List Host → Option ℕ
position host [] = none
position host (v ∷ names) = if bytes_eq v host then some 0 else Option.map suc (position host names)

-- `names[k] = names[len(names)-1]; names = names[:len(names)-1]`
unfoldable pub drop_name : List Host → ℕ → List Host
drop_name names k = elim (get_elem? names (length names - 1)) [
  | none ↦ names
  | some last ↦ take (length names - 1) (set names k last)
]

-- The part under `muUdp`. When the name is found the function returns inside the loop, with `muUdp`
-- still held.
unfoldable pub remove_udp_server : Host → Comets → Run Comets
unfolding position drop_name
remove_udp_server host c = elim (lookup host c.servers_udp) [
  | none ↦ done c
  | some _ ↦ elim (position host c.udp_comet_names) [
    | none ↦ done (record c { servers_udp = delete host c.servers_udp })
    | some k ↦ done (record c {
      mu_udp = true;
      servers_udp = delete host c.servers_udp;
      udp_comet_names = drop_name c.udp_comet_names k;
    })
  ]
]

unfoldable pub remove_server : Host → Comets → Run Comets
remove_server host c = do
  _ ← lock c.mu
  elim (lookup host c.servers) [
    | some _ ↦ done (record c { servers = delete host c.servers })
    | none ↦ elim c.mu_udp [ true ↦ blocks | false ↦ remove_udp_server host c ]
  ]

-- `addUser` and `delUser` of the server, under `mu`; an unknown host is only logged.
unfoldable pub add_user_to_host : ℤ → Host → Comets → Run Comets
add_user_to_host uid host c = do
  _ ← lock c.mu
  done (elim (lookup host c.servers) [
    | none ↦ c
    | some s ↦ record c {
      servers = insert host (record s { users = insert uid tt s.users }) c.servers;
    }
  ])

unfoldable pub remove_user_from_host : ℤ → Host → Comets → Run Comets
remove_user_from_host uid host c = do
  _ ← lock c.mu
  done (elim (lookup host c.servers) [
    | none ↦ c
    | some s ↦ record c {
      servers = insert host (record s { users = delete uid s.users }) c.servers;
    }
  ])

-- Writing to a connection, which the network may fail: `works` says whether the bytes go out, after
-- what was written before. The Boolean is `err == nil`.
module _ (works : List (ℕ × List ℕ) → ℕ → List ℕ → Bool) where
  unfoldable pub write : ℕ → List ℕ → Comets → Comets × Bool
  write conn bytes c =
      if works c.written conn bytes
      then (record c { written = c.written ++ ((conn, bytes) ∷ []) }, true)
      else (c, false)

  -- `CometServer.Push`: the length, then the message.
  unfoldable pub push : CometServer → List ℕ → Comets → Comets × Bool
  unfolding write
  push s msg c =
      let (c', sent) = write s.conn (put_le 4 (length msg % 2 ^ 32)) c in
      if sent then write s.conn msg c' else (c', false)

  -- The Boolean is whether there is no error.
  unfoldable pub push_msg : List ℕ → Host → Comets → Run (Comets × Bool)
  push_msg msg host c = do
    _ ← lock c.mu
    elim (lookup host c.servers) [ none ↦ done (c, false) | some s ↦ done (push s msg c) ]

  -- `choice` is the value of `rand.Intn(len(names))`; with no name `Intn(0)` panics, and so does any
  -- index of the empty slice.
  unfoldable pub push_udp_msg : ℕ → List ℕ → Comets → Run (Comets × Bool)
  push_udp_msg choice msg c = do
    _ ← lock c.mu_udp
    host ← checked (get_elem? c.udp_comet_names choice)
    elim (lookup host c.servers_udp) [ none ↦ done (c, false) | some s ↦ done (push s msg c) ]

-- `hostName`: a name without its prefix "Host:", if it begins with it.
unfoldable pub host_name : List ℕ → Host
host_name name =
    if bytes_eq (take 5 name) (b'H' ∷ b'o' ∷ b's' ∷ b't' ∷ b':' ∷ []) then drop 5 name else name
