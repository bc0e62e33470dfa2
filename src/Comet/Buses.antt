-- ===== src/Comet/Buses.antt =====
-- comet/msgbus_man.go: the connections to the buses, which take turns. The list of servers is kept from its front
-- on, a server by a number of its own.
pub mod Turns
mod Tests
use slot_golang.Base.{
  ℕ, zero, suc, Bool, true, false, List, [], ◌∷◌, ◌++◌, Option, none, some, ◌==◌, if◌then◌else◌,
}
use slot_golang.Base.Maps.{bytes_eq}
use slot_golang.Base.Run.{Run, done, panics, ◌>>=◌}

-- The remote address of its connection; `none` is a nil connection.
pub record Server : Type 0 where
  pub number : ℕ
  pub remote_addr : Option (List ℕ)

-- `curr` is the number of the current element; what was sent comes oldest first.
pub record Manager : Type 0 where
  pub servers : List Server
  pub curr : Option ℕ
  pub sent : List (ℕ × List ℕ)

-- `NewMsgBusManager`
abbrev pub new_manager : Manager
new_manager = record { servers = []; curr = none; sent = [] }

-- The loop of `Online`: whether a server has the address. The address of a nil connection is nil, and its
-- `String` panics.
unfoldable pub is_online : List ℕ → List Server → Run Bool
is_online addr [] = done false
is_online addr (s ∷ servers) = elim s.remote_addr [
  | none ↦ panics
  | some a ↦ if bytes_eq a addr then done true else is_online addr servers
]

-- `Online` of a server with a new number; `conn` is the remote address of the connection that `Dail` leaves, if any. It is
-- added in any case.
unfoldable pub online : ℕ → Option (List ℕ) → List ℕ → Manager → Run Manager
unfolding is_online
online number conn addr m = do
  known ← is_online addr m.servers
  done (
      if known then m else record m {
        servers = record { number = number; remote_addr = conn } ∷ m.servers;
        curr = some number;
      })

unfoldable pub remove : ℕ → List Server → List Server
remove number [] = []
remove number (s ∷ servers) = if s.number == number then servers else s ∷ remove number servers

unfoldable pub is_listed : ℕ → List Server → Bool
is_listed number [] = false
is_listed number (s ∷ servers) = if s.number == number then true else is_listed number servers

abbrev pub unless_equal : ℕ → Option ℕ → Option ℕ
unless_equal number none = none
unless_equal number (some c) = if c == number then none else some c

-- `Offline`
unfoldable pub offline : ℕ → Manager → Manager
unfolding remove is_listed
offline number m =
    if is_listed number m.servers
    then record m { servers = remove number m.servers; curr = unless_equal number m.curr }
    else m

abbrev pub front : List Server → Option ℕ
front [] = none
front (s ∷ servers) = some s.number

-- `Next`, or the front where there is none.
unfoldable pub next_or_front : ℕ → List Server → Option ℕ → Option ℕ
next_or_front number [] first = first
next_or_front number (s ∷ []) first = first
next_or_front number (s ∷ t ∷ servers) first =
    if s.number == number then some t.number else next_or_front number (t ∷ servers) first

-- The connection of a server of the list; the current server is always in it.
abbrev pub conn_of : ℕ → List Server → Option (List ℕ)
conn_of number [] = none
conn_of number (s ∷ servers) = if s.number == number then s.remote_addr else conn_of number servers

-- `Send` to the current server, and the turn of the next one. The write goes out; on a nil connection it panics.
abbrev pub push_conn : List ℕ → ℕ → Option (List ℕ) → Manager → Run Manager
push_conn push_data c none m = panics
push_conn push_data c (some addr) m = done (record m {
  sent = m.sent ++ ((c, push_data) ∷ []);
  curr = next_or_front c m.servers (front m.servers);
})

-- The part of `Push2Bus` behind the bytes.
abbrev pub push_curr : List ℕ → Option ℕ → Manager → Run Manager
push_curr push_data none m = done m
push_curr push_data (some c) m = push_conn push_data c (conn_of c m.servers) m

unfoldable pub push2bus : List ℕ → Manager → Run Manager
unfolding next_or_front
push2bus push_data m = push_curr push_data m.curr m

unfoldable pub push_all : List (List ℕ) → Manager → Run Manager
unfolding push2bus
push_all [] m = done m
push_all (d ∷ ds) m = do m' ← push2bus d m; push_all ds m'
