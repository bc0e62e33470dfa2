-- ===== src/Comet/Buses/Tests.antt =====
-- Two buses that take turns.
use slot_golang.Base.{ℕ, ◌≡◌, refl, List, [], ◌∷◌, ◌++◌, none, some}
use slot_golang.Base.Run.{done, panics, ◌>>=◌}
use slot_golang.Base.Maps.{bytes_eq}
use slot_golang.Comet.Buses.{
  Server, Manager, is_listed, online, is_online, offline, push2bus, push_all,
}
use slot_golang.Comet.Buses.Turns.{one_each, push_all_round, offline_stops}

abbrev server : ℕ → Server
server n = record { number = n; remote_addr = some (b'a' ∷ []) }

abbrev two_buses : Manager
two_buses = record { servers = server 1 ∷ server 2 ∷ []; curr = some 1; sent = [] }

abbrev messages : List (List ℕ)
messages = (7 ∷ []) ∷ (8 ∷ []) ∷ []

push_all_round_example :
    push_all messages two_buses
    ≡ done (record two_buses { sent = [] ++ one_each two_buses.servers messages; curr = some 1 })
unfolding is_listed
push_all_round_example =
    push_all_round (server 1) (server 2 ∷ []) messages two_buses refl refl (refl, (refl, tt))
      ((b'a' ∷ [], refl), ((b'a' ∷ [], refl), tt)) refl

offline_stops_example : push_all messages (offline 1 two_buses) ≡ done (offline 1 two_buses)
unfolding is_listed
offline_stops_example = offline_stops 1 messages two_buses refl refl

-- After `Online` of a bus that cannot be reached the next message panics.
unreachable : (online 3 none (b'c' ∷ []) two_buses >>= push2bus (7 ∷ [])) ≡ panics
unfolding online is_online bytes_eq push2bus
unreachable = refl
