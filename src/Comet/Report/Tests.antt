-- ===== src/Comet/Report/Tests.antt =====
-- The reports of a comet with one address, at concrete events.
use slot_golang.Base.{ℕ, ◌+◌, ◌≡◌, refl, List, [], ◌∷◌, ◌++◌, Option, none, some}
use slot_golang.Base.Maps.{string_eq, insert}
use slot_golang.Base.Format.{join, format_digits}
use slot_golang.Comet.Report.{
  Text, has_session, disconnected, made, set_node, lost, Input, conn_event, take_event, cpu_sample,
  tick, new_reporter, run,
}

-- The i-th node has the path "n" with i behind it; a load is a number of one digit.
abbrev nth_node : ℕ → Text → Option Text
nth_node i text = some (b'n' ∷ i ∷ [])

abbrev show : ℕ → Text
show cpu = (b'0' + cpu) ∷ []

abbrev connect : List (Input ℕ)
connect = conn_event has_session ∷ take_event ((b'u' ∷ []) ∷ []) ∷ []

abbrev reconnected : List (Input ℕ)
reconnected =
    connect
    ++ (cpu_sample (some 3)
        ∷ tick (some (9, 4)) 2
        ∷ conn_event disconnected
        ∷ take_event []
        ∷ tick none 2
        ∷ connect)

-- A second node is made for the address when the connection comes back, and the first is never written again.
registered_again :
    (run ℕ 0 show nth_node reconnected (new_reporter ℕ 0 show nth_node)).acts
    ≡ made (b'n' ∷ 1 ∷ []) (b'u' ∷ [])
      ∷ lost
      ∷ set_node (b'n' ∷ 0 ∷ []) (b'u' ∷ b',' ∷ b'3' ∷ b',' ∷ b'9' ∷ b',' ∷ b'5' ∷ b',' ∷ b'2' ∷ [])
      ∷ made (b'n' ∷ 0 ∷ []) (b'u' ∷ [])
      ∷ []
unfolding run insert join format_digits
registered_again = refl
