-- ===== src/Wire/Tests.antt =====
-- The two readers on a short stream.
use slot_golang.Base.{ℕ, ◌≡◌, List, [], ◌∷◌, arith}
use slot_golang.Wire.{reciver, handle_client, comet_payload_max, bus_init_max, bus_payload_max}
use slot_golang.Wire.Delivery.{frames, within, reciver_delivers, handle_client_all}

abbrev two_messages : List (List ℕ)
two_messages = (1 ∷ 2 ∷ []) ∷ (3 ∷ []) ∷ []

reciver_delivers_example : reciver 5 (frames two_messages) ≡ within comet_payload_max two_messages
reciver_delivers_example =
    reciver_delivers two_messages 5 (omega arith, (omega arith, tt)) (omega arith)

bus_delivers :
    handle_client 5 bus_init_max (frames two_messages) ≡ within bus_payload_max two_messages
bus_delivers = handle_client_all two_messages 5 (omega arith, (omega arith, tt)) (omega arith)
