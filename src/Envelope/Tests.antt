-- ===== src/Envelope/Tests.antt =====
-- An envelope with two ids.
use slot_golang.Base.{◌≡◌, List, [], ◌∷◌, arith, All}
use slot_golang.Base.Int64.{ℤ, pos, negsuc, IsInt64}
use slot_golang.Base.Run.{done, ◌>>=◌}
use slot_golang.Envelope.{push2bus_data, main_handle_head, down_data, handle_msg}
use slot_golang.Envelope.RoundTrip.{push2bus-main_handle, down-handle_msg}

abbrev two_ids : List ℤ
two_ids = pos 17 ∷ negsuc 4 ∷ []

two_ids-IsInt64 : All IsInt64 two_ids
two_ids-IsInt64 = (omega arith, (omega arith, tt))

push2bus-main_handle_example :
    (push2bus_data (negsuc 9) two_ids (3 ∷ 0 ∷ 7 ∷ []) >>= main_handle_head (1 ∷ 2 ∷ []))
    ≡ done (negsuc 9, two_ids, 3 ∷ 0 ∷ 7 ∷ [])
push2bus-main_handle_example =
    push2bus-main_handle (1 ∷ 2 ∷ []) (negsuc 9) two_ids (3 ∷ 0 ∷ 7 ∷ []) (omega arith)
      two_ids-IsInt64 (omega arith)

down_read_back :
    (down_data two_ids (3 ∷ 0 ∷ 7 ∷ []) >>= handle_msg [])
    ≡ done ((pos 17, 3 ∷ 0 ∷ 7 ∷ []) ∷ (negsuc 4, 3 ∷ 0 ∷ 7 ∷ []) ∷ [])
down_read_back = down-handle_msg [] two_ids (3 ∷ 0 ∷ 7 ∷ []) two_ids-IsInt64 (omega arith)
