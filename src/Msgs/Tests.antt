-- ===== src/Msgs/Tests.antt =====
-- Package msgs at concrete messages.
use slot_golang.Base.{
  ℕ, ◌<◌, ◌≡◌, ◌≢◌, ◌↔◌, refl, [], ◌∷◌, ◌++◌, List, none, some, arith, length, get_elem?,
}
use slot_golang.Base.Int64.{pos, negsuc, of_u64}
use slot_golang.Base.Bytes.{uint_at}
use slot_golang.Base.Run.{done, panics}
use Prim.Native.Nat.{bit_and}
use mathlib.Core.Option
use slot_golang.Msgs.Checksum.{checksum_header}
use slot_golang.Msgs.Checksum.Detects.{
  checksum_header_panic, checksum_header_detects, checksum_header_residue,
}
use slot_golang.Msgs.Frame.{FrameHeader, AppMsg, new_frame_header, new_msg, frame_marshal_bytes}
use slot_golang.Msgs.Frame.Reads.{frame_read_back}
use slot_golang.Msgs.Status.{status_marshal, mst_device_online}
use slot_golang.Msgs.Inspect.{forward_src_id}
use slot_golang.Msgs.Pitfalls.{status_marshal_drops, forward_src_id_panics}

sum_out_of_range :
    (checksum_header (1 ∷ 2 ∷ 3 ∷ []) 5 ≡ none) ↔ (length {A = ℕ} (1 ∷ 2 ∷ 3 ∷ []) < 5)
sum_out_of_range = checksum_header_panic (1 ∷ 2 ∷ 3 ∷ []) 5

checksum_header_detects_example :
    checksum_header (7 ∷ 200 ∷ 9 ∷ 1 ∷ []) 4 ≢ checksum_header (7 ∷ 200 ∷ 8 ∷ 1 ∷ []) 4
checksum_header_detects_example =
    checksum_header_detects (7 ∷ 200 ∷ []) (1 ∷ []) 9 8 (omega arith, (omega arith, tt))
      (omega arith, tt) (omega arith) (omega arith) (λ e. omega arith)

sum_of_three : checksum_header (1 ∷ 2 ∷ 3 ∷ []) 3 ≡ some 204
unfolding checksum_header
sum_of_three = refl

sum_of_four : checksum_header (1 ∷ 2 ∷ 3 ∷ 204 ∷ []) 4 ≡ some 0
sum_of_four =
    checksum_header_residue (1 ∷ 2 ∷ 3 ∷ []) 204 (omega arith, (omega arith, (omega arith, tt)))
      sum_of_three

-- To a device (a negative id) with opcode 3.
abbrev forwarded : FrameHeader
forwarded = record (new_frame_header 1000) {
  opcode = 3;
  sequence = 515;
  dst_id = negsuc 76;
  src_id = pos 33;
}

frame_read_back_example :
    (bytes : List ℕ) × (frame_marshal_bytes forwarded ≡ done bytes)
    × (Option.map (bit_and 0x7) (get_elem? (bytes ++ (1 ∷ 2 ∷ [])) 0) ≡ some 3)
    × (uint_at (bytes ++ (1 ∷ 2 ∷ [])) 2 2 ≡ some 515)
    × (Option.map of_u64 (uint_at (bytes ++ (1 ∷ 2 ∷ [])) 8 8) ≡ some (negsuc 76))
    × (Option.map of_u64 (uint_at (bytes ++ (1 ∷ 2 ∷ [])) 16 8) ≡ some (pos 33))
frame_read_back_example =
    frame_read_back forwarded (1 ∷ 2 ∷ []) (omega arith) (omega arith) (omega arith) (omega arith)
      (omega arith)

last_byte_lost :
    status_marshal (record { kind = mst_device_online; id = pos 5; payload = 1 ∷ 2 ∷ [] })
    ≡ status_marshal (record { kind = mst_device_online; id = pos 5; payload = 1 ∷ 3 ∷ [] })
last_byte_lost = status_marshal_drops mst_device_online (pos 5) (1 ∷ []) 2 3

two_bytes_panic : forward_src_id (0x82 ∷ 0 ∷ []) ≡ panics
two_bytes_panic = forward_src_id_panics (0x82 ∷ 0 ∷ [])

-- A message with a forward header.
abbrev forwarding : AppMsg
forwarding = new_msg 1000 (255 ∷ 7 ∷ []) (some forwarded)
