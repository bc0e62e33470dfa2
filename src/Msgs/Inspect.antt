-- ===== src/Msgs/Inspect.antt =====
-- msgs/msgs.go: what is read from a message in bytes; msgs/comet.go: the two kinds of comet.
use Prim.Native.Nat.{bit_and, bit_or}
use slot_golang.Base.{ℕ, ◌+◌, Bool, List, ◌==◌, if◌then◌else◌, get_elem?, set}
use slot_golang.Base.Int64.{ℤ, of_u64}
use slot_golang.Base.Bytes.{slice, uint_at}
use slot_golang.Base.Run.{Run, done, checked, ◌>>=◌}

abbrev pub k_head_forward : ℕ
k_head_forward = 24

abbrev pub k_head_frame : ℕ
k_head_frame = 24

abbrev pub k_sid_len : ℕ
k_sid_len = 16

abbrev pub flag_ack : ℕ
flag_ack = 0x40

abbrev pub flag_read : ℕ
flag_read = 0x80

pub data CometType : Type 0 where
  comet_ws comet_udp : CometType

-- `NewAckMsg`: a copy with the flag of an acknowledgement set at byte 48.
unfoldable pub new_ack_msg : List ℕ → Run (List ℕ)
new_ack_msg message = do
  b ← checked (get_elem? message (k_head_forward + k_head_frame))
  done (set message (k_head_forward + k_head_frame) (bit_or b flag_ack))

unfoldable pub is_forward_type : List ℕ → Run Bool
is_forward_type msg = do b ← checked (get_elem? msg 0); done (bit_and b 0x7 == 3)

-- `ForwardSrcId`: `Uint64` reads the last of eight bytes first, of a slice `msg[16:18]`.
unfoldable pub uint64 : List ℕ → Run ℤ
uint64 b = do _ ← checked (get_elem? b 7); v ← checked (uint_at b 0 8); done (of_u64 v)

unfoldable pub forward_src_id : List ℕ → Run ℤ
unfolding uint64
forward_src_id msg = do b ← checked (slice msg 16 18); uint64 b

unfoldable pub get_msg_id : List ℕ → Run ℕ
unfolding is_forward_type
get_msg_id msg = do
  forward ← is_forward_type msg
  let offset : ℕ =
      if forward then k_head_forward + k_sid_len + k_head_frame + 4 else k_head_frame + 4
  checked (uint_at msg offset 2)
