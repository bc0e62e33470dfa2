-- ===== src/Comet/Udp.antt =====
-- comet/udp_handler.go, `handle`: the checks of an incoming packet, up to the parsing of its body.
pub mod Packets
pub mod Store
pub mod Users
pub mod Devices
pub mod Common
pub mod Commands
pub mod Handler
mod Tests
use Prim.Native.Nat.{bit_and}
use slot_golang.Base.{
  ℕ, Bool, not, ◌&&◌, ◌+◌, ◌-◌, List, Option, none, some, ltb, ◌==◌, if◌then◌else◌, length, drop,
  get_elem?,
}
use slot_golang.Base.Bytes.{uint_at}
use slot_golang.Base.Run.{Run, done, panics, checked, ◌>>=◌}
use slot_golang.Msgs.Checksum.{checksum_header}

abbrev pub frame_header_len : ℕ
frame_header_len = 24

abbrev pub data_header_len : ℕ
data_header_len = 12

-- Why a packet is refused, with the code's order of the reasons.
pub data Reject : Type 0 where
  short_header wrong_opcode short_protocol header_check body_check body_length : Reject

-- What a packet that passes is: a command with opcode 2, or a message to forward with opcode 3.
pub data Accepted : Type 0 where
  command forward : Accepted

pub data Verdict : Type 0 where
  refused : Reject → Verdict
  accepted : Accepted → Verdict

-- The check of the body: its checksum over the length that the packet states, and then that length.
unfoldable pub check_body : List ℕ → ℕ → Run Verdict
check_body msg body_len = do
  stated ← checked (get_elem? msg (frame_header_len + 9))
  sum ← checked (checksum_header (drop (frame_header_len + 10) msg) (2 + body_len))
  if not (stated == sum)
      then done (refused body_check)
      else (if not (body_len == length (drop (frame_header_len + data_header_len) msg))
          then done (refused body_length)
          else done (accepted command))

-- The checks of a packet with opcode 2, after that of its length.
unfoldable pub check_data : List ℕ → Run Verdict
check_data msg = do
  body_len ← checked (uint_at msg (frame_header_len + 6) 2)
  stated ← checked (get_elem? msg (frame_header_len + 8))
  sum ← checked (checksum_header msg (frame_header_len + 8))
  if not (stated == sum) then done (refused header_check) else check_body msg body_len

abbrev pub sid_len : ℕ
sid_len = 16

-- The checks for each opcode.
unfoldable pub check_opcode : ℕ → List ℕ → Run Verdict
check_opcode op msg =
    if not (op == 2) && not (op == 3)
    then done (refused wrong_opcode)
    else (if op == 2
        then (if ltb (length msg) (frame_header_len + data_header_len)
            then done (refused short_protocol)
            else check_data msg)
        else (if ltb (length msg) (frame_header_len + sid_len + frame_header_len + data_header_len)
            then done (refused short_protocol)
            else done (accepted forward)))

-- The whole sequence of checks.
unfoldable pub check_packet : List ℕ → Run Verdict
check_packet msg =
    if ltb (length msg) frame_header_len
    then done (refused short_header)
    else (do first ← checked (get_elem? msg 0); check_opcode (bit_and 0x7 first) msg)
