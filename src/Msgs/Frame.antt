-- ===== src/Msgs/Frame.antt =====
-- msgs/msgs.go: `FrameHeader`, `dataHeader`, `AppMsg` and how they are written to bytes.
pub mod Reads
pub mod Sums
pub mod Checks
pub mod Returns
use Prim.Native.Nat.{bit_and, bit_or}
use slot_golang.Base.{
  ℕ, zero, suc, ◌+◌, ◌-◌, ◌*◌, ◌%◌, ◌^◌, Bool, true, false, List, [], ◌∷◌, ◌++◌, Option, none, some,
  ◌==◌, ltb, leb, if◌then◌else◌, length, drop, set, replicate,
}
use slot_golang.Base.Int64.{ℤ, pos, to_u64}
use slot_golang.Base.Bytes.{put_le, write_at}
use slot_golang.Base.Run.{Run, done, checked, in_bounds, ◌>>=◌}
use slot_golang.Msgs.Checksum.{checksum_header}

abbrev pub k_frame_header_len : ℕ
k_frame_header_len = 24

pub record FrameHeader : Type 0 where
  pub fin : Bool
  pub mask : Bool
  pub ver : ℕ
  pub opcode : ℕ
  pub reserve : ℕ
  pub sequence : ℕ
  pub time : ℕ
  pub dst_id : ℤ
  pub src_id : ℤ
  -- a nil slice and an empty one append the same bytes
  pub guid : List ℕ

-- `now` is `time.Now().Unix()`.
abbrev pub new_frame_header : ℕ → FrameHeader
new_frame_header now = record {
  fin = true;
  mask = false;
  ver = 0;
  opcode = 0;
  reserve = 0;
  sequence = 0;
  time = now % 2 ^ 32;
  dst_id = pos 0;
  src_id = pos 0;
  guid = [];
}

-- Byte 0: the flags, three bits of the version and three of the opcode.
unfoldable pub frame_byte0 : Bool → Bool → ℕ → ℕ → ℕ
frame_byte0 fin mask ver opcode =
    let a : ℕ = if fin then bit_or 0 0x80 else 0 in
    let b : ℕ = if mask then bit_or a 0x40 else a in
    let c : ℕ = if ver == 0 then b else bit_or b (bit_and ver 0x7 * 8 % 256) in
    bit_or c (bit_and opcode 0x7)

-- `buf[i] = x`, and a write of `PutUint16`, `PutUint32` or `PutUint64` to `buf[i:i+w]`, w bytes wide.
abbrev pub put_at : List ℕ → ℕ → ℕ → Run (List ℕ)
put_at buf i x = do _ ← in_bounds (ltb i (length buf)); done (set buf i x)

abbrev pub put_bytes : List ℕ → ℕ → List ℕ → Run (List ℕ)
put_bytes buf i xs = do _ ← in_bounds (leb (i + length xs) (length buf)); done (write_at buf i xs)

unfoldable pub frame_marshal_bytes : FrameHeader → Run (List ℕ)
unfolding write_at
frame_marshal_bytes f = do
  let buf = replicate k_frame_header_len 0
  buf ← put_at buf 0 (frame_byte0 f.fin f.mask f.ver f.opcode)
  buf ← put_at buf 1 f.reserve
  buf ← put_bytes buf 2 (put_le 2 f.sequence)
  buf ← put_bytes buf 4 (put_le 4 f.time)
  buf ← put_bytes buf 8 (put_le 8 (to_u64 f.dst_id))
  buf ← put_bytes buf 16 (put_le 8 (to_u64 f.src_id))
  done (buf ++ f.guid)

pub record DataHeader : Type 0 where
  pub read : Bool
  pub ack : Bool
  pub data_format : ℕ
  pub key_level : ℕ
  pub encrypt_type : ℕ
  pub data_seq : ℕ
  pub dev_type : ℕ
  pub msg_id : ℕ
  pub length_field : ℕ
  pub head_check : ℕ
  pub check : ℕ
  pub session_id : ℕ

-- The header of a new message: `dataHeader{Read: true}`.
abbrev pub read_header : DataHeader
read_header = record {
  read = true;
  ack = false;
  data_format = 0;
  key_level = 0;
  encrypt_type = 0;
  data_seq = 0;
  dev_type = 0;
  msg_id = 0;
  length_field = 0;
  head_check = 0;
  check = 0;
  session_id = 0;
}

unfoldable pub data_byte0 : DataHeader → ℕ
data_byte0 d =
    let a : ℕ = if d.read then bit_or 0 0x80 else 0 in
    let b : ℕ = if d.ack then bit_or a 0x40 else a in
    let c : ℕ = if d.data_format == 0 then b else bit_or b (bit_and d.data_format 0x3 * 16 % 256) in
    let e : ℕ = if d.key_level == 0 then c else bit_or c (bit_and d.key_level 0x3 * 4 % 256) in
    if d.encrypt_type == 0 then e else bit_or e (bit_and d.encrypt_type 0x3)

-- The bytes, and the positions that follow the two checksums. The opcode is not used.
unfoldable pub data_marshal_bytes : DataHeader → ℕ → ℕ → Run (List ℕ × ℕ × ℕ)
unfolding write_at
data_marshal_bytes d data_len opcode = do
  let buf = replicate 12 0
  buf ← put_at buf 0 (data_byte0 d)
  buf ← put_at buf 1 d.data_seq
  buf ← put_bytes buf 2 (put_le 2 d.dev_type)
  buf ← put_bytes buf 4 (put_le 2 d.msg_id)
  buf ← put_bytes buf 6 (put_le 2 (data_len % 2 ^ 16))
  buf ← put_bytes buf 10 (put_le 2 d.session_id)
  done (buf, 9, 10)

pub record AppMsg : Type 0 where
  pub forward_header : Option FrameHeader
  pub frame_header : FrameHeader
  pub data_header : DataHeader
  pub body : List ℕ

unfoldable pub new_msg : ℕ → List ℕ → Option FrameHeader → AppMsg
new_msg now body forward = record {
  forward_header = forward;
  frame_header = new_frame_header now;
  data_header = read_header;
  body = body;
}

-- The forward header in front, where there is one.
abbrev pub forward_part : Option FrameHeader → Run (List ℕ)
forward_part none = done []
forward_part (some f) = frame_marshal_bytes f

-- The end of `MarshalBytes`: the two checksums, at the places in front of the two positions.
abbrev pub put_sums : ℕ → ℕ → List ℕ → Run (List ℕ)
put_sums hcheck_pos check_pos buf = do
  h ← checked (checksum_header buf (hcheck_pos - 1))
  buf ← put_at buf (hcheck_pos - 1) h
  _ ← in_bounds (leb check_pos (length buf))
  c ← checked (checksum_header (drop check_pos buf) (length buf - check_pos))
  put_at buf (check_pos - 1) c

-- `AppMsg.MarshalBytes` at the time `now`: the message with its new timestamp, and the bytes.
unfoldable pub app_marshal_bytes : ℕ → AppMsg → Run (AppMsg × List ℕ)
unfolding frame_marshal_bytes data_marshal_bytes
app_marshal_bytes now a = do
  let frame = record (a.frame_header) { time = now % 2 ^ 32 }
  front ← forward_part a.forward_header
  middle ← frame_marshal_bytes frame
  let opcode : ℕ = elim a.forward_header [ none ↦ frame.opcode | some f ↦ f.opcode ]
  let buf = front ++ middle
  (header, hcheck, check) ← data_marshal_bytes a.data_header (length a.body) opcode
  buf' ← put_sums (hcheck + length buf) (check + length buf) (buf ++ (header ++ a.body))
  done (record a { frame_header = frame }, buf')
