-- ===== src/Msgs/Frame/Sums.antt =====
-- msgs/msgs.go: how `MarshalBytes` puts its parts and the two checksums together.
use slot_golang.Base.{
  ℕ, suc, ◌+◌, ◌-◌, ◌%◌, ◌^◌, ◌<◌, ◌≡◌, refl, true, List, [], ◌∷◌, ◌++◌, Option, none, some, arith,
  length, drop, set, ltb, leb, le→leb, length-set,
}
use slot_golang.Base.Bytes.{put_le}
use slot_golang.Base.Run.{done, ◌>>=◌}
use slot_golang.Msgs.Checksum.{checksum_header}
use slot_golang.Msgs.Frame.{
  AppMsg, FrameHeader, DataHeader, data_byte0, data_marshal_bytes, forward_part, put_at, put_sums,
  app_marshal_bytes,
}
use slot_golang.Msgs.Frame.Reads.{frame_bytes, frame_marshal_bytes-layout}

-- The bytes of a data header with zeros in place of the checksums.
unfoldable pub data_bytes : DataHeader → ℕ → List ℕ
data_bytes d data_len =
    (data_byte0 d ∷ d.data_seq ∷ [])
    ++ (put_le 2 d.dev_type
        ++ (put_le 2 d.msg_id ++ (put_le 2 (data_len % 2 ^ 16) ++ (0 ∷ 0 ∷ put_le 2 d.session_id))))

data_marshal_bytes-layout :
    (d : DataHeader) (data_len opcode : ℕ)
    → data_marshal_bytes d data_len opcode ≡ done (data_bytes d data_len, 9, 10)
unfolding data_marshal_bytes data_bytes put_le
data_marshal_bytes-layout d data_len opcode = refl

pub length-data_bytes : (d : DataHeader) (data_len : ℕ) → length (data_bytes d data_len) ≡ 12
unfolding data_bytes put_le
length-data_bytes d data_len = refl

abbrev pub forward_bytes : Option FrameHeader → List ℕ
forward_bytes none = []
forward_bytes (some f) = frame_bytes f

pub forward_part-bytes : (f : Option FrameHeader) → forward_part f ≡ done (forward_bytes f)
forward_part-bytes none = refl
forward_part-bytes (some f) = frame_marshal_bytes-layout f

abbrev pub stamped : ℕ → AppMsg → AppMsg
stamped now m = record m { frame_header = record (m.frame_header) { time = now % 2 ^ 32 } }

-- The headers in front of the data header.
abbrev pub headers : ℕ → AppMsg → List ℕ
headers now m = forward_bytes m.forward_header ++ frame_bytes (stamped now m).frame_header

pub app_marshal_bytes-sums :
    (now : ℕ) (m : AppMsg)
    → app_marshal_bytes now m ≡ (
        put_sums
          (9 + length (headers now m))
          (10 + length (headers now m))
          (headers now m ++ (data_bytes m.data_header (length m.body) ++ m.body))
        >>= λ buf. done (stamped now m, buf))
unfolding app_marshal_bytes
app_marshal_bytes-sums now m =
    rw
      (
        forward_part-bytes m.forward_header,
        frame_marshal_bytes-layout (stamped now m).frame_header,
        data_marshal_bytes-layout m.data_header (length m.body)
            (elim m.forward_header [ none ↦ m.frame_header.opcode | some f ↦ f.opcode ]),
      )
      refl

put_at_within : (buf : List ℕ) (i x : ℕ) → i < length buf → put_at buf i x ≡ done (set buf i x)
put_at_within buf i x h = let fits : ltb i (length buf) ≡ true = ground arith in rw fits refl

-- With both sums and all places within the message nothing panics.
pub put_sums_lem :
    (buf : List ℕ) (p q n m h c : ℕ)
    → p ≡ suc n
    → q ≡ suc m
    → n < length buf
    → m < length buf
    → checksum_header buf n ≡ some h
    → checksum_header (drop q (set buf n h)) (length buf - q) ≡ some c
    → put_sums p q buf ≡ done (set (set buf n h) m c)
put_sums_lem buf p q n m h c ep eq hn hm first second =
    let len : length (set buf n h) ≡ length buf = length-set buf n h in
    let hplace : p - 1 ≡ n = omega arith in
    let cplace : q - 1 ≡ m = omega arith in
    let room : leb q (length buf) ≡ true = le→leb q (length buf) (omega arith) in
    let inside : ltb m (length buf) ≡ true = ground arith in
    rw (hplace, cplace, first)
      (rw (put_at_within buf n h hn) (rw (len, room) (rw second (rw inside refl))))
