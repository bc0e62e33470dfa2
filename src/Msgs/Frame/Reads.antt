-- ===== src/Msgs/Frame/Reads.antt =====
-- msgs/msgs.go: the layout of a frame header, and what a reader of the bytes finds.
use Prim.Native.Nat.{bit_and, bit_or}
use slot_golang.Base.{
  ℕ, ◌+◌, ◌*◌, ◌%◌, ◌^◌, ◌<◌, ◌≡◌, refl, ap, ◌∙◌, Bool, true, false, ◌&&◌, List, [], ◌∷◌, ◌++◌,
  some, ◌==◌, ltb, arith, get_elem?, inl, inr, Bool-cases, ==_iff, if◌then◌else◌, length,
}
use slot_golang.Base.Int64.{IsInt64, to_u64, of_u64, to_u64-lt, of_u64-to_u64}
use slot_golang.Base.Bytes.{put_le, uint_at, uint_at-put_le}
use slot_golang.Base.Run.{done}
use slot_golang.Base.Bits.{every_below, every_below_sound, all_pairs_sound}
use slot_golang.Msgs.Frame.{FrameHeader, frame_byte0, frame_marshal_bytes}
use mathlib.Core.Option

-- The bytes of a frame header, field by field.
unfoldable pub frame_bytes : FrameHeader → List ℕ
frame_bytes f =
    (frame_byte0 f.fin f.mask f.ver f.opcode ∷ f.reserve ∷ [])
    ++ (put_le 2 f.sequence
        ++ (put_le 4 f.time
            ++ (put_le 8 (to_u64 f.dst_id) ++ (put_le 8 (to_u64 f.src_id) ++ f.guid))))

pub frame_marshal_bytes-layout : (f : FrameHeader) → frame_marshal_bytes f ≡ done (frame_bytes f)
unfolding frame_marshal_bytes frame_bytes put_le
frame_marshal_bytes-layout f = refl

pub length-frame_bytes : (f : FrameHeader) → length (frame_bytes f) ≡ 24 + length f.guid
unfolding frame_bytes put_le
length-frame_bytes f = omega arith

mask_table : every_below 256 (λ v. ltb (bit_and v 0x7) 8 && (bit_and v 0x7 == v % 8)) ≡ true
unfolding every_below
mask_table = refl

mask_facts : (v : ℕ) → v < 256 → (bit_and v 0x7 < 8) × (bit_and v 0x7 ≡ v % 8)
mask_facts v h = ground (
  arith,
  every_below_sound 256 (λ v. ltb (bit_and v 0x7) 8 && (bit_and v 0x7 == v % 8)) v mask_table h,
)

-- Byte 0 of a header whose version and opcode are already cut to three bits.
masked : Bool → Bool → ℕ → ℕ → ℕ
masked fin mask v o =
    let a : ℕ = if fin then bit_or 0 0x80 else 0 in
    let b : ℕ = if mask then bit_or a 0x40 else a in
    bit_or (if v == 0 then b else bit_or b (v * 8 % 256)) o

frame_byte0-masked :
    (fin mask : Bool) (ver op : ℕ)
    → frame_byte0 fin mask ver op ≡ masked fin mask (bit_and ver 0x7) (bit_and op 0x7)
unfolding frame_byte0 masked
frame_byte0-masked fin mask ver op = elim (Bool-cases (ver == 0)) [
  | inl e ↦ rw ((==_iff ver 0).0 e) refl
  | inr e ↦ elim (Bool-cases (bit_and ver 0x7 == 0)) [
    | inl z ↦ rw (e, z, (==_iff (bit_and ver 0x7) 0).0 z) (by_flags fin mask)
    | inr n ↦ rw (e, n)
  ]
]
  where
    by_flags :
        (fin mask : Bool)
        → bit_or
            (bit_or
              (if mask then bit_or (if fin then 0x80 else 0) 0x40 else (if fin then 0x80 else 0))
              0)
            (bit_and op 0x7)
          ≡ bit_or
              (if mask then bit_or (if fin then 0x80 else 0) 0x40 else (if fin then 0x80 else 0))
              (bit_and op 0x7)
    by_flags true true = refl
    by_flags true false = refl
    by_flags false true = refl
    by_flags false false = refl

byte0_good : Bool → Bool → ℕ → ℕ → Bool
byte0_good fin mask v o = ltb (masked fin mask v o) 256 && (bit_and (masked fin mask v o) 0x7 == o)

byte0_table : (fin mask : Bool) → every_below 8 (λ v. every_below 8 (byte0_good fin mask v)) ≡ true
unfolding every_below byte0_good masked
byte0_table true true = refl
byte0_table true false = refl
byte0_table false true = refl
byte0_table false false = refl

pub frame_byte0_facts :
    (fin mask : Bool) (ver op : ℕ)
    → ver < 256
    → op < 256
    → (frame_byte0 fin mask ver op < 256) × (bit_and (frame_byte0 fin mask ver op) 0x7 ≡ op % 8)
unfolding byte0_good
frame_byte0_facts fin mask ver op hv ho = ground (
  arith,
  mask_facts ver hv,
  mask_facts op ho,
  frame_byte0-masked fin mask ver op,
  all_pairs_sound 8 8 (byte0_good fin mask) (bit_and ver 0x7) (bit_and op 0x7)
      (byte0_table fin mask),
)

and_comm_table : every_below 256 (λ b. bit_and 0x7 b == bit_and b 0x7) ≡ true
unfolding every_below
and_comm_table = refl

pub opcode_of_byte0 :
    (fin mask : Bool) (ver op : ℕ)
    → ver < 256
    → op < 8
    → bit_and 0x7 (frame_byte0 fin mask ver op) ≡ op
opcode_of_byte0 fin mask ver op hv ho =
    let (small, e) = frame_byte0_facts fin mask ver op hv (omega arith) in
    (==_iff _ _).0
      (every_below_sound 256 (λ b. bit_and 0x7 b == bit_and b 0x7) _ and_comm_table small)
    ∙ e
    ∙ omega arith

module _ (f : FrameHeader) (rest : List ℕ) where
  front2 : List ℕ
  front2 = frame_byte0 f.fin f.mask f.ver f.opcode ∷ f.reserve ∷ []

  front8 : List ℕ
  unfolding front2
  front8 = front2 ++ (put_le 2 f.sequence ++ put_le 4 f.time)

  front16 : List ℕ
  unfolding front8
  front16 = front8 ++ put_le 8 (to_u64 f.dst_id)

  sequence_at : f.sequence < 2 ^ 16 → uint_at (frame_bytes f ++ rest) 2 2 ≡ some f.sequence
  unfolding frame_bytes put_le front2
  sequence_at h = uint_at-put_le front2 _ 2 2 f.sequence refl h

  dst_id_at : uint_at (frame_bytes f ++ rest) 8 8 ≡ some (to_u64 f.dst_id)
  unfolding frame_bytes put_le front8
  dst_id_at = uint_at-put_le front8 _ 8 8 (to_u64 f.dst_id) refl (to_u64-lt f.dst_id)

  src_id_at : uint_at (frame_bytes f ++ rest) 16 8 ≡ some (to_u64 f.src_id)
  unfolding frame_bytes put_le front16
  src_id_at = uint_at-put_le front16 _ 16 8 (to_u64 f.src_id) refl (to_u64-lt f.src_id)

-- Of a header whose fields fit their widths (an opcode below 8, a sequence number of 16 bits, int64 ids), a
-- receiver reads back from the bytes that `marshalBytes` makes, whatever follows them: the opcode in the low three bits of byte 0, the sequence
-- number, and the two ids with their signs.
pub frame_read_back :
    (f : FrameHeader) (rest : List ℕ)
    → f.ver < 256
    → f.opcode < 8
    → f.sequence < 2 ^ 16
    → IsInt64 f.dst_id
    → IsInt64 f.src_id
    → (bytes : List ℕ) × (frame_marshal_bytes f ≡ done bytes)
      × (Option.map (bit_and 0x7) (get_elem? (bytes ++ rest) 0) ≡ some f.opcode)
      × (uint_at (bytes ++ rest) 2 2 ≡ some f.sequence)
      × (Option.map of_u64 (uint_at (bytes ++ rest) 8 8) ≡ some f.dst_id)
      × (Option.map of_u64 (uint_at (bytes ++ rest) 16 8) ≡ some f.src_id)
frame_read_back f rest hv ho hs hd hr = (
  frame_bytes f,
  frame_marshal_bytes-layout f,
  unfold frame_bytes in ap some (opcode_of_byte0 f.fin f.mask f.ver f.opcode hv ho),
  sequence_at f rest hs,
  rw (dst_id_at f rest) (ap some (of_u64-to_u64 f.dst_id hd)),
  rw (src_id_at f rest) (ap some (of_u64-to_u64 f.src_id hr)),
)
