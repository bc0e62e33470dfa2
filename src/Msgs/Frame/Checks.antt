-- ===== src/Msgs/Frame/Checks.antt =====
-- msgs/msgs.go: `AppMsg.MarshalBytes` writes the length and the two checksums that a receiver tests.
use slot_golang.Base.{
  ℕ, ◌-◌, ◌%◌, ◌^◌, ◌<◌, drop, ◌≡◌, refl, ◌∙◌, List, [], ◌∷◌, ◌++◌, none, some, arith, length,
}
use slot_golang.Base.Int64.{ℤ, to_u64, to_u64-lt}
use slot_golang.Base.Bytes.{put_le, uint_at, uint_at-put_le}
use slot_golang.Base.Run.{done}
use slot_golang.Msgs.Checksum.{checksum_header}
use slot_golang.Msgs.Checksum.Detects.{crc, checksum_header-crc, checksum_header-whole}
use slot_golang.Msgs.Frame.Reads.{frame_bytes}
use slot_golang.Msgs.Frame.Sums.{data_bytes, stamped, app_marshal_bytes-sums, put_sums_lem}
use slot_golang.Msgs.Frame.{
  AppMsg, FrameHeader, DataHeader, frame_byte0, data_byte0, app_marshal_bytes,
}

-- The 32 bytes that the first checksum covers, and the bytes that the second one covers.
unfoldable pub covered_head : ℕ → FrameHeader → DataHeader → ℕ → List ℕ
covered_head now f d len =
    frame_byte0 f.fin f.mask f.ver f.opcode
    ∷ f.reserve
    ∷ (put_le 2 f.sequence
        ++ (put_le 4 (now % 2 ^ 32)
            ++ (put_le 8 (to_u64 f.dst_id)
                ++ (put_le 8 (to_u64 f.src_id)
                    ++ (data_byte0 d
                        ∷ d.data_seq
                        ∷ (put_le 2 d.dev_type
                            ++ (put_le 2 d.msg_id ++ put_le 2 (len % 2 ^ 16))))))))

unfoldable pub covered_tail : DataHeader → List ℕ → List ℕ
covered_tail d body = put_le 2 d.session_id ++ body

pub head_sum :
    (now : ℕ) (f : FrameHeader) (d : DataHeader) (len : ℕ) (rest : List ℕ)
    → checksum_header (covered_head now f d len ++ rest) 32
      ≡ some (crc 0 (covered_head now f d len))
unfolding covered_head put_le
head_sum now f d len rest = checksum_header-crc (covered_head now f d len) rest

pub tail_sum :
    (d : DataHeader) (body : List ℕ) (n : ℕ)
    → n ≡ length (covered_tail d body)
    → checksum_header (covered_tail d body) n ≡ some (crc 0 (covered_tail d body))
tail_sum d body n e = rw e (checksum_header-whole (covered_tail d body))

-- The bytes of a message without a forward header and without a guid.
abbrev pub app_marshal_layout : ℕ → AppMsg → List ℕ
app_marshal_layout now m =
    let head = covered_head now m.frame_header m.data_header (length m.body) in
    let tail = covered_tail m.data_header m.body in head ++ (crc 0 head ∷ crc 0 tail ∷ tail)

pub app_marshal_bytes-layout :
    (now : ℕ) (m : AppMsg)
    → m.forward_header ≡ none
    → m.frame_header.guid ≡ []
    → (m' : AppMsg) × (app_marshal_bytes now m ≡ done (m', app_marshal_layout now m))
unfolding covered_head covered_tail frame_bytes data_bytes put_le
app_marshal_bytes-layout now m none_forward no_guid =
    let head = covered_head now m.frame_header m.data_header (length m.body) in
    let tail = covered_tail m.data_header m.body in
    (
      stamped now m,
      app_marshal_bytes-sums now m
          ∙ rw (none_forward, no_guid)
              (rw
                (put_sums_lem (head ++ (0 ∷ 0 ∷ tail)) 33 34 32 33 (crc 0 head) (crc 0 tail) refl
                  refl (omega arith) (omega arith)
                  (head_sum now m.frame_header m.data_header (length m.body) (0 ∷ 0 ∷ tail))
                  (tail_sum m.data_header m.body (length (head ++ (0 ∷ 0 ∷ tail)) - 34)
                    (omega arith)))
                refl),
    )

-- What a receiver reads of a message without a forward header: its number, its receiver and sender, its id and its
-- body.
abbrev pub IsFilled : List ℕ → ℕ → ℤ → ℤ → ℕ → List ℕ → Type 0
IsFilled bytes sequence dst_id src_id msg_id body =
    (uint_at bytes 2 2 ≡ some sequence)
    × (uint_at bytes 8 8 ≡ some (to_u64 dst_id))
    × (uint_at bytes 16 8 ≡ some (to_u64 src_id))
    × (uint_at bytes 28 2 ≡ some msg_id)
    × (drop 36 bytes ≡ body)

module _ (now : ℕ) (f : FrameHeader) (d : DataHeader) (len : ℕ) where
  to_sequence : List ℕ
  to_sequence = frame_byte0 f.fin f.mask f.ver f.opcode ∷ f.reserve ∷ []

  to_dst_id : List ℕ
  unfolding to_sequence
  to_dst_id = to_sequence ++ (put_le 2 f.sequence ++ put_le 4 (now % 2 ^ 32))

  to_src_id : List ℕ
  unfolding to_dst_id
  to_src_id = to_dst_id ++ put_le 8 (to_u64 f.dst_id)

  to_msg_id : List ℕ
  unfolding to_src_id
  to_msg_id =
      to_src_id ++ (put_le 8 (to_u64 f.src_id) ++ (data_byte0 d ∷ d.data_seq ∷ put_le 2 d.dev_type))

  covered-IsFilled :
      (x y : ℕ) (body : List ℕ)
      → f.sequence < 2 ^ 16
      → d.msg_id < 2 ^ 16
      → IsFilled
          (covered_head now f d len ++ (x ∷ y ∷ covered_tail d body))
          f.sequence
          f.dst_id
          f.src_id
          d.msg_id
          body
  unfolding covered_head covered_tail put_le to_msg_id
  covered-IsFilled x y body hs hm = (
    uint_at-put_le to_sequence _ 2 2 f.sequence refl hs,
    uint_at-put_le to_dst_id _ 8 8 (to_u64 f.dst_id) refl (to_u64-lt f.dst_id),
    uint_at-put_le to_src_id _ 16 8 (to_u64 f.src_id) refl (to_u64-lt f.src_id),
    uint_at-put_le to_msg_id _ 28 2 d.msg_id refl hm,
    refl,
  )

pub app_marshal_bytes-IsFilled :
    (now : ℕ) (m : AppMsg)
    → m.frame_header.sequence < 2 ^ 16
    → m.data_header.msg_id < 2 ^ 16
    → IsFilled
        (app_marshal_layout now m)
        m.frame_header.sequence
        m.frame_header.dst_id
        m.frame_header.src_id
        m.data_header.msg_id
        m.body
app_marshal_bytes-IsFilled now m hs hm =
    covered-IsFilled now m.frame_header m.data_header (length m.body) _ _ m.body hs hm
