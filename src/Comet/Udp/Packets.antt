-- ===== src/Comet/Udp/Packets.antt =====
-- comet/udp_handler.go, `handle`: which packets pass the checks, and which end the process.
use slot_golang.Base.{
  ◌%◌, ◌^◌, ap, ==_iff, ltb, ℕ, zero, suc, Bool, true, false, inl, inr, ◌+◌, ◌≤◌, ◌<◌, ◌≡◌, refl,
  ◌∙◌, List, [], ◌∷◌, ◌++◌, none, some, arith, ◌==◌, not, ◌↔◌, length, drop, get_elem?, length-drop,
  Option-cases, if◌then◌else◌,
}
use slot_golang.Base.Bytes.{uint_at}
use slot_golang.Base.Run.{Run, done, panics, ◌>>=◌}
use slot_golang.Msgs.Checksum.{checksum_header}
use slot_golang.Msgs.Checksum.Detects.{checksum_header_panic}
use slot_golang.Base.Bytes.{put_le, uint_at-put_le}
use slot_golang.Base.Int64.{to_u64}
use slot_golang.Msgs.Checksum.Detects.{crc}
use slot_golang.Msgs.Frame.{
  AppMsg, FrameHeader, DataHeader, frame_byte0, data_byte0, app_marshal_bytes,
}
use slot_golang.Msgs.Frame.Reads.{opcode_of_byte0}
use slot_golang.Msgs.Frame.Checks.{
  covered_head, covered_tail, head_sum, tail_sum, app_marshal_bytes-layout,
}
use slot_golang.Comet.Udp.{
  refused, accepted, command, body_check, body_length, check_body, check_data, check_opcode,
  check_packet,
}

in_range :
    {A : Type 0} → (i : ℕ) (xs : List A) → i < length xs → (b : A) × (get_elem? xs i ≡ some b)
in_range i [] h = absurd (omega arith)
in_range zero (x ∷ xs) h = (x, refl)
in_range (suc i) (x ∷ xs) h = in_range i xs (omega arith)

done_is_not_panics : {A : Type 0} → (a : A) → done a ≡ panics → ⊥
done_is_not_panics a e = cc

done_not_panics :
    {A : Type 0}
    → (c : Bool) (a : A) (r : Run A) → (r ≡ panics → ⊥)
    → (if c then done a else r) ≡ panics
    → ⊥
done_not_panics true a r h e = cc
done_not_panics false a r h e = h e

check_body-no_sum :
    (msg : List ℕ) (n : ℕ)
    → 36 ≤ length msg
    → checksum_header (drop 34 msg) (2 + n) ≡ none
    → check_body msg n ≡ panics
unfolding check_body
check_body-no_sum msg n h e = rw ((in_range 33 msg (omega arith)).1, e) refl

check_body-sum :
    (msg : List ℕ) (n s : ℕ)
    → 36 ≤ length msg
    → checksum_header (drop 34 msg) (2 + n) ≡ some s
    → check_body msg n ≡ panics
    → ⊥
unfolding check_body
check_body-sum msg n s h e =
    let (b, at) = in_range 33 msg (omega arith) in
    rw (at, e)
      (done_not_panics (not (b == s)) (refused body_check) _ (
        done_not_panics (not (n == length (drop 36 msg))) (refused body_length) _
          (done_is_not_panics (accepted command))))

-- With at least 36 bytes, the check of the body panics exactly when the packet states a body longer than
-- the one it has.
pub check_body_panic :
    (msg : List ℕ) (body_len : ℕ)
    → 36 ≤ length msg
    → (check_body msg body_len ≡ panics) ↔ (length msg < 36 + body_len)
check_body_panic msg body_len h =
    elim (Option-cases (checksum_header (drop 34 msg) (2 + body_len))) [
      | inl e ↦ (
        λ p.
            omega
              (arith, length-drop 34 msg, (checksum_header_panic (drop 34 msg) (2 + body_len)).0 e),
        λ p. check_body-no_sum msg body_len h e,
      )
      | inr (s, e) ↦ (
        λ p. absurd (check_body-sum msg body_len s h e p),
        λ p. check_body-no_sum msg body_len h (
            (checksum_header_panic (drop 34 msg) (2 + body_len)).1
              (omega (arith, length-drop 34 msg))),
      )
    ]

same : (a : ℕ) → (a == a) ≡ true
same a = (==_iff a a).1 refl

module _ (now : ℕ) (f : FrameHeader) (d : DataHeader) (body : List ℕ) where
  -- The marshalled bytes, with their two checksums.
  whole : List ℕ
  whole =
      covered_head now f d (length body)
      ++ (crc 0 (covered_head now f d (length body))
          ∷ crc 0 (covered_tail d body)
          ∷ covered_tail d body)

  whole_sum : checksum_header whole 32 ≡ some (crc 0 (covered_head now f d (length body)))
  unfolding whole
  whole_sum = head_sum now f d (length body) _

  body_passes : check_body whole (length body) ≡ done (accepted command)
  unfolding whole check_body covered_head covered_tail put_le
  body_passes =
      rw (tail_sum d body (2 + length body) (omega arith))
        (rw (same (crc 0 (covered_tail d body)), same (length body)) refl)

  -- What stands before the length.
  front30 : List ℕ
  front30 =
      frame_byte0 f.fin f.mask f.ver f.opcode
      ∷ f.reserve
      ∷ (put_le 2 f.sequence
          ++ (put_le 4 (now % 2 ^ 32)
              ++ (put_le 8 (to_u64 f.dst_id)
                  ++ (put_le 8 (to_u64 f.src_id)
                      ++ (data_byte0 d
                          ∷ d.data_seq
                          ∷ (put_le 2 d.dev_type ++ put_le 2 d.msg_id))))))

  length_at : length body < 2 ^ 16 → uint_at whole 30 2 ≡ some (length body)
  unfolding whole covered_head put_le front30
  length_at h =
      uint_at-put_le front30
        (crc 0 (covered_head now f d (length body))
          ∷ crc 0 (covered_tail d body)
          ∷ covered_tail d body)
        30 2 (length body % 2 ^ 16) refl (omega arith)
      ∙ ap some (omega (arith, h))

  stated_head : get_elem? whole 32 ≡ some (crc 0 (covered_head now f d (length body)))
  unfolding whole covered_head put_le
  stated_head = refl

  data_passes : length body < 2 ^ 16 → check_data whole ≡ done (accepted command)
  unfolding check_data
  data_passes h =
      rw (length_at h, whole_sum, stated_head)
        (rw (same (crc 0 (covered_head now f d (length body)))) body_passes)

  first_byte : get_elem? whole 0 ≡ some (frame_byte0 f.fin f.mask f.ver f.opcode)
  unfolding whole covered_head
  first_byte = refl

  long : 36 + length body ≡ length whole
  unfolding whole covered_head covered_tail put_le
  long = omega arith

  not_below : (n : ℕ) → n ≤ 36 → ltb (length whole) n ≡ false
  not_below n h = ground (arith, long)

  packet_passes :
      f.ver < 256
      → f.opcode ≡ 2
      → length body < 2 ^ 16
      → check_packet whole ≡ done (accepted command)
  unfolding check_packet check_opcode
  packet_passes v o h =
      rw (not_below 24 (omega arith), first_byte)
        (rw
          (
            opcode_of_byte0 f.fin f.mask f.ver f.opcode v (omega arith) ∙ o,
            not_below 36 (omega arith),
          )
          (data_passes h))

-- The bytes of a message without a forward header and without guid, with opcode 2, a version of one byte
-- and a body shorter than 2 ^ 16, pass every check of the UDP handler.
pub marshalled_is_accepted :
    (now : ℕ) (m : AppMsg)
    → m.forward_header ≡ none
    → m.frame_header.guid ≡ []
    → m.frame_header.ver < 256
    → m.frame_header.opcode ≡ 2
    → length m.body < 2 ^ 16
    → (app_marshal_bytes now m >>= λ p. check_packet p.1) ≡ done (accepted command)
unfolding whole
marshalled_is_accepted now m no_forward no_guid v o h =
    rw ((app_marshal_bytes-layout now m no_forward no_guid).1)
      (packet_passes now m.frame_header m.data_header m.body v o h)
