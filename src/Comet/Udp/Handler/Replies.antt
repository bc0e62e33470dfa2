-- ===== src/Comet/Udp/Handler/Replies.antt =====
-- comet/udp_handler.go: a reply, as the checks of a packet see it.
use Prim.Native.Nat.{bit_and, bit_or}
use slot_golang.Base.{
  ℕ, zero, suc, ◌+◌, ◌%◌, ◌^◌, ◌<◌, ◌≤◌, ◌≡◌, refl, ap, ◌∙◌, true, false, List, [], ◌∷◌, ◌++◌, some,
  some_inj, arith, ltb, ◌==◌, ==_iff, length, drop, take, get_elem?,
}
use slot_golang.Base.Bytes.{put_le, uint_at, uint_at-put_le, write_at}
use slot_golang.Base.Run.{done}
use slot_golang.Msgs.Checksum.{checksum_header}
use slot_golang.Msgs.Checksum.Detects.{crc, checksum_header-crc, checksum_header-whole}
use slot_golang.Comet.Udp.{accepted, command, check_packet, check_opcode, check_data, check_body}
use slot_golang.Comet.Udp.Handler.{reply}

-- A statement about every list with n elements in front, as a function of these.
Curried : ℕ → (List ℕ → Type 0) → Type 0
Curried zero P = (rest : List ℕ) → P rest
Curried (suc n) P = (b : ℕ) → Curried n (λ xs. P (b ∷ xs))

by_front : (n : ℕ) (P : List ℕ → Type 0) → Curried n P → (xs : List ℕ) → n ≤ length xs → P xs
unfolding Curried
by_front zero P f xs h = f xs
by_front (suc n) P f [] h = absurd (omega arith)
by_front (suc n) P f (b ∷ xs) h = by_front n (λ ys. P (b ∷ ys)) (f b) xs (omega arith)

-- The bytes up to the length, the length, the two checksums, and what the second one covers.
abbrev sealed : List ℕ → ℕ → List ℕ → List ℕ
sealed front n covered =
    front ++ (put_le 2 n ++ (crc 0 (front ++ put_le 2 n) ∷ crc 0 covered ∷ covered))

same : (a : ℕ) → (a == a) ≡ true
same a = (==_iff a a).1 refl

module _ (s t : ℕ) (res : List ℕ) (short : length res < 2 ^ 16) where
  -- A sealed packet with opcode 2 passes, whatever its other bytes are.
  Passes : List ℕ → Type 0
  Passes front =
      (first : ℕ)
      → get_elem? front 0 ≡ some first
      → bit_and 0x7 first ≡ 2
      → check_packet (sealed (take 30 front) (length res) (s ∷ t ∷ res)) ≡ done (accepted command)

  tail_sum :
      (n : ℕ)
      → n ≡ length (s ∷ t ∷ res)
      → checksum_header (s ∷ t ∷ res) n ≡ some (crc 0 (s ∷ t ∷ res))
  tail_sum n e = rw e (checksum_header-whole (s ∷ t ∷ res))

  sealed-Passes : (front : List ℕ) → 30 ≤ length front → Passes front
  unfolding Curried Passes check_packet check_opcode check_data check_body put_le
  sealed-Passes =
      by_front 30 Passes
        (λ b0 b1 b2 b3 b4 b5 b6 b7 b8 b9 b10 b11 b12 b13 b14 b15 b16 b17 b18 b19 b20 b21 b22 b23 b24
            b25 b26 b27 b28 b29 rest first e o.
          let front =
            b0 ∷ b1 ∷ b2 ∷ b3 ∷ b4 ∷ b5 ∷ b6 ∷ b7 ∷ b8 ∷ b9 ∷ b10 ∷ b11 ∷ b12 ∷ b13 ∷ b14 ∷ b15
            ∷ b16 ∷ b17 ∷ b18 ∷ b19 ∷ b20 ∷ b21 ∷ b22 ∷ b23 ∷ b24 ∷ b25 ∷ b26 ∷ b27 ∷ b28 ∷ b29
            ∷ [] in
          let out = sealed front (length res) (s ∷ t ∷ res) in
          let long24 : ltb (length out) 24 ≡ false = ground arith in
          let long36 : ltb (length out) 36 ≡ false = ground arith in
          let stated : uint_at out 30 2 ≡ some (length res) =
            uint_at-put_le front _ 30 2 (length res) refl (omega (arith, short)) in
          let head_sum : checksum_header out 32 ≡ some (crc 0 (front ++ put_le 2 (length res))) =
            checksum_header-crc (front ++ put_le 2 (length res)) _ in
          rw long24 (
            rw (ap (bit_and 0x7) (some_inj e) ∙ o) (
              rw long36 (
                rw (stated, head_sum)
                  (rw (same (crc 0 (front ++ put_le 2 (length res)))) (
                    rw (tail_sum (2 + length res) (omega arith))
                      (rw (same (crc 0 (s ∷ t ∷ res)), same (length res)) refl)))))))

module _ (res : List ℕ) (short : length res < 2 ^ 16) where
  AcceptedReply : List ℕ → Type 0
  AcceptedReply msg =
      (first : ℕ)
      → get_elem? msg 0 ≡ some first
      → bit_and 0x7 first ≡ 2
      → (out : List ℕ) × (reply msg res ≡ done out)
        × (check_packet out ≡ done (accepted command))
        × (drop 36 out ≡ res)

  reply_lem : (msg : List ℕ) → 36 ≤ length msg → AcceptedReply msg
  unfolding Curried AcceptedReply Passes reply put_le write_at
  reply_lem =
      by_front 36 AcceptedReply
        (λ b0 b1 b2 b3 b4 b5 b6 b7 b8 b9 b10 b11 b12 b13 b14 b15 b16 b17 b18 b19 b20 b21 b22 b23 b24
            b25 b26 b27 b28 b29 b30 b31 b32 b33 b34 b35 rest first e o.
          let front =
            b0
            ∷ b1
            ∷ b2
            ∷ b3
            ∷ b4
            ∷ b5
            ∷ b6
            ∷ b7
            ∷ b8
            ∷ b9
            ∷ b10
            ∷ b11
            ∷ b12
            ∷ b13
            ∷ b14
            ∷ b15
            ∷ b16
            ∷ b17
            ∷ b18
            ∷ b19
            ∷ b20
            ∷ b21
            ∷ b22
            ∷ b23
            ∷ bit_or b24 0xC0
            ∷ b25
            ∷ b26
            ∷ b27
            ∷ b28
            ∷ b29
            ∷ [] in
          let head = front ++ put_le 2 (length res) in
          let same_length : length res % 2 ^ 16 ≡ length res = omega arith in
          let head_sum : checksum_header (head ++ (b32 ∷ b33 ∷ b34 ∷ b35 ∷ res)) 32
              ≡ some (crc 0 head) =
            checksum_header-crc head _ in
          (
            sealed front (length res) (b34 ∷ b35 ∷ res),
            rw same_length
                (rw head_sum (rw (tail_sum b34 b35 res short (2 + length res) (omega arith)) refl)),
            sealed-Passes b34 b35 res short front (omega arith) first e o,
            refl,
          ))

-- The answer to a packet of at least 36 bytes with opcode 2, with fewer than 2 ^ 16 bytes of its own: it is sent
-- in a packet that passes every check which `handle` makes of a packet, and stands there as the body.
pub reply_accepted :
    (msg res : List ℕ) (first : ℕ)
    → 36 ≤ length msg
    → length res < 2 ^ 16
    → get_elem? msg 0 ≡ some first
    → bit_and 0x7 first ≡ 2
    → (out : List ℕ) × (reply msg res ≡ done out)
      × (check_packet out ≡ done (accepted command))
      × (drop 36 out ≡ res)
unfolding AcceptedReply
reply_accepted msg res first long short e o = reply_lem res short msg long first e o
