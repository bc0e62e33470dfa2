-- ===== src/Msgs/Checksum/Detects.antt =====
-- msgs/msgs.go: what `ChecksumHeader` returns, and the errors that it detects.
use Prim.Native.Nat.{bit_xor}
use slot_golang.Base.{
  ℕ, zero, suc, ◌+◌, ◌/◌, ◌%◌, ◌<◌, ◌≡◌, refl, ap, sym, ◌∙◌, ◌≢◌, true, ◌&&◌, List, [], ◌∷◌, ◌++◌,
  none, some, arith, ltb, ◌==◌, ==_iff, if◌then◌else◌, length, All, ◌↔◌, some_inj,
}
use slot_golang.Base.Bytes.{IsByte}
use slot_golang.Base.Bits.{every_below, every_below_sound, all_pairs_sound}
use slot_golang.Msgs.Checksum.{k_poly, crc_bits, checksum_loop, checksum_header}
use mathlib.Core.List.{append-nil}

-- The inverse of one round: the polynomial is odd, so the low bit says whether it was added.
uncrc_bit : ℕ → ℕ
uncrc_bit h = if h % 2 == 0 then h / 2 else bit_xor h k_poly / 2 + 128

uncrc_bits : ℕ → ℕ → ℕ
uncrc_bits zero h = h
uncrc_bits (suc n) h = uncrc_bits n (uncrc_bit h)

crc_table :
    every_below 256 (λ h. ltb (crc_bits 8 h) 256 && (uncrc_bits 8 (crc_bits 8 h) == h)) ≡ true
unfolding every_below crc_bits uncrc_bits uncrc_bit
crc_table = refl

xor_table :
    every_below 256 (λ a. every_below 256 (λ b.
      ltb (bit_xor a b) 256 && ((bit_xor (bit_xor a b) a == b) && (bit_xor (bit_xor a b) b == a))))
    ≡ true
unfolding every_below
xor_table = refl

crc_facts : (h : ℕ) → h < 256 → (crc_bits 8 h < 256) × (uncrc_bits 8 (crc_bits 8 h) ≡ h)
crc_facts h lt = ground (
  arith,
  every_below_sound 256 (λ h. ltb (crc_bits 8 h) 256 && (uncrc_bits 8 (crc_bits 8 h) == h)) h
      crc_table lt,
)

xor_facts :
    (a b : ℕ)
    → a < 256
    → b < 256
    → (bit_xor a b < 256) × (bit_xor (bit_xor a b) a ≡ b) × (bit_xor (bit_xor a b) b ≡ a)
xor_facts a b ha hb = ground (
  arith,
  all_pairs_sound 256 256
      (λ a b.
        ltb (bit_xor a b) 256 && ((bit_xor (bit_xor a b) a == b) && (bit_xor (bit_xor a b) b == a)))
      a b xor_table ha hb,
)

-- The checksum as a fold over a whole list.
unfoldable pub crc : ℕ → List ℕ → ℕ
crc h [] = h
crc h (b ∷ bs) = crc (crc_bits 8 (bit_xor h b)) bs

step-IsByte : (h b : ℕ) → h < 256 → b < 256 → crc_bits 8 (bit_xor h b) < 256
step-IsByte h b hh hb = (crc_facts (bit_xor h b) (xor_facts h b hh hb).0).0

pub crc-IsByte : (h : ℕ) (bs : List ℕ) → h < 256 → All IsByte bs → crc h bs < 256
unfolding crc
crc-IsByte h [] hh bytes = hh
crc-IsByte h (b ∷ bs) hh (hb, bytes) =
    crc-IsByte (crc_bits 8 (bit_xor h b)) bs (step-IsByte h b hh hb) bytes

pub crc-append : (h : ℕ) (xs ys : List ℕ) → crc h (xs ++ ys) ≡ crc (crc h xs) ys
unfolding crc
crc-append h [] ys = refl
crc-append h (x ∷ xs) ys = crc-append (crc_bits 8 (bit_xor h x)) xs ys

checksum_loop-crc :
    (xs ys : List ℕ) (h : ℕ) → checksum_loop (length xs) (xs ++ ys) h ≡ some (crc h xs)
unfolding checksum_loop crc
checksum_loop-crc [] ys h = refl
checksum_loop-crc (x ∷ xs) ys h = checksum_loop-crc xs ys (crc_bits 8 (bit_xor h x))

-- On the first bytes of a buffer the loop computes the fold.
pub checksum_header-crc :
    (xs ys : List ℕ) → checksum_header (xs ++ ys) (length xs) ≡ some (crc 0 xs)
unfolding checksum_header
checksum_header-crc xs ys = checksum_loop-crc xs ys 0

checksum_loop_short :
    (n : ℕ) (msg : List ℕ) (h : ℕ) → (checksum_loop n msg h ≡ none) ↔ (length msg < n)
unfolding checksum_loop
checksum_loop_short zero msg h = (λ e. cc, λ lt. absurd (omega arith))
checksum_loop_short (suc n) [] h = (λ e. omega arith, λ lt. refl)
checksum_loop_short (suc n) (b ∷ msg) h =
    let (f, g) = checksum_loop_short n msg (crc_bits 8 (bit_xor h b)) in
    (λ e. omega (arith, f e), λ lt. g (omega arith))

-- `ChecksumHeader` runs past the end of the slice, and so panics, exactly when the slice is shorter
-- than the count.
pub checksum_header_panic :
    (msg : List ℕ) (n : ℕ) → (checksum_header msg n ≡ none) ↔ (length msg < n)
unfolding checksum_header
checksum_header_panic msg n = checksum_loop_short n msg 0

unxor : (a b c : ℕ) → a < 256 → b < 256 → c < 256 → bit_xor a c ≡ bit_xor b c → a ≡ b
unxor a b c ha hb hc e =
    sym (xor_facts a c ha hc).2 ∙ ap (λ (t : ℕ). bit_xor t c) e ∙ (xor_facts b c hb hc).2

unxor_right : (a b c : ℕ) → a < 256 → b < 256 → c < 256 → bit_xor c a ≡ bit_xor c b → a ≡ b
unxor_right a b c ha hb hc e =
    sym (xor_facts c a hc ha).1 ∙ ap (λ (t : ℕ). bit_xor t c) e ∙ (xor_facts c b hc hb).1

uncrc : (a b : ℕ) → a < 256 → b < 256 → crc_bits 8 a ≡ crc_bits 8 b → a ≡ b
uncrc a b ha hb e = sym (crc_facts a ha).1 ∙ ap (uncrc_bits 8) e ∙ (crc_facts b hb).1

crc-injective :
    (bs : List ℕ) (g h : ℕ) → g < 256 → h < 256 → All IsByte bs → crc g bs ≡ crc h bs → g ≡ h
unfolding crc
crc-injective [] g h hg hh bytes e = e
crc-injective (b ∷ bs) g h hg hh (hb, bytes) e = unxor g h b hg hh hb (
    uncrc _ _ (xor_facts g b hg hb).0 (xor_facts h b hh hb).0 (
      crc-injective bs (crc_bits 8 (bit_xor g b)) (crc_bits 8 (bit_xor h b)) (step-IsByte g b hg hb)
        (step-IsByte h b hh hb) bytes e))

crc_differs :
    (front back : List ℕ) (x y : ℕ)
    → All IsByte front
    → All IsByte back
    → x < 256
    → y < 256
    → crc 0 (front ++ (x ∷ back)) ≡ crc 0 (front ++ (y ∷ back))
    → x ≡ y
unfolding crc
crc_differs front back x y hf hb hx hy e =
    let c : ℕ = crc 0 front in
    let small : c < 256 = crc-IsByte 0 front (omega arith) hf in
    unxor_right x y c hx hy small (
      uncrc _ _ (xor_facts c x small hx).0 (xor_facts c y small hy).0 (
        crc-injective back _ _ (step-IsByte c x small hx) (step-IsByte c y small hy) hb
          (sym (crc-append 0 front (x ∷ back)) ∙ e ∙ crc-append 0 front (y ∷ back))))

-- On a whole string.
pub checksum_header-whole : (xs : List ℕ) → checksum_header xs (length xs) ≡ some (crc 0 xs)
checksum_header-whole xs = rw append-nil at (checksum_header-crc xs [])

-- Two byte strings that differ in exactly one byte, wherever it stands, have different checksums:
-- `ChecksumHeader` detects every error of up to eight bits within one byte.
pub checksum_header_detects :
    (front back : List ℕ) (x y : ℕ)
    → All IsByte front
    → All IsByte back
    → x < 256
    → y < 256
    → x ≢ y
    → checksum_header (front ++ (x ∷ back)) (length (front ++ (x ∷ back)))
      ≢ checksum_header (front ++ (y ∷ back)) (length (front ++ (y ∷ back)))
checksum_header_detects front back x y hf hb hx hy ne e = ne (
    crc_differs front back x y hf hb hx hy (
      some_inj (
        sym (checksum_header-whole (front ++ (x ∷ back)))
        ∙ e
        ∙ checksum_header-whole (front ++ (y ∷ back)))))

crc_self : (h : ℕ) → h < 256 → crc h (h ∷ []) ≡ 0
unfolding crc
crc_self h lt =
    let table : every_below 256 (λ (a : ℕ). crc_bits 8 (bit_xor a a) == 0) ≡ true =
      unfold every_below crc_bits in refl in
    (==_iff _ 0).0 (every_below_sound 256 (λ (a : ℕ). crc_bits 8 (bit_xor a a) == 0) h table lt)

-- A string of bytes followed by its own checksum has the checksum 0.
pub checksum_header_residue :
    (msg : List ℕ) (c : ℕ)
    → All IsByte msg
    → checksum_header msg (length msg) ≡ some c
    → checksum_header (msg ++ (c ∷ [])) (length (msg ++ (c ∷ []))) ≡ some 0
checksum_header_residue msg c bytes e =
    let value : crc 0 msg ≡ c = some_inj (sym (checksum_header-whole msg) ∙ e) in
    checksum_header-whole (msg ++ (c ∷ []))
    ∙ ap some (
        crc-append 0 msg (c ∷ [])
        ∙ rw (← value) (crc_self (crc 0 msg) (crc-IsByte 0 msg (omega arith) bytes)))
