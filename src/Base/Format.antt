-- ===== src/Base/Format.antt =====
-- Numbers written in base 10 (`%d` of fmt), `strings.SplitN` and `strings.Join`, and what `strconv` and
-- `strings` read back of such text.
use native.Mathlib.Nat.{pow-suc}
use slot_golang.Base.{
  ℕ, zero, suc, ◌+◌, ◌-◌, ◌*◌, ◌/◌, ◌%◌, ◌^◌, ◌≤◌, ◌<◌, ◌≡◌, refl, ap, sym, ◌∙◌, true, false, List,
  [], ◌∷◌, ◌++◌, ltb, leb, ◌==◌, if◌then◌else◌, ◌⊎◌, arith, All, Bool-cases, inl, inr,
}
use slot_golang.Base.Int64.{ℤ, pos, negsuc, neg_ℕ, IsInt64}
use slot_golang.Base.Decimal.{
  Scan, scan_uint, scan_digits, parse_signed, parse_int, split, push_head,
}

-- The digits of n in front of acc, lowest last; each round takes one.
unfoldable pub format_digits : ℕ → ℕ → List ℕ → List ℕ
format_digits zero n acc = acc
format_digits (suc fuel) n acc =
    let more = format_digits fuel (n / 10) ((b'0' + n % 10) ∷ acc) in
    if ltb n 10 then (b'0' + n) ∷ acc else more

-- Twenty digits are enough for 64 bits.
abbrev pub format_uint : ℕ → List ℕ
format_uint n = format_digits 20 n []

unfoldable pub format_int : ℤ → List ℕ
format_int (pos n) = format_uint n
format_int (negsuc n) = b'-' ∷ format_uint (n + 1)

-- `strings.SplitN(s, sep, n)` for a separator of one byte.
unfoldable pub split_n : ℕ → ℕ → List ℕ → List (List ℕ)
split_n sep zero s = []
split_n sep (suc zero) s = s ∷ []
split_n sep (suc (suc n)) [] = [] ∷ []
split_n sep (suc (suc n)) (c ∷ s) =
    let next = split_n sep (suc n) s in
    let same = split_n sep (suc (suc n)) s in if c == sep then [] ∷ next else push_head c same

-- `strings.Join(words, sep)`
unfoldable pub join : ℕ → List (List ℕ) → List ℕ
join sep [] = []
join sep (w ∷ []) = w
join sep (w ∷ v ∷ words) = w ++ (sep ∷ join sep (v ∷ words))

abbrev pub IsDigit : ℕ → Type 0
IsDigit c = (b'0' ≤ c) × (c ≤ b'9')

scan_uint-digit :
    (d m : ℕ) (acc : List ℕ)
    → d < 10
    → m * 10 + d < 2 ^ 64
    → scan_uint ((b'0' + d) ∷ acc) m ≡ scan_uint acc (m * 10 + d)
unfolding scan_uint
scan_uint-digit d m acc hd h =
    let value : m * 10 + (b'0' + d - b'0') ≡ m * 10 + d = omega arith in
    let low : ltb (b'0' + d) b'0' ≡ false = ground arith in
    let high : ltb b'9' (b'0' + d) ≡ false = ground arith in
    let small : ltb (2 ^ 64 - 1) (m * 10 + d) ≡ false = ground arith in rw (value, low, high, small)

scan_uint-first : (d : ℕ) (acc : List ℕ) → d < 10 → scan_uint ((b'0' + d) ∷ acc) 0 ≡ scan_uint acc d
scan_uint-first d acc h = scan_uint-digit d 0 acc h (omega arith) ∙ ap (scan_uint acc) (omega arith)

scan-format_digits :
    (fuel n : ℕ) (acc : List ℕ)
    → n < 10 ^ suc fuel
    → n < 2 ^ 64
    → scan_uint (format_digits (suc fuel) n acc) 0 ≡ scan_uint acc n
unfolding format_digits
scan-format_digits zero n acc small h =
    let one : ltb n 10 ≡ true = ground (arith, pow-suc 10 0) in
    rw one (scan_uint-first n acc (ground (arith, pow-suc 10 0)))
scan-format_digits (suc fuel) n acc small h = elim (Bool-cases (ltb n 10)) [
  | inl e ↦ rw e (scan_uint-first n acc (ground arith))
  | inr e ↦ rw e (
      scan-format_digits fuel (n / 10) ((b'0' + n % 10) ∷ acc)
        (omega (arith, pow-suc 10 (suc fuel))) (omega arith)
      ∙ scan_uint-digit (n % 10) (n / 10) acc (omega arith) (omega arith)
      ∙ ap (scan_uint acc) (omega arith))
]

format_digits-All :
    (fuel n : ℕ) (acc : List ℕ) → All IsDigit acc → All IsDigit (format_digits fuel n acc)
unfolding format_digits
format_digits-All zero n acc h = h
format_digits-All (suc fuel) n acc h = elim (Bool-cases (ltb n 10)) [
  | inl e ↦ rw e ((ground arith), h)
  | inr e ↦ rw e (format_digits-All fuel (n / 10) ((b'0' + n % 10) ∷ acc) ((omega arith), h))
]

format_digits-cons :
    (fuel n : ℕ) (acc : List ℕ)
    → (c : ℕ) × (s : List ℕ) × (format_digits (suc fuel) n acc ≡ c ∷ s) × IsDigit c
unfolding format_digits
format_digits-cons zero n acc = elim (Bool-cases (ltb n 10)) [
  | inl e ↦ (b'0' + n, acc, rw e, ground arith)
  | inr e ↦ (b'0' + n % 10, acc, rw e, omega arith)
]
format_digits-cons (suc fuel) n acc = elim (Bool-cases (ltb n 10)) [
  | inl e ↦ (b'0' + n, acc, rw e, ground arith)
  | inr e ↦ rw e (format_digits-cons fuel (n / 10) ((b'0' + n % 10) ∷ acc))
]

-- The first character of a number is a digit.
pub format_uint-cons : (n : ℕ) → (c : ℕ) × (s : List ℕ) × (format_uint n ≡ c ∷ s) × IsDigit c
format_uint-cons n = format_digits-cons 19 n []

pub scan_digits-format_uint : (n : ℕ) → n < 2 ^ 64 → scan_digits (format_uint n) ≡ Scan.number n
unfolding scan_digits
scan_digits-format_uint n h =
    let (c, s, e, d) = format_uint-cons n in
    rw e (ap (λ t. scan_uint t 0) (sym e) ∙ scan-format_digits 19 n [] (omega arith) h)

succ : (n : ℕ) → n + 1 ≡ suc n
succ n = omega arith

-- `strconv.ParseInt` reads back the number that `%d` wrote.
pub parse_int-format_int : (z : ℤ) → IsInt64 z → parse_int (format_int z) ≡ (z, true)
unfolding parse_int format_int
parse_int-format_int (pos n) h =
    let (c, s, e, d) = format_uint-cons n in
    let minus : (c == b'-') ≡ false = ground arith in
    let plus : (c == b'+') ≡ false = ground arith in
    let big : leb (2 ^ 63) n ≡ false = ground arith in
    rw e (
      rw (minus, plus)
        (ap (λ t. parse_signed false (scan_digits t)) (sym e)
          ∙ ap (parse_signed false) (scan_digits-format_uint n (omega arith))
          ∙ rw big refl))
parse_int-format_int (negsuc n) h =
    let big : ltb (2 ^ 63) (n + 1) ≡ false = ground arith in
    ap (parse_signed true) (scan_digits-format_uint (n + 1) (omega arith))
    ∙ rw big (ap (λ m. (neg_ℕ m, true)) (succ n))

abbrev pub Without : ℕ → List ℕ → Type 0
Without sep = All (λ c. (c == sep) ≡ false)

pub split-append :
    (sep : ℕ) (xs ys : List ℕ) → Without sep xs → split sep (xs ++ (sep ∷ ys)) ≡ xs ∷ split sep ys
unfolding split
split-append sep [] ys h = ground arith
split-append sep (x ∷ xs) ys h = rw h.0 (ap (push_head x) (split-append sep xs ys h.1))

pub split-whole : (sep : ℕ) (xs : List ℕ) → Without sep xs → split sep xs ≡ xs ∷ []
unfolding split
split-whole sep [] h = refl
split-whole sep (x ∷ xs) h = rw h.0 (ap (push_head x) (split-whole sep xs h.1))

pub split_n-append :
    (sep n : ℕ) (xs ys : List ℕ)
    → Without sep xs
    → split_n sep (suc (suc n)) (xs ++ (sep ∷ ys)) ≡ xs ∷ split_n sep (suc n) ys
unfolding split_n
split_n-append sep n [] ys h = ground arith
split_n-append sep n (x ∷ xs) ys h = rw h.0 (ap (push_head x) (split_n-append sep n xs ys h.1))

digits-Without : (sep : ℕ) (s : List ℕ) → sep < b'-' ⊎ b'9' < sep → All IsDigit s → Without sep s
digits-Without sep [] h d = tt
digits-Without sep (c ∷ s) h d = (ground arith, digits-Without sep s h d.1)

minus : (sep : ℕ) → sep < b'-' ⊎ b'9' < sep → (b'-' == sep) ≡ false
minus sep h = ground arith

-- A number holds no separator outside its characters.
pub format_int-Without : (sep : ℕ) (z : ℤ) → sep < b'-' ⊎ b'9' < sep → Without sep (format_int z)
unfolding format_int
format_int-Without sep (pos n) h =
    digits-Without sep (format_uint n) h (format_digits-All 20 n [] tt)
format_int-Without sep (negsuc n) h =
    (minus sep h, digits-Without sep (format_uint (n + 1)) h (format_digits-All 20 (n + 1) [] tt))

-- `strings.Split` takes apart what `strings.Join` put together.
pub split-join :
    (sep : ℕ) (w : List ℕ) (words : List (List ℕ))
    → All (Without sep) (w ∷ words)
    → split sep (join sep (w ∷ words)) ≡ w ∷ words
unfolding join
split-join sep w [] h = split-whole sep w h.0
split-join sep w (v ∷ words) h =
    split-append sep w (join sep (v ∷ words)) h.0 ∙ ap (◌∷◌ w) (split-join sep v words h.1)
