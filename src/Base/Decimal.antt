-- ===== src/Base/Decimal.antt =====
-- The standard library's strconv.ParseInt and ParseUint in base 10, and strings.Split on one byte.
use slot_golang.Base.{
  ℕ, ◌+◌, ◌-◌, ◌*◌, ◌^◌, Bool, true, false, ◌||◌, List, [], ◌∷◌, ltb, leb, ◌==◌, if◌then◌else◌,
}
use slot_golang.Base.Int64.{ℤ, pos, negsuc, neg_ℕ}

pub data Scan : Type 0 where
  number : ℕ → Scan
  syntax_error range_error : Scan

-- The digits so far stand for n.
unfoldable pub scan_uint : List ℕ → ℕ → Scan
scan_uint [] n = Scan.number n
scan_uint (c ∷ s) n =
    let more = scan_uint s (n * 10 + (c - b'0')) in
    if ltb c b'0' || ltb b'9' c
    then Scan.syntax_error
    else if ltb (2 ^ 64 - 1) (n * 10 + (c - b'0'))
    then Scan.range_error
    else more

unfoldable pub scan_digits : List ℕ → Scan
unfolding scan_uint
scan_digits [] = Scan.syntax_error
scan_digits (c ∷ s) = scan_uint (c ∷ s) 0

-- `strconv.ParseUint(s, 10, 64)`: the value, and whether the error is nil.
unfoldable pub parse_uint : List ℕ → ℕ × Bool
unfolding scan_digits
parse_uint s = elim (scan_digits s) [
  | Scan.number n ↦ (n, true)
  | Scan.syntax_error ↦ (0, false)
  | Scan.range_error ↦ (2 ^ 64 - 1, false)
]

abbrev pub parse_signed : Bool → Scan → ℤ × Bool
parse_signed negative Scan.syntax_error = (pos 0, false)
parse_signed true Scan.range_error = (negsuc (2 ^ 63 - 1), false)
parse_signed false Scan.range_error = (pos (2 ^ 63 - 1), false)
parse_signed true (Scan.number n) =
    if ltb (2 ^ 63) n then (negsuc (2 ^ 63 - 1), false) else (neg_ℕ n, true)
parse_signed false (Scan.number n) =
    if leb (2 ^ 63) n then (pos (2 ^ 63 - 1), false) else (pos n, true)

-- `strconv.ParseInt(s, 10, 64)`: the value, and whether the error is nil.
unfoldable pub parse_int : List ℕ → ℤ × Bool
unfolding scan_digits
parse_int [] = (pos 0, false)
parse_int (c ∷ s) =
    if c == b'-'
    then parse_signed true (scan_digits s)
    else if c == b'+'
    then parse_signed false (scan_digits s)
    else parse_signed false (scan_digits (c ∷ s))

abbrev pub push_head : ℕ → List (List ℕ) → List (List ℕ)
push_head c [] = (c ∷ []) ∷ []
push_head c (w ∷ words) = (c ∷ w) ∷ words

-- `strings.Split(s, sep)` for a separator of one byte.
unfoldable pub split : ℕ → List ℕ → List (List ℕ)
split sep [] = [] ∷ []
split sep (c ∷ s) = let words = split sep s in if c == sep then [] ∷ words else push_head c words
