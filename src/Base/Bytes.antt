-- ===== src/Base/Bytes.antt =====
-- Byte slices as lists of numbers below 256, and the little-endian numbers of encoding/binary.
use native.Mathlib.Nat.{pow-suc}
use mathlib.Core.Option
use slot_golang.Base.{
  ℕ, zero, suc, ◌+◌, ◌-◌, ◌*◌, ◌/◌, ◌%◌, ◌^◌, ◌<◌, ◌≡◌, refl, ap, ◌&&◌, List, [], ◌∷◌, ◌++◌, Option,
  none, some, arith, leb, if◌then◌else◌, length, take, drop, set, length-append, length-set, le→leb,
  drop-append_of_length, take-append_of_length,
}

abbrev pub IsByte : ℕ → Type 0
IsByte b = b < 256

-- `PutUint16`, `PutUint32` and `PutUint64` write w = 2, 4, 8 bytes, lowest first.
unfoldable pub put_le : ℕ → ℕ → List ℕ
put_le zero v = []
put_le (suc w) v = (v % 256) ∷ put_le w (v / 256)

-- `Uint16`, `Uint32` and `Uint64` of a slice of that length.
unfoldable pub get_le : List ℕ → ℕ
get_le [] = 0
get_le (b ∷ bs) = b + 256 * get_le bs

pub length-put_le : (w v : ℕ) → length (put_le w v) ≡ w
unfolding put_le
length-put_le zero v = refl
length-put_le (suc w) v = ap suc (length-put_le w (v / 256))

pub get_le-put_le : (w v : ℕ) → v < 256 ^ w → get_le (put_le w v) ≡ v
unfolding put_le get_le
get_le-put_le zero v h = omega arith
get_le-put_le (suc w) v h = omega (arith, get_le-put_le w (v / 256) (omega (arith, pow-suc 256 w)))

-- `b[i:j]` of a slice whose capacity is its length; `none` is the panic.
unfoldable pub slice : List ℕ → ℕ → ℕ → Option (List ℕ)
slice b i j = if leb i j && leb j (length b) then some (take (j - i) (drop i b)) else none

-- Overwrites the bytes from position i on, as the callers do through `buf[i:j]`; what does not fit
-- is dropped, as `copy` does.
unfoldable pub write_at : List ℕ → ℕ → List ℕ → List ℕ
write_at b i [] = b
write_at b i (x ∷ xs) = write_at (set b i x) (suc i) xs

pub length-write_at : (b : List ℕ) (i : ℕ) (xs : List ℕ) → length (write_at b i xs) ≡ length b
unfolding write_at
length-write_at b i [] = refl
length-write_at b i (x ∷ xs) =
    omega (arith, length-write_at (set b i x) (suc i) xs, length-set b i x)

-- `binary.LittleEndian.UintN(b[i:i+w])`, w bytes wide.
unfoldable pub uint_at : List ℕ → ℕ → ℕ → Option ℕ
unfolding slice
uint_at b i w = Option.map get_le (slice b i (i + w))

pub slice-append :
    (xs ys zs : List ℕ) (i j : ℕ)
    → length xs ≡ i
    → length xs + length ys ≡ j
    → slice (xs ++ (ys ++ zs)) i j ≡ some ys
unfolding slice
slice-append xs ys zs i j hi hj = rw (
  le→leb i j (omega arith),
  le→leb j (length (xs ++ (ys ++ zs)))
      (omega (arith, length-append xs (ys ++ zs), length-append ys zs)),
  drop-append_of_length i xs (ys ++ zs) hi,
  take-append_of_length (j - i) ys zs (omega arith),
)

-- Reading back a number that stands behind i bytes.
pub uint_at-put_le :
    (xs zs : List ℕ) (i w v : ℕ)
    → length xs ≡ i
    → v < 256 ^ w
    → uint_at (xs ++ (put_le w v ++ zs)) i w ≡ some v
unfolding uint_at
uint_at-put_le xs zs i w v hi hv =
    rw (slice-append xs (put_le w v) zs i (i + w) hi (omega (arith, length-put_le w v)))
      (ap some (get_le-put_le w v hv))
