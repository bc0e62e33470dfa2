-- ===== src/Comet/Ids/Blocks.antt =====
-- comet/session.go, msgbus/usermap.go: the block of an id.
use slot_golang.Base.{
  ℕ, zero, suc, ◌+◌, ◌-◌, ◌%◌, ◌^◌, ◌<◌, ◌≡◌, refl, false, arith, ltb, Bool-cases, inl, inr,
}
use slot_golang.Base.Int64.{ℤ, pos, negsuc, IsInt64, neg64, rem64}
use slot_golang.Comet.Ids.{get_block_id}

negated : (n : ℕ) → n < 2 ^ 63 → rem64 (neg64 (negsuc n)) 128 ≡ pos ((n + 1) % 128)
unfolding rem64 neg64
negated n h = elim (Bool-cases (ltb (n + 1) (2 ^ 63))) [
  | inl small ↦ ground arith
  | inr large ↦ rw (least n h large) refl
]
  where
    least : (n : ℕ) → n < 2 ^ 63 → ltb (n + 1) (2 ^ 63) ≡ false → n ≡ 2 ^ 63 - 1
    least n h e = ground arith

-- Every int64, the least one included (whose negation wraps to itself), has a block from 0 to 127:
-- no index of the array of blocks is out of range.
pub get_block_id_bounds : (uid : ℤ) → IsInt64 uid → (b : ℕ) × (get_block_id uid ≡ pos b) × (b < 128)
unfolding get_block_id rem64 neg64
get_block_id_bounds (pos zero) h = (0, refl, omega arith)
get_block_id_bounds (pos (suc n)) h = (suc n % 128, ground arith, omega arith)
get_block_id_bounds (negsuc n) h = ((n + 1) % 128, negated n h, omega arith)
