-- ===== src/Base/Bits.antt =====
-- Facts about masks, shifts and exclusive or on bytes, checked over all values by evaluation.
use slot_golang.Base.{ℕ, zero, suc, ◌<◌, ◌≡◌, Bool, true, ◌&&◌, arith}

unfoldable pub every_below : ℕ → (ℕ → Bool) → Bool
every_below zero test = true
every_below (suc k) test = every_below k test && test k

pub every_below_sound :
    (bound : ℕ) (test : ℕ → Bool) (value : ℕ)
    → every_below bound test ≡ true
    → value < bound
    → test value ≡ true
unfolding every_below
every_below_sound zero test value all below = absurd (omega arith)
every_below_sound (suc k) test value all below = ground (arith, every_below_sound k test value)

pub all_pairs_sound :
    (n m : ℕ) (p : ℕ → ℕ → Bool) (x y : ℕ)
    → every_below n (λ a. every_below m (p a)) ≡ true
    → x < n
    → y < m
    → p x y ≡ true
all_pairs_sound n m p x y h hx hy =
    every_below_sound m (p x) y (every_below_sound n (λ a. every_below m (p a)) x h hx) hy
