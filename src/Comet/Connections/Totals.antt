-- ===== src/Comet/Connections/Totals.antt =====
-- Sums over the handlers, and what a step of one of them changes.
use slot_golang.Base.{
  ℕ, zero, suc, ◌+◌, ◌≤◌, ◌≡◌, refl, List, [], ◌∷◌, some, arith, get_elem?, set, All, some_inj,
  subst, map, ap,
}

module _ {A : Type 0} where
  unfoldable pub total : (A → ℕ) → List A → ℕ
  total w [] = 0
  total w (x ∷ xs) = w x + total w xs

  -- The others keep their share.
  pub total-set :
      (w : A → ℕ) (xs : List A) (i : ℕ) (x y : A)
      → get_elem? xs i ≡ some x
      → (t : ℕ) × (total w xs ≡ t + w x) × (total w (set xs i y) ≡ t + w y)
  unfolding total
  total-set w [] i x y e = cc
  total-set w (z ∷ xs) zero x y e = (total w xs, omega (arith, ap w (some_inj e)), omega arith)
  total-set w (z ∷ xs) (suc i) x y e =
      let (t, p, q) = total-set w xs i x y e in (w z + t, omega (arith, p), omega (arith, q))

  pub total-le_at :
      (w : A → ℕ) (xs : List A) (i : ℕ) (x : A) → get_elem? xs i ≡ some x → w x ≤ total w xs
  total-le_at w xs i x e = let (t, p, q) = total-set w xs i x x e in omega (arith, p)

  -- Two elements of weight 1 in a total of 1 are the same.
  pub total_unique :
      (w : A → ℕ) (xs : List A) (i j : ℕ) (x y : A)
      → total w xs ≤ 1
      → get_elem? xs i ≡ some x
      → get_elem? xs j ≡ some y
      → w x ≡ 1
      → w y ≡ 1
      → i ≡ j
  unfolding total
  total_unique w [] i j x y h ex ey hx hy = cc
  total_unique w (z ∷ xs) zero zero x y h ex ey hx hy = refl
  total_unique w (z ∷ xs) zero (suc j) x y h ex ey hx hy =
      absurd (omega (arith, ap w (some_inj ex), total-le_at w xs j y ey))
  total_unique w (z ∷ xs) (suc i) zero x y h ex ey hx hy =
      absurd (omega (arith, ap w (some_inj ey), total-le_at w xs i x ex))
  total_unique w (z ∷ xs) (suc i) (suc j) x y h ex ey hx hy =
      ap suc (total_unique w xs i j x y (omega arith) ex ey hx hy)

  pub All-at :
      (P : A → Type 0) (xs : List A) (i : ℕ) (x : A) → All P xs → get_elem? xs i ≡ some x → P x
  All-at P [] i x h e = cc
  All-at P (z ∷ xs) zero x h e = subst P (some_inj e) h.0
  All-at P (z ∷ xs) (suc i) x h e = All-at P xs i x h.1 e

  pub All-set : (P : A → Type 0) (xs : List A) (i : ℕ) (y : A) → All P xs → P y → All P (set xs i y)
  All-set P [] i y h k = tt
  All-set P (z ∷ xs) zero y h k = (k, h.1)
  All-set P (z ∷ xs) (suc i) y h k = (h.0, All-set P xs i y h.1 k)

module _ {A B : Type 0} where
  pub All-map : (P : B → Type 0) (f : A → B) (xs : List A) → ((x : A) → P (f x)) → All P (map f xs)
  All-map P f [] h = tt
  All-map P f (x ∷ xs) h = (h x, All-map P f xs h)

  pub total-map_zero :
      (w : B → ℕ) (f : A → B) (xs : List A) → ((x : A) → w (f x) ≡ 0) → total w (map f xs) ≡ 0
  unfolding total
  total-map_zero w f [] h = refl
  total-map_zero w f (x ∷ xs) h = omega (arith, h x, total-map_zero w f xs h)
