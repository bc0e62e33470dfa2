-- ===== src/Hlist.antt =====
-- The linked list `cloud-base/hlist`, which is not part of the repository: what the programs use of it,
-- with the behaviour that they rely on.
pub mod Sweep
pub mod Lists
use slot_golang.Base.{
  ℕ, zero, suc, ◌+◌, ◌≡◌, refl, Bool, true, false, List, [], ◌∷◌, ◌++◌, length, if◌then◌else◌,
  arith, ap, not, ◌∙◌, sym,
}
use mathlib.Core.List.{append_assoc, append-nil}

abbrev pub erase_at {ℓ} : {A : Type ℓ} → ℕ → List A → List A
erase_at i [] = []
erase_at zero (x ∷ xs) = xs
erase_at (suc i) (x ∷ xs) = x ∷ erase_at i xs

pub record Hlist (A : Type 0) : Type 1 where
  pub Carrier : Type 0
  pub new : Carrier
  pub push_front : A → Carrier → Carrier
  -- the values that a walk from `Front` by `Next` meets
  pub values : Carrier → List A
  pub len : Carrier → ℕ
  -- `Remove` of the element at this position of the walk
  pub remove_at : ℕ → Carrier → Carrier
  -- whether `Next` of an element that was just removed is nil; otherwise it is the element's old successor
  pub removed_has_no_next : Bool
  pub values-new : values new ≡ []
  pub values-push_front : (a : A) (h : Carrier) → values (push_front a h) ≡ a ∷ values h
  pub len_values : (h : Carrier) → len h ≡ length (values h)
  pub values-remove_at : (i : ℕ) (h : Carrier) → values (remove_at i h) ≡ erase_at i (values h)

module _ {A : Type 0} where
  unfoldable pub remove_first : (A → Bool) → List A → List A
  remove_first p [] = []
  remove_first p (x ∷ xs) = if p x then xs else x ∷ remove_first p xs

  unfoldable pub remove_all : (A → Bool) → List A → List A
  remove_all p [] = []
  remove_all p (x ∷ xs) = if p x then remove_all p xs else x ∷ remove_all p xs

module _ {A : Type 0} (hl : Hlist A) where
  open hl use {Carrier, values, remove_at, removed_has_no_next}

  -- `for e := l.Front(); e != nil; e = e.Next() { if p(e.Value) { n++; l.Remove(e) } }`, with the values
  -- still to be met and the position of the next one. `last` says that a removal ends the walk.
  unfoldable pub sweep_loop : Bool → (A → Bool) → List A → ℕ → Carrier → ℕ → Carrier × ℕ
  sweep_loop last p [] i h n = (h, n)
  sweep_loop last p (x ∷ xs) i h n = elim (p x) [
    | false ↦ sweep_loop last p xs (i + 1) h n
    | true ↦ elim last [
      | true ↦ (remove_at i h, n + 1)
      | false ↦ sweep_loop last p xs i (remove_at i h) (n + 1)
    ]
  ]

  unfoldable pub sweep : (A → Bool) → Carrier → Carrier × ℕ
  unfolding sweep_loop
  sweep p h = sweep_loop removed_has_no_next p (values h) 0 h 0
