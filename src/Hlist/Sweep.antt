-- ===== src/Hlist/Sweep.antt =====
-- `cloud-base/hlist`: what a walk that removes elements leaves.
use slot_golang.Base.{
  ℕ, ◌+◌, ◌≡◌, refl, ap, sym, ◌∙◌, Bool, true, false, List, [], ◌∷◌, ◌++◌, length, length-append,
  if◌then◌else◌, Bool-cases, inl, inr, arith,
}
use slot_golang.Hlist.{Hlist, erase_at, remove_first, remove_all, sweep_loop, sweep}
use mathlib.Core.List.{append_assoc}

erase_at-append {ℓ} :
    {A : Type ℓ} (pre : List A) (x : A) (xs : List A)
    → erase_at (length pre) (pre ++ (x ∷ xs)) ≡ pre ++ xs
erase_at-append [] x xs = refl
erase_at-append (y ∷ pre) x xs = ap (◌∷◌ y) (erase_at-append pre x xs)

module _ {A : Type 0} (p : A → Bool) where
  -- What is left of a list of values, with either behaviour of `Next`.
  unfoldable pub swept : Bool → List A → List A
  swept last xs = if last then remove_first p xs else remove_all p xs

module _ {A : Type 0} (hl : Hlist A) (p : A → Bool) where
  open hl use {Carrier, values, remove_at, removed_has_no_next, values-remove_at}

  remove_at_front :
      (pre : List A) (x : A) (xs : List A) (h : Carrier)
      → values h ≡ pre ++ (x ∷ xs)
      → values (remove_at (length pre) h) ≡ pre ++ xs
  remove_at_front pre x xs h e = values-remove_at (length pre) h ∙ rw e (erase_at-append pre x xs)

  later : (x : A) (pre : List A) → length pre + 1 ≡ length (pre ++ (x ∷ []))
  later x pre = omega (arith, length-append pre (x ∷ []))

  snoc : (pre : List A) (x : A) (xs : List A) → pre ++ (x ∷ xs) ≡ (pre ++ (x ∷ [])) ++ xs
  snoc pre x xs = sym (append_assoc pre (x ∷ []) xs)

  values-sweep_loop :
      (last : Bool) (xs pre : List A) (h : Carrier) (n : ℕ)
      → values h ≡ pre ++ xs
      → values (sweep_loop hl last p xs (length pre) h n).0 ≡ pre ++ swept p last xs
  unfolding sweep_loop swept remove_first remove_all
  values-sweep_loop true [] pre h n e = e
  values-sweep_loop false [] pre h n e = e
  values-sweep_loop true (x ∷ xs) pre h n e = elim (Bool-cases (p x)) [
    | inl hit ↦ rw (sweep_loop, hit) (remove_at_front pre x xs h e)
    | inr miss ↦
        rw (sweep_loop, miss, later x pre)
          (values-sweep_loop true xs (pre ++ (x ∷ [])) h n (e ∙ snoc pre x xs)
            ∙ sym (snoc pre x (remove_first p xs)))
  ]
  values-sweep_loop false (x ∷ xs) pre h n e = elim (Bool-cases (p x)) [
    | inl hit ↦
        rw (sweep_loop, hit)
          (values-sweep_loop false xs pre (remove_at (length pre) h) (n + 1)
            (remove_at_front pre x xs h e))
    | inr miss ↦
        rw (sweep_loop, miss, later x pre)
          (values-sweep_loop false xs (pre ++ (x ∷ [])) h n (e ∙ snoc pre x xs)
            ∙ sym (snoc pre x (remove_all p xs)))
  ]

  pub values-sweep :
      (h : Carrier) → values (sweep hl p h).0 ≡ swept p removed_has_no_next (values h)
  unfolding sweep
  values-sweep h = values-sweep_loop removed_has_no_next (values h) [] h 0 refl
