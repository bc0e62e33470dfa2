-- ===== src/Envelope/Buffers.antt =====
-- Buffers that are filled from the front, part by part.
use slot_golang.Base.{
  ℕ, zero, suc, ◌+◌, ◌≤◌, ◌≡◌, refl, sym, ap, ◌∙◌, List, [], ◌∷◌, ◌++◌, leb, le→leb, length, set,
  arith, length-append,
}
use mathlib.Core.List.{append_assoc, append-nil}
use slot_golang.Base.Bytes.{put_le, write_at, length-put_le}
use slot_golang.Base.Run.{done, in_bounds, ◌>>=◌}

pub split_at :
    (n : ℕ) (ys : List ℕ)
    → n ≤ length ys
    → (a : List ℕ) × (b : List ℕ) × (ys ≡ a ++ b) × (length a ≡ n)
split_at zero ys h = ([], ys, refl, refl)
split_at (suc n) [] h = absurd (omega arith)
split_at (suc n) (y ∷ ys) h =
    let (a, b, e, l) = split_at n ys (omega arith) in (y ∷ a, b, ap (◌∷◌ y) e, ap suc l)

set-append :
    (xs : List ℕ) (y x : ℕ) (zs : List ℕ)
    → set (xs ++ (y ∷ zs)) (length xs) x ≡ (xs ++ (x ∷ [])) ++ zs
set-append [] y x zs = refl
set-append (v ∷ xs) y x zs = ap (◌∷◌ v) (set-append xs y x zs)

-- Overwriting the middle part of a buffer.
write_at-middle :
    (xs ys zs ws : List ℕ)
    → length ws ≡ length ys
    → write_at (xs ++ (ys ++ zs)) (length xs) ws ≡ xs ++ (ws ++ zs)
unfolding write_at
write_at-middle xs [] zs [] e = refl
write_at-middle xs (y ∷ ys) zs [] e = absurd (omega arith)
write_at-middle xs [] zs (w ∷ ws) e = absurd (omega arith)
write_at-middle xs (y ∷ ys) zs (w ∷ ws) e =
    let next : suc (length xs) ≡ length (xs ++ (w ∷ [])) =
      omega (arith, length-append xs (w ∷ [])) in
    rw (set-append xs y w (ys ++ zs), next)
      (write_at-middle (xs ++ (w ∷ [])) ys zs ws (omega arith)
        ∙ append_assoc xs (w ∷ []) (ws ++ zs))

-- Overwriting the first eight bytes of the middle part.
pub write_at-eight :
    (xs ys zs : List ℕ) (v k : ℕ)
    → length ys ≡ 8 + k
    → (b : List ℕ) × (length b ≡ k)
      × (write_at (xs ++ (ys ++ zs)) (length xs) (put_le 8 v) ≡ (xs ++ put_le 8 v) ++ (b ++ zs))
write_at-eight xs ys zs v k h =
    let (a, b, e, l) = split_at 8 ys (omega arith) in
    (
      b,
      omega (arith, length-append a b, ap (λ (t : List ℕ). length t) e),
      rw (e, append_assoc a b zs)
          (write_at-middle xs a (b ++ zs) (put_le 8 v) (length-put_le 8 v ∙ sym l)
            ∙ sym (append_assoc xs (put_le 8 v) (b ++ zs))),
    )

-- Overwriting the front of what is left of a buffer.
pub write_at-front :
    (xs ys ws : List ℕ) (k : ℕ)
    → length ys ≡ length ws + k
    → (b : List ℕ) × (length b ≡ k) × (write_at (xs ++ ys) (length xs) ws ≡ (xs ++ ws) ++ b)
write_at-front xs ys ws k h =
    let (a, b, e, l) = split_at (length ws) ys (omega arith) in
    (
      b,
      omega (arith, length-append a b, ap (λ (t : List ℕ). length t) e),
      rw e (write_at-middle xs a b ws (sym l) ∙ sym (append_assoc xs ws b)),
    )

-- Overwriting all that is left of a buffer.
pub write_at-last :
    (xs ys ws : List ℕ) (p : ℕ)
    → p ≡ length xs
    → length ys ≡ length ws
    → write_at (xs ++ ys) p ws ≡ xs ++ ws
write_at-last xs ys ws p e h = rw e (
    ap (λ t. write_at (xs ++ t) (length xs) ws) (sym (append-nil ys))
    ∙ write_at-middle xs ys [] ws (sym h)
    ∙ ap (◌++◌ xs) (append-nil ws))

-- The same after its bounds check.
pub checked_write :
    (xs ys ws : List ℕ) (p : ℕ)
    → p ≡ length xs
    → length ys ≡ length ws
    → (in_bounds (leb p (length (xs ++ ys))) >>= λ _. done (write_at (xs ++ ys) p ws))
      ≡ done (xs ++ ws)
checked_write xs ys ws p e h =
    rw (le→leb p (length (xs ++ ys)) (omega (arith, length-append xs ys)))
      (ap done (write_at-last xs ys ws p e h))
