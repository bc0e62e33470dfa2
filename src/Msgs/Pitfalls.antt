-- ===== src/Msgs/Pitfalls.antt =====
-- msgs/body.go `MsgStatus.Marshal` and msgs/msgs.go `ForwardSrcId` at the ends of their buffers.
use slot_golang.Base.{
  ℕ, zero, suc, ◌+◌, ◌%◌, ◌≤◌, ◌<◌, ◌≡◌, refl, ap, ◌∙◌, inl, inr, List, [], ◌∷◌, ◌++◌, none, arith,
  length, set, take, drop, replicate, get_elem?, length-append, length-set, length-take, leb,
  Bool-cases, length-replicate,
}
use slot_golang.Base.Int64.{ℤ, to_u64}
use slot_golang.Base.Bytes.{put_le, slice, write_at, length-write_at}
use slot_golang.Base.Run.{panics}
use slot_golang.Msgs.Inspect.{forward_src_id, uint64}
use slot_golang.Msgs.Status.{status_marshal}

set-out : {A : Type 0} → (xs : List A) (i : ℕ) (a : A) → length xs ≤ i → set xs i a ≡ xs
set-out [] i a h = refl
set-out (x ∷ xs) zero a h = absurd (omega arith)
set-out (x ∷ xs) (suc i) a h = ap (◌∷◌ x) (set-out xs i a (omega arith))

-- The last byte does not fit, so it is dropped.
write_at-full :
    (b : List ℕ) (i : ℕ) (xs : List ℕ) (x : ℕ)
    → length b ≤ i + length xs
    → write_at b i (xs ++ (x ∷ [])) ≡ write_at b i xs
unfolding write_at
write_at-full b i [] x h = set-out b i x (omega arith)
write_at-full b i (y ∷ ys) x h =
    write_at-full (set b i y) (suc i) ys x (omega (arith, length-set b i y))

-- The buffer before the payload is copied.
abbrev front : ℕ → ℤ → ℕ → List ℕ
front kind id n =
    set (write_at (set (replicate (1 + 8 + 1 + n) 0) 0 kind) 1 (put_le 8 (to_u64 id))) 10 (n % 256)

length-front : (kind : ℕ) (id : ℤ) (n : ℕ) → length (front kind id n) ≡ 10 + n
length-front kind id n =
    length-set (write_at (set (replicate (1 + 8 + 1 + n) 0) 0 kind) 1 (put_le 8 (to_u64 id))) 10
      (n % 256)
    ∙ length-write_at (set (replicate (1 + 8 + 1 + n) 0) 0 kind) 1 (put_le 8 (to_u64 id))
    ∙ length-set (replicate (1 + 8 + 1 + n) 0) 0 kind
    ∙ length-replicate (1 + 8 + 1 + n) 0

-- `Marshal` gives the same bytes for two status messages that differ only in the last byte of their
-- payload: that byte is not written.
pub status_marshal_drops :
    (kind : ℕ) (id : ℤ) (xs : List ℕ) (x y : ℕ)
    → status_marshal (record { kind = kind; id = id; payload = xs ++ (x ∷ []) })
      ≡ status_marshal (record { kind = kind; id = id; payload = xs ++ (y ∷ []) })
unfolding status_marshal
status_marshal_drops kind id xs x y =
    rw (length-append xs (x ∷ []), length-append xs (y ∷ []))
      (rw (
        write_at-full (front kind id (length xs + 1)) 11 xs x
            (omega (arith, length-front kind id (length xs + 1))),
        write_at-full (front kind id (length xs + 1)) 11 xs y
            (omega (arith, length-front kind id (length xs + 1))),
      ))

get_elem?-none : {A : Type 0} → (xs : List A) (i : ℕ) → length xs ≤ i → get_elem? xs i ≡ none
get_elem?-none [] i h = refl
get_elem?-none (x ∷ xs) zero h = absurd (omega arith)
get_elem?-none (x ∷ xs) (suc i) h = get_elem?-none xs i (omega arith)

uint64_short : (b : List ℕ) → length b < 8 → uint64 b ≡ panics
unfolding uint64
uint64_short b h = rw (get_elem?-none b 7 (omega arith)) refl

-- `ForwardSrcId` panics on every message.
pub forward_src_id_panics : (msg : List ℕ) → forward_src_id msg ≡ panics
unfolding forward_src_id slice
forward_src_id_panics msg = elim (Bool-cases (leb 18 (length msg))) [
  | inl e ↦ rw e (uint64_short (take 2 (drop 16 msg)) (omega (arith, length-take 2 (drop 16 msg))))
  | inr e ↦ rw e
]
