-- ===== src/Comet/Redis/Mobiles.antt =====
-- comet/redis.go: the phone ids that `SelectMobileId` gives out and `ReturnMobileId` takes back.
use slot_golang.Base.{
  ℕ, zero, suc, ◌+◌, ◌≤◌, ◌<◌, ◌≡◌, ◌⊎◌, inl, inr, refl, ap, ◌∙◌, true, false, List, [], ◌∷◌, ◌==◌,
  if◌then◌else◌, arith, All, Bool-cases,
}
use slot_golang.Comet.Redis.{in_use, select_loop, select_mobile_id, srem, return_mobile_id}

-- The ids from mid on, as many as the loop has rounds.
unfoldable pub mids_from : ℕ → ℕ → List ℕ
mids_from zero mid = []
mids_from (suc rounds) mid = mid ∷ mids_from rounds (mid + 1)

-- What the loop has done: every id is taken, or it took one that was free.
abbrev pub Selected : ℕ → ℕ → List ℕ → List ℕ × ℕ → Type 0
Selected first rounds mids r =
    ((r ≡ (mids, 0)) × All (λ m. in_use m mids ≡ true) (mids_from rounds first))
    ⊎ ((r.0 ≡ r.1 ∷ mids) × (first ≤ r.1) × (r.1 < first + rounds) × (in_use r.1 mids ≡ false))

select_loop-Selected :
    (rounds first : ℕ) (mids : List ℕ) → Selected first rounds mids (select_loop rounds first mids)
unfolding select_loop mids_from
select_loop-Selected zero first mids = inl (refl, tt)
select_loop-Selected (suc rounds) first mids = elim (Bool-cases (in_use first mids)) [
  | inr free ↦ rw free (inr (refl, omega arith, omega arith, free))
  | inl taken ↦ rw taken (elim (select_loop-Selected rounds (first + 1) mids) [
    | inl (e, all) ↦ inl (e, (refl, all))
    | inr (e, lo, hi, free) ↦ inr (e, omega arith, omega arith, free)
  ])
]

-- Either all of the phone ids 1 to 15 are in use, and `SelectMobileId` gives 0 and leaves the set alone, or it
-- gives one of them that was free, and the set has it in addition to what it had.
pub select_mobile_id_lem : (mids : List ℕ) → Selected 1 15 mids (select_mobile_id mids)
unfolding select_mobile_id
select_mobile_id_lem mids = select_loop-Selected 15 1 mids

pub in_use-srem :
    (mid m : ℕ) (mids : List ℕ)
    → in_use m (srem mid mids) ≡ (if mid == m then false else in_use m mids)
unfolding in_use srem
in_use-srem mid m [] = ground arith
in_use-srem mid m (k ∷ mids) = ground (arith, in_use-srem mid m mids)

in_use-srem_cons :
    (mid m : ℕ) (mids : List ℕ)
    → in_use m (srem mid (mid ∷ mids)) ≡ (if mid == m then false else in_use m mids)
in_use-srem_cons mid m mids = in_use-srem mid m (mid ∷ mids) ∙ unfold in_use in ground arith

-- After the phone id that was just selected is given back, that id is free, and every other id is in use exactly
-- if it was before the selection.
pub return_mobile_id_select :
    (mids : List ℕ) (m : ℕ)
    → in_use m (return_mobile_id (select_mobile_id mids).1 (select_mobile_id mids).0).0
      ≡ (if (select_mobile_id mids).1 == m then false else in_use m mids)
unfolding return_mobile_id
return_mobile_id_select mids m = elim (select_mobile_id_lem mids) [
  | inl (e, all) ↦ rw e (in_use-srem 0 m mids)
  | inr (e, lo, hi, free) ↦
      ap (λ x. in_use m (srem (select_mobile_id mids).1 x)) e
      ∙ in_use-srem_cons (select_mobile_id mids).1 m mids
]
