-- ===== src/Comet/Ids/Routing.antt =====
-- comet/session.go, comet/udp_session.go: where a message may go.
use slot_golang.Base.{
  ℕ, zero, suc, ◌+◌, ◌%◌, ◌^◌, ◌<◌, ◌≡◌, refl, ap, ◌∙◌, true, List, [], ◌∷◌, arith, All, All-append,
  Bool-cases, inl, inr, or_true, ◌⊎◌,
}
use mathlib.Core.Bool.{false≢true}
use slot_golang.Base.Int64.{
  ℤ, pos, negsuc, IsInt64, is_neg, is_pos, is_zero, rem64, sub64, neg_ℕ, add64, ==ℤ_refl,
}
use slot_golang.Comet.Ids.{
  ids_from, contains, user_of, is_binded, all_phones, count_up, calc_dest_ids,
}
use slot_golang.Comet.Ids.Phones.{IsUserId, phone_id, user_of-phone, ids_from-All, contains-All}

-- The user of the id is bound.
abbrev IsBound : List ℤ → ℤ → Type 0
IsBound users id = contains users (user_of id) ≡ true

IsBound-cons : (v : ℤ) (users : List ℤ) (id : ℤ) → IsBound users id → IsBound (v ∷ users) id
unfolding contains
IsBound-cons v users id h = rw h (or_true _)

All-map : {P Q : ℤ → Type 0} (ids : List ℤ) → ((id : ℤ) → P id → Q id) → All P ids → All Q ids
All-map [] f all = tt
All-map (v ∷ ids) f all = (f v all.0, All-map ids f all.1)

phones-IsBound : (v : ℤ) (users : List ℤ) → IsUserId v → All (IsBound (v ∷ users)) (ids_from v 1 15)
unfolding contains
phones-IsBound (pos n) users h =
    ids_from-All (IsBound (pos n ∷ users)) n 15 1
      (λ j lo hi. rw (user_of-phone n j h.1 h.2 (omega arith), ==ℤ_refl (pos n)))
phones-IsBound (negsuc n) users h = absurd h

pub all_phones-IsBound :
    (users : List ℤ) → All IsUserId users → All (IsBound users) (all_phones users)
unfolding all_phones
all_phones-IsBound [] h = tt
all_phones-IsBound (v ∷ users) h =
    All-append (IsBound (v ∷ users)) (ids_from v 1 15) (all_phones users)
      (phones-IsBound v users h.0)
      (All-map (all_phones users) (IsBound-cons v users) (all_phones-IsBound users h.1))

-- A user's own id is counted up to the user's phones.
count_up-ids_from :
    (k n i : ℕ)
    → n % 16 ≡ 0
    → n < 2 ^ 63
    → i + k < 16
    → count_up k (pos (n + i)) ≡ ids_from (pos n) (i + 1) k
unfolding count_up ids_from
count_up-ids_from zero n i h lt hi = refl
count_up-ids_from (suc k) n i h lt hi =
    let step : add64 (pos (n + i)) (pos 1) ≡ pos (n + (i + 1)) = unfold add64 in ground arith in
    rw (step, phone_id n (i + 1) h lt (omega arith))
      (ap (◌∷◌ (pos (n + (i + 1)))) (count_up-ids_from k n (i + 1) h lt (omega arith)))

zero_of_neg : (r : ℕ) → is_zero (neg_ℕ r) ≡ true → r ≡ 0
zero_of_neg zero h = refl
zero_of_neg (suc r) h = absurd (false≢true h)

user_of_multiple : (id : ℤ) → IsInt64 id → is_zero (rem64 id 16) ≡ true → user_of id ≡ id
unfolding user_of sub64 rem64
user_of_multiple (pos n) h z = ground arith
user_of_multiple (negsuc n) h z = rw (zero_of_neg ((n + 1) % 16) z) (ground arith)

-- The check of a single user id: its phones are bound.
count_up-IsBound :
    (users : List ℤ) (id : ℤ)
    → All IsUserId users
    → IsInt64 id
    → is_zero (rem64 id 16) ≡ true
    → IsBound users id
    → All (IsBound users) (count_up 15 id)
count_up-IsBound users (pos n) h hi z b =
    let listed : contains users (pos n) ≡ true = rw (user_of_multiple (pos n) hi z) at b in
    let user : IsUserId (pos n) = contains-All IsUserId users (pos n) h listed in
    let e : count_up 15 (pos n) ≡ ids_from (pos n) 1 15 =
      ap (λ (t : ℕ). count_up 15 (pos t)) (omega arith)
      ∙ count_up-ids_from 15 n 0 user.1 user.2 (omega arith) in
    rw e (
      ids_from-All (IsBound users) n 15 1
        (λ j lo hi. rw (user_of-phone n j user.1 user.2 (omega arith)) listed))
count_up-IsBound users (negsuc n) h hi z b =
    absurd (contains-All IsUserId users (negsuc n) h (rw (user_of_multiple (negsuc n) hi z) at b))

contains_self : (ids : List ℤ) → All (λ d. contains ids d ≡ true) ids
unfolding contains
contains_self [] = tt
contains_self (v ∷ ids) =
    (rw (==ℤ_refl v), All-map ids (λ d h. rw h (or_true _)) (contains_self ids))

phone_bound :
    (uid : ℤ) (ids : List ℤ) (to_id : ℤ)
    → is_pos uid ≡ true
    → All (λ d. is_binded uid ids d ≡ true) (calc_dest_ids uid ids to_id)
unfolding calc_dest_ids
phone_bound (pos n) ids to_id p = elim (Bool-cases (is_zero to_id)) [
  | inl z ↦ rw (z, p) (contains_self ids)
  | inr nz ↦ elim (Bool-cases (contains ids to_id)) [
    | inl b ↦ rw (nz, b) (b, tt)
    | inr nb ↦ rw (nz, nb) tt
  ]
]
phone_bound (negsuc n) ids to_id p = absurd (false≢true p)

device_bound :
    (uid : ℤ) (ids : List ℤ) (to_id : ℤ)
    → is_neg uid ≡ true
    → All IsUserId ids
    → IsInt64 to_id
    → All (λ d. is_binded uid ids d ≡ true) (calc_dest_ids uid ids to_id)
unfolding calc_dest_ids
device_bound (pos n) ids to_id p users h = absurd (false≢true p)
device_bound (negsuc n) ids to_id p users h = elim (Bool-cases (is_zero to_id)) [
  | inl z ↦ rw z (all_phones-IsBound ids users)
  | inr nz ↦ elim (Bool-cases (contains ids (user_of to_id))) [
    | inr nb ↦ rw (nz, nb) tt
    | inl b ↦ elim (Bool-cases (is_zero (rem64 to_id 16))) [
      | inl m ↦ rw (nz, b, m) (count_up-IsBound ids to_id users h m b)
      | inr nm ↦ rw (nz, b, nm) (b, tt)
    ]
  ]
]

-- `calcDestIds` never lets a message out of the session's bindings: each destination passes the
-- session's own `isBinded`, for a phone (positive id) and for a device (negative id) that is bound to
-- proper user ids, whatever destination the message asks for.
pub calc_dest_ids_bound :
    (uid : ℤ) (binded_ids : List ℤ) (to_id : ℤ)
    → (is_pos uid ≡ true) ⊎ ((is_neg uid ≡ true) × All IsUserId binded_ids)
    → IsInt64 to_id
    → All (λ d. is_binded uid binded_ids d ≡ true) (calc_dest_ids uid binded_ids to_id)
calc_dest_ids_bound uid ids to_id (inl p) h = phone_bound uid ids to_id p
calc_dest_ids_bound uid ids to_id (inr (n, users)) h = device_bound uid ids to_id n users h
