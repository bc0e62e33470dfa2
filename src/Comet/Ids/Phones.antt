-- ===== src/Comet/Ids/Phones.antt =====
-- comet/util.go: the phones of a user.
use slot_golang.Base.{
  ℕ, zero, suc, ◌+◌, ◌-◌, ◌%◌, ◌^◌, ◌<◌, ◌≤◌, ◌≡◌, refl, true, List, [], ◌∷◌, arith, length, All,
  ◌↔◌, or_true, Bool-cases, inl, inr, subst, ◌≢◌, ◌==◌,
}
use slot_golang.Base.Int64.{
  ℤ, pos, negsuc, IsInt64, ◌==ℤ◌, ==ℤ_iff, ==ℤ_refl, add64, sub64, rem64, to_u64, neg_ℕ,
}
use slot_golang.Comet.Ids.{ids_from, trans_id, user_of, contains}
use mathlib.Core.Bool.{false≢true}
use native.Mathlib.Decide.{ℕ_discrete}

-- A user id: a positive multiple of 16 that fits an int64.
abbrev pub IsUserId : ℤ → Type 0
IsUserId (pos n) = (0 < n) × (n % 16 ≡ 0) × (n < 2 ^ 63)
IsUserId (negsuc n) = ⊥

pub phone_id : (n i : ℕ) → n % 16 ≡ 0 → n < 2 ^ 63 → i < 16 → add64 (pos n) (pos i) ≡ pos (n + i)
unfolding add64
phone_id n i h lt hi = ground arith

-- Cutting an id below 16 off gives back the user.
pub user_of-phone :
    (n i : ℕ) → n % 16 ≡ 0 → n < 2 ^ 63 → i < 16 → user_of (add64 (pos n) (pos i)) ≡ pos n
unfolding user_of sub64 rem64
user_of-phone n i h lt hi = rw (phone_id n i h lt hi) (ground arith)

pub ids_from-All :
    (P : ℤ → Type 0) (n k i : ℕ)
    → ((j : ℕ) → i ≤ j → j < i + k → P (add64 (pos n) (pos j)))
    → All P (ids_from (pos n) i k)
unfolding ids_from
ids_from-All P n zero i h = tt
ids_from-All P n (suc k) i h = (
  h i (omega arith) (omega arith),
  ids_from-All P n k (i + 1) (λ j lo hi. h j (omega arith) (omega arith)),
)

pub contains-All : (P : ℤ → Type 0) (ids : List ℤ) (m : ℤ) → All P ids → contains ids m ≡ true → P m
unfolding contains
contains-All P [] m all h = absurd (false≢true h)
contains-All P (v ∷ ids) m all h = elim (Bool-cases (v ==ℤ m)) [
  | inl e ↦ subst P ((==ℤ_iff v m).0 e) all.0
  | inr e ↦ contains-All P ids m all.1 (rw e at h)
]

pub contains-ids_from :
    (n k i j : ℕ)
    → i ≤ j
    → j < i + k
    → contains (ids_from (pos n) i k) (add64 (pos n) (pos j)) ≡ true
unfolding contains ids_from
contains-ids_from n zero i j lo hi = absurd (omega arith)
contains-ids_from n (suc k) i j lo hi = elim (ℕ_discrete i j) [
  | yes e ↦ rw (e, ==ℤ_refl (add64 (pos n) (pos j)))
  | no ne ↦ rw (contains-ids_from n k (i + 1) j (omega arith) (omega arith)) (or_true _)
]

user_of_pos : (k : ℕ) → k < 2 ^ 63 → user_of (pos k) ≡ pos (k - k % 16)
unfolding user_of sub64 rem64
user_of_pos k h = ground arith

neg_ℕ-parts : (r : ℕ) → r < 16 → to_u64 (neg_ℕ r) ≡ (2 ^ 64 - r) % 2 ^ 64
neg_ℕ-parts zero h = refl
neg_ℕ-parts (suc r) h = omega arith

-- No device's id has a user with a positive id.
user_of_neg :
    {A : Type 0} (k n : ℕ) → k < 2 ^ 63 → IsUserId (pos n) → user_of (negsuc k) ≡ pos n → A
unfolding user_of sub64 rem64
user_of_neg k n h hn e = absurd (ground (arith, neg_ℕ-parts ((k + 1) % 16) (omega arith)))

-- An id whose user is n is n itself or one of the 15 ids behind it.
pub user_of_inv :
    (m : ℤ) (n : ℕ)
    → IsInt64 m
    → IsUserId (pos n)
    → user_of m ≡ pos n
    → (i : ℕ) × (i < 16) × (m ≡ pos (n + i))
user_of_inv (pos k) n hm hn e = (k % 16, omega arith, ground (arith, user_of_pos k hm))
user_of_inv (negsuc k) n hm hn e = user_of_neg k n hm hn e

divides : (n : ℕ) → IsUserId (pos n) → (n % 16 == 0) ≡ true
divides n h = ground arith

pub trans_id-ids_from : (n : ℕ) → IsUserId (pos n) → trans_id (pos n) ≡ ids_from (pos n) 1 15
unfolding trans_id rem64
trans_id-ids_from n h = rw (divides n h)

abbrev IsPhoneOf : ℕ → ℤ → Type 0
IsPhoneOf n m = (user_of m ≡ pos n) × (m ≢ pos n)

phone-IsPhoneOf :
    (n j : ℕ) → IsUserId (pos n) → 1 ≤ j → j < 16 → IsPhoneOf n (add64 (pos n) (pos j))
phone-IsPhoneOf n j h lo hi =
    (user_of-phone n j h.1 h.2 hi, rw (phone_id n j h.1 h.2 hi) (λ e. ground arith))

-- `TransId` of a user (a positive int64 multiple of 16) gives exactly the int64 ids that belong to the user
-- and are not the user's own id; there are 15.
pub trans_id_iff :
    (n : ℕ) (m : ℤ)
    → IsUserId (pos n)
    → IsInt64 m
    → (length (trans_id (pos n)) ≡ 15)
      × ((contains (trans_id (pos n)) m ≡ true) ↔ ((user_of m ≡ pos n) × (m ≢ pos n)))
trans_id_iff n m hn hm = rw (trans_id-ids_from n hn) (unfold ids_from in refl, (forward, backward))
  where
    forward : contains (ids_from (pos n) 1 15) m ≡ true → IsPhoneOf n m
    forward =
        contains-All (IsPhoneOf n) (ids_from (pos n) 1 15) m
          (ids_from-All (IsPhoneOf n) n 15 1 (λ j lo hi. phone-IsPhoneOf n j hn lo (omega arith)))

    backward : IsPhoneOf n m → contains (ids_from (pos n) 1 15) m ≡ true
    backward (e, ne) =
        let (i, lt, eq) = user_of_inv m n hm hn e in
        rw (eq, ← phone_id n i hn.1 hn.2 lt)
          (contains-ids_from n 15 1 i (positive i eq) (omega arith))
      where
        positive : (i : ℕ) → m ≡ pos (n + i) → 1 ≤ i
        positive zero eq = absurd (ne (ground arith))
        positive (suc i) eq = omega arith
