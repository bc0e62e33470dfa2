-- ===== src/Comet/Ids/Broadcast.antt =====
-- comet/session.go, comet/udp_session.go: whom a device's broadcast reaches, and how the two kinds of
-- session differ.
use slot_golang.Base.{
  ℕ, ◌≡◌, refl, ap, sym, ◌∙◌, ◌↔◌, ◌≢◌, Bool, true, false, ◌&&◌, ◌||◌, not, List, [], ◌∷◌, ◌++◌,
  arith, All, if◌then◌else◌, Bool-cases, inl, inr,
}
use mathlib.Core.Bool.{false≢true}
use slot_golang.Base.Int64.{
  ℤ, pos, negsuc, IsInt64, is_neg, is_zero, rem64, ◌==ℤ◌, ==ℤ_iff, ==ℤ_refl,
}
use slot_golang.Comet.Ids.{
  ids_from, trans_id, contains, user_of, is_binded, all_phones, calc_dest_ids, udp_calc_dest_ids,
}
use slot_golang.Comet.Ids.Phones.{IsUserId, trans_id_iff, trans_id-ids_from, user_of_inv}

contains-append : (xs ys : List ℤ) (d : ℤ) → contains (xs ++ ys) d ≡ contains xs d || contains ys d
unfolding contains
contains-append [] ys d = refl
contains-append (x ∷ xs) ys d = ground (arith, contains-append xs ys d)

-- An id of a user is one of its phones exactly when it is no multiple of 16.
phone_or_user :
    (n : ℕ) (d : ℤ)
    → IsUserId (pos n)
    → IsInt64 d
    → user_of d ≡ pos n
    → (is_zero (rem64 d 16) ≡ true) ↔ (d ≡ pos n)
unfolding rem64
phone_or_user n d hn hd e =
    let (i, lt, eq) = user_of_inv d n hd hn e in
    rw eq (λ z. ap pos (ground arith), λ q. ground arith)

bool_ext : (a b : Bool) → (a ≡ true → b ≡ true) → (b ≡ true → a ≡ true) → a ≡ b
bool_ext true b f g = sym (f refl)
bool_ext false true f g = g refl
bool_ext false false f g = refl

not-true : (b : Bool) → b ≢ true → not b ≡ true
not-true true h = absurd (h refl)
not-true false h = refl

not_both : (b : Bool) → b ≡ true → not b ≡ true → ⊥
not_both true p q = false≢true q
not_both false p q = false≢true p

and_left : (a b : Bool) → a && b ≡ true → a ≡ true
and_left true b h = refl
and_left false b h = h

and_right : (a b : Bool) → a && b ≡ true → b ≡ true
and_right true b h = h
and_right false b h = absurd (false≢true h)

one_user :
    (v d : ℤ)
    → IsUserId v
    → IsInt64 d
    → contains (ids_from v 1 15) d ≡ (v ==ℤ user_of d) && not (is_zero (rem64 d 16))
one_user (negsuc n) d hv hd = absurd hv
one_user (pos n) d hv hd =
    let (ids, exact) = trans_id_iff n d hv hd in
    let same : trans_id (pos n) ≡ ids_from (pos n) 1 15 = trans_id-ids_from n hv in
    bool_ext _ _
      (λ c.
        let (e, ne) = exact.0 (rw same c) in
        rw (e, ==ℤ_refl (pos n))
          (not-true (is_zero (rem64 d 16)) (λ z. ne ((phone_or_user n d hv hd e).0 z))))
      (λ b.
        let e : user_of d ≡ pos n = sym ((==ℤ_iff (pos n) (user_of d)).0 (and_left _ _ b)) in
        rw same at
          (exact.1 (e, λ q. not_both _ ((phone_or_user n d hv hd e).1 q) (and_right _ _ b))))

broadcast :
    (users : List ℤ) (d : ℤ)
    → All IsUserId users
    → IsInt64 d
    → contains (all_phones users) d ≡ contains users (user_of d) && not (is_zero (rem64 d 16))
unfolding all_phones contains
broadcast [] d h hd = refl
broadcast (v ∷ users) d (hv, h) hd =
    contains-append (ids_from v 1 15) (all_phones users) d
    ∙ ground (arith, one_user v d hv hd, broadcast users d h hd)

-- A device's broadcast (destination 0) reaches an id exactly when the id passes the session's
-- `isBinded` and is a phone's id, that is no multiple of 16.
pub broadcast_exact :
    (uid : ℤ) (users : List ℤ) (d : ℤ)
    → is_neg uid ≡ true
    → All IsUserId users
    → IsInt64 d
    → contains (calc_dest_ids uid users (pos 0)) d
      ≡ is_binded uid users d && not (is_zero (rem64 d 16))
unfolding calc_dest_ids
broadcast_exact (pos n) users d neg h hd = absurd (false≢true neg)
broadcast_exact (negsuc n) users d neg h hd = broadcast users d h hd

rem64_zero : (id : ℤ) → is_zero id ≡ true → is_zero (rem64 id 16) ≡ true
unfolding rem64
rem64_zero (pos n) h = ground arith
rem64_zero (negsuc n) h = absurd (false≢true h)

one_phone :
    (users : List ℤ) (to_id : ℤ)
    → is_zero (rem64 to_id 16) ≡ false
    → udp_calc_dest_ids users to_id ≡ []
unfolding udp_calc_dest_ids
one_phone users to_id nz = elim (Bool-cases (is_zero to_id)) [
  | inl z ↦ absurd (false≢true (sym nz ∙ rem64_zero to_id z))
  | inr nzero ↦ elim (Bool-cases (contains users (user_of to_id))) [
    | inl b ↦ rw (nzero, b, nz)
    | inr nb ↦ rw (nzero, nb)
  ]
]

-- For a device `UdpSession.CalcDestIds` agrees with `Session.calcDestIds` when the destination is 0 or
-- a user, and has no destination at all when the message is for one phone, also for a bound one.
pub udp_calc_dest_ids_differs :
    (uid : ℤ) (users : List ℤ) (to_id : ℤ)
    → is_neg uid ≡ true
    → udp_calc_dest_ids users to_id
      ≡ (if is_zero (rem64 to_id 16) then calc_dest_ids uid users to_id else [])
unfolding calc_dest_ids udp_calc_dest_ids
udp_calc_dest_ids_differs (pos n) users to_id neg = absurd (false≢true neg)
udp_calc_dest_ids_differs (negsuc n) users to_id neg =
    elim (Bool-cases (is_zero (rem64 to_id 16))) [
      | inl z ↦ rw z
      | inr z ↦
          one_phone users to_id z
          ∙ ap (λ (c : Bool). if c then calc_dest_ids (negsuc n) users to_id else []) (sym z)
    ]
