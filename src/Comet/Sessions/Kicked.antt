-- ===== src/Comet/Sessions/Kicked.antt =====
-- comet/session.go: whom `KickOffline` closes.
use slot_golang.Base.{
  ℕ, ◌≡◌, ◌≢◌, ◌↔◌, ◌⊎◌, inl, inr, refl, ap, sym, ◌∙◌, subst, true, List, [], ◌∷◌, All, arith,
  Bool-cases, or_true,
}
use slot_golang.Base.Int64.{ℤ, pos, IsInt64, ◌==ℤ◌, ==ℤ_iff, ==ℤ_refl}
use slot_golang.Base.Maps.{int64_eq, lookup}
use slot_golang.Base.Run.{done}
use mathlib.Core.Bool.{false≢true}
use slot_golang.Comet.Ids.{contains, trans_id, user_of}
use slot_golang.Comet.Ids.Phones.{
  IsUserId, trans_id_iff, trans_id-ids_from, ids_from-All, contains-All, phone_id,
}
use slot_golang.Comet.Sessions.{
  Session, SessionList, find, block_of, or_new, kick_each, kick_msg, kick_ids, kick_offline,
}
use slot_golang.Msgs.Frame.Returns.{app_marshal_bytes_returns}

-- A number is in a list, or is that of a session of a list.
abbrev pub IsIn : ℕ → List ℕ → Type 0
IsIn j [] = ⊥
IsIn j (k ∷ ks) = (k ≡ j) ⊎ IsIn j ks

abbrev pub IsHeld : ℕ → List Session → Type 0
IsHeld j [] = ⊥
IsHeld j (s ∷ list) = (s.number ≡ j) ⊎ IsHeld j list

-- The session with the number j has one of the ids.
abbrev IsUnder : List ℤ → ℕ → SessionList → Type 0
IsUnder ids j l = (id : ℤ) × (contains ids id ≡ true) × IsHeld j (or_new (find id l))

-- The session has the id of a phone of the user.
abbrev pub IsOnPhone : ℕ → ℕ → SessionList → Type 0
IsOnPhone n j l =
    (m : ℤ) × IsInt64 m × (user_of m ≡ pos n) × (m ≢ pos n) × IsHeld j (or_new (find m l))

kick_each-onlined :
    (msg : List ℕ) (list : List Session) (l : SessionList)
    → (kick_each msg list l).onlined ≡ l.onlined
unfolding kick_each
kick_each-onlined msg [] l = refl
kick_each-onlined msg (s ∷ list) l =
    kick_each-onlined msg list
      (record l { sent = (s.number, msg) ∷ l.sent; closed = s.number ∷ l.closed })

kick_each-closed :
    (msg : List ℕ) (list : List Session) (l : SessionList) (j : ℕ)
    → IsIn j (kick_each msg list l).closed ↔ (IsIn j l.closed ⊎ IsHeld j list)
unfolding kick_each
kick_each-closed msg [] l j = (λ h. inl h, λ h. elim h [ inl a ↦ a | inr b ↦ absurd b ])
kick_each-closed msg (s ∷ list) l j =
    let next = record l { sent = (s.number, msg) ∷ l.sent; closed = s.number ∷ l.closed } in
    let (to, from) = kick_each-closed msg list next j in
    (
      λ h. elim (to h) [ inl (inl e) ↦ inr (inl e) | inl (inr a) ↦ inl a | inr b ↦ inr (inr b) ],
      λ h. from (elim h [ inl a ↦ inl (inr a) | inr (inl e) ↦ inl (inl e) | inr (inr b) ↦ inr b ]),
    )

kick_ids-closed :
    (now : ℕ) (ids : List ℤ) (l : SessionList)
    → (l' : SessionList) × (kick_ids now ids l ≡ done l')
      × (l'.onlined ≡ l.onlined)
      × ((j : ℕ) → IsIn j l'.closed ↔ (IsIn j l.closed ⊎ IsUnder ids j l))
unfolding kick_ids contains find
kick_ids-closed now [] l = (
  l,
  refl,
  refl,
  λ j. (λ h. inl h, λ h. elim h [ inl a ↦ a | inr (m, e, b) ↦ absurd (false≢true e) ]),
)
kick_ids-closed now (id ∷ ids) l =
    let marshalled = app_marshal_bytes_returns now (kick_msg now id) in
    let bytes = marshalled.2 in
    let list = or_new (find id l) in
    let next = kick_each bytes list l in
    let same = kick_each-onlined bytes list l in
    let (l', returns, kept, iff) = kick_ids-closed now ids next in
    let found : (i : ℤ) → find i next ≡ find i l =
      λ i. ap (λ (o : ℕ → List (ℤ × List Session)). lookup i (o (block_of i))) same in
    (
      l',
      rw (marshalled.3) returns,
      kept ∙ same,
      λ j. (
        λ h. elim ((iff j).0 h) [
          | inl a ↦ elim ((kick_each-closed bytes list l j).0 a) [
            | inl b ↦ inl b
            | inr b ↦ inr (id, rw (==ℤ_refl id) refl, b)
          ]
          | inr (i, e, b) ↦
              inr (i, rw e (or_true (id ==ℤ i)), subst (λ o. IsHeld j (or_new o)) (found i) b)
        ],
        λ h. (iff j).1 (elim h [
          | inl a ↦ inl ((kick_each-closed bytes list l j).1 (inl a))
          | inr (i, e, b) ↦ elim (Bool-cases (id ==ℤ i)) [
            | inl here ↦ inl (
                (kick_each-closed bytes list l j).1
                  (inr (subst (λ z. IsHeld j (or_new (find z l))) (sym ((==ℤ_iff id i).0 here)) b)))
            | inr there ↦ inr (i, rw there at e, subst (λ o. IsHeld j (or_new o)) (sym (found i)) b)
          ]
        ]),
      ),
    )

-- The ids of the phones fit an int64.
trans_id-IsInt64 : (n : ℕ) → IsUserId (pos n) → All IsInt64 (trans_id (pos n))
trans_id-IsInt64 n h =
    subst (λ ids. All IsInt64 ids) (sym (trans_id-ids_from n h))
      (ids_from-All IsInt64 n 15 1 (λ j lo hi.
        subst IsInt64 (sym (phone_id n j h.1 h.2 (omega arith))) (omega (arith, h.1, h.2))))

-- For a user id (a positive int64 multiple of 16) `KickOffline` always returns. It leaves the lists of sessions as
-- they are, and a session is closed afterwards exactly when it was closed before or has the id of a phone of
-- this user.
pub kick_offline_closes :
    (now n : ℕ) (l : SessionList)
    → IsUserId (pos n)
    → (l' : SessionList) × (kick_offline now (pos n) l ≡ done l')
      × (l'.onlined ≡ l.onlined)
      × ((j : ℕ) → IsIn j l'.closed ↔ (IsIn j l.closed ⊎ IsOnPhone n j l))
unfolding kick_offline
kick_offline_closes now n l user =
    let (l', returns, kept, iff) = kick_ids-closed now (trans_id (pos n)) l in
    (
      l',
      returns,
      kept,
      λ j. (
        λ h. elim ((iff j).0 h) [
          | inl a ↦ inl a
          | inr (m, e, held) ↦
              let fits = contains-All IsInt64 (trans_id (pos n)) m (trans_id-IsInt64 n user) e in
              let phone = ((trans_id_iff n m user fits).1).0 e in
              inr (m, fits, phone.0, phone.1, held)
        ],
        λ h. (iff j).1 (elim h [
          | inl a ↦ inl a
          | inr (m, fits, u, ne, held) ↦ inr (m, ((trans_id_iff n m user fits).1).1 (u, ne), held)
        ]),
      ),
    )
