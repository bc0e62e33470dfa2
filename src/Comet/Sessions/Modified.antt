-- ===== src/Comet/Sessions/Modified.antt =====
-- comet/redis.go: `HandleModifiedPasswd`. The calls of `KickOffline`, each a goroutine, run one after the other.
use slot_golang.Base.{
  ℕ, ◌≡◌, ◌↔◌, ◌⊎◌, inl, inr, refl, ap, sym, ◌∙◌, subst, Bool, true, false, List, [], ◌∷◌, All,
}
use slot_golang.Base.Decimal.{parse_int}
use slot_golang.Base.Int64.{ℤ, pos, negsuc}
use slot_golang.Base.Maps.{int64_eq, lookup}
use slot_golang.Base.Run.{Run, done, ◌>>=◌}
use slot_golang.Comet.Ids.Phones.{IsUserId}
use slot_golang.Comet.Sessions.{Session, SessionList, find, block_of, or_new, kick_offline}
use slot_golang.Comet.Sessions.Kicked.{IsIn, IsHeld, IsOnPhone, kick_offline_closes}

abbrev pub kick_parsed : ℕ → ℤ × Bool → SessionList → Run SessionList
kick_parsed now (uid, true) l = kick_offline now uid l
kick_parsed now (uid, false) l = done l

-- A nil text is skipped like one that is no number.
unfoldable pub handle_modified_passwd : ℕ → List (List ℕ) → SessionList → Run SessionList
handle_modified_passwd now [] l = done l
handle_modified_passwd now (text ∷ texts) l = do
  l' ← kick_parsed now (parse_int text) l
  handle_modified_passwd now texts l'

-- A text that is no number, or a user id.
abbrev pub IsNotice : ℤ × Bool → Type 0
IsNotice (uid, true) = IsUserId uid
IsNotice (uid, false) = Unit {0}

-- The session with the number j is on a phone of the user of a text.
abbrev pub IsMeant : ℕ → SessionList → ℤ × Bool → Type 0
IsMeant j l (pos n, true) = IsOnPhone n j l
IsMeant j l (negsuc n, true) = ⊥
IsMeant j l (uid, false) = ⊥

abbrev pub IsMeantByAny : ℕ → SessionList → List (List ℕ) → Type 0
IsMeantByAny j l [] = ⊥
IsMeantByAny j l (text ∷ texts) = IsMeant j l (parse_int text) ⊎ IsMeantByAny j l texts

IsOnPhone-onlined :
    (n j : ℕ) (l k : SessionList) → l.onlined ≡ k.onlined → IsOnPhone n j l → IsOnPhone n j k
unfolding find
IsOnPhone-onlined n j l k e (m, fits, u, ne, held) =
    let found : find m l ≡ find m k =
      ap (λ (o : ℕ → List (ℤ × List Session)). lookup m (o (block_of m))) e in
    (m, fits, u, ne, subst (λ o. IsHeld j (or_new o)) found held)

IsMeant-onlined :
    (j : ℕ) (l k : SessionList) (p : ℤ × Bool)
    → l.onlined ≡ k.onlined
    → IsMeant j l p
    → IsMeant j k p
IsMeant-onlined j l k (pos n, true) e h = IsOnPhone-onlined n j l k e h
IsMeant-onlined j l k (negsuc n, true) e h = absurd h
IsMeant-onlined j l k (pos n, false) e h = absurd h
IsMeant-onlined j l k (negsuc n, false) e h = absurd h

IsMeantByAny-onlined :
    (j : ℕ) (l k : SessionList) (texts : List (List ℕ))
    → l.onlined ≡ k.onlined
    → IsMeantByAny j l texts
    → IsMeantByAny j k texts
IsMeantByAny-onlined j l k [] e h = absurd h
IsMeantByAny-onlined j l k (text ∷ texts) e (inl h) =
    inl (IsMeant-onlined j l k (parse_int text) e h)
IsMeantByAny-onlined j l k (text ∷ texts) e (inr h) = inr (IsMeantByAny-onlined j l k texts e h)

kick_parsed-closes :
    (now : ℕ) (p : ℤ × Bool) (l : SessionList)
    → IsNotice p
    → (l' : SessionList) × (kick_parsed now p l ≡ done l')
      × (l'.onlined ≡ l.onlined)
      × ((j : ℕ) → IsIn j l'.closed ↔ (IsIn j l.closed ⊎ IsMeant j l p))
kick_parsed-closes now (pos n, true) l h = kick_offline_closes now n l h
kick_parsed-closes now (negsuc n, true) l h = absurd h
kick_parsed-closes now (pos n, false) l h =
    (l, refl, refl, λ j. (λ a. inl a, λ a. elim a [ inl b ↦ b | inr b ↦ absurd b ]))
kick_parsed-closes now (negsuc n, false) l h =
    (l, refl, refl, λ j. (λ a. inl a, λ a. elim a [ inl b ↦ b | inr b ↦ absurd b ]))

-- Of any texts, each of which is no decimal int64 or is that of a user id (a positive int64 multiple of 16),
-- `HandleModifiedPasswd` handles all. It leaves the lists of sessions as they are, and a session is closed
-- afterwards exactly when it was closed before or has the id of a phone of one of these users.
pub modified_passwd_closes :
    (now : ℕ) (texts : List (List ℕ)) (l : SessionList)
    → All (λ text. IsNotice (parse_int text)) texts
    → (l' : SessionList) × (handle_modified_passwd now texts l ≡ done l')
      × (l'.onlined ≡ l.onlined)
      × ((j : ℕ) → IsIn j l'.closed ↔ (IsIn j l.closed ⊎ IsMeantByAny j l texts))
unfolding handle_modified_passwd
modified_passwd_closes now [] l h =
    (l, refl, refl, λ j. (λ a. inl a, λ a. elim a [ inl b ↦ b | inr b ↦ absurd b ]))
modified_passwd_closes now (text ∷ texts) l (notice, h) =
    let (k, kicked, same, first) = kick_parsed-closes now (parse_int text) l notice in
    let (l', returns, kept, rest) = modified_passwd_closes now texts k h in
    (
      l',
      rw kicked returns,
      kept ∙ same,
      λ j. (
        λ a. elim ((rest j).0 a) [
          | inl b ↦ elim ((first j).0 b) [ inl c ↦ inl c | inr c ↦ inr (inl c) ]
          | inr b ↦ inr (inr (IsMeantByAny-onlined j k l texts same b))
        ],
        λ a. (rest j).1 (elim a [
          | inl b ↦ inl ((first j).1 (inl b))
          | inr (inl b) ↦ inl ((first j).1 (inr b))
          | inr (inr b) ↦ inr (IsMeantByAny-onlined j l k texts (sym same) b)
        ]),
      ),
    )
