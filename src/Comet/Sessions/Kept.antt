-- ===== src/Comet/Sessions/Kept.antt =====
-- comet/session.go: what the list of sessions holds.
use slot_golang.Base.{
  ◌≡◌, refl, ap, sym, ◌∙◌, subst, Bool, true, false, List, [], ◌∷◌, Option, none, some, ◌==◌,
  ==_iff, if◌then◌else◌, Bool-cases, Option-cases, inl, inr,
}
use mathlib.Core.Bool.{false≢true}
use slot_golang.Base.Int64.{ℤ, ◌==ℤ◌, ==ℤ_iff, ==ℤ_refl}
use slot_golang.Base.Maps.{int64_eq, lookup, insert, delete, lookup-insert, lookup-delete}
use slot_golang.Comet.Sessions.{
  Session, SessionList, block_of, find, in_block, store, drop_id, or_new, init_session_list,
  add_session, remove, put_back, remove_found, remove_session,
}

find-in_block :
    (uid other : ℤ) (f : List (ℤ × List Session) → List (ℤ × List Session))
    (o : Option (List Session)) (l : SessionList)
    → ((m : List (ℤ × List Session))
        → lookup other (f m) ≡ (if uid ==ℤ other then o else lookup other m))
    → find other (in_block uid f l) ≡ (if uid ==ℤ other then o else find other l)
unfolding find
find-in_block uid other f o l h = elim (Bool-cases (block_of other == block_of uid)) [
  | inl e ↦ rw e (h (l.onlined (block_of other)))
  | inr e ↦ elim (Bool-cases (uid ==ℤ other)) [
    | inl same ↦ absurd (
        false≢true (
          sym (
            rw ((==ℤ_iff uid other).0 same, (==_iff (block_of other) (block_of other)).1 refl) at
              e)))
    | inr differ ↦ rw (e, differ) refl
  ]
]

pub find-store :
    (uid other : ℤ) (list : List Session) (l : SessionList)
    → find other (store uid list l) ≡ (if uid ==ℤ other then some list else find other l)
unfolding store
find-store uid other list l =
    find-in_block uid other (insert uid list) (some list) l (lookup-insert uid other list)

pub find-drop_id :
    (uid other : ℤ) (l : SessionList)
    → find other (drop_id uid l) ≡ (if uid ==ℤ other then none else find other l)
unfolding drop_id
find-drop_id uid other l = find-in_block uid other (delete uid) none l (lookup-delete uid other)

-- An id that the maps hold has a session.
abbrev pub HasSession : Option (List Session) → Type 0
HasSession none = Unit {0}
HasSession (some []) = ⊥
HasSession (some (s ∷ list)) = Unit {0}

abbrev pub IsTidy : SessionList → Type 0
IsTidy l = (u : ℤ) → HasSession (find u l)

choice-HasSession :
    (b : Bool) (o p : Option (List Session))
    → HasSession o
    → HasSession p
    → HasSession (if b then o else p)
choice-HasSession true o p h k = h
choice-HasSession false o p h k = k

add_session-IsTidy : (s : Session) (l : SessionList) → IsTidy l → IsTidy (add_session s l)
unfolding add_session
add_session-IsTidy s l h u =
    subst HasSession (sym (find-store s.uid u (s ∷ or_new (find s.uid l)) l))
      (choice-HasSession (s.uid ==ℤ u) (some (s ∷ or_new (find s.uid l))) (find u l) tt (h u))

put_back-IsTidy :
    (uid : ℤ) (list : List Session) (l : SessionList) → IsTidy l → IsTidy (put_back uid list l)
put_back-IsTidy uid [] l h u =
    subst HasSession (sym (find-drop_id uid u l))
      (choice-HasSession (uid ==ℤ u) none (find u l) tt (h u))
put_back-IsTidy uid (s ∷ list) l h u =
    subst HasSession (sym (find-store uid u (s ∷ list) l))
      (choice-HasSession (uid ==ℤ u) (some (s ∷ list)) (find u l) tt (h u))

remove_session-IsTidy : (s : Session) (l : SessionList) → IsTidy l → IsTidy (remove_session s l)
unfolding remove_session find
remove_session-IsTidy s l h = elim (Option-cases (find s.uid l)) [
  | inl e ↦ rw e h
  | inr (list, e) ↦
      rw e
        (put_back-IsTidy s.uid (remove s.number list) (record l { closed = s.number ∷ l.closed }) h)
]

-- A phone or device comes and goes.
pub data Visit : Type 0 where
  comes goes : Session → Visit

unfoldable pub run : List Visit → SessionList → SessionList
run [] l = l
run (comes s ∷ visits) l = run visits (add_session s l)
run (goes s ∷ visits) l = run visits (remove_session s l)

run-IsTidy : (visits : List Visit) (l : SessionList) → IsTidy l → IsTidy (run visits l)
unfolding run
run-IsTidy [] l h = h
run-IsTidy (comes s ∷ visits) l h = run-IsTidy visits (add_session s l) (add_session-IsTidy s l h)
run-IsTidy (goes s ∷ visits) l h =
    run-IsTidy visits (remove_session s l) (remove_session-IsTidy s l h)

-- After any series of `AddSession` and `RemoveSession`, in which a session may be removed that was never added or
-- removed twice, the maps hold no id without a session: that `CalcDestIds` finds an id means that it has one.
pub sessions-IsTidy : (visits : List Visit) → IsTidy (run visits init_session_list)
sessions-IsTidy visits = run-IsTidy visits init_session_list (λ u. unfold find lookup in tt)

remove_front : (s : Session) (list : List Session) → remove s.number (s ∷ list) ≡ list
unfolding remove
remove_front s list = rw ((==_iff s.number s.number).1 refl) refl

abbrev as_found : List Session → Option (List Session)
as_found [] = none
as_found (s ∷ list) = some (s ∷ list)

find-put_back :
    (uid u : ℤ) (list : List Session) (l : SessionList)
    → find u (put_back uid list l) ≡ (if uid ==ℤ u then as_found list else find u l)
find-put_back uid u [] l = find-drop_id uid u l
find-put_back uid u (s ∷ list) l = find-store uid u (s ∷ list) l

as_found-or_new : (o : Option (List Session)) → HasSession o → as_found (or_new o) ≡ o
as_found-or_new none h = refl
as_found-or_new (some []) h = absurd h
as_found-or_new (some (s ∷ list)) h = refl

-- The state with the connection of a session closed.
abbrev hung_up : Session → SessionList → SessionList
hung_up s l = record l { closed = s.number ∷ l.closed }

find-add_session :
    (s : Session) (l : SessionList) (u : ℤ)
    → find u (add_session s l)
      ≡ (if s.uid ==ℤ u then some (s ∷ or_new (find s.uid l)) else find u l)
unfolding add_session
find-add_session s l u = find-store s.uid u (s ∷ or_new (find s.uid l)) l

find_added :
    (s : Session) (l : SessionList)
    → find s.uid (add_session s l) ≡ some (s ∷ or_new (find s.uid l))
find_added s l = find-add_session s l s.uid ∙ rw (==ℤ_refl s.uid) refl

removed_added :
    (s : Session) (l : SessionList)
    → remove_session s (add_session s l)
      ≡ put_back s.uid (or_new (find s.uid l)) (hung_up s (add_session s l))
unfolding remove_session
removed_added s l =
    ap (λ o. remove_found s o (hung_up s (add_session s l))) (find_added s l)
    ∙ ap (λ list. put_back s.uid list (hung_up s (add_session s l)))
        (remove_front s (or_new (find s.uid l)))

put_back-closed :
    (uid : ℤ) (list : List Session) (l : SessionList) → (put_back uid list l).closed ≡ l.closed
unfolding drop_id store
put_back-closed uid [] l = refl
put_back-closed uid (s ∷ list) l = refl

find-hung_up : (s : Session) (l : SessionList) (u : ℤ) → find u (hung_up s l) ≡ find u l
unfolding find
find-hung_up s l u = refl

add_session-closed : (s : Session) (l : SessionList) → (add_session s l).closed ≡ l.closed
unfolding add_session store
add_session-closed s l = refl

found_again :
    (s : Session) (l : SessionList) (u : ℤ) (b : Bool)
    → IsTidy l
    → (s.uid ==ℤ u) ≡ b
    → (if b
        then as_found (or_new (find s.uid l))
        else (if b then some (s ∷ or_new (find s.uid l)) else find u l))
      ≡ find u l
found_again s l u true h e =
    as_found-or_new (find s.uid l) (h s.uid) ∙ ap (λ x. find x l) ((==ℤ_iff s.uid u).0 e)
found_again s l u false h e = refl

-- A session that was just added and is removed again leaves the sessions of every id as they were, where the maps
-- hold no id without a session; its connection is closed.
pub remove_session-add_session :
    (s : Session) (l : SessionList) (u : ℤ)
    → IsTidy l
    → (find u (remove_session s (add_session s l)) ≡ find u l)
      × ((remove_session s (add_session s l)).closed ≡ s.number ∷ l.closed)
remove_session-add_session s l u h =
    let old = or_new (find s.uid l) in
    (
      ap (find u) (removed_added s l)
          ∙ find-put_back s.uid u old (hung_up s (add_session s l))
          ∙ rw (find-hung_up s (add_session s l) u, find-add_session s l u)
              (found_again s l u (s.uid ==ℤ u) h refl),
      ap (λ x. x.closed) (removed_added s l)
          ∙ put_back-closed s.uid old (hung_up s (add_session s l))
          ∙ ap (◌∷◌ s.number) (add_session-closed s l),
    )
