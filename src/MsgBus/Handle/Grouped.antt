-- ===== src/MsgBus/Handle/Grouped.antt =====
-- msgbus/handler.go: which comets a message for several ids goes to.
use slot_golang.Base.{
  ◌≡◌, refl, ap, sym, ◌∙◌, Bool, true, false, ◌&&◌, ◌||◌, List, [], ◌∷◌, Option, none, some,
  if◌then◌else◌, Bool-cases, Option-cases, inl, inr,
}
use slot_golang.Base.Int64.{ℤ, is_pos, ◌==ℤ◌, ==ℤ_iff}
use slot_golang.Base.Maps.{string_eq, lookup, bytes_eq, bytes_eq_iff, lookup-insert}
use slot_golang.Comet.Ids.{contains}
use slot_golang.Hlist.{Hlist}
use slot_golang.MsgBus.UserMap.{Host, has, UserMap, find, copy_reversed, get_user_comet}
use slot_golang.MsgBus.UserMap.Spec.{hosts}
use slot_golang.MsgBus.Handle.{Groups, found_or_new, add_to_group, add_hosts, add_found, group}

module _ (hl : Hlist Host) (il : Hlist ℤ) where
  -- The ids that a comet is sent.
  abbrev pub members : Host → Groups hl il → List ℤ
  members h m = il.values (found_or_new hl il (lookup h m))

  values_choice :
      (b : Bool) (ids : il.Carrier) (o : Option il.Carrier)
      → il.values (found_or_new hl il (if b then some ids else o))
        ≡ (if b then il.values ids else il.values (found_or_new hl il o))
  values_choice true ids o = refl
  values_choice false ids o = refl

  members-add_to_group :
      (id : ℤ) (g h : Host) (m : Groups hl il)
      → members h (add_to_group hl il id g m)
        ≡ (if bytes_eq g h then id ∷ members h m else members h m)
  unfolding add_to_group
  members-add_to_group id g h m =
      ap (λ o. il.values (found_or_new hl il o))
        (lookup-insert g h (il.push_front id (found_or_new hl il (lookup g m))) m)
      ∙ values_choice (bytes_eq g h) (il.push_front id (found_or_new hl il (lookup g m)))
          (lookup h m)
      ∙ elim (Bool-cases (bytes_eq g h)) [
        | inl e ↦
            rw (e, (bytes_eq_iff g h).0 e)
              (il.values-push_front id (found_or_new hl il (lookup h m)))
        | inr e ↦ rw e
      ]

  contains_choice :
      (b : Bool) (id u : ℤ) (ids : List ℤ)
      → contains (if b then id ∷ ids else ids) u ≡ (b && (id ==ℤ u)) || contains ids u
  unfolding contains
  contains_choice true id u ids = refl
  contains_choice false id u ids = refl

  shuffle : (a b c r : Bool) → (a && c) || ((b && c) || r) ≡ ((b || a) && c) || r
  shuffle true true true r = refl
  shuffle true true false r = refl
  shuffle true false true r = refl
  shuffle true false false r = refl
  shuffle false true true r = refl
  shuffle false true false r = refl
  shuffle false false true r = refl
  shuffle false false false r = refl

  members-add_hosts :
      (id u : ℤ) (hs : List Host) (h : Host) (m : Groups hl il)
      → contains (members h (add_hosts hl il id hs m)) u
        ≡ (has h hs && (id ==ℤ u)) || contains (members h m) u
  unfolding add_hosts has
  members-add_hosts id u [] h m = refl
  members-add_hosts id u (g ∷ hs) h m =
      members-add_hosts id u hs h (add_to_group hl il id g m)
      ∙ ap (λ l. (has h hs && (id ==ℤ u)) || contains l u) (members-add_to_group id g h m)
      ∙ ap (λ b. (has h hs && (id ==ℤ u)) || b) (contains_choice (bytes_eq g h) id u (members h m))
      ∙ shuffle (has h hs) (bytes_eq g h) (id ==ℤ u) (contains (members h m) u)

  or_swap : (a b c : Bool) → a || (b || c) ≡ (b || a) || c
  or_swap true true c = refl
  or_swap true false c = refl
  or_swap false true c = refl
  or_swap false false c = refl

  has-copy_reversed :
      (xs : List Host) (copy : hl.Carrier) (h : Host)
      → has h (hl.values (copy_reversed hl xs copy)) ≡ has h xs || has h (hl.values copy)
  unfolding copy_reversed has
  has-copy_reversed [] copy h = refl
  has-copy_reversed (x ∷ xs) copy h =
      has-copy_reversed xs (hl.push_front x copy) h
      ∙ rw (hl.values-push_front x copy)
          (or_swap (has h xs) (bytes_eq x h) (has h (hl.values copy)))

  or_false : (b : Bool) → b || false ≡ b
  or_false true = refl
  or_false false = refl

  -- The copy of a user's list has the same hosts.
  has-copy : (xs : List Host) (h : Host) → has h (hl.values (copy_reversed hl xs hl.new)) ≡ has h xs
  unfolding has
  has-copy xs h = has-copy_reversed xs hl.new h ∙ rw hl.values-new (or_false (has h xs))

  unknown : (id : ℤ) (kv : UserMap hl) → find hl id kv ≡ none → get_user_comet hl id kv ≡ none
  unfolding get_user_comet
  unknown id kv e = rw (get_user_comet, e)

  known :
      (id : ℤ) (kv : UserMap hl) (list : hl.Carrier)
      → find hl id kv ≡ some list
      → get_user_comet hl id kv ≡ some (copy_reversed hl (hl.values list) hl.new)
  unfolding get_user_comet
  known id kv list e = rw (get_user_comet, e)

  members-add_found :
      (id u : ℤ) (kv : UserMap hl) (h : Host) (m : Groups hl il)
      → contains (members h (add_found hl il id (get_user_comet hl id kv) m)) u
        ≡ (has h (hosts hl id kv) && (id ==ℤ u)) || contains (members h m) u
  unfolding has
  members-add_found id u kv h m = elim (Option-cases (find hl id kv)) [
    | inl e ↦ rw (unknown id kv e, e) refl
    | inr (list, e) ↦
        rw (known id kv list e, e)
          (members-add_hosts id u (hl.values (copy_reversed hl (hl.values list) hl.new)) h m
            ∙ ap (λ b. (b && (id ==ℤ u)) || contains (members h m) u) (has-copy (hl.values list) h))
  ]

  own :
      (a c d : Bool) → ((a && true) || c) || ((d && true) && a) ≡ c || (((true || d) && true) && a)
  own true true true = refl
  own true true false = refl
  own true false true = refl
  own true false false = refl
  own false true true = refl
  own false true false = refl
  own false false true = refl
  own false false false = refl

  other : (x c r : Bool) → ((x && false) || c) || r ≡ c || r
  other true c r = refl
  other false c r = refl

  nothing : (c d a : Bool) → c || ((d && false) && a) ≡ c || (((true || d) && false) && a)
  nothing c true a = refl
  nothing c false a = refl

  group-members :
      (ids : List ℤ) (kv : UserMap hl) (m : Groups hl il) (udp_ids : Option il.Carrier) (u : ℤ)
      (h : Host)
      → contains (members h (group hl il ids kv m udp_ids).0) u
        ≡ contains (members h m) u || ((contains ids u && is_pos u) && has h (hosts hl u kv))
  unfolding group contains
  group-members [] kv m udp_ids u h = sym (or_false (contains (members h m) u))
  group-members (id ∷ ids) kv m udp_ids u h =
      group-members ids kv (if is_pos id then add_found hl il id (get_user_comet hl id kv) m else m)
        _ u h
      ∙ elim (Bool-cases (is_pos id)) [
        | inl p ↦
            rw (p, members-add_found id u kv h m)
              (elim (Bool-cases (id ==ℤ u)) [
                | inl e ↦
                    rw (e, ← (==ℤ_iff id u).0 e, p)
                      (own (has h (hosts hl id kv)) (contains (members h m) id) (contains ids id))
                | inr e ↦ rw e (other (has h (hosts hl id kv)) (contains (members h m) u) _)
              ])
        | inr n ↦ rw n (elim (Bool-cases (id ==ℤ u)) [
          | inl e ↦
              rw (e, ← (==ℤ_iff id u).0 e, n)
                (nothing (contains (members h m) id) (contains ids id) _)
          | inr e ↦ rw e refl
        ])
      ]

  -- The groups that `MainHandle` makes of the ids of a message: a comet is sent an id exactly when the id is one of
  -- the message's, is positive, and its user is on that comet by the user map.
  pub group_exact :
      (ids : List ℤ) (kv : UserMap hl) (u : ℤ) (h : Host)
      → contains (members h (group hl il ids kv [] none).0) u
        ≡ ((contains ids u && is_pos u) && has h (hosts hl u kv))
  unfolding contains lookup
  group_exact ids kv u h = group-members ids kv [] none u h ∙ rw il.values-new refl
