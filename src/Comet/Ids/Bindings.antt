-- ===== src/Comet/Ids/Bindings.antt =====
-- comet/session.go, comet/udp_session.go: what `UpdateIds` does to a list of bound ids.
use slot_golang.Base.{
  ℕ, zero, suc, ◌+◌, ◌-◌, ◌≡◌, refl, ap, sym, ◌∙◌, Bool, true, false, List, [], ◌∷◌, ◌++◌, none,
  some, some_inj, arith, length, take, set, get_elem?, if◌then◌else◌, Bool-cases, inl, inr,
  length-set, or_true,
}
use mathlib.Core.Bool.{false≢true, ◌&&◌}
use mathlib.Core.Option
use slot_golang.Base.Int64.{ℤ, ◌==ℤ◌, ==ℤ_iff, ==ℤ_refl}
use slot_golang.Comet.Ids.{contains, index_of, swap_remove, update_bindings}

-- 1 for the id itself, 0 for another.
abbrev one_if : Bool → ℕ
one_if b = if b then 1 else 0

-- How often an id stands in a list.
abbrev pub count : ℤ → List ℤ → ℕ
count x [] = 0
count x (v ∷ ids) = one_if (v ==ℤ x) + count x ids

count-append : (x : ℤ) (xs ys : List ℤ) → count x (xs ++ ys) ≡ count x xs + count x ys
count-append x [] ys = omega arith
count-append x (v ∷ xs) ys = omega (arith, count-append x xs ys)

count-set :
    (x : ℤ) (ids : List ℤ) (k : ℕ) (old new : ℤ)
    → get_elem? ids k ≡ some old
    → count x (set ids k new) + one_if (old ==ℤ x) ≡ count x ids + one_if (new ==ℤ x)
count-set x [] k old new e = cc
count-set x (v ∷ ids) zero old new e = rw (some_inj e) (omega arith)
count-set x (v ∷ ids) (suc k) old new e = omega (arith, count-set x ids k old new e)

count-drop_last :
    (x : ℤ) (ids : List ℤ) (n : ℕ) (last : ℤ)
    → length ids ≡ suc n
    → get_elem? ids n ≡ some last
    → count x (take n ids) + one_if (last ==ℤ x) ≡ count x ids
count-drop_last x [] n last h e = absurd (omega arith)
count-drop_last x (v ∷ []) zero last h e = rw (some_inj e) (omega arith)
count-drop_last x (v ∷ []) (suc n) last h e = absurd (omega arith)
count-drop_last x (v ∷ w ∷ ids) zero last h e = absurd (omega arith)
count-drop_last x (v ∷ w ∷ ids) (suc n) last h e =
    omega (arith, count-drop_last x (w ∷ ids) n last (omega arith) e)

index_of_hit : (id v : ℤ) (ids : List ℤ) → (v ==ℤ id) ≡ true → index_of id (v ∷ ids) ≡ some 0
unfolding index_of
index_of_hit id v ids h = rw h

index_of_miss :
    (id v : ℤ) (ids : List ℤ)
    → (v ==ℤ id) ≡ false
    → index_of id (v ∷ ids) ≡ Option.map suc (index_of id ids)
unfolding index_of
index_of_miss id v ids h = rw h

-- A listed id is found, at a position that holds it.
index_of_listed :
    (id : ℤ) (ids : List ℤ)
    → contains ids id ≡ true
    → (k : ℕ) × (index_of id ids ≡ some k) × (get_elem? ids k ≡ some id)
unfolding contains
index_of_listed id [] h = absurd (false≢true h)
index_of_listed id (v ∷ ids) h = elim (Bool-cases (v ==ℤ id)) [
  | inl hit ↦ (0, index_of_hit id v ids hit, ap some ((==ℤ_iff v id).0 hit))
  | inr miss ↦
      let (k, e, g) = index_of_listed id ids (rw miss at h) in
      (suc k, index_of_miss id v ids miss ∙ rw e, g)
]

index_of_unlisted : (id : ℤ) (ids : List ℤ) → contains ids id ≡ false → index_of id ids ≡ none
unfolding contains
index_of_unlisted id [] h = unfold index_of in refl
index_of_unlisted id (v ∷ ids) h = elim (Bool-cases (v ==ℤ id)) [
  | inl hit ↦ absurd (false≢true (sym (rw hit at h)))
  | inr miss ↦ index_of_miss id v ids miss ∙ rw (index_of_unlisted id ids (rw miss at h))
]

get_elem?-last :
    (ids : List ℤ) (n : ℕ) → length ids ≡ suc n → (last : ℤ) × (get_elem? ids n ≡ some last)
get_elem?-last [] n h = absurd (omega arith)
get_elem?-last (v ∷ ids) zero h = (v, refl)
get_elem?-last (v ∷ ids) (suc n) h = get_elem?-last ids n (omega arith)

get_elem?-set_last :
    (ids : List ℤ) (k n : ℕ) (last : ℤ)
    → get_elem? ids n ≡ some last
    → get_elem? (set ids k last) n ≡ some last
get_elem?-set_last [] k n last e = e
get_elem?-set_last (v ∷ ids) zero zero last e = refl
get_elem?-set_last (v ∷ ids) zero (suc n) last e = e
get_elem?-set_last (v ∷ ids) (suc k) zero last e = e
get_elem?-set_last (v ∷ ids) (suc k) (suc n) last e = get_elem?-set_last ids k n last e

swap_remove-count :
    (x id : ℤ) (ids : List ℤ) (k n : ℕ)
    → length ids ≡ suc n
    → get_elem? ids k ≡ some id
    → count x (swap_remove ids k) + one_if (id ==ℤ x) ≡ count x ids
unfolding swap_remove
swap_remove-count x id ids k n h g =
    let (last, e) = get_elem?-last ids n h in
    let pred : length ids - 1 ≡ n = omega arith in
    rw (swap_remove, pred, e, pred)
      (omega (
        arith,
        count-set x ids k id last g,
        count-drop_last x (set ids k last) n last (omega (arith, length-set ids k last))
            (get_elem?-set_last ids k n last e),
      ))

listed_nonempty : (id : ℤ) (ids : List ℤ) → contains ids id ≡ true → (n : ℕ) × (length ids ≡ suc n)
unfolding contains
listed_nonempty id [] h = absurd (false≢true h)
listed_nonempty id (v ∷ ids) h = (length ids, refl)

unbind_listed :
    (id x : ℤ) (ids : List ℤ)
    → contains ids id ≡ true
    → count x (update_bindings false id ids) + one_if (id ==ℤ x) ≡ count x ids
unfolding update_bindings
unbind_listed id x ids h =
    let (k, e, g) = index_of_listed id ids h in
    let (n, l) = listed_nonempty id ids h in rw e (swap_remove-count x id ids k n l g)

unbind_unlisted :
    (id : ℤ) (ids : List ℤ) → contains ids id ≡ false → update_bindings false id ids ≡ ids
unfolding update_bindings
unbind_unlisted id ids h = rw (index_of_unlisted id ids h)

-- Unbinding an id takes one occurrence of it out of the list, if it is listed, and keeps every other id
-- as often as it was.
pub unbind_count :
    (id x : ℤ) (ids : List ℤ)
    → count x (update_bindings false id ids) + one_if (contains ids id && (id ==ℤ x)) ≡ count x ids
unbind_count id x ids = elim (Bool-cases (contains ids id)) [
  | inl h ↦ rw h (unbind_listed id x ids h)
  | inr h ↦ rw (h, unbind_unlisted id ids h) (omega arith)
]

bind_count :
    (id x : ℤ) (ids : List ℤ)
    → count x (update_bindings true id ids) ≡ count x ids + one_if (id ==ℤ x)
unfolding update_bindings
bind_count id x ids = omega (arith, count-append x ids (id ∷ []))

contains-bind : (id : ℤ) (ids : List ℤ) → contains (ids ++ (id ∷ [])) id ≡ true
unfolding contains
contains-bind id [] = rw (==ℤ_refl id)
contains-bind id (v ∷ ids) = rw (contains-bind id ids) (or_true _)

-- Binding an id and unbinding it again gives back the same ids, each as often.
pub unbind-bind :
    (id x : ℤ) (ids : List ℤ)
    → count x (update_bindings false id (update_bindings true id ids)) ≡ count x ids
unbind-bind id x ids = omega (
  arith,
  unbind_listed id x (update_bindings true id ids) (unfold update_bindings in contains-bind id ids),
  bind_count id x ids,
)
