-- ===== src/Comet/Redis/Counts.antt =====
-- comet/redis.go: the counts under the scripts.
use slot_golang.Base.{
  ◌≡◌, refl, ap, ◌∙◌, Bool, true, false, ◌&&◌, List, Option, none, some, if◌then◌else◌, Bool-cases,
  inl, inr,
}
use slot_golang.Base.Int64.{ℤ, pos, ◌==ℤ◌}
use slot_golang.Base.Maps.{
  string_eq, int64_eq, lookup, insert, delete, lookup-insert, lookup-delete, bytes_eq, bytes_eq_iff,
}
use slot_golang.Comet.Redis.{Host, Hashes, fields_of, or_empty, or_zero, count_of, hset, hdel}

fields_of-insert :
    (host h : Host) (fields : List (ℤ × ℤ)) (hs : Hashes)
    → fields_of h (insert host fields hs) ≡ (if bytes_eq host h then fields else fields_of h hs)
fields_of-insert host h fields hs =
    ap or_empty (lookup-insert host h fields hs) ∙ choice (bytes_eq host h)
  where
    choice :
        (b : Bool)
        → or_empty (if b then some fields else lookup h hs) ≡ (if b then fields else fields_of h hs)
    choice true = refl
    choice false = refl

count_in : ℤ → List (ℤ × ℤ) → ℤ
count_in u fields = or_zero (lookup u fields)

-- A write of the hash of a host changes the counts of that host alone.
count_of-insert :
    (host h : Host) (u : ℤ) (fields : List (ℤ × ℤ)) (hs : Hashes)
    → count_of h u (insert host fields hs)
      ≡ (if bytes_eq host h then count_in u fields else count_of h u hs)
unfolding count_of count_in
count_of-insert host h u fields hs =
    ap (λ (fs : List (ℤ × ℤ)). or_zero (lookup u fs)) (fields_of-insert host h fields hs)
    ∙ choice (bytes_eq host h)
  where
    choice :
        (b : Bool)
        → or_zero (lookup u (if b then fields else fields_of h hs))
          ≡ (if b then or_zero (lookup u fields) else or_zero (lookup u (fields_of h hs)))
    choice true = refl
    choice false = refl

or_zero_choice :
    (b : Bool) (o p : Option ℤ)
    → or_zero (if b then o else p) ≡ (if b then or_zero o else or_zero p)
or_zero_choice true o p = refl
or_zero_choice false o p = refl

nested :
    (host h : Host) (b : Bool) (n u : ℤ) (hs : Hashes)
    → (if bytes_eq host h
        then (if b then n else or_zero (lookup u (fields_of host hs)))
        else count_of h u hs)
      ≡ (if bytes_eq host h && b then n else count_of h u hs)
unfolding count_of
nested host h b n u hs = elim (Bool-cases (bytes_eq host h)) [
  | inl e ↦ rw (e, (bytes_eq_iff host h).0 e)
  | inr e ↦ rw e
]

pub count_of-hset :
    (host h : Host) (uid u n : ℤ) (hs : Hashes)
    → count_of h u (hset host uid n hs)
      ≡ (if bytes_eq host h && (uid ==ℤ u) then n else count_of h u hs)
unfolding hset count_in
count_of-hset host h uid u n hs =
    count_of-insert host h u (insert uid n (fields_of host hs)) hs
    ∙ rw
        (
          lookup-insert uid u n (fields_of host hs),
          or_zero_choice (uid ==ℤ u) (some n) (lookup u (fields_of host hs)),
        )
        (nested host h (uid ==ℤ u) n u hs)

pub count_of-hdel :
    (host h : Host) (uid u : ℤ) (hs : Hashes)
    → count_of h u (hdel host uid hs)
      ≡ (if bytes_eq host h && (uid ==ℤ u) then pos 0 else count_of h u hs)
unfolding hdel count_in
count_of-hdel host h uid u hs =
    count_of-insert host h u (delete uid (fields_of host hs)) hs
    ∙ rw
        (
          lookup-delete uid u (fields_of host hs),
          or_zero_choice (uid ==ℤ u) none (lookup u (fields_of host hs)),
        )
        (nested host h (uid ==ℤ u) (pos 0) u hs)

-- Deleting the hash of a host resets all of its counts.
pub count_of-delete :
    (host h : Host) (u : ℤ) (hs : Hashes)
    → count_of h u (delete host hs) ≡ (if bytes_eq host h then pos 0 else count_of h u hs)
unfolding count_of
count_of-delete host h u hs =
    ap (λ (o : Option (List (ℤ × ℤ))). or_zero (lookup u (or_empty o))) (lookup-delete host h hs)
    ∙ choice (bytes_eq host h)
  where
    choice :
        (b : Bool)
        → or_zero (lookup u (or_empty (if b then none else lookup h hs)))
          ≡ (if b then pos 0 else or_zero (lookup u (fields_of h hs)))
    choice true = unfold lookup in refl
    choice false = refl
