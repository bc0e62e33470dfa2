-- ===== src/MsgBus/UserMap/Spec.antt =====
-- msgbus/usermap.go: the operations against the relation "this user is on this host".
use slot_golang.Base.{
  suc, ◌≡◌, refl, ap, sym, ◌∙◌, subst, Bool, true, false, ◌&&◌, not, List, [], ◌∷◌, Option, none,
  some, ltb, ◌==◌, if◌then◌else◌, arith, Bool-cases, Option-cases, inl, inr, length, lt→ltb, ==_iff,
}
use mathlib.Core.Bool.{false≢true}
use slot_golang.Base.Int64.{ℤ, IsInt64, ◌==ℤ◌, ==ℤ_iff}
use slot_golang.Base.Maps.{
  string_eq, int64_eq, bytes_eq, bytes_eq_iff, lookup-insert, lookup-map_values,
}
use slot_golang.Hlist.{Hlist, sweep, remove_first, remove_all}
use slot_golang.Hlist.Sweep.{swept, values-sweep}
use slot_golang.Comet.Ids.Blocks.{get_block_id_bounds}
use slot_golang.MsgBus.UserMap.{
  Host, has, block_of, UserMap, find, store, found_or_new, online, offline, offline_host,
}

-- No host twice.
abbrev pub Distinct : List Host → Type 0
Distinct [] = Unit {0}
Distinct (h ∷ hosts) = (has h hosts ≡ false) × Distinct hosts

abbrev pub is_host : Host → Host → Bool
is_host host h = bytes_eq h host

remove_all_absent :
    (host : Host) (hosts : List Host)
    → has host hosts ≡ false
    → remove_all (is_host host) hosts ≡ hosts
unfolding has remove_all
remove_all_absent host [] e = refl
remove_all_absent host (h ∷ hosts) e = elim (Bool-cases (bytes_eq h host)) [
  | inl hit ↦ absurd (false≢true (sym (rw hit at e)))
  | inr miss ↦ rw miss (ap (◌∷◌ h) (remove_all_absent host hosts (rw miss at e)))
]

-- Where no host is listed twice, both behaviours of the walk remove the host and nothing else.
swept-remove_all :
    (last : Bool) (host : Host) (hosts : List Host)
    → Distinct hosts
    → swept (is_host host) last hosts ≡ remove_all (is_host host) hosts
unfolding swept remove_first remove_all
swept-remove_all false host hosts d = refl
swept-remove_all true host [] d = refl
swept-remove_all true host (h ∷ hosts) d = elim (Bool-cases (bytes_eq h host)) [
  | inl hit ↦ rw hit (
      sym (
        remove_all_absent host hosts
          (subst (λ (x : Host). has x hosts ≡ false) ((bytes_eq_iff h host).0 hit) d.0)))
  | inr miss ↦ rw miss (ap (◌∷◌ h) (swept-remove_all true host hosts d.1))
]

pub has-remove_all :
    (host other : Host) (hosts : List Host)
    → has other (remove_all (is_host host) hosts) ≡ has other hosts && not (bytes_eq host other)
unfolding has remove_all
has-remove_all host other [] = refl
has-remove_all host other (h ∷ hosts) = ground (
  arith,
  has-remove_all host other hosts,
  bytes_eq_iff h host,
  bytes_eq_iff h other,
  bytes_eq_iff host other,
)

pub remove_all-Distinct :
    (host : Host) (hosts : List Host) → Distinct hosts → Distinct (remove_all (is_host host) hosts)
unfolding remove_all
remove_all-Distinct host [] d = tt
remove_all-Distinct host (h ∷ hosts) d =
    ground (arith, has-remove_all host h hosts, remove_all-Distinct host hosts d.1)

module _ (hl : Hlist Host) where
  open hl use {
    Carrier, new, push_front, values, len, removed_has_no_next, values-new, values-push_front,
    len_values,
  }

  abbrev pub hosts_of : Option Carrier → List Host
  hosts_of none = []
  hosts_of (some h) = values h

  -- The hosts that the map holds for a user.
  abbrev pub hosts : ℤ → UserMap hl → List Host
  hosts uid kv = hosts_of (find hl uid kv)

  find-store :
      (uid other : ℤ) (h : Carrier) (kv : UserMap hl)
      → find hl other (store hl uid h kv) ≡ (if uid ==ℤ other then some h else find hl other kv)
  unfolding store
  find-store uid other h kv = elim (Bool-cases (block_of other == block_of uid)) [
    | inl e ↦ rw e (lookup-insert uid other h (kv (block_of other)))
    | inr e ↦ elim (Bool-cases (uid ==ℤ other)) [
      | inl same ↦ absurd (
          false≢true (
            sym (
              rw ((==ℤ_iff uid other).0 same, (==_iff (block_of other) (block_of other)).1 refl) at
                e)))
      | inr differ ↦ rw (e, differ)
    ]
  ]

  pub values-found_or_new : (o : Option Carrier) → values (found_or_new hl o) ≡ hosts_of o
  values-found_or_new none = values-new
  values-found_or_new (some h) = refl

  has-guard :
      (h : Carrier) (host : Host)
      → (if ltb 0 (len h) then has host (values h) else false) ≡ has host (values h)
  unfolding has
  has-guard h host = rw (len_values h) (guarded (values h))
    where
      guarded : (hs : List Host) → (if ltb 0 (length hs) then has host hs else false) ≡ has host hs
      guarded [] = refl
      guarded (x ∷ hs) = rw (lt→ltb 0 (suc (length hs)) (omega arith))

  pub hosts-store :
      (uid other : ℤ) (h : Carrier) (kv : UserMap hl)
      → hosts other (store hl uid h kv) ≡ (if uid ==ℤ other then values h else hosts other kv)
  hosts-store uid other h kv = elim (Bool-cases (uid ==ℤ other)) [
    | inl same ↦ ap hosts_of (find-store uid other h kv) ∙ rw same
    | inr differ ↦ ap hosts_of (find-store uid other h kv) ∙ rw differ
  ]

  values-choice :
      (b : Bool) (host : Host) (h : Carrier)
      → values (if b then h else push_front host h) ≡ (if b then values h else host ∷ values h)
  values-choice true host h = refl
  values-choice false host h = values-push_front host h

  -- `Online` adds the host in front unless it is listed.
  pub hosts-online :
      (uid other : ℤ) (host : Host) (kv : UserMap hl)
      → hosts other (online hl uid host kv) ≡ (
          if uid ==ℤ other
          then (if has host (hosts uid kv) then hosts uid kv else host ∷ hosts uid kv)
          else hosts other kv)
  unfolding online
  hosts-online uid other host kv =
      let h = found_or_new hl (find hl uid kv) in
      hosts-store uid other
        (if (if ltb 0 (len h) then has host (values h) else false) then h else push_front host h) kv
      ∙ rw (
        has-guard h host,
        values-choice (has host (values h)) host h,
        values-found_or_new (find hl uid kv),
      )

  offline_missing :
      (uid : ℤ) (host : Host) (kv : UserMap hl)
      → find hl uid kv ≡ none
      → offline hl uid host kv ≡ kv
  unfolding offline
  offline_missing uid host kv e = rw (offline, e)

  offline_found :
      (uid : ℤ) (host : Host) (kv : UserMap hl) (h : Carrier)
      → find hl uid kv ≡ some h
      → offline hl uid host kv ≡ store hl uid (sweep hl (is_host host) h).0 kv
  unfolding offline
  offline_found uid host kv h e = rw (offline, e)

  values-swept :
      (host : Host) (h : Carrier)
      → Distinct (values h)
      → values (sweep hl (is_host host) h).0 ≡ remove_all (is_host host) (values h)
  values-swept host h d =
      values-sweep hl (is_host host) h ∙ swept-remove_all removed_has_no_next host (values h) d

  -- `Offline` removes the host from the user's list and leaves the other users alone.
  pub hosts-offline :
      (uid other : ℤ) (host : Host) (kv : UserMap hl)
      → Distinct (hosts uid kv)
      → hosts other (offline hl uid host kv)
        ≡ (if uid ==ℤ other then remove_all (is_host host) (hosts uid kv) else hosts other kv)
  hosts-offline uid other host kv d = elim (Option-cases (find hl uid kv)) [
    | inl e ↦ ap (hosts other) (offline_missing uid host kv e) ∙ elim (Bool-cases (uid ==ℤ other)) [
      | inl same ↦ rw (same, ← (==ℤ_iff uid other).0 same, e) (unfold remove_all in refl)
      | inr differ ↦ rw differ
    ]
    | inr (h, e) ↦
        ap (hosts other) (offline_found uid host kv h e)
        ∙ hosts-store uid other (sweep hl (is_host host) h).0 kv
        ∙ rw (e, values-swept host h (rw e at d))
  ]

  sweep_all : Host → Option Carrier → Option Carrier
  sweep_all host o = elim o [ none ↦ none | some h ↦ some (sweep hl (is_host host) h).0 ]

  hosts-sweep_all :
      (host : Host) (o : Option Carrier)
      → Distinct (hosts_of o)
      → hosts_of (sweep_all host o) ≡ remove_all (is_host host) (hosts_of o)
  unfolding sweep_all
  hosts-sweep_all host none d = unfold remove_all in refl
  hosts-sweep_all host (some h) d = values-swept host h d

  in_range : (uid : ℤ) → IsInt64 uid → ltb (block_of uid) 128 ≡ true
  in_range uid h = let (b, e, lt) = get_block_id_bounds uid h in rw e (lt→ltb b 128 lt)

  -- `OfflineHost` removes the host from every user's list.
  pub hosts-offline_host :
      (other : ℤ) (host : Host) (kv : UserMap hl)
      → IsInt64 other
      → Distinct (hosts other kv)
      → hosts other (offline_host hl host kv) ≡ remove_all (is_host host) (hosts other kv)
  unfolding offline_host sweep_all
  hosts-offline_host other host kv int d = rw (in_range other int) (
      ap hosts_of
        (lookup-map_values (λ h. (sweep hl (is_host host) h).0) other (kv (block_of other)))
      ∙ hosts-sweep_all host (find hl other kv) d)
