-- ===== src/MsgBus/UserMap/Presence.antt =====
-- msgbus/usermap.go: the user map as an abstract relation, over any series of events.
use slot_golang.Base.{
  ◌≡◌, refl, ◌∙◌, Bool, true, false, ◌&&◌, not, List, [], ◌∷◌, if◌then◌else◌, Bool-cases, inl, inr,
  All,
}
use slot_golang.Base.Int64.{ℤ, IsInt64, ◌==ℤ◌, ==ℤ_iff}
use slot_golang.Base.Maps.{bytes_eq, bytes_eq_iff, lookup, int64_eq}
use slot_golang.Hlist.{Hlist}
use slot_golang.MsgBus.UserMap.{Host, has, UserMap, init_user_map, online, offline, offline_host}
use slot_golang.MsgBus.UserMap.Spec.{
  Distinct, hosts, hosts-online, hosts-offline, hosts-offline_host, has-remove_all,
  remove_all-Distinct,
}

-- What the bus is told: a user went on or off a host, or a host dropped all its users.
pub data Event : Type 0 where
  on off : ℤ → Host → Event
  host_off : Host → Event

-- The relation that the map stands for.
abbrev pub Presence : Type 0
Presence = ℤ → Host → Bool

-- The specification: an event decides about its own user and host, and about nothing else.
unfoldable pub happen : Event → Presence → Presence
happen (on uid host) present u h = if (uid ==ℤ u) && bytes_eq host h then true else present u h
happen (off uid host) present u h = if (uid ==ℤ u) && bytes_eq host h then false else present u h
happen (host_off host) present u h = if bytes_eq host h then false else present u h

unfoldable pub run_spec : List Event → Presence → Presence
run_spec [] present = present
run_spec (ev ∷ evs) present = run_spec evs (happen ev present)

happen_cong :
    (ev : Event) (p q : Presence) (u : ℤ) (h : Host)
    → p u h ≡ q u h
    → happen ev p u h ≡ happen ev q u h
unfolding happen
happen_cong (on uid host) p q u h e = rw e
happen_cong (off uid host) p q u h e = rw e
happen_cong (host_off host) p q u h e = rw e

and_not : (a b : Bool) → a && not b ≡ (if b then false else a)
and_not true true = refl
and_not true false = refl
and_not false true = refl
and_not false false = refl

module _ (hl : Hlist Host) where
  unfoldable pub handle : Event → UserMap hl → UserMap hl
  handle (on uid host) kv = online hl uid host kv
  handle (off uid host) kv = offline hl uid host kv
  handle (host_off host) kv = offline_host hl host kv

  abbrev pub presence : UserMap hl → Presence
  presence kv u h = has h (hosts hl u kv)

  -- No user's list holds a host twice.
  abbrev pub IsClean : UserMap hl → Type 0
  IsClean kv = (u : ℤ) → IsInt64 u → Distinct (hosts hl u kv)

  abbrev pub IsEvent : Event → Type 0
  IsEvent (on uid host) = IsInt64 uid
  IsEvent (off uid host) = IsInt64 uid
  IsEvent (host_off host) = Unit {0}

  online-Distinct :
      (hs : List Host) (host : Host)
      → Distinct hs
      → Distinct (if has host hs then hs else host ∷ hs)
  online-Distinct hs host d = elim (Bool-cases (has host hs)) [
    | inl e ↦ rw e d
    | inr e ↦ rw e (e, d)
  ]

  pub handle-IsClean :
      (ev : Event) (kv : UserMap hl) → IsEvent ev → IsClean kv → IsClean (handle ev kv)
  unfolding handle
  handle-IsClean (on uid host) kv h c u hu =
      rw (hosts-online hl uid u host kv) (elim (Bool-cases (uid ==ℤ u)) [
        | inl e ↦ rw e (online-Distinct (hosts hl uid kv) host (c uid h))
        | inr e ↦ rw e (c u hu)
      ])
  handle-IsClean (off uid host) kv h c u hu =
      rw (hosts-offline hl uid u host kv (c uid h)) (elim (Bool-cases (uid ==ℤ u)) [
        | inl e ↦ rw e (remove_all-Distinct host (hosts hl uid kv) (c uid h))
        | inr e ↦ rw e (c u hu)
      ])
  handle-IsClean (host_off host) kv h c u hu =
      rw (hosts-offline_host hl u host kv hu (c u hu))
        (remove_all-Distinct host (hosts hl u kv) (c u hu))

  has-online :
      (hs : List Host) (host h : Host)
      → has h (if has host hs then hs else host ∷ hs) ≡ (if bytes_eq host h then true else has h hs)
  unfolding has
  has-online hs host h = elim (Bool-cases (bytes_eq host h)) [
    | inl same ↦ rw (same, (bytes_eq_iff host h).0 same) (listed hs h)
    | inr differ ↦ elim (Bool-cases (has host hs)) [
      | inl e ↦ rw (e, differ)
      | inr e ↦ rw (e, differ)
    ]
  ]
    where
      listed : (hs : List Host) (h : Host) → has h (if has h hs then hs else h ∷ hs) ≡ true
      listed hs h = elim (Bool-cases (has h hs)) [
        | inl e ↦ rw e e
        | inr e ↦ rw (e, (bytes_eq_iff h h).1 refl)
      ]

  -- One event changes the map exactly as it changes the relation.
  presence-handle :
      (ev : Event) (kv : UserMap hl)
      → IsEvent ev
      → IsClean kv
      → (u : ℤ) → IsInt64 u
      → (h : Host) → presence (handle ev kv) u h ≡ happen ev (presence kv) u h
  unfolding handle happen
  presence-handle (on uid host) kv he c u hu h =
      rw (hosts-online hl uid u host kv) (elim (Bool-cases (uid ==ℤ u)) [
        | inl e ↦ rw (e, ← (==ℤ_iff uid u).0 e) (has-online (hosts hl uid kv) host h)
        | inr e ↦ rw e
      ])
  presence-handle (off uid host) kv he c u hu h =
      rw (hosts-offline hl uid u host kv (c uid he)) (elim (Bool-cases (uid ==ℤ u)) [
        | inl e ↦
            rw (e, ← (==ℤ_iff uid u).0 e, has-remove_all host h (hosts hl uid kv)) (and_not _ _)
        | inr e ↦ rw e
      ])
  presence-handle (host_off host) kv he c u hu h =
      rw (hosts-offline_host hl u host kv hu (c u hu), has-remove_all host h (hosts hl u kv))
        (and_not _ _)

  unfoldable pub run : List Event → UserMap hl → UserMap hl
  run [] kv = kv
  run (ev ∷ evs) kv = run evs (handle ev kv)

  pub run-refines :
      (evs : List Event) (kv : UserMap hl) (present : Presence)
      → All IsEvent evs
      → IsClean kv
      → ((u : ℤ) → IsInt64 u → (h : Host) → presence kv u h ≡ present u h)
      → IsClean (run evs kv)
        × ((u : ℤ) → IsInt64 u → (h : Host) → presence (run evs kv) u h ≡ run_spec evs present u h)
  unfolding run run_spec
  run-refines [] kv present he c same = (c, same)
  run-refines (ev ∷ evs) kv present he c same =
      run-refines evs (handle ev kv) (happen ev present) he.1 (handle-IsClean ev kv he.0 c)
        (λ u hu h.
          presence-handle ev kv he.0 c u hu h
          ∙ happen_cong ev (presence kv) present u h (same u hu h))

  -- After any series of online, offline and host-offline events from the empty map, no list holds a
  -- host twice, and a host is in a user's list exactly when the relation of the specification says so:
  -- whichever way the linked list's `Next` treats a removed element.
  pub user_map_refines :
      (evs : List Event) (u : ℤ) (h : Host)
      → All IsEvent evs
      → IsInt64 u
      → Distinct (hosts hl u (run evs (init_user_map hl)))
        × (presence (run evs (init_user_map hl)) u h ≡ run_spec evs (λ _ _. false) u h)
  user_map_refines evs u h he hu =
      let (clean, same) =
        run-refines evs (init_user_map hl) (λ _ _. false) he (λ u hu. unfold lookup in tt)
          (λ u hu h. unfold lookup has in refl) in
      (clean u hu, same u hu h)
