-- ===== src/MsgBus/Online/Follows.antt =====
-- msgbus/main.go and comet/redis.go together: who the bus holds to be online.
use slot_golang.Base.{
  ℕ, zero, suc, ◌≡◌, refl, ap, sym, ◌∙◌, Bool, true, false, ◌&&◌, List, [], ◌∷◌, ◌++◌,
  if◌then◌else◌, All, map, Bool-cases, inl, inr, ◌⊎◌, arith, ◌==◌,
}
use slot_golang.Base.Int64.{ℤ, pos, negsuc, IsInt64, is_zero, ◌==ℤ◌, ==ℤ_iff}
use slot_golang.Base.Decimal.{split}
use slot_golang.Base.Format.{
  Without, format_int, parse_int-format_int, format_int-Without, split-append, split-whole,
}
use slot_golang.Base.Maps.{bytes_eq, bytes_eq_iff, lookup, string_eq, delete}
use slot_golang.Base.Run.{done}
use slot_golang.Hlist.{Hlist}
use slot_golang.Comet.Redis.{
  Hashes, set_user_online, set_user_offline, clear_redis, count_of, state_message, increase,
  decrease, hset, hdel,
}
use slot_golang.Comet.Redis.Counts.{count_of-hset, count_of-hdel, count_of-delete}
use slot_golang.MsgBus.UserMap.{Host, has, UserMap, init_user_map, online, offline, offline_host}
use slot_golang.MsgBus.UserMap.Presence.{
  Event, on, off, host_off, Presence, happen, run_spec, handle, presence, IsClean, IsEvent, run,
  run-refines,
}
use slot_golang.MsgBus.Online.{
  handle_fields, handle_online_event, handle_online_events, Call, log_in, log_out, restart, perform,
  perform_all, IsCall, is_positive,
}

-- The text of an event.
abbrev pub message : Event → List ℕ
message (on uid host) = state_message uid host b'1'
message (off uid host) = state_message uid host b'0'
message (host_off host) = state_message (pos 0) host b'0'

abbrev pub IsTold : Event → Type 0
IsTold (on uid host) = IsInt64 uid × Without b'|' host
IsTold (off uid host) = IsInt64 uid × Without b'|' host × (is_zero uid ≡ false)
IsTold (host_off host) = Without b'|' host

split-state_message :
    (uid : ℤ) (host : Host) (state : ℕ)
    → Without b'|' host
    → (state == b'|') ≡ false
    → split b'|' (state_message uid host state) ≡ format_int uid ∷ host ∷ (state ∷ []) ∷ []
split-state_message uid host state h e =
    split-append b'|' (format_int uid) (host ++ (b'|' ∷ state ∷ []))
      (format_int-Without b'|' uid (inr (omega arith)))
    ∙ ap (◌∷◌ (format_int uid)) (
        split-append b'|' host (state ∷ []) h
        ∙ ap (◌∷◌ host) (split-whole b'|' (state ∷ []) (e, tt)))

module _ (hl : Hlist Host) where
  handle_state_message :
      (uid : ℤ) (host : Host) (state : ℕ) (kv : UserMap hl)
      → IsInt64 uid
      → Without b'|' host
      → (state == b'|') ≡ false
      → handle_online_event hl (state_message uid host state) kv ≡ (
          if bytes_eq (state ∷ []) (b'1' ∷ [])
          then done (online hl uid host kv)
          else if is_zero uid
          then done (offline_host hl host kv)
          else done (offline hl uid host kv))
  unfolding handle_online_event
  handle_state_message uid host state kv int clean e =
      ap (λ fields. handle_fields hl fields kv) (split-state_message uid host state clean e)
      ∙ rw (parse_int-format_int uid int)

  handle-message :
      (ev : Event) (kv : UserMap hl)
      → IsTold ev
      → handle_online_event hl (message ev) kv ≡ done (handle hl ev kv)
  unfolding handle bytes_eq
  handle-message (on uid host) kv (int, clean) =
      handle_state_message uid host b'1' kv int clean refl
  handle-message (off uid host) kv (int, clean, e) =
      handle_state_message uid host b'0' kv int clean refl ∙ rw e
  handle-message (host_off host) kv clean =
      handle_state_message (pos 0) host b'0' kv (omega arith) clean refl

  handle-messages :
      (evs : List Event) (kv : UserMap hl) (rest : List (List ℕ))
      → All IsTold evs
      → handle_online_events hl (map message evs ++ rest) kv
        ≡ handle_online_events hl rest (run hl evs kv)
  unfolding handle_online_events run
  handle-messages [] kv rest h = refl
  handle-messages (ev ∷ evs) kv rest h =
      rw (handle-message ev kv h.0) (handle-messages evs (handle hl ev kv) rest h.1)

-- What a call means to the bus.
abbrev call_events : Call → Hashes → List Event
call_events (log_in uid host) hs =
    if increase (count_of host uid hs) ==ℤ pos 1 then on uid host ∷ [] else []
call_events (log_out uid host) hs =
    if is_zero (decrease (count_of host uid hs)) then off uid host ∷ [] else []
call_events (restart host) hs = host_off host ∷ []

map_choice :
    (b : Bool) (ev : Event)
    → (if b then message ev ∷ [] else []) ≡ map message (if b then ev ∷ [] else [])
map_choice true ev = refl
map_choice false ev = refl

perform-messages : (c : Call) (hs : Hashes) → (perform c hs).1 ≡ map message (call_events c hs)
unfolding perform set_user_online set_user_offline clear_redis
perform-messages (log_in uid host) hs =
    map_choice (increase (count_of host uid hs) ==ℤ pos 1) (on uid host)
perform-messages (log_out uid host) hs =
    elim (Bool-cases (is_zero (decrease (count_of host uid hs)))) [
      | inl e ↦ rw e refl
      | inr e ↦ rw e refl
    ]
perform-messages (restart host) hs = refl

told : (c : Call) (hs : Hashes) → IsCall c → All IsTold (call_events c hs)
told (log_in uid host) hs h = elim (Bool-cases (increase (count_of host uid hs) ==ℤ pos 1)) [
  | inl e ↦ rw e (h, tt)
  | inr e ↦ rw e tt
]
told (log_out uid host) hs h = elim (Bool-cases (is_zero (decrease (count_of host uid hs)))) [
  | inl e ↦ rw e (h, tt)
  | inr e ↦ rw e tt
]
told (restart host) hs h = (h, tt)

-- Who has a connection, by the counts.
abbrev connected : Hashes → Presence
connected hs u h = is_positive (count_of h u hs)

first_one :
    (n : ℤ)
    → (increase n ==ℤ pos 1 ≡ true) × (is_positive (increase n) ≡ true)
      ⊎ (increase n ==ℤ pos 1 ≡ false) × (is_positive (increase n) ≡ is_positive n)
unfolding is_positive
first_one (pos zero) = inl (refl, refl)
first_one (pos (suc n)) = inr (ground arith, refl)
first_one (negsuc zero) = inr (refl, refl)
first_one (negsuc (suc n)) = inr (refl, refl)

last_one :
    (n : ℤ)
    → (is_zero (decrease n) ≡ true) × (is_positive (decrease n) ≡ false)
      ⊎ (is_zero (decrease n) ≡ false) × (is_positive (decrease n) ≡ is_positive n)
unfolding is_positive
last_one (pos zero) = inr (refl, refl)
last_one (pos (suc zero)) = inl (refl, refl)
last_one (pos (suc (suc n))) = inr (ground arith, refl)
last_one (negsuc n) = inr (refl, refl)

and_comm : (a b : Bool) → a && b ≡ b && a
and_comm true true = refl
and_comm true false = refl
and_comm false true = refl
and_comm false false = refl

is_positive_choice :
    (b : Bool) (m n : ℤ)
    → is_positive (if b then m else n) ≡ (if b then is_positive m else is_positive n)
is_positive_choice true m n = refl
is_positive_choice false m n = refl

connected-hset :
    (host h : Host) (uid u n : ℤ) (hs : Hashes)
    → connected (hset host uid n hs) u h
      ≡ (if (uid ==ℤ u) && bytes_eq host h then is_positive n else connected hs u h)
connected-hset host h uid u n hs =
    rw (count_of-hset host h uid u n hs, and_comm (bytes_eq host h) (uid ==ℤ u))
      (is_positive_choice ((uid ==ℤ u) && bytes_eq host h) n (count_of h u hs))

connected-hdel :
    (host h : Host) (uid u : ℤ) (hs : Hashes)
    → connected (hdel host uid hs) u h
      ≡ (if (uid ==ℤ u) && bytes_eq host h then false else connected hs u h)
unfolding is_positive
connected-hdel host h uid u hs =
    rw (count_of-hdel host h uid u hs, and_comm (bytes_eq host h) (uid ==ℤ u))
      (is_positive_choice ((uid ==ℤ u) && bytes_eq host h) (pos 0) (count_of h u hs))

-- A count that keeps its sign changes nothing.
same_sign :
    (host h : Host) (uid u n : ℤ) (hs : Hashes)
    → is_positive n ≡ is_positive (count_of host uid hs)
    → connected hs u h ≡ connected (hset host uid n hs) u h
same_sign host h uid u n hs e = elim (Bool-cases (uid ==ℤ u)) [
  | inr other ↦ sym (connected-hset host h uid u n hs ∙ rw other)
  | inl same ↦ elim (Bool-cases (bytes_eq host h)) [
    | inr other ↦ sym (connected-hset host h uid u n hs ∙ rw (same, other))
    | inl here ↦ sym (
        connected-hset host h uid u n hs
        ∙ rw (same, here) (e ∙ rw ((==ℤ_iff uid u).0 same, (bytes_eq_iff host h).0 here)))
  ]
]

settled : (b c : Bool) (m n : Bool) → (if b then c else (if b then m else n)) ≡ (if b then c else n)
settled true c m n = refl
settled false c m n = refl

connected-delete :
    (host h : Host) (u : ℤ) (hs : Hashes)
    → connected (delete host hs) u h ≡ (if bytes_eq host h then false else connected hs u h)
unfolding is_positive
connected-delete host h u hs =
    rw (count_of-delete host h u hs)
      (is_positive_choice (bytes_eq host h) (pos 0) (count_of h u hs))

-- The specification's relation follows the counts through one call.
connected-perform :
    (c : Call) (hs : Hashes) (u : ℤ) (h : Host)
    → run_spec (call_events c hs) (connected hs) u h ≡ connected (perform c hs).0 u h
unfolding perform set_user_online set_user_offline clear_redis run_spec happen is_positive
connected-perform (log_in uid host) hs u h = elim (first_one (count_of host uid hs)) [
  | inl (one, e) ↦
      rw one (sym (connected-hset host h uid u (increase (count_of host uid hs)) hs ∙ rw e))
  | inr (more, e) ↦ rw more (same_sign host h uid u (increase (count_of host uid hs)) hs e)
]
connected-perform (log_out uid host) hs u h = elim (last_one (count_of host uid hs)) [
  | inl (one, e) ↦ rw one (
      sym (
        connected-hdel host h uid u (hset host uid (decrease (count_of host uid hs)) hs)
        ∙ rw (connected-hset host h uid u (decrease (count_of host uid hs)) hs) (
            settled ((uid ==ℤ u) && bytes_eq host h) false
              (is_positive (decrease (count_of host uid hs))) (connected hs u h))))
  | inr (more, e) ↦ rw more (same_sign host h uid u (decrease (count_of host uid hs)) hs e)
]
connected-perform (restart host) hs u h = sym (connected-delete host h u hs)

module _ (hl : Hlist Host) where
  IsTold-IsEvent : (ev : Event) → IsTold ev → IsEvent hl ev
  IsTold-IsEvent (on uid host) h = h.0
  IsTold-IsEvent (off uid host) h = h.0
  IsTold-IsEvent (host_off host) h = tt

  All-IsEvent : (evs : List Event) → All IsTold evs → All (IsEvent hl) evs
  All-IsEvent [] h = tt
  All-IsEvent (ev ∷ evs) h = (IsTold-IsEvent ev h.0, All-IsEvent evs h.1)

  -- The bus and the counts say the same.
  abbrev pub Agree : Hashes → UserMap hl → Type 0
  Agree hs kv =
      IsClean hl kv × ((u : ℤ) → IsInt64 u → (h : Host) → presence hl kv u h ≡ connected hs u h)

  pub each_followed :
      (cs : List Call) (hs : Hashes) (kv : UserMap hl)
      → All IsCall cs
      → Agree hs kv
      → (kv' : UserMap hl) × (handle_online_events hl (perform_all cs hs).1 kv ≡ done kv')
        × Agree (perform_all cs hs).0 kv'
  unfolding perform_all handle_online_events
  each_followed [] hs kv h a = (kv, refl, a)
  each_followed (c ∷ cs) hs kv h (clean, same) =
      let evs = call_events c hs in
      let (clean', same') =
        run-refines hl evs kv (connected hs) (All-IsEvent evs (told c hs h.0)) clean same in
      let (kv', e, a) =
        each_followed cs (perform c hs).0 (run hl evs kv) h.1
          (clean', λ u hu x. same' u hu x ∙ connected-perform c hs u x) in
      let (hs', messages) = perform c hs in
      (
        kv',
        ap (λ ms. handle_online_events hl (ms ++ (perform_all cs (perform c hs).0).1) kv)
              (perform-messages c hs)
            ∙ handle-messages hl evs kv (perform_all cs (perform c hs).0).1 (told c hs h.0)
            ∙ e,
        a,
      )

  -- Whatever logins, logouts and restarts the comets perform from empty keys, in any order, where the ids are
  -- int64, no id that logs out is 0 and no host has a '|': the bus handles every message they publish without
  -- a panic, and then holds a user to be on a host exactly when redis counts a connection of the user there.
  pub online_follows_counts :
      (cs : List Call) (u : ℤ) (h : Host)
      → All IsCall cs
      → IsInt64 u
      → (kv : UserMap hl) × (handle_online_events hl (perform_all cs []).1 (init_user_map hl)
          ≡ done kv)
        × (presence hl kv u h ≡ is_positive (count_of h u (perform_all cs []).0))
  online_follows_counts cs u h calls int =
      let (kv, e, (clean, same)) =
        each_followed cs [] (init_user_map hl) calls
          (λ u hu. unfold lookup in tt, λ u hu h. unfold lookup has count_of is_positive in refl) in
      (kv, e, same u int h)
