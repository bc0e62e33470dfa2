-- ===== src/Comet/Udp/Handler/Steps.antt =====
-- comet/udp_handler.go: what each step of a packet keeps of the state.
use slot_golang.Base.{
  ℕ, ◌+◌, ◌≡◌, refl, ◌∙◌, Bool, true, false, not, List, ◌∷◌, Option, none, some, if◌then◌else◌,
  arith, Bool-cases, inl, inr, ◌⊎◌, ltb, ◌==◌, length, get_elem?, ◌%◌, [],
}
use slot_golang.Base.Int64.{ℤ, is_zero}
use slot_golang.Base.Maps.{
  string_eq, int64_eq, lookup, insert, lookup-insert, bytes_eq, bytes_eq_iff,
}
use slot_golang.Base.Bytes.{slice, uint_at}
use slot_golang.Base.Run.{Run, done, panics, blocks, checked, ◌>>=◌}
use slot_golang.Comet.Sequence.{verify_session, in_sequence}
use slot_golang.Comet.Udp.Store.{
  Key, Addr, UdpSession, World, Env, RedisCall, set_sess, acquire, release, remove_key,
  set_device_session, save_session, reset_timer, is_held, update,
}
use slot_golang.Comet.Udp.Users.{push_dev_online, get_device_users}
use slot_golang.Comet.Udp.Commands.{
  Answer, on_register, on_login, on_rename, on_hear_beat, trim_zeros, logged_in, with_users,
  with_id, login_status, cookie_id,
}
use slot_golang.Comet.Udp.Handler.{
  Command, register, login, rename, heart_beat, sub_device_offline, run_command,
}

-- P holds of what is returned, if anything is.
abbrev pub Yields : {A : Type 0} → (A → Type 0) → Run A → Type 0
Yields P (done a) = P a
Yields P panics = Unit {0}
Yields P blocks = Unit {0}

pub Yields-bind :
    {A B : Type 0} (P : A → Type 0) (Q : B → Type 0) (m : Run A) (f : A → Run B)
    → Yields P m
    → ((a : A) → P a → Yields Q (f a))
    → Yields Q (m >>= f)
Yields-bind P Q (done a) f h k = k a h
Yields-bind P Q panics f h k = tt
Yields-bind P Q blocks f h k = tt

-- For a step that promises nothing.
pub Yields-any :
    {A B : Type 0} (Q : B → Type 0) (m : Run A) (f : A → Run B)
    → ((a : A) → Yields Q (f a))
    → Yields Q (m >>= f)
Yields-any Q (done a) f k = k a
Yields-any Q panics f k = tt
Yields-any Q blocks f k = tt

pub acquire_cases :
    (env : Env) (key : Key) (w : World)
    → (acquire env key w ≡ none) ⊎ (acquire env key w ≡ some (record w { locked = key ∷ w.locked }))
unfolding acquire
acquire_cases env key w = elim (Bool-cases (env.works (RedisCall.acquire_lock key) w)) [
  | inr e ↦ inl (rw e refl)
  | inl e ↦ elim (Bool-cases (is_held key w.locked)) [
    | inl held ↦ inl (rw (e, held) refl)
    | inr held ↦ inr (rw (e, held) refl)
  ]
]

pub release-locked :
    (key : Key) (w : World) → release key (record w { locked = key ∷ w.locked }) ≡ w
unfolding release remove_key
release-locked key w = rw ((bytes_eq_iff key key).1 refl) refl

-- The outcomes of `SetDeviceSession`: neither write, one, or both.
abbrev outcome : Bool → Bool → Bool → World → World → World → World × Bool
outcome a b c w x y =
    if a then (if b then (x, true) else (if c then (y, true) else (x, false))) else (w, false)

-- What `SaveSession` may write.
abbrev Writes : {A : Type 0} → (World → A) → Type 0
Writes f =
    ((x : World) (t : List (Key × Option UdpSession)) → f (record x { sessions = t }) ≡ f x)
    × ((x : World) (d : List (ℤ × Key)) → f (record x { device_sids = d }) ≡ f x)
    × ((x : World) (r : List Addr) → f (record x { resets = r }) ≡ f x)

reset-same :
    {A : Type 0} (f : World → A) (addr : Addr) (o : Option UdpSession) (w : World)
    → Writes f
    → f (reset_timer addr o w) ≡ f w
reset-same f addr none w h = refl
reset-same f addr (some s) w (a, b, c) = c w (addr ∷ w.resets)

outcome-same :
    {A : Type 0} (f : World → A) (a b c : Bool) (w x y : World)
    → f x ≡ f w
    → f y ≡ f w
    → f (outcome a b c w x y).0 ≡ f w
outcome-same f false b c w x y ex ey = refl
outcome-same f true true c w x y ex ey = ex
outcome-same f true false true w x y ex ey = ey
outcome-same f true false false w x y ex ey = ex

set_device_session-same :
    {A : Type 0} (f : World → A) (env : Env) (key : Key) (s : UdpSession) (w : World)
    → Writes f
    → f (set_device_session env key s w).0 ≡ f w
unfolding set_device_session
set_device_session-same f env key s w (a, b, c) =
    let stored = record w { sessions = insert key (some (record s { sid = [] })) w.sessions } in
    outcome-same f (env.works (set_sess key) w) (is_zero s.device_id)
      (env.works (RedisCall.set_sid s.device_id) stored) w stored
      (record stored { device_sids = insert s.device_id key stored.device_sids }) (a w _)
      (b stored _ ∙ a w _)

-- `SaveSession` leaves everything else as it is.
pub save_session-same :
    {A : Type 0} (f : World → A) (env : Env) (key : Key) (s : UdpSession) (w : World)
    → Writes f
    → f (save_session env key s w).0 ≡ f w
unfolding save_session
save_session-same f env key s w h =
    set_device_session-same f env key s (reset_timer s.addr (lookup s.addr w.udpmap) w) h
    ∙ reset-same f s.addr (lookup s.addr w.udpmap) w h

pub save_session-locked :
    (env : Env) (key : Key) (s : UdpSession) (w : World)
    → (save_session env key s w).0.locked ≡ w.locked
save_session-locked env key s w =
    save_session-same (λ x. x.locked) env key s w (λ x t. refl, λ x d. refl, λ x r. refl)

set_device_session-lookup :
    (env : Env) (key : Key) (s : UdpSession) (w : World)
    → env.works (set_sess key) w ≡ true
    → lookup key (set_device_session env key s w).0.sessions ≡ some (some (record s { sid = [] }))
unfolding set_device_session
set_device_session-lookup env key s w works = rw works (
    whichever (is_zero s.device_id) (env.works (RedisCall.set_sid s.device_id) _) _ _
      (stored key s w) (stored key s w))
  where
    stored :
        (key : Key) (s : UdpSession) (w : World)
        → lookup key (insert key (some (record s { sid = [] })) w.sessions)
          ≡ some (some (record s { sid = [] }))
    stored key s w =
        lookup-insert key key (some (record s { sid = [] })) w.sessions
        ∙ rw ((bytes_eq_iff key key).1 refl) refl

    whichever :
        (b c : Bool) (x y : World)
        → lookup key x.sessions ≡ some (some (record s { sid = [] }))
        → lookup key y.sessions ≡ some (some (record s { sid = [] }))
        → lookup key (outcome true b c w x y).0.sessions ≡ some (some (record s { sid = [] }))
    whichever true c x y ex ey = ex
    whichever false true x y ex ey = ey
    whichever false false x y ex ey = ex

-- What `SaveSession` wrote is what is read.
pub save_session-lookup :
    (env : Env) (key : Key) (s : UdpSession) (w : World)
    → ((x : World) → env.works (set_sess key) x ≡ true)
    → lookup key (save_session env key s w).0.sessions ≡ some (some (record s { sid = [] }))
unfolding save_session
save_session-lookup env key s w works =
    set_device_session-lookup env key s (reset_timer s.addr (lookup s.addr w.udpmap) w) (works _)

pub verify_cases :
    (ridx p : ℕ) → (verify_session ridx p ≡ (p, true)) ⊎ (verify_session ridx p ≡ (ridx, false))
unfolding verify_session
verify_cases ridx p = elim (Bool-cases (in_sequence ridx p)) [
  | inl e ↦ inl (rw e refl)
  | inr e ↦ inr (rw e refl)
]

-- The number that was just accepted is not accepted again.
pub verify_again : (p : ℕ) → verify_session p p ≡ (p, false)
unfolding verify_session in_sequence
verify_again p = ground arith

-- A command changes neither the sessions that are stored nor the lockers, and keeps `Ridx`.
abbrev pub Keeps : UdpSession → World → Answer → Type 0
Keeps s w (res, s', w') = (w'.locked ≡ w.locked) × (w'.sessions ≡ w.sessions) × (s'.ridx ≡ s.ridx)

with_users-Keeps :
    (env : Env) (ids : Option (List ℤ)) (s : UdpSession) (w : World) (res : Option (List ℕ))
    → Keeps s w (res, (with_users env ids s w).0, (with_users env ids s w).1)
unfolding push_dev_online
with_users-Keeps env none s w res = (refl, refl, refl)
with_users-Keeps env (some ids) s w res = (refl, refl, refl)

with_id-ridx : (env : Env) (r : ℤ × Bool) (s : UdpSession) → (with_id env r s).ridx ≡ s.ridx
with_id-ridx env (id, true) s = refl
with_id-ridx env (id, false) s = refl

login_status-Keeps :
    (env : Env) (cookie : List ℕ) (status : Option (ℕ × Bool)) (s : UdpSession) (w : World)
    → Keeps s w (login_status env cookie status s w)
unfolding logged_in
login_status-Keeps env cookie none s w = (refl, refl, refl)
login_status-Keeps env cookie (some (status, false)) s w = (refl, refl, refl)
login_status-Keeps env cookie (some (status, true)) s w =
    let s' = with_id env (cookie_id cookie) s in
    let (locks, stored, ridx) =
      with_users-Keeps env (get_device_users env s'.device_id) s' w none in
    (locks, stored, ridx ∙ with_id-ridx env (cookie_id cookie) s)

login_answer-Keeps :
    (env : Env) (failed : Bool) (out : List ℕ) (cookie : List ℕ) (status : Option (ℕ × Bool))
    (s : UdpSession) (w : World)
    → Keeps s w (if failed then (some out, s, w) else login_status env cookie status s w)
login_answer-Keeps env true out cookie status s w = (refl, refl, refl)
login_answer-Keeps env false out cookie status s w = login_status-Keeps env cookie status s w

done_if :
    {A : Type 0} (P : A → Type 0) (b : Bool) (a : A) (m : Run A)
    → P a
    → Yields P m
    → Yields P (if b then done a else m)
done_if P true a m h k = h
done_if P false a m h k = k

same : (s : UdpSession) (w : World) (res : Option (List ℕ)) → Keeps s w (res, s, w)
same s w res = (refl, refl, refl)

-- Bounds checks before an answer.
check-Keeps :
    {A : Type 0} (s : UdpSession) (w : World) (o : Option A) (f : A → Run Answer)
    → ((a : A) → Yields (Keeps s w) (f a))
    → Yields (Keeps s w) (checked o >>= f)
check-Keeps s w none f k = tt
check-Keeps s w (some a) f k = k a

update-ridx :
    (env : Env) (peer : Addr) (w : World) (s : UdpSession) → (update env peer w s).ridx ≡ s.ridx
update-ridx env peer w s = elim (Bool-cases (bytes_eq s.addr peer)) [
  | inl e ↦ rw e refl
  | inr e ↦ rw e refl
]

on_register-Keeps :
    (env : Env) (body : List ℕ) (s : UdpSession) (w : World)
    → Yields (Keeps s w) (on_register env s body w)
unfolding on_register
on_register-Keeps env body s w =
    done_if (Keeps s w) (ltb (length body) 310) (none, s, w) _ (refl, refl, refl)
      (check-Keeps s w (uint_at body 16 2) _ (λ dv. check-Keeps s w (uint_at body 20 4) _ (λ pt.
        check-Keeps s w (slice body 24 32) _ (λ mac. check-Keeps s w (slice body 32 48) _ (λ sn.
          check-Keeps s w (get_elem? body 308) _ (λ len.
            check-Keeps s w (if ltb 0 len then slice body 309 (309 + len) else some []) _
              (λ name. (refl, refl, refl))))))))

on_login-Keeps :
    (env : Env) (body : List ℕ) (s : UdpSession) (w : World)
    → Yields (Keeps s w) (on_login env s body w)
unfolding on_login
on_login-Keeps env body s w =
    done_if (Keeps s w) (not (length body == 88)) (none, s, w) _ (refl, refl, refl)
      (check-Keeps s w (slice body 16 24) _ (λ mac.
        check-Keeps s w (slice body 24 88) _
          (λ text. login_answer-Keeps env _ _ (trim_zeros text) _ s w)))

on_rename-Keeps :
    (env : Env) (body : List ℕ) (s : UdpSession) (w : World)
    → Yields (Keeps s w) (on_rename env s body w)
unfolding on_rename
on_rename-Keeps env body s w = check-Keeps s w (slice body 16 24) _ (λ mac.
    check-Keeps s w (get_elem? body 24) _
      (λ len. check-Keeps s w (slice body 25 ((25 + len) % 256)) _ (λ name. (refl, refl, refl))))

pub run_command-Keeps :
    (env : Env) (peer : Addr) (c : Command) (body : List ℕ) (s : UdpSession) (w : World)
    → Yields (Keeps s w) (run_command env peer c body s w)
unfolding run_command on_hear_beat
run_command-Keeps env peer register body s w = on_register-Keeps env body s w
run_command-Keeps env peer login body s w = on_login-Keeps env body s w
run_command-Keeps env peer rename body s w = on_rename-Keeps env body s w
run_command-Keeps env peer heart_beat body s w = (refl, refl, update-ridx env peer w s)
run_command-Keeps env peer sub_device_offline body s w = (refl, refl, refl)
