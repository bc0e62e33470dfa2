-- ===== src/Comet/Udp/Handler/Again.antt =====
-- comet/udp_handler.go: the same packet again.
use slot_golang.Base.{
  ℕ, ◌≡◌, refl, ap, sym, ◌∙◌, subst, true, false, ◌||◌, List, [], ◌∷◌, Option, none, some,
  Bool-cases, Option-cases, inl, inr, ◌⊎◌, ◌==◌, drop,
}
use slot_golang.Base.Bytes.{slice, uint_at}
use slot_golang.Base.Maps.{string_eq, lookup}
use slot_golang.Base.Run.{Run, done, panics}
use slot_golang.Comet.Sequence.{verify_session}
use slot_golang.Comet.Udp.{accepted, command, check_packet}
use slot_golang.Comet.Udp.Store.{
  Key, Addr, UdpSession, World, Env, set_sess, get_sess, acquire, release, save_session,
  get_session, send,
}
use slot_golang.Comet.Udp.Commands.{Answer}
use slot_golang.Comet.Udp.Handler.{
  or_empty, with_sid, run_command, reply, finish, found, parsed, command_of, session_command,
  handle_command, handle,
}
use slot_golang.Comet.Udp.Handler.Steps.{
  Yields, Yields-bind, acquire_cases, release-locked, save_session-lookup, verify_cases,
  verify_again, Keeps, run_command-Keeps,
}
use slot_golang.Comet.Udp.Handler.Locks.{run-Yields}

-- The world in which a session's locker is held.
abbrev lock : Key → World → World
lock key w = record w { locked = key ∷ w.locked }

get_session_works :
    (env : Env) (key : Key) (w : World) (s : UdpSession)
    → lookup key w.sessions ≡ some (some s)
    → (get_session env key w ≡ none) ⊎ (get_session env key w ≡ some (record s { sid = key }))
unfolding get_session
get_session_works env key w s e = elim (Bool-cases (env.works (get_sess key) w)) [
  | inl works ↦ inr (rw (works, e) refl)
  | inr fails ↦ inl (rw fails refl)
]

released-lookup :
    (key : Key) (w : World) (o : Option (Option UdpSession))
    → lookup key w.sessions ≡ o
    → lookup key (release key w).sessions ≡ o
unfolding release
released-lookup key w o e = e

module _ (env : Env) (peer : Addr) (msg : List ℕ) (c p : ℕ) (body : List ℕ) (sid : List ℕ) where
  -- Handling the command in this world leaves it as it is.
  abbrev Settled : World → Type 0
  Settled w = parsed env peer msg (some sid) c p body w ≡ done w

  same_world : (w : World) → Settled w → Yields Settled (parsed env peer msg (some sid) c p body w)
  same_world w e = subst (Yields Settled) (sym e) e

  -- What the handling comes to once the locker is held.
  abbrev reading : World → Run World
  reading w =
      found env peer msg sid c p body
        (get_session env (env.uuid_string sid) (lock (env.uuid_string sid) w))
        (lock (env.uuid_string sid) w)

  read_locked :
      (w : World)
      → acquire env (env.uuid_string sid) w ≡ some (lock (env.uuid_string sid) w)
      → parsed env peer msg (some sid) c p body w ≡ reading w
  read_locked w e = rw e refl

  unlocked :
      (w : World) → done (release (env.uuid_string sid) (lock (env.uuid_string sid) w)) ≡ done w
  unlocked w = ap done (release-locked (env.uuid_string sid) w)

  reading-none :
      (w : World)
      → get_session env (env.uuid_string sid) (lock (env.uuid_string sid) w) ≡ none
      → reading w ≡ done w
  reading-none w e = rw e (unlocked w)

  reading_refused :
      (w : World) (s : UdpSession)
      → get_session env (env.uuid_string sid) (lock (env.uuid_string sid) w) ≡ some s
      → verify_session s.ridx p ≡ (s.ridx, false)
      → reading w ≡ done w
  reading_refused w s e v = rw e (rw v (unlocked w))

  -- Once the session is stored with this packet's number, nothing more is done.
  stored-Settled :
      (w : World) (s : UdpSession)
      → lookup (env.uuid_string sid) w.sessions ≡ some (some s)
      → s.ridx ≡ p
      → Settled w
  stored-Settled w s e r = elim (acquire_cases env (env.uuid_string sid) w) [
    | inl a ↦ rw a refl
    | inr a ↦
        read_locked w a
        ∙ elim (get_session_works env (env.uuid_string sid) (lock (env.uuid_string sid) w) s e) [
          | inl g ↦ reading-none w g
          | inr g ↦ reading_refused w _ g (rw r (verify_again p))
        ]
  ]

  finish-Settled :
      (a : Answer)
      → ((x : World) → env.works (set_sess (env.uuid_string sid)) x ≡ true)
      → a.1.ridx ≡ p
      → Yields Settled (finish env peer msg sid a)
  finish-Settled (res, s, w) works r = run-Yields Settled (with_sid sid (or_empty res)) _ (λ res' x.
      run-Yields Settled (reply msg res') _ (λ out y.
        stored-Settled
          (send peer out
            (release (env.uuid_string sid) (save_session env (env.uuid_string sid) s w).0))
          (record s { sid = [] })
          (released-lookup (env.uuid_string sid) _ _
            (save_session-lookup env (env.uuid_string sid) s w works))
          r))

  parsed-Settled :
      (w : World)
      → ((x : World) → env.works (set_sess (env.uuid_string sid)) x ≡ true)
      → Yields Settled (parsed env peer msg (some sid) c p body w)
  parsed-Settled w works = elim (acquire_cases env (env.uuid_string sid) w) [
    | inl a ↦ same_world w (rw a refl)
    | inr a ↦
        elim (Option-cases (get_session env (env.uuid_string sid) (lock (env.uuid_string sid) w))) [
          | inl g ↦ same_world w (read_locked w a ∙ reading-none w g)
          | inr (s, g) ↦ elim (verify_cases s.ridx p) [
            | inr v ↦ same_world w (read_locked w a ∙ reading_refused w s g v)
            | inl v ↦ elim (Option-cases (command_of c)) [
              | inl n ↦ same_world w (read_locked w a ∙ rw g (rw (v, n) (unlocked w)))
              | inr (cmd, n) ↦
                  subst (Yields Settled) (sym (read_locked w a ∙ rw g (rw (v, n) refl))) (
                    Yields-bind (Keeps (record s { ridx = p }) (lock (env.uuid_string sid) w))
                      Settled
                      (run_command env peer cmd body (record s { ridx = p })
                        (lock (env.uuid_string sid) w))
                      (finish env peer msg sid) (run_command-Keeps env peer cmd body _ _)
                      (λ an k. finish-Settled an works k.2))
            ]
          ]
        ]
  ]

module _ (env : Env) (peer : Addr) (msg : List ℕ) where
  -- A command of a session, from the bytes of the packet.
  pub session_command_again :
      (c p : ℕ) (body : List ℕ) (w w' : World)
      → ((key : Key) (x : World) → env.works (set_sess key) x ≡ true)
      → session_command env peer msg c p body w ≡ done w'
      → session_command env peer msg c p body w' ≡ done w'
  unfolding session_command
  session_command_again c p body w w' works e = elim (Option-cases (slice msg 36 52)) [
    | inl n ↦ absurd (panics_is_not_done w' (rw n at e))
    | inr (raw, h) ↦ rw h (elim (Option-cases (env.parse_uuid raw)) [
      | inl n ↦ rw n refl
      | inr (sid, q) ↦ rw q (
          subst (Yields (Settled env peer msg c p body sid)) (rw (h, q) at e)
            (parsed-Settled env peer msg c p body sid w (works (env.uuid_string sid))))
    ])
  ]
    where
      panics_is_not_done : (w : World) → panics ≡ done w → ⊥
      panics_is_not_done w e = cc

  pub command_steps :
      (c p : ℕ) (w : World)
      → check_packet msg ≡ done (accepted command)
      → uint_at msg 2 2 ≡ some p
      → uint_at msg 28 2 ≡ some c
      → ((c == 0x30) || (c == 0x31)) ≡ false
      → (c == 0xE0) ≡ false
      → handle env peer msg w ≡ session_command env peer msg c p (drop 36 msg) w
  unfolding handle handle_command
  command_steps c p w ok hp hc sync token = rw ok (rw (hp, hc) (rw (sync, token) refl))

  -- A packet that passes the checks and carries a command of a session (any but 0x30, 0x31 and 0xE0), while redis
  -- stores sessions: when it is handled to its end, then handling it once more, from the same address, leaves the
  -- state as it is. Nothing is sent, pushed or published a second time, and no locker stays held.
  pub handle_again :
      (c p : ℕ) (w w' : World)
      → check_packet msg ≡ done (accepted command)
      → uint_at msg 2 2 ≡ some p
      → uint_at msg 28 2 ≡ some c
      → ((c == 0x30) || (c == 0x31)) ≡ false
      → (c == 0xE0) ≡ false
      → ((key : Key) (x : World) → env.works (set_sess key) x ≡ true)
      → handle env peer msg w ≡ done w'
      → handle env peer msg w' ≡ done w'
  handle_again c p w w' ok hp hc sync token works e =
      command_steps c p w' ok hp hc sync token
      ∙ session_command_again c p (drop 36 msg) w w' works
          (sym (command_steps c p w ok hp hc sync token) ∙ e)
