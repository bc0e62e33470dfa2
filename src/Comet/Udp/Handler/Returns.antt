-- ===== src/Comet/Udp/Handler/Returns.antt =====
-- comet/udp_handler.go: heartbeats and logins are handled to their end.
use Prim.Native.Nat.{bit_and}
use slot_golang.Base.{
  ℕ, ◌-◌, ◌^◌, ◌≤◌, ◌<◌, ◌≡◌, refl, ap, ◌∙◌, Bool, true, false, List, Option, none, some,
  if◌then◌else◌, arith, inl, inr, ◌⊎◌, ==_iff, length, drop, take, get_elem?, le→leb,
}
use slot_golang.Base.Bytes.{slice, uint_at, write_at, put_le, length-write_at}
use slot_golang.Base.Run.{Run, done, ◌>>=◌}
use slot_golang.Comet.Udp.{accepted, command, check_packet}
use slot_golang.Comet.Udp.Store.{Addr, UdpSession, World, Env, release, save_session, send}
use slot_golang.Comet.Udp.Commands.{Answer, on_hear_beat, on_login, login_status, put_status, make}
use slot_golang.Comet.Udp.Handler.{
  Command, heart_beat, login, run_command, with_sid, finish, found, parsed, command_of,
  session_command, handle,
}
use slot_golang.Comet.Udp.Handler.Again.{command_steps}
use slot_golang.Comet.Udp.Handler.Steps.{acquire_cases, verify_cases}
use slot_golang.Comet.Udp.Handler.Replies.{reply_accepted}

-- The command returns an answer that has room for the id of the session.
abbrev pub Answers : Run Answer → Type 0
Answers m =
    (res : List ℕ) × (s : UdpSession) × (w : World) × (m ≡ done (some res, s, w))
    × (20 ≤ length res)
    × (length res < 2 ^ 16)

slice_in_range :
    (b : List ℕ) (i j : ℕ) → i ≤ j → j ≤ length b → slice b i j ≡ some (take (j - i) (drop i b))
unfolding slice
slice_in_range b i j hi hj = rw (le→leb i j hi, le→leb j (length b) hj) refl

module _ (env : Env) (peer : Addr) (msg : List ℕ) (first : ℕ) (long : 52 ≤ length msg)
    (byte : get_elem? msg 0 ≡ some first) (opcode : bit_and 0x7 first ≡ 2) where
  abbrev Returns : Run World → Type 0
  Returns m = (w' : World) × (m ≡ done w')

  with_sid_done :
      (sid res : List ℕ) → 20 ≤ length res → with_sid sid res ≡ done (write_at res 4 (take 16 sid))
  with_sid_done sid res h = rw (slice_in_range res 4 20 (omega arith) h) refl

  finish-Returns :
      (sid res : List ℕ) (s : UdpSession) (w : World)
      → 20 ≤ length res
      → length res < 2 ^ 16
      → Returns (finish env peer msg sid (some res, s, w))
  finish-Returns sid res s w lo hi =
      let res' = write_at res 4 (take 16 sid) in
      let (out, e, passes, body) =
        reply_accepted msg res' first (omega (arith, long))
          (omega (arith, hi, length-write_at res 4 (take 16 sid))) byte opcode in
      (
        send peer out
            (release (env.uuid_string sid) (save_session env (env.uuid_string sid) s w).0),
        rw (with_sid_done sid res lo) (rw e refl),
      )

  run-Returns :
      (sid : List ℕ) (m : Run Answer) → Answers m → Returns (m >>= finish env peer msg sid)
  run-Returns sid m (res, s, w, e, lo, hi) = rw e (finish-Returns sid res s w lo hi)

  module _ (c p : ℕ) (body : List ℕ) (cmd : Command) (known : command_of c ≡ some cmd)
      (answers : (s : UdpSession) (w : World) → Answers (run_command env peer cmd body s w)) where
    found-Returns :
        (sid : List ℕ) (o : Option UdpSession) (w : World)
        → Returns (found env peer msg sid c p body o w)
    found-Returns sid none w = (release (env.uuid_string sid) w, refl)
    found-Returns sid (some s) w = elim (verify_cases s.ridx p) [
      | inr v ↦ rw v (release (env.uuid_string sid) w, refl)
      | inl v ↦ rw (v, known) (run-Returns sid _ (answers (record s { ridx = p }) w))
    ]

    parsed-Returns : (o : Option (List ℕ)) (w : World) → Returns (parsed env peer msg o c p body w)
    parsed-Returns none w = (w, refl)
    parsed-Returns (some sid) w = elim (acquire_cases env (env.uuid_string sid) w) [
      | inl e ↦ rw e (w, refl)
      | inr e ↦ rw e (found-Returns sid _ _)
    ]

    command-Returns : (w : World) → Returns (session_command env peer msg c p body w)
    unfolding session_command
    command-Returns w =
        rw (slice_in_range msg 36 52 (omega arith) long) (parsed-Returns (env.parse_uuid _) w)

hear_beat-Answers :
    (env : Env) (peer : Addr) (body : List ℕ) (s : UdpSession) (w : World)
    → Answers (run_command env peer heart_beat body s w)
unfolding run_command on_hear_beat
hear_beat-Answers env peer body s w = (_, _, _, refl, omega arith, omega arith)

login_status-Answers :
    (env : Env) (cookie : List ℕ) (status : Option (ℕ × Bool)) (s : UdpSession) (w : World)
    → Answers (done (login_status env cookie status s w))
unfolding write_at put_le
login_status-Answers env cookie none s w = (_, _, _, refl, omega arith, omega arith)
login_status-Answers env cookie (some (status, true)) s w =
    (_, _, _, refl, omega arith, omega arith)
login_status-Answers env cookie (some (status, false)) s w =
    (_, _, _, refl, omega arith, omega arith)

login_answer-Answers :
    (env : Env) (failed : Bool) (http : ℕ) (cookie : List ℕ) (status : Option (ℕ × Bool))
    (s : UdpSession) (w : World)
    → Answers (
        done (
          if failed
          then (some (put_status http (make 21)), s, w)
          else login_status env cookie status s w))
unfolding write_at put_le
login_answer-Answers env true http cookie status s w = (_, _, _, refl, omega arith, omega arith)
login_answer-Answers env false http cookie status s w = login_status-Answers env cookie status s w

login-Answers :
    (env : Env) (peer : Addr) (body : List ℕ) (s : UdpSession) (w : World)
    → length body ≡ 88
    → Answers (run_command env peer login body s w)
unfolding run_command on_login
login-Answers env peer body s w h = rw ((==_iff (length body) 88).1 h) (
    rw
      (
        slice_in_range body 16 24 (omega arith) (omega (arith, h)),
        slice_in_range body 24 88 (omega arith) (omega (arith, h)),
      )
      (login_answer-Answers env _ _ _ _ s w))

-- A packet of at least 52 bytes with opcode 2 that passes the checks and carries a heartbeat (0xE5), or a login
-- (0xE2) with a body of 88 bytes: `handle` comes to its end, whatever the session, redis and the HTTP API answer.
-- It does not panic and does not block.
pub handle-Returns :
    (env : Env) (peer : Addr) (msg : List ℕ) (first c p : ℕ) (w : World)
    → 52 ≤ length msg
    → get_elem? msg 0 ≡ some first
    → bit_and 0x7 first ≡ 2
    → check_packet msg ≡ done (accepted command)
    → uint_at msg 2 2 ≡ some p
    → uint_at msg 28 2 ≡ some c
    → (c ≡ 0xE5) ⊎ ((c ≡ 0xE2) × (length (drop 36 msg) ≡ 88))
    → (w' : World) × (handle env peer msg w ≡ done w')
handle-Returns env peer msg first c p w long byte opcode ok hp hc (inl e) =
    let hc' = hc ∙ ap some e in
    let (w', r) =
      command-Returns env peer msg first long byte opcode 0xE5 p (drop 36 msg) heart_beat refl
        (hear_beat-Answers env peer (drop 36 msg)) w in
    (w', command_steps env peer msg 0xE5 p w ok hp hc' refl refl ∙ r)
handle-Returns env peer msg first c p w long byte opcode ok hp hc (inr (e, h)) =
    let hc' = hc ∙ ap some e in
    let (w', r) =
      command-Returns env peer msg first long byte opcode 0xE2 p (drop 36 msg) login refl
        (λ s x. login-Answers env peer (drop 36 msg) s x h) w in
    (w', command_steps env peer msg 0xE2 p w ok hp hc' refl refl ∙ r)
