-- ===== src/Comet/Udp/Handler/Locks.antt =====
-- comet/udp_handler.go: the lockers of the sessions while a packet is handled.
use slot_golang.Base.{
  ℕ, ◌≡◌, refl, ◌∙◌, subst, Bool, true, false, ◌||◌, List, ◌∷◌, Option, none, some, Bool-cases, inl,
  inr, ◌==◌, length, drop,
}
use slot_golang.Base.Int64.{ℤ, of_u64}
use slot_golang.Base.Bytes.{slice, uint_at}
use slot_golang.Base.Maps.{string_eq, bytes_eq_iff}
use slot_golang.Base.Run.{Run, done, panics, blocks, checked, ◌>>=◌}
use slot_golang.Comet.Sequence.{verify_session}
use slot_golang.Comet.Udp.{Verdict, refused, accepted, command, forward, check_packet}
use slot_golang.Comet.Udp.Store.{
  Key, Addr, UdpSession, World, Env, acquire, release, remove_key, save_session,
}
use slot_golang.Comet.Udp.Commands.{Answer, on_get_token, get_token_saved, get_token_locked}
use slot_golang.Comet.Udp.Handler.{
  Command, or_empty, with_sid, run_command, reply, answer, finish, dispatch, verified, found,
  parsed, token_answer, forward_verified, forward_found, forward_parsed, by_verdict, command_of,
  session_command, handle_command, handle_forward, handle,
}
use slot_golang.Comet.Udp.Handler.Steps.{
  Yields, Yields-bind, acquire_cases, save_session-locked, Keeps, run_command-Keeps,
}

pub release_top :
    (key : Key) (w : World) (l : List Key) → w.locked ≡ key ∷ l → (release key w).locked ≡ l
unfolding release remove_key
release_top key w l e = rw e (rw ((bytes_eq_iff key key).1 refl) refl)

-- A bounds check in front of a step.
pub checked-Yields :
    {A B : Type 0} (Q : B → Type 0) (o : Option A) (f : A → Run B)
    → ((a : A) → o ≡ some a → Yields Q (f a))
    → Yields Q (checked o >>= f)
checked-Yields Q none f k = tt
checked-Yields Q (some a) f k = k a refl

-- A step that comes before, of which nothing is known.
pub run-Yields :
    {A B : Type 0} (Q : B → Type 0) (m : Run A) (f : A → Run B)
    → ((a : A) → m ≡ done a → Yields Q (f a))
    → Yields Q (m >>= f)
run-Yields Q (done a) f k = k a refl
run-Yields Q panics f k = tt
run-Yields Q blocks f k = tt

module _ (env : Env) (peer : Addr) (msg : List ℕ) where
  abbrev Kept : List Key → World → Type 0
  Kept l w = w.locked ≡ l

  answer-Kept :
      (l : List Key) (sid : List ℕ) (res : Option (List ℕ)) (w : World)
      → w.locked ≡ l
      → Yields (Kept l) (answer env peer msg sid res w)
  answer-Kept l sid res w e =
      run-Yields (Kept l) (with_sid sid (or_empty res)) _
        (λ res' x. run-Yields (Kept l) (reply msg res') _ (λ out y. e))

  finish-Kept :
      (l : List Key) (sid : List ℕ) (a : Answer)
      → a.2.locked ≡ env.uuid_string sid ∷ l
      → Yields (Kept l) (finish env peer msg sid a)
  finish-Kept l sid (res, s, w) e = answer-Kept l sid res _ (
      release_top (env.uuid_string sid) (save_session env (env.uuid_string sid) s w).0 l
        (save_session-locked env (env.uuid_string sid) s w ∙ e))

  dispatch-Kept :
      (l : List Key) (sid : List ℕ) (c : Option Command) (body : List ℕ) (s : UdpSession)
      (w : World)
      → w.locked ≡ env.uuid_string sid ∷ l
      → Yields (Kept l) (dispatch env peer msg sid c body s w)
  dispatch-Kept l sid none body s w e = release_top (env.uuid_string sid) w l e
  dispatch-Kept l sid (some c) body s w e =
      Yields-bind (Keeps s w) (Kept l) (run_command env peer c body s w) (finish env peer msg sid)
        (run_command-Keeps env peer c body s w) (λ a k. finish-Kept l sid a (k.0 ∙ e))

  verified-Kept :
      (l : List Key) (sid : List ℕ) (c : ℕ) (body : List ℕ) (s : UdpSession) (r : ℕ × Bool)
      (w : World)
      → w.locked ≡ env.uuid_string sid ∷ l
      → Yields (Kept l) (verified env peer msg sid c body s r w)
  verified-Kept l sid c body s (ridx, false) w e = release_top (env.uuid_string sid) w l e
  verified-Kept l sid c body s (ridx, true) w e = dispatch-Kept l sid (command_of c) body _ w e

  found-Kept :
      (l : List Key) (sid : List ℕ) (c p : ℕ) (body : List ℕ) (o : Option UdpSession) (w : World)
      → w.locked ≡ env.uuid_string sid ∷ l
      → Yields (Kept l) (found env peer msg sid c p body o w)
  found-Kept l sid c p body none w e = release_top (env.uuid_string sid) w l e
  found-Kept l sid c p body (some s) w e =
      verified-Kept l sid c body s (verify_session s.ridx p) w e

  parsed-Kept :
      (o : Option (List ℕ)) (c p : ℕ) (body : List ℕ) (w : World)
      → Yields (Kept w.locked) (parsed env peer msg o c p body w)
  parsed-Kept none c p body w = refl
  parsed-Kept (some sid) c p body w = elim (acquire_cases env (env.uuid_string sid) w) [
    | inl e ↦ rw e refl
    | inr e ↦ rw e (found-Kept w.locked sid c p body _ _ refl)
  ]

  abbrev TokenKept : List Key → Option (List ℕ) × World → Type 0
  TokenKept l (res, w) = w.locked ≡ l

  saved-Kept :
      (l : List Key) (sid : List ℕ) (r : World × Bool)
      → r.0.locked ≡ env.uuid_string sid ∷ l
      → Yields (TokenKept l) (get_token_saved env sid r)
  saved-Kept l sid (w, true) e = release_top (env.uuid_string sid) w l e
  saved-Kept l sid (w, false) e = tt

  token_locked-Kept :
      (sid : List ℕ) (w : World)
      → Yields
          (TokenKept w.locked)
          (get_token_locked env peer sid (acquire env (env.uuid_string sid) w) w)
  token_locked-Kept sid w = elim (acquire_cases env (env.uuid_string sid) w) [
    | inl e ↦ rw e refl
    | inr e ↦ rw e (saved-Kept w.locked sid _ (save_session-locked env (env.uuid_string sid) _ _))
  ]

  token-Kept :
      (body : List ℕ) (w : World) → Yields (TokenKept w.locked) (on_get_token env peer body w)
  unfolding on_get_token
  token-Kept body w = elim (Bool-cases (length body == 24)) [
    | inl e ↦ rw e (token_locked-Kept (env.new_uuid w) w)
    | inr e ↦ rw e refl
  ]

  token_answer-Kept :
      (l : List Key) (r : Option (List ℕ) × World)
      → TokenKept l r
      → Yields (Kept l) (token_answer env peer msg r)
  token_answer-Kept l (res, w) e = run-Yields (Kept l) (reply msg (or_empty res)) _ (λ out y. e)

  session_command-Kept :
      (c p : ℕ) (body : List ℕ) (w : World)
      → Yields (Kept w.locked) (session_command env peer msg c p body w)
  unfolding session_command
  session_command-Kept c p body w =
      checked-Yields (Kept w.locked) (slice msg 36 52) _
        (λ sid e. parsed-Kept (env.parse_uuid sid) c p body w)

  handle_command-Kept : (w : World) → Yields (Kept w.locked) (handle_command env peer msg w)
  unfolding handle_command
  handle_command-Kept w = checked-Yields (Kept w.locked) (uint_at msg 2 2) _ (λ p ep.
      checked-Yields (Kept w.locked) (uint_at msg 28 2) _ (λ c ec.
        elim (Bool-cases ((c == 0x30) || (c == 0x31))) [
          | inl e ↦ rw e refl
          | inr e ↦ elim (Bool-cases (c == 0xE0)) [
            | inl t ↦
                rw (e, t)
                  (Yields-bind (TokenKept w.locked) (Kept w.locked)
                    (on_get_token env peer (drop 36 msg) w) (token_answer env peer msg)
                    (token-Kept (drop 36 msg) w) (token_answer-Kept w.locked))
            | inr t ↦ rw (e, t) (session_command-Kept c p (drop 36 msg) w)
          ]
        ]))

  forward_verified-Kept :
      (l : List Key) (sid : List ℕ) (to_id src_id : ℤ) (s : UdpSession) (r : ℕ × Bool) (w : World)
      → w.locked ≡ env.uuid_string sid ∷ l
      → (forward_verified env peer msg sid to_id src_id s r w).locked ≡ l
  forward_verified-Kept l sid to_id src_id s (ridx, false) w e =
      release_top (env.uuid_string sid) w l e
  forward_verified-Kept l sid to_id src_id s (ridx, true) w e =
      release_top (env.uuid_string sid) w l e

  forward_found-Kept :
      (l : List Key) (sid : List ℕ) (to_id src_id : ℤ) (p : ℕ) (o : Option UdpSession) (w : World)
      → w.locked ≡ env.uuid_string sid ∷ l
      → (forward_found env peer msg sid to_id src_id p o w).locked ≡ l
  forward_found-Kept l sid to_id src_id p none w e = release_top (env.uuid_string sid) w l e
  forward_found-Kept l sid to_id src_id p (some s) w e =
      forward_verified-Kept l sid to_id src_id s (verify_session s.ridx p) w e

  forward_parsed-Kept :
      (o : Option (List ℕ)) (to_id src_id : ℤ) (p : ℕ) (w : World)
      → (forward_parsed env peer msg o to_id src_id p w).locked ≡ w.locked
  forward_parsed-Kept none to_id src_id p w = refl
  forward_parsed-Kept (some sid) to_id src_id p w =
      elim (acquire_cases env (env.uuid_string sid) w) [
        | inl e ↦ rw e refl
        | inr e ↦ rw e (forward_found-Kept w.locked sid to_id src_id p _ _ refl)
      ]

  handle_forward-Kept : (w : World) → Yields (Kept w.locked) (handle_forward env peer msg w)
  unfolding handle_forward
  handle_forward-Kept w = checked-Yields (Kept w.locked) (uint_at msg 2 2) _ (λ p ep.
      checked-Yields (Kept w.locked) (slice msg 24 40) _ (λ sid es.
        checked-Yields (Kept w.locked) (uint_at msg 8 8) _ (λ to_id et.
          checked-Yields (Kept w.locked) (uint_at msg 16 8) _ (λ src_id ef.
            forward_parsed-Kept (env.parse_uuid sid) (of_u64 to_id) (of_u64 src_id) p w))))

  by_verdict-Kept : (v : Verdict) (w : World) → Yields (Kept w.locked) (by_verdict env peer msg v w)
  by_verdict-Kept (refused reason) w = refl
  by_verdict-Kept (accepted command) w = handle_command-Kept w
  by_verdict-Kept (accepted forward) w = handle_forward-Kept w

  -- Whatever the packet, and whatever redis, the API and the uuid package answer: when the handling of a packet
  -- comes to its end, exactly the lockers are held that were held before it.
  pub handle-locked : (w w' : World) → handle env peer msg w ≡ done w' → w'.locked ≡ w.locked
  unfolding handle
  handle-locked w w' e =
      subst (Yields (Kept w.locked)) e
        (run-Yields (Kept w.locked) (check_packet msg) _ (λ v ev. by_verdict-Kept v w))
