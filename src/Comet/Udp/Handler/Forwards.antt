-- ===== src/Comet/Udp/Handler/Forwards.antt =====
-- comet/udp_handler.go: what a packet with opcode 3 does.
use slot_golang.Base.{
  ℕ, ◌≡◌, refl, ap, subst, true, List, ◌∷◌, Option, none, some, inl, inr, ◌⊎◌, Option-cases,
}
use slot_golang.Base.Int64.{ℤ, of_u64}
use slot_golang.Base.Bytes.{slice, uint_at}
use slot_golang.Base.Maps.{string_eq}
use slot_golang.Base.Run.{done}
use slot_golang.Comet.Ids.{udp_calc_dest_ids}
use slot_golang.Comet.Sequence.{verify_session}
use slot_golang.Comet.Udp.{accepted, forward, check_packet}
use slot_golang.Comet.Udp.Store.{Key, Addr, UdpSession, World, Env, get_session, push2bus}
use slot_golang.Comet.Udp.Handler.{forward_found, forward_parsed, handle_forward, handle}
use slot_golang.Comet.Udp.Handler.Steps.{Yields, acquire_cases, release-locked, verify_cases}
use slot_golang.Comet.Udp.Handler.Locks.{checked-Yields}

module _ (env : Env) (peer : Addr) (msg : List ℕ) (w : World) where
  abbrev lock : Key → World
  lock key = record w { locked = key ∷ w.locked }

  -- Nothing changed, or the packet went to the bus for the session that is stored under the id in the packet and
  -- takes its number.
  abbrev Forwarded : ℕ → ℤ → ℤ → World → Type 0
  Forwarded p to_id src_id w' =
      (w' ≡ w)
      ⊎ ((raw sid : List ℕ) × (s : UdpSession) × (slice msg 24 40 ≡ some raw)
          × (env.parse_uuid raw ≡ some sid)
          × (get_session env (env.uuid_string sid) (lock (env.uuid_string sid)) ≡ some s)
          × (verify_session s.ridx p ≡ (p, true))
          × (w' ≡ push2bus src_id (udp_calc_dest_ids s.binded_users to_id) msg w))

  found-Forwarded :
      (raw sid : List ℕ) (to_id src_id : ℤ) (p : ℕ)
      → slice msg 24 40 ≡ some raw
      → env.parse_uuid raw ≡ some sid
      → Forwarded p to_id src_id (
          forward_found env peer msg sid to_id src_id p
            (get_session env (env.uuid_string sid) (lock (env.uuid_string sid)))
            (lock (env.uuid_string sid)))
  found-Forwarded raw sid to_id src_id p es ep =
      elim (Option-cases (get_session env (env.uuid_string sid) (lock (env.uuid_string sid)))) [
        | inl g ↦ rw g (inl (release-locked (env.uuid_string sid) w))
        | inr (s, g) ↦ elim (verify_cases s.ridx p) [
          | inr v ↦ inl (rw g (rw v (release-locked (env.uuid_string sid) w)))
          | inl v ↦ inr (
            raw,
            sid,
            s,
            es,
            ep,
            g,
            v,
            rw g (
                rw v (
                  ap (push2bus src_id (udp_calc_dest_ids s.binded_users to_id) msg)
                    (release-locked (env.uuid_string sid) w))),
          )
        ]
      ]

  parsed-Forwarded :
      (raw : List ℕ) (o : Option (List ℕ)) (to_id src_id : ℤ) (p : ℕ)
      → slice msg 24 40 ≡ some raw
      → env.parse_uuid raw ≡ o
      → Forwarded p to_id src_id (forward_parsed env peer msg o to_id src_id p w)
  parsed-Forwarded raw none to_id src_id p es ep = inl refl
  parsed-Forwarded raw (some sid) to_id src_id p es ep =
      elim (acquire_cases env (env.uuid_string sid) w) [
        | inl e ↦ rw e (inl refl)
        | inr e ↦ rw e (found-Forwarded raw sid to_id src_id p es ep)
      ]

  -- Handling a packet with opcode 3 that passes the checks either leaves the whole state as it is, or pushes the
  -- packet to the bus, unchanged and under the sender that it names, for the ids that `CalcDestIds` gives for the
  -- users of one session. That session is the one stored under the uuid that the bytes 24 to 40 of the packet
  -- stand for, and the packet's number follows its `Ridx`. In both cases nothing is stored, so that session
  -- does not take up the number.
  pub handle_forward_effect :
      (p to_id src_id : ℕ) (w' : World)
      → check_packet msg ≡ done (accepted forward)
      → uint_at msg 2 2 ≡ some p
      → uint_at msg 8 8 ≡ some to_id
      → uint_at msg 16 8 ≡ some src_id
      → handle env peer msg w ≡ done w'
      → (w' ≡ w)
        ⊎ ((raw sid : List ℕ) × (s : UdpSession) × (slice msg 24 40 ≡ some raw)
            × (env.parse_uuid raw ≡ some sid)
            × (get_session env
                  (env.uuid_string sid)
                  (record w { locked = env.uuid_string sid ∷ w.locked })
                ≡ some s)
            × (verify_session s.ridx p ≡ (p, true))
            × (w'
                ≡ push2bus (of_u64 src_id) (udp_calc_dest_ids s.binded_users (of_u64 to_id)) msg w))
  unfolding handle handle_forward
  handle_forward_effect p to_id src_id w' ok hp ht hs e =
      subst (Yields (Forwarded p (of_u64 to_id) (of_u64 src_id))) (rw (ok, hp, ht, hs) at e) (
        checked-Yields (Forwarded p (of_u64 to_id) (of_u64 src_id)) (slice msg 24 40) _ (λ raw es.
          parsed-Forwarded raw (env.parse_uuid raw) (of_u64 to_id) (of_u64 src_id) p es refl))
