-- ===== src/Forwarding/Sent.antt =====
-- The bus on the stream of a comet: what it writes to the other comets.
use slot_golang.Base.{
  ℕ, suc, ◌+◌, ◌≤◌, ◌≡◌, refl, sym, ap, ◌∙◌, Bool, true, false, List, [], ◌∷◌, ◌++◌, Option, none,
  some, length, ltb, arith, All, length-append, Option-cases, inl, inr,
}
use mathlib.Core.List.{append_assoc, append-nil}
use slot_golang.Base.Int64.{ℤ, IsInt64, is_pos, is_neg}
use slot_golang.Base.Bytes.{put_le}
use slot_golang.Base.Run.{done}
use slot_golang.Envelope.Written.{
  up_bytes, down_bytes, ids_bytes, length-ids_bytes, push2bus_data-layout,
}
use slot_golang.Envelope.RoundTrip.{head_of_up, drop-up_bytes}
use slot_golang.Forwarding.{Post, sent, handle_all}
use slot_golang.Hlist.{Hlist}
use slot_golang.MsgBus.Comets.{Comets, Servers}
use slot_golang.MsgBus.Handle.{Bus, Groups, main_handle}
use slot_golang.MsgBus.Push.{up, conns_of, all_pushed, push_to_comet, push_found, push_to_comet_all}
use slot_golang.MsgBus.UserMap.{Host, UserMap, find}
use slot_golang.Wire.{bus_payload_max, bus_init_max, handle_client}
use slot_golang.Wire.Delivery.{frames, within, Framed, handle_client_all}

-- A message that the bus forwards to one user, short enough for the reader of a comet.
abbrev pub IsCarried : Post → Type 0
IsCarried p =
    (is_neg p.src_id ≡ false)
    × IsInt64 p.src_id
    × (is_pos p.uid ≡ true)
    × IsInt64 p.uid
    × (10 + length p.text ≤ 1024)

-- The envelopes of the messages, to the bus and to a comet.
abbrev pub up_of : Post → List ℕ
up_of p = up_bytes p.src_id (p.uid ∷ []) p.text

abbrev pub down_of : Post → List ℕ
down_of p = down_bytes (p.uid ∷ []) p.text

unfoldable pub ups : List Post → List (List ℕ)
ups [] = []
ups (p ∷ ps) = up_of p ∷ ups ps

pub length-ups : (ps : List Post) → length (ups ps) ≡ length ps
unfolding ups
length-ups [] = refl
length-ups (p ∷ ps) = ap suc (length-ups ps)

length-up_of : (p : Post) → length (up_of p) ≡ 18 + length p.text
unfolding up_bytes ids_bytes put_le
length-up_of p =
    omega (arith, length-append (ids_bytes (p.uid ∷ [])) p.text, length-ids_bytes (p.uid ∷ []))

pub sent-frames : (ps : List Post) → All IsCarried ps → sent ps ≡ done (frames (ups ps))
unfolding sent frames ups
sent-frames [] h = refl
sent-frames (p ∷ ps) ((n, hs, q, hi, small), h) =
    rw (push2bus_data-layout p.src_id (p.uid ∷ []) p.text (omega arith), sent-frames ps h) refl

module _ (hl : Hlist Host) where
  -- The connections of the comets on which a user is.
  unfoldable pub conns_found : Servers → Option hl.Carrier → List ℕ
  conns_found servers none = []
  conns_found servers (some hostlist) = conns_of servers (hl.values hostlist)

  abbrev pub user_conns : UserMap hl → Servers → ℤ → List ℕ
  user_conns kv servers uid = conns_found servers (find hl uid kv)

  -- What the bus writes for the messages.
  unfoldable pub log_of : UserMap hl → Servers → List Post → List (ℕ × List ℕ)
  log_of kv servers [] = []
  log_of kv servers (p ∷ ps) =
      all_pushed (down_of p) (user_conns kv servers p.uid) ++ log_of kv servers ps

  unfoldable pub wrote : List (ℕ × List ℕ) → Comets → Comets
  wrote log c = record c { written = c.written ++ log }

  wrote-nil : (c : Comets) → c ≡ wrote [] c
  unfolding wrote
  wrote-nil c =
      ap (λ (w : List (ℕ × List ℕ)). record c { written = w }) (sym (append-nil c.written))

  -- A user without a list is sent nothing.
  push_to_comet_known :
      (uid : ℤ) (msg : List ℕ) (kv : UserMap hl) (c : Comets)
      → c.mu ≡ false
      → (r : Bool) × (push_to_comet up hl uid msg kv c
          ≡ done (wrote (all_pushed msg (user_conns kv c.servers uid)) c, r))
  unfolding wrote conns_found push_to_comet push_found all_pushed
  push_to_comet_known uid msg kv c free = elim (Option-cases (find hl uid kv)) [
    | inl e ↦ (
      false,
      ap (push_found up hl msg c) e
          ∙ ap (λ (d : Comets). done (d, false)) (wrote-nil c)
          ∙ ap (λ o. done (wrote (all_pushed msg (conns_found c.servers o)) c, false)) (sym e),
    )
    | inr (hostlist, e) ↦
        let (r, p) = push_to_comet_all hl uid msg kv c hostlist e free in
        (r, p ∙ ap (λ o. done (wrote (all_pushed msg (conns_found c.servers o)) c, r)) (sym e))
  ]

  module _ (il : Hlist ℤ) (choice : ℕ) (order : Groups hl il → Groups hl il) where
    main_handle-up_of :
        (spare : List ℕ) (p : Post) (bus : Bus hl)
        → IsCarried p
        → bus.comets.mu ≡ false
        → main_handle hl il up choice order spare (up_of p) bus
          ≡ done (record bus {
            comets =
                wrote
                  (all_pushed (down_of p) (user_conns bus.users bus.comets.servers p.uid))
                  bus.comets;
          })
    unfolding main_handle
    main_handle-up_of spare p bus (n, hs, q, hi, small) free =
        let (r, pushed) = push_to_comet_known p.uid (down_of p) bus.users bus.comets free in
        rw (head_of_up spare p.src_id (p.uid ∷ []) p.text hs (hi, tt) (omega arith), n)
          (rw (q, drop-up_bytes p.src_id (p.uid ∷ []) p.text) (rw pushed refl))

    handle_all-ups :
        (spare : ℕ → List ℕ) (i : ℕ) (ps : List Post) (bus : Bus hl)
        → All IsCarried ps
        → bus.comets.mu ≡ false
        → handle_all hl il up choice order spare i (ups ps) bus
          ≡ done (record bus { comets = wrote (log_of bus.users bus.comets.servers ps) bus.comets })
    unfolding handle_all ups wrote log_of
    handle_all-ups spare i [] bus h free =
        ap (λ (c : Comets). done (record bus { comets = c })) (wrote-nil bus.comets)
    handle_all-ups spare i (p ∷ ps) bus (carried, h) free =
        let now = all_pushed (down_of p) (user_conns bus.users bus.comets.servers p.uid) in
        rw (main_handle-up_of (spare i) p bus carried free) (
          handle_all-ups spare (suc i) ps (record bus { comets = wrote now bus.comets }) h free
          ∙ ap
              (λ (w : List (ℕ × List ℕ)).
                done (record bus { comets = record bus.comets { written = w } }))
              (append_assoc bus.comets.written now (log_of bus.users bus.comets.servers ps)))

    -- All of the messages are within the limit of the bus.
    ups-Framed : (ps : List Post) → All IsCarried ps → Framed (ups ps)
    unfolding ups
    ups-Framed [] h = tt
    ups-Framed (p ∷ ps) ((n, hs, q, hi, small), h) =
        (omega (arith, length-up_of p), ups-Framed ps h)

    within-ups : (ps : List Post) → All IsCarried ps → within bus_payload_max (ups ps) ≡ ups ps
    unfolding ups within
    within-ups [] h = refl
    within-ups (p ∷ ps) ((n, hs, q, hi, small), h) =
        let fits : ltb bus_payload_max (length (up_of p)) ≡ false =
          ground (arith, length-up_of p) in
        rw (fits, within-ups ps h) refl

    pub bus_handles :
        (spare : ℕ → List ℕ) (fuel : ℕ) (ps : List Post) (bus : Bus hl)
        → All IsCarried ps
        → bus.comets.mu ≡ false
        → length ps ≤ fuel
        → handle_all hl il up choice order spare 0
            (handle_client fuel bus_init_max (frames (ups ps)))
            bus
          ≡ done (record bus { comets = wrote (log_of bus.users bus.comets.servers ps) bus.comets })
    bus_handles spare fuel ps bus h free enough =
        rw
          (
            handle_client_all (ups ps) fuel (ups-Framed ps h) (omega (arith, length-ups ps)),
            within-ups ps h,
          )
          (handle_all-ups spare 0 ps bus h free)
