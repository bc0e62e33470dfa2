-- ===== src/Forwarding/Streams.antt =====
-- The reader of a comet on what the bus wrote to its connection.
use slot_golang.Base.{
  ℕ, zero, suc, ◌+◌, ◌^◌, ◌%◌, ◌≤◌, ◌≡◌, refl, sym, ap, ◌∙◌, false, List, [], ◌∷◌, ◌++◌, length,
  ltb, ◌==◌, arith, All, length-append, replicate, if◌then◌else◌,
}
use mathlib.Core.List.{append_assoc}
use slot_golang.Base.Int64.{ℤ}
use slot_golang.Base.Bytes.{put_le}
use slot_golang.Base.Run.{done, ◌>>=◌}
use slot_golang.Envelope.{handle_msg}
use slot_golang.Envelope.Written.{down_bytes, ids_bytes, length-ids_bytes, down_data-layout}
use slot_golang.Envelope.RoundTrip.{down-handle_msg}
use slot_golang.Forwarding.{Post, stream_of, push_all}
use slot_golang.Forwarding.Sent.{IsCarried, down_of, user_conns, log_of}
use slot_golang.Hlist.{Hlist}
use slot_golang.MsgBus.Comets.{Servers}
use slot_golang.MsgBus.Push.{all_pushed}
use slot_golang.MsgBus.UserMap.{Host, UserMap}
use slot_golang.Wire.{frame, comet_payload_max, reciver}
use slot_golang.Wire.Delivery.{frames, within, Framed, reciver_delivers}

-- How often a connection is in a list.
unfoldable pub times : ℕ → List ℕ → ℕ
times conn [] = 0
times conn (c ∷ conns) = if c == conn then suc (times conn conns) else times conn conns

pub stream_of-append :
    (conn : ℕ) (xs ys : List (ℕ × List ℕ))
    → stream_of conn (xs ++ ys) ≡ stream_of conn xs ++ stream_of conn ys
unfolding stream_of
stream_of-append conn [] ys = refl
stream_of-append conn ((c, bytes) ∷ xs) ys =
    ground (
      arith,
      stream_of-append conn xs ys,
      append_assoc bytes (stream_of conn xs) (stream_of conn ys),
    )

frames-append : (xs ys : List (List ℕ)) → frames (xs ++ ys) ≡ frames xs ++ frames ys
unfolding frames
frames-append [] ys = refl
frames-append (m ∷ xs) ys =
    rw (frames-append xs ys) (sym (append_assoc (frame m) (frames xs) (frames ys)))

-- Each connection is sent a message as often as it is in the list.
stream_of-all_pushed :
    (conn : ℕ) (m : List ℕ) (conns : List ℕ)
    → stream_of conn (all_pushed m conns) ≡ frames (replicate (times conn conns) m)
unfolding stream_of all_pushed times frames frame
stream_of-all_pushed conn m [] = refl
stream_of-all_pushed conn m (c ∷ conns) = ground (
  arith,
  stream_of-all_pushed conn m conns,
  append_assoc (put_le 4 (length m % 2 ^ 32)) m (frames (replicate (times conn conns) m)),
)

length-down_of : (p : Post) → length (down_of p) ≡ 10 + length p.text
unfolding down_bytes ids_bytes put_le
length-down_of p =
    omega (arith, length-append (ids_bytes (p.uid ∷ [])) p.text, length-ids_bytes (p.uid ∷ []))

small-Framed : (ms : List (List ℕ)) → All (λ m. length m ≤ 1024) ms → Framed ms
small-Framed [] h = tt
small-Framed (m ∷ ms) (small, h) = (omega arith, small-Framed ms h)

within_of_small :
    (ms : List (List ℕ)) → All (λ m. length m ≤ 1024) ms → within comet_payload_max ms ≡ ms
unfolding within
within_of_small [] h = refl
within_of_small (m ∷ ms) (small, h) =
    let fits : ltb comet_payload_max (length m) ≡ false = ground arith in
    rw (fits, within_of_small ms h) refl

handle_msg-down_of :
    (spare : List ℕ) (p : Post)
    → IsCarried p
    → handle_msg spare (down_of p) ≡ done ((p.uid, p.text) ∷ [])
handle_msg-down_of spare p (n, hs, q, hi, small) =
    sym (ap (λ r. r >>= handle_msg spare) (down_data-layout (p.uid ∷ []) p.text (omega arith)))
    ∙ down-handle_msg spare (p.uid ∷ []) p.text (hi, tt) (omega arith)

push_all-copies :
    (spare : ℕ → List ℕ) (p : Post) (n i : ℕ) (ms : List (List ℕ)) (rest : List (ℤ × List ℕ))
    → IsCarried p
    → ((j : ℕ) → push_all spare j ms ≡ done rest)
    → push_all spare i (replicate n (down_of p) ++ ms) ≡ done (replicate n (p.uid, p.text) ++ rest)
unfolding push_all
push_all-copies spare p zero i ms rest h more = more i
push_all-copies spare p (suc n) i ms rest h more =
    rw (handle_msg-down_of (spare i) p h, push_all-copies spare p n (suc i) ms rest h more) refl

module _ (hl : Hlist Host) (kv : UserMap hl) (servers : Servers) (conn : ℕ) where
  -- The messages that the connection of a comet is sent.
  unfoldable pub downs : List Post → List (List ℕ)
  downs [] = []
  downs (p ∷ ps) = replicate (times conn (user_conns hl kv servers p.uid)) (down_of p) ++ downs ps

  -- The calls of `PushMsg` that they are for: each message as often as the comet is in its receiver's list.
  unfoldable pub received : List Post → List (ℤ × List ℕ)
  received [] = []
  received (p ∷ ps) =
      replicate (times conn (user_conns hl kv servers p.uid)) (p.uid, p.text) ++ received ps

  stream_of-log_of : (ps : List Post) → stream_of conn (log_of hl kv servers ps) ≡ frames (downs ps)
  unfolding log_of downs frames stream_of
  stream_of-log_of [] = refl
  stream_of-log_of (p ∷ ps) =
      let conns = user_conns hl kv servers p.uid in
      stream_of-append conn (all_pushed (down_of p) conns) (log_of hl kv servers ps)
      ∙ rw (stream_of-all_pushed conn (down_of p) conns, stream_of-log_of ps)
          (sym (frames-append (replicate (times conn conns) (down_of p)) (downs ps)))

  copies-All :
      (Q : List ℕ → Type 0) (m : List ℕ) (n : ℕ) (ms : List (List ℕ))
      → Q m
      → All Q ms
      → All Q (replicate n m ++ ms)
  copies-All Q m zero ms q h = h
  copies-All Q m (suc n) ms q h = (q, copies-All Q m n ms q h)

  downs-Framed : (ps : List Post) → All IsCarried ps → All (λ m. length m ≤ 1024) (downs ps)
  unfolding downs
  downs-Framed [] h = tt
  downs-Framed (p ∷ ps) ((n, hs, q, hi, small), h) =
      copies-All (λ m. length m ≤ 1024) (down_of p) (times conn (user_conns hl kv servers p.uid))
        (downs ps) (omega (arith, length-down_of p)) (downs-Framed ps h)

  push_all-downs :
      (spare : ℕ → List ℕ) (ps : List Post) (i : ℕ)
      → All IsCarried ps
      → push_all spare i (downs ps) ≡ done (received ps)
  unfolding downs received push_all
  push_all-downs spare [] i h = refl
  push_all-downs spare (p ∷ ps) i (carried, h) =
      push_all-copies spare p (times conn (user_conns hl kv servers p.uid)) i (downs ps)
        (received ps) carried (λ j. push_all-downs spare ps j h)

  length-copies :
      (n : ℕ) (a : List ℕ) (b : ℤ × List ℕ) (xs : List (List ℕ)) (ys : List (ℤ × List ℕ))
      → length xs ≡ length ys
      → length (replicate n a ++ xs) ≡ length (replicate n b ++ ys)
  length-copies zero a b xs ys h = h
  length-copies (suc n) a b xs ys h = ap suc (length-copies n a b xs ys h)

  length-downs : (ps : List Post) → length (downs ps) ≡ length (received ps)
  unfolding downs received
  length-downs [] = refl
  length-downs (p ∷ ps) =
      length-copies (times conn (user_conns hl kv servers p.uid)) (down_of p) (p.uid, p.text)
        (downs ps) (received ps) (length-downs ps)

  pub comet_receives :
      (spare : ℕ → List ℕ) (fuel : ℕ) (ps : List Post)
      → All IsCarried ps
      → length (received ps) ≤ fuel
      → push_all spare 0 (reciver fuel (stream_of conn (log_of hl kv servers ps)))
        ≡ done (received ps)
  comet_receives spare fuel ps h enough =
      let small = downs-Framed ps h in
      rw
        (
          stream_of-log_of ps,
          reciver_delivers (downs ps) fuel (small-Framed (downs ps) small)
              (omega (arith, length-downs ps)),
          within_of_small (downs ps) small,
        )
        (push_all-downs spare ps 0 h)
