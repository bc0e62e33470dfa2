-- ===== src/MsgBus/Comets/Locks.antt =====
-- msgbus/comet.go: the mutexes after a comet leaves, and what a push puts on its connection.
use slot_golang.Base.{
  ℕ, suc, ◌%◌, ◌^◌, ◌≡◌, refl, ap, sym, ◌∙◌, Bool, true, false, List, [], ◌∷◌, ◌++◌, none, some,
  if◌then◌else◌, length, arith, ◌==◌, ==_iff, Bool-cases, inl, inr,
}
use mathlib.Core.List.{append_assoc, append-nil}
use slot_golang.Base.Bytes.{put_le}
use slot_golang.Base.Maps.{string_eq, lookup, insert, delete, lookup-insert, bytes_eq, bytes_eq_iff}
use slot_golang.Base.Run.{Run, done_inj, done, blocks, ◌>>=◌}
use slot_golang.Msgs.Inspect.{comet_udp}
use slot_golang.Wire.{frame}
use slot_golang.MsgBus.UserMap.{Host}
use slot_golang.MsgBus.Comets.{
  Comets, CometServer, new_server, add_server, remove_server, remove_udp_server, position,
  drop_name, push_msg, push_udp_msg, push,
}

position-snoc :
    (host : Host) (names : List Host) → (k : ℕ) × (position host (names ++ (host ∷ [])) ≡ some k)
unfolding position
position-snoc host [] = (0, rw ((bytes_eq_iff host host).1 refl))
position-snoc host (v ∷ names) = elim (Bool-cases (bytes_eq v host)) [
  | inl hit ↦ (0, rw hit)
  | inr miss ↦ let (k, e) = position-snoc host names in (suc k, rw (miss, e))
]

lookup-insert_self :
    (host : Host) (s : CometServer) (m : List (Host × CometServer))
    → lookup host (insert host s m) ≡ some s
lookup-insert_self host s m = lookup-insert host host s m ∙ rw ((bytes_eq_iff host host).1 refl)

-- A state in which no call on the UDP comets comes back.
abbrev pub UdpStuck : Comets → Type 0
UdpStuck c =
    ((host : Host) (conn : ℕ) → add_server host conn comet_udp c ≡ blocks)
    × ((works : List (ℕ × List ℕ) → ℕ → List ℕ → Bool) (choice : ℕ) (msg : List ℕ)
        → push_udp_msg works choice msg c ≡ blocks)

held_UdpStuck : (c : Comets) → c.mu_udp ≡ true → UdpStuck c
unfolding add_server push_udp_msg
held_UdpStuck c e = ((λ host conn. rw e), λ works choice msg. rw e)

removed_holds :
    (host : Host) (c : Comets) (s : CometServer) (k : ℕ)
    → lookup host c.servers_udp ≡ some s
    → position host c.udp_comet_names ≡ some k
    → (c' : Comets) × (remove_udp_server host c ≡ done c') × (c'.mu_udp ≡ true)
unfolding remove_udp_server
removed_holds host c s k e p = (
  record c {
    mu_udp = true;
    servers_udp = delete host c.servers_udp;
    udp_comet_names = drop_name c.udp_comet_names k;
  },
  rw (remove_udp_server, e, p),
  refl,
)

joined : Host → ℕ → Comets → Comets
joined host conn c = record c {
  udp_comet_names = c.udp_comet_names ++ (host ∷ []);
  servers_udp = insert host (new_server conn comet_udp) c.servers_udp;
}

add_udp :
    (host : Host) (conn : ℕ) (c : Comets)
    → c.mu_udp ≡ false
    → add_server host conn comet_udp c ≡ done (joined host conn c)
unfolding add_server joined
add_udp host conn c e = rw e

remove_step :
    (host : Host) (c : Comets)
    → c.mu ≡ false
    → c.mu_udp ≡ false
    → lookup host c.servers ≡ none
    → remove_server host c ≡ remove_udp_server host c
unfolding remove_server
remove_step host c free open_udp absent = ground arith

-- When a UDP comet joins (both mutexes free, its host no websocket comet) and leaves again,
-- `RemoveServer` returns with `muUdp` held: from then on no UDP comet can join and no message can be
-- pushed to one, those calls wait for ever.
pub remove_udp_deadlock :
    (host : Host) (conn : ℕ) (c : Comets)
    → c.mu ≡ false
    → c.mu_udp ≡ false
    → lookup host c.servers ≡ none
    → (c' : Comets) × ((add_server host conn comet_udp c >>= remove_server host) ≡ done c')
      × UdpStuck c'
unfolding joined
remove_udp_deadlock host conn c free open_udp absent =
    let (k, p) = position-snoc host c.udp_comet_names in
    let (c', removed, holds) =
      removed_holds host (joined host conn c) (new_server conn comet_udp) k
        (lookup-insert_self host (new_server conn comet_udp) c.servers_udp) p in
    (
      c',
      ap (λ (r : Run Comets). r >>= remove_server host) (add_udp host conn c open_udp)
          ∙ remove_step host (joined host conn c) free open_udp absent
          ∙ removed,
      held_UdpStuck c' holds,
    )

-- The bytes that were written to one connection.
unfoldable pub sent_on : ℕ → List (ℕ × List ℕ) → List ℕ
sent_on conn [] = []
sent_on conn ((k, bytes) ∷ log) = if k == conn then bytes ++ sent_on conn log else sent_on conn log

sent_on-append :
    (conn : ℕ) (xs ys : List (ℕ × List ℕ))
    → sent_on conn (xs ++ ys) ≡ sent_on conn xs ++ sent_on conn ys
unfolding sent_on
sent_on-append conn [] ys = refl
sent_on-append conn ((k, bytes) ∷ xs) ys = elim (Bool-cases (k == conn)) [
  | inl e ↦
      rw (e, sent_on-append conn xs ys)
        (sym (append_assoc bytes (sent_on conn xs) (sent_on conn ys)))
  | inr e ↦ rw (e, sent_on-append conn xs ys)
]

sent_on_self : (conn : ℕ) (bytes : List ℕ) → sent_on conn ((conn, bytes) ∷ []) ≡ bytes
unfolding sent_on
sent_on_self conn bytes = rw ((==_iff conn conn).1 refl, append-nil)

sent_on_other :
    (conn k : ℕ) (bytes : List ℕ) → (k == conn) ≡ false → sent_on conn ((k, bytes) ∷ []) ≡ []
unfolding sent_on
sent_on_other conn k bytes e = rw e

-- A length and a message on one connection are the frame there, and nothing elsewhere.
frame_on :
    (conn k : ℕ) (msg : List ℕ)
    → sent_on conn ((k, put_le 4 (length msg % 2 ^ 32)) ∷ (k, msg) ∷ [])
      ≡ (if k == conn then frame msg else [])
unfolding sent_on frame
frame_on conn k msg = elim (Bool-cases (k == conn)) [ inl e ↦ rw (e, append-nil) | inr e ↦ rw e ]

module _ (works : List (ℕ × List ℕ) → ℕ → List ℕ → Bool) where
  -- What a successful `Push` leaves in the log.
  push_written :
      (s : CometServer) (msg : List ℕ) (c : Comets)
      → (push works s msg c).1 ≡ true
      → (push works s msg c).0.written
        ≡ c.written ++ ((s.conn, put_le 4 (length msg % 2 ^ 32)) ∷ (s.conn, msg) ∷ [])
  unfolding push
  push_written s msg c e = ground (
    arith,
    append_assoc c.written ((s.conn, put_le 4 (length msg % 2 ^ 32)) ∷ []) ((s.conn, msg) ∷ []),
  )

  pushed_step :
      (msg : List ℕ) (host : Host) (s : CometServer) (c : Comets)
      → c.mu ≡ false
      → lookup host c.servers ≡ some s
      → push_msg works msg host c ≡ done (push works s msg c)
  unfolding push_msg
  pushed_step msg host s c free listed = ground arith

  -- A push without an error is the `Push` of the listed server.
  pushed :
      (msg : List ℕ) (host : Host) (s : CometServer) (c c' : Comets)
      → lookup host c.servers ≡ some s
      → push_msg works msg host c ≡ done (c', true)
      → ((push works s msg c).0 ≡ c') × ((push works s msg c).1 ≡ true)
  unfolding push_msg
  pushed msg host s c c' listed e = elim (Bool-cases c.mu) [
    | inl held ↦ cc (held, e)
    | inr free ↦
        let q = done_inj (sym (pushed_step msg host s c free listed) ∙ e) in
        (ap (λ (r : Comets × Bool). r.0) q, ap (λ (r : Comets × Bool). r.1) q)
  ]

  -- A message pushed to a websocket comet without an error puts its frame behind what the comet's
  -- connection was sent before, and nothing on any other connection.
  pub push_msg_frames :
      (msg : List ℕ) (host : Host) (s : CometServer) (c c' : Comets) (conn : ℕ)
      → lookup host c.servers ≡ some s
      → push_msg works msg host c ≡ done (c', true)
      → sent_on conn c'.written
        ≡ sent_on conn c.written ++ (if s.conn == conn then frame msg else [])
  push_msg_frames msg host s c c' conn listed e =
      let (result, sent) = pushed msg host s c c' listed e in
      rw
        (
          ← result,
          push_written s msg c sent,
          sent_on-append conn c.written
              ((s.conn, put_le 4 (length msg % 2 ^ 32)) ∷ (s.conn, msg) ∷ []),
        )
        (ap (◌++◌ (sent_on conn c.written)) (frame_on conn s.conn msg))
