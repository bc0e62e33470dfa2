-- ===== src/Comet/Connections/Moves.antt =====
-- comet/websocket.go: a step of a handler always comes to its end, and is one of these moves.
use slot_golang.Base.{
  ℕ, ◌+◌, ◌-◌, ◌≤◌, [], take, drop, le→leb, ◌≡◌, refl, ap, Bool, true, false, ◌⊎◌, inl, inr, List,
  ◌∷◌, Option, none, some, arith, ltb, length, Bool-cases, Option-cases, get_elem?, set, All,
}
use mathlib.Core.Option
use slot_golang.Base.Int64.{ℤ, pos, is_neg, of_u64}
use slot_golang.Base.Bytes.{uint_at, get_le, slice}
use slot_golang.Base.Maps.{bytes_eq}
use slot_golang.Base.Run.{Run, done}
use slot_golang.Msgs.Status.{mst_device_online, mst_device_offline}
use slot_golang.Comet.Redis.{Host, set_user_online, set_user_offline}
use slot_golang.Comet.Sessions.{
  Session, SessionList, add_session, remove_session, list_calc_dest_ids,
}
use slot_golang.Comet.Udp.Store.{Env}
use slot_golang.Comet.Udp.Devices.Reaches.{notice_bytes}
use slot_golang.Comet.Login.{
  Params, Outcome, get_login_params, ws_login, Received, pong, hangs_up, pushes, ws_receive,
}
use slot_golang.Comet.Login.Connection.{announce}
use slot_golang.Comet.Connections.{
  Shared, Conn, Phase, waiting, accepted, answered, online, listed, reading, broken, offline,
  returned, leaving, gone, Answer, set_mids, set_sessions, counting, giving_back, own_id,
  after_login, login_user, after_message, receiving, logging_in, announcing, System, step, turn,
  run,
}
use slot_golang.Comet.Connections.Logins.{Login, ws_login-Login, Rejected, ws_login-Rejected}

-- The same sessions, and at most one message more for the bus.
abbrev pub Pushed : Host → Shared → Shared → Type 0
Pushed host sh sh' =
    (sh' ≡ sh)
    ⊎ ((l : SessionList) × (l.onlined ≡ (sh.sessions host).onlined)
        × (sh' ≡ set_sessions host l sh))

-- What a handler may do to what is shared; with the answer that it gets.
pub data Move (a : Answer) (sh : Shared) : Phase → Shared → Phase → Type 0 where
  no_login : (host : Host) → Move a sh (waiting host) sh gone
  login :
      (i : ℕ) (host : Host) (p : Option Params) (user : ℤ) (r : Outcome × List ℕ)
      → Option.map get_login_params a.received ≡ some p
      → login_user p ≡ user
      → Login user (sh.mids user) r
      → Rejected p r.0
      → Move a sh (waiting host) (set_mids user r.1 sh) (after_login i host r.0)
  reply_sent : (c : Conn) → Move a sh (accepted c) sh (answered c)
  no_answer : (c : Conn) → Move a sh (accepted c) sh gone
  count :
      (c : Conn)
      → Move a sh
          (answered c)
          (counting (set_user_online c.session.uid c.host sh.hashes) sh)
          (online c)
  no_count : (c : Conn) → Move a sh (answered c) sh gone
  list :
      (c : Conn)
      → Move a sh
          (online c)
          (set_sessions c.host (add_session c.session (sh.sessions c.host)) sh)
          (listed c)
  announced :
      (c : Conn) (sh' : Shared) → Pushed c.host sh sh' → Move a sh (listed c) sh' (reading c)
  message : (c : Conn) (sh' : Shared) → Pushed c.host sh sh' → Move a sh (reading c) sh' (reading c)
  hang_up : (c : Conn) → Move a sh (reading c) sh (broken c)
  discount :
      (c : Conn)
      → Move a sh
          (broken c)
          (counting (set_user_offline c.session.uid c.host sh.hashes) sh)
          (offline c)
  no_discount : (c : Conn) → a.redis ≡ false → Move a sh (broken c) sh (offline c)
  mid_back : (c : Conn) → Move a sh (offline c) (giving_back a.redis c sh) (returned c)
  took_leave :
      (c : Conn) (sh' : Shared) → Pushed c.host sh sh' → Move a sh (returned c) sh' (leaving c)
  remove :
      (c : Conn)
      → Move a sh
          (leaving c)
          (set_sessions c.host (remove_session c.session (sh.sessions c.host)) sh)
          gone
  rest : Move a sh gone sh gone

abbrev pub Moves : Answer → Shared → Phase → Run (Shared × Phase) → Type 0
Moves a sh p m = (sh' : Shared) × (p' : Phase) × (m ≡ done (sh', p')) × Move a sh p sh' p'

announcing-Pushed :
    (now kind : ℕ) (id : ℤ) (c : Conn) (sh : Shared)
    → (sh' : Shared) × (announcing now kind id c sh ≡ done sh') × Pushed c.host sh sh'
unfolding announce
announcing-Pushed now kind id c sh =
    let l = sh.sessions c.host in
    elim (Bool-cases (is_neg id)) [
      | inl e ↦
          let (m', bytes, b) = notice_bytes now kind id in
          let l' = record l {
            pushed = (id, list_calc_dest_ids c.session (pos 0) l, bytes) ∷ l.pushed;
          } in
          (set_sessions c.host l' sh, rw (e, b) refl, inr (l', refl, refl))
      | inr e ↦ (set_sessions c.host l sh, rw e refl, inr (l, refl, refl))
    ]

uint_at-in_range : (b : List ℕ) (i w : ℕ) → i + w ≤ length b → (v : ℕ) × (uint_at b i w ≡ some v)
unfolding uint_at slice
uint_at-in_range b i w h = (
  get_le (take (i + w - i) (drop i b)),
  rw (le→leb i (i + w) (omega arith), le→leb (i + w) (length b) h) refl,
)

received :
    (s : Session) (l : SessionList) (msg : List ℕ) → (r : Received) × (ws_receive s l msg ≡ done r)
unfolding ws_receive
received s l msg = elim (Bool-cases (bytes_eq msg (b'p' ∷ []))) [
  | inl e ↦ (pong, rw e refl)
  | inr e ↦ elim (Bool-cases (ltb (length msg) 16)) [
    | inl short ↦ (hangs_up, rw (e, short) refl)
    | inr long ↦
        let (v, u) = uint_at-in_range msg 8 8 (ground arith) in
        (pushes s.uid (list_calc_dest_ids s (of_u64 v) l) msg, rw (e, long) (rw u refl))
  ]
]

after_message-Move :
    (a : Answer) (sent : Bool) (c : Conn) (r : Received) (sh : Shared)
    → Move a sh (reading c) (after_message sent c r sh).0 (after_message sent c r sh).1
after_message-Move a true c pong sh = message c sh (inl refl)
after_message-Move a false c pong sh = hang_up c
after_message-Move a sent c hangs_up sh = hang_up c
after_message-Move a sent c (pushes id ids msg) sh = message c _ (inr (_, refl, refl))

receiving-Moves :
    (a : Answer) (sent : Bool) (c : Conn) (o : Option (List ℕ)) (sh : Shared)
    → Moves a sh (reading c) (receiving sent c o sh)
receiving-Moves a sent c none sh = (sh, broken c, refl, hang_up c)
receiving-Moves a sent c (some msg) sh =
    let (r, e) = received c.session (sh.sessions c.host) msg in
    (_, _, rw e refl, after_message-Move a sent c r sh)

module _ (env : Env) (md5_sum : List ℕ → List ℕ) where
  logging_in-Move :
      (i : ℕ) (a : Answer) (host : Host) (o : Option (List ℕ)) (sh : Shared)
      → a.received ≡ o
      → Move a sh
          (waiting host)
          (logging_in env md5_sum i a host o sh).0
          (logging_in env md5_sum i a host o sh).1
  logging_in-Move i a host none sh e = no_login host
  logging_in-Move i a host (some req) sh e =
      let user = login_user (get_login_params req) in
      login i host (get_login_params req) user
        (ws_login a.now md5_sum env a.redis req (sh.mids user)) (ap (Option.map get_login_params) e)
        refl (ws_login-Login a.now md5_sum env a.redis req (sh.mids user))
        (ws_login-Rejected a.now md5_sum env a.redis req (sh.mids user))

  -- Every step returns.
  pub step-Moves :
      (i : ℕ) (a : Answer) (sh : Shared) (p : Phase) → Moves a sh p (step env md5_sum i a sh p)
  unfolding step
  step-Moves i a sh (waiting host) = (_, _, refl, logging_in-Move i a host a.received sh refl)
  step-Moves i a sh (accepted c) = elim (Bool-cases a.sent) [
    | inl e ↦ (sh, answered c, rw e refl, reply_sent c)
    | inr e ↦ (sh, gone, rw e refl, no_answer c)
  ]
  step-Moves i a sh (answered c) = elim (Bool-cases a.redis) [
    | inl e ↦
        (counting (set_user_online c.session.uid c.host sh.hashes) sh, online c, rw e refl, count c)
    | inr e ↦ (sh, gone, rw e refl, no_count c)
  ]
  step-Moves i a sh (online c) = (_, _, refl, list c)
  step-Moves i a sh (listed c) =
      let (sh', e, h) = announcing-Pushed a.now mst_device_online c.session.uid c sh in
      (sh', reading c, rw e refl, announced c sh' h)
  step-Moves i a sh (reading c) = receiving-Moves a a.sent c a.received sh
  step-Moves i a sh (broken c) = elim (Bool-cases a.redis) [
    | inl e ↦ (
      counting (set_user_offline c.session.uid c.host sh.hashes) sh,
      offline c,
      rw e refl,
      discount c,
    )
    | inr e ↦ (sh, offline c, rw e refl, no_discount c e)
  ]
  step-Moves i a sh (offline c) = (_, _, refl, mid_back c)
  step-Moves i a sh (returned c) =
      let (sh', e, h) = announcing-Pushed a.now mst_device_offline (own_id c) c sh in
      (sh', leaving c, rw e refl, took_leave c sh' h)
  step-Moves i a sh (leaving c) = (_, _, refl, remove c)
  step-Moves i a sh gone = (sh, gone, refl, rest)

  -- What each move keeps holds at the end of every schedule, which is reached.
  module _ (P : Shared → List Phase → Type 0) (Allowed : Answer → Type 0)
      (keep : (a : Answer) (sh sh' : Shared) (ps : List Phase) (i : ℕ) (p p' : Phase)
        → Allowed a
        → get_elem? ps i ≡ some p
        → Move a sh p sh' p'
        → P sh ps
        → P sh' (set ps i p')) where
    turn-keeps :
        (i : ℕ) (a : Answer) (sys : System)
        → Allowed a
        → P sys.shared sys.phases
        → (sys' : System) × (turn env md5_sum i a sys ≡ done sys') × P sys'.shared sys'.phases
    unfolding turn
    turn-keeps i a sys ok h = elim (Option-cases (get_elem? sys.phases i)) [
      | inl e ↦ (sys, rw (turn, e) refl, h)
      | inr (p, e) ↦
          let (sh', p', r, move) = step-Moves i a sys.shared p in
          (
            record { shared = sh'; phases = set sys.phases i p' },
            rw (turn, e) (rw r refl),
            keep a sys.shared sh' sys.phases i p p' ok e move h,
          )
    ]

    pub run-keeps :
        (schedule : List (ℕ × Answer)) (sys : System)
        → All (λ (t : ℕ × Answer). Allowed t.1) schedule
        → P sys.shared sys.phases
        → (sys' : System) × (run env md5_sum schedule sys ≡ done sys') × P sys'.shared sys'.phases
    unfolding run
    run-keeps [] sys ok h = (sys, refl, h)
    run-keeps ((i, a) ∷ schedule) sys ok h =
        let (mid, e, k) = turn-keeps i a sys ok.0 h in
        let (sys', r, k') = run-keeps schedule mid ok.1 k in (sys', rw e r, k')
