-- ===== src/Comet/Connections/Phones.antt =====
-- comet/websocket.go: no two connections of a phone, on whichever comets, have the same id.
use slot_golang.Base.{
  ℕ, ◌+◌, ◌-◌, ◌%◌, ◌^◌, ◌≤◌, ◌<◌, ◌≡◌, refl, ap, sym, ◌∙◌, subst, Bool, true, false, ◌⊎◌, inl, inr,
  List, [], ◌∷◌, some, if◌then◌else◌, arith, lt→ltb, ◌==◌, ==_iff, Bool-cases, All, get_elem?, set,
}
use mathlib.Core.Path.{fun_ext}
use slot_golang.Base.Int64.{ℤ, pos, negsuc, is_pos, sub64, ◌==ℤ◌, ==ℤ_iff}
use slot_golang.Base.Run.{done}
use slot_golang.Comet.Redis.{Host, in_use, srem, return_mobile_id}
use slot_golang.Comet.Redis.Mobiles.{in_use-srem}
use slot_golang.Comet.Udp.Store.{Env}
use slot_golang.Comet.Login.{Outcome, closes, closes_failed, logs_in}
use slot_golang.Comet.Connections.{
  Shared, Conn, Phase, waiting, accepted, answered, online, listed, reading, broken, offline,
  returned, leaving, gone, Answer, set_mids, user_of_phone, is_phone, giving_back, after_login,
  System, run, start,
}
use slot_golang.Comet.Connections.Totals.{
  total, total-set, total_unique, All-at, All-set, All-map, total-map_zero,
}
use slot_golang.Comet.Connections.Moves.{
  Pushed, Move, no_login, login, reply_sent, no_answer, count, no_count, list, announced, message,
  hang_up, discount, no_discount, mid_back, took_leave, remove, rest, run-keeps,
}
use slot_golang.Comet.Connections.Logins.{NoPhone, IsPhone, phone_user}

abbrev has_id : ℤ → Conn → ℕ
has_id id c = if c.session.uid ==ℤ id then 1 else 0

-- Whether a handler holds a phone id for this id: from its login on, until it gives it back.
abbrev pub holds : ℤ → Phase → ℕ
holds id (accepted c) = has_id id c
holds id (answered c) = has_id id c
holds id (online c) = has_id id c
holds id (listed c) = has_id id c
holds id (reading c) = has_id id c
holds id (broken c) = has_id id c
holds id (offline c) = has_id id c
holds id (waiting host) = 0
holds id (returned c) = 0
holds id (leaving c) = 0
holds id gone = 0

-- The id of a phone is its user's, a multiple of 16, and its phone id.
abbrev IsConn : Conn → Type 0
IsConn c =
    (is_pos c.session.uid ≡ false)
    ⊎ ((n : ℕ) × (c.session.uid ≡ pos (n + c.mid))
        × (n < 2 ^ 63)
        × (n % 16 ≡ 0)
        × (0 < c.mid)
        × (c.mid < 16))

abbrev IsPhase : Phase → Type 0
IsPhase (accepted c) = IsConn c
IsPhase (answered c) = IsConn c
IsPhase (online c) = IsConn c
IsPhase (listed c) = IsConn c
IsPhase (reading c) = IsConn c
IsPhase (broken c) = IsConn c
IsPhase (offline c) = IsConn c
IsPhase _ = Unit {0}

-- Whether redis has the phone id of k in the set of its user.
abbrev taken : ℕ → (ℤ → List ℕ) → ℕ
taken k mids = if in_use (k % 16) (mids (pos (k - k % 16))) then 1 else 0

-- A phone id that was free and is taken now: for its own id there is one holder more, for no other one fewer place.
phone-taken :
    (n m k t : ℕ) (mids : ℤ → List ℕ)
    → n % 16 ≡ 0
    → 0 < m
    → m < 16
    → in_use m (mids (pos n)) ≡ false
    → t + 0 ≤ taken k mids
    → t + (if n + m == k then 1 else 0)
      ≤ taken k (λ u. if pos n ==ℤ u then m ∷ mids (pos n) else mids u)
unfolding in_use
phone-taken n m k t mids b least most free h = elim (Bool-cases (n + m == k)) [
  | inl e ↦
      let same : k ≡ n + m = sym ((==_iff (n + m) k).0 e) in
      let r : k % 16 ≡ m = omega arith in
      let q : k - k % 16 ≡ n = omega arith in
      let h' : t + 0 ≤ (if in_use (k % 16) (mids (pos (k - k % 16))) then 1 else 0) = h in
      let h'' : t + 0 ≤ 0 = rw (q, r, free) at h' in
      rw (e, q, r, (==_iff n n).1 refl, (==_iff m m).1 refl) (omega arith)
  | inr e ↦ elim (Bool-cases (n == (k - k % 16))) [
    | inl q ↦
        rw (e, q)
          (let eq : n ≡ k - k % 16 = (==_iff n (k - k % 16)).0 q in
            rw (ap (λ x. mids (pos x)) eq) (elim (Bool-cases (m == (k % 16))) [
              | inl y ↦ absurd (ground arith)
              | inr y ↦ rw y h
            ]))
    | inr q ↦ rw (e, q) h
  ]
]

taken-le : (k : ℕ) (mids : ℤ → List ℕ) → taken k mids ≤ 1
taken-le k mids = ground arith

return-taken :
    (n m k t : ℕ) (mids : ℤ → List ℕ)
    → n % 16 ≡ 0
    → 0 < m
    → m < 16
    → t + (if n + m == k then 1 else 0) ≤ taken k mids
    → t + 0 ≤ taken k (λ u. if pos n ==ℤ u then srem m (mids (pos n)) else mids u)
return-taken n m k t mids b least most h = elim (Bool-cases (n + m == k)) [
  | inl e ↦
      let h' : t + 1 ≤ taken k mids = rw e at h in
      let z : t ≡ 0 = omega (arith, taken-le k mids) in omega arith
  | inr e ↦ elim (Bool-cases (n == (k - k % 16))) [
    | inl q ↦
        let eq : n ≡ k - k % 16 = (==_iff n (k - k % 16)).0 q in
        let h' : t + 0 ≤ taken k mids = rw e at h in
        rw q (
          rw (in_use-srem m (k % 16) (mids (pos n))) (elim (Bool-cases (m == (k % 16))) [
            | inl y ↦ absurd (ground arith)
            | inr y ↦ rw y (rw (ap (λ x. mids (pos x)) eq) h')
          ]))
    | inr q ↦ rw q (rw e at h)
  ]
]

module _ (k : ℕ) (phone : 0 < k) where
  -- What a step keeps, however many others hold the id.
  Keeps : Shared → Phase → Shared × Phase → Type 0
  Keeps sh p (sh', p') =
      IsPhase p'
      × ((t : ℕ) → t + holds (pos k) p ≤ taken k sh.mids → t + holds (pos k) p' ≤ taken k sh'.mids)

  -- A step that leaves the phone ids alone and does not take one.
  quiet :
      (sh sh' : Shared) (p p' : Phase)
      → IsPhase p'
      → sh'.mids ≡ sh.mids
      → holds (pos k) p' ≤ holds (pos k) p
      → Keeps sh p (sh', p')
  unfolding Keeps
  quiet sh sh' p p' h e le = (h, λ t b. rw e (omega arith))

  Pushed-mids : (host : Host) (sh sh' : Shared) → Pushed host sh sh' → sh'.mids ≡ sh.mids
  Pushed-mids host sh sh' (inl e) = ap (λ (x : Shared). x.mids) e
  Pushed-mids host sh sh' (inr (l, o, e)) = ap (λ (x : Shared). x.mids) e

  NoPhone-Keeps :
      (i : ℕ) (host : Host) (user : ℤ) (sh sh' : Shared) (o : Outcome)
      → sh'.mids ≡ sh.mids
      → NoPhone user o
      → Keeps sh (waiting host) (sh', after_login i host o)
  unfolding Keeps
  NoPhone-Keeps i host user sh sh' (closes text) e h = (tt, λ t b. rw e b)
  NoPhone-Keeps i host user sh sh' closes_failed e h = (tt, λ t b. rw e b)
  NoPhone-Keeps i host user sh sh' (logs_in uid mid ids) e h =
      (inl h.0, λ t b. rw (e, not_phone uid h.0) b)
    where
      not_phone : (uid : ℤ) → is_pos uid ≡ false → (uid ==ℤ pos k) ≡ false
      not_phone (pos n) h = ground arith
      not_phone (negsuc n) h = refl

  same_mids : (user : ℤ) (sh : Shared) → (set_mids user (sh.mids user) sh).mids ≡ sh.mids
  same_mids user sh = fun_ext (λ u. choice u (Bool-cases (user ==ℤ u)))
    where
      choice :
          (u : ℤ)
          → ((user ==ℤ u ≡ true) ⊎ (user ==ℤ u ≡ false))
          → (if user ==ℤ u then sh.mids user else sh.mids u) ≡ sh.mids u
      choice u (inl e) = rw e (ap sh.mids ((==ℤ_iff user u).0 e))
      choice u (inr e) = rw e refl

  phone-Keeps :
      (i : ℕ) (host : Host) (user : ℤ) (sh : Shared) (r : Outcome × List ℕ)
      → IsPhone user (sh.mids user) r
      → Keeps sh (waiting host) (set_mids user r.1 sh, after_login i host r.0)
  unfolding Keeps
  phone-Keeps i host user sh r h =
      rw (h.outcome, h.mids')
        (rw h.whole (
          inr (h.n, refl, h.fits, h.block, h.least, h.most),
          λ t b.
              phone-taken h.n h.m k t sh.mids h.block h.least h.most
                (subst (λ u. in_use h.m (sh.mids u) ≡ false) h.whole h.free) b,
        ))

  phone_conn : (c : Conn) (n : ℕ) → c.session.uid ≡ pos (n + c.mid) → 0 < c.mid → is_phone c ≡ true
  phone_conn c n e l = rw e (rw (lt→ltb 0 (n + c.mid) (omega arith), lt→ltb 0 c.mid l) refl)

  phone_conn-user :
      (c : Conn) (n : ℕ)
      → c.session.uid ≡ pos (n + c.mid)
      → n < 2 ^ 63
      → n % 16 ≡ 0
      → c.mid < 16
      → user_of_phone c ≡ pos n
  phone_conn-user c n e f b l = ap (λ u. sub64 u (pos c.mid)) e ∙ phone_user n c.mid f b l

  give_back-Keeps :
      (works : Bool) (c : Conn) (sh : Shared)
      → IsConn c
      → Keeps sh (offline c) (giving_back works c sh, returned c)
  unfolding Keeps return_mobile_id
  give_back-Keeps works c sh (inl h) = (tt, λ t b. rw h (omega (arith, b)))
  give_back-Keeps false c sh (inr h) = (
    tt,
    λ t b. elim (Bool-cases (is_phone c)) [
      | inl p ↦ rw p (omega (arith, b))
      | inr p ↦ rw p (omega (arith, b))
    ],
  )
  give_back-Keeps true c sh (inr (n, e, fits, b, least, most)) = (
    tt,
    λ t le.
        rw (phone_conn c n e least, phone_conn-user c n e fits b most)
          (return-taken n c.mid k t sh.mids b least most
            (subst (λ u. t + (if u ==ℤ pos k then 1 else 0) ≤ taken k sh.mids) e le)),
  )

  Move-Keeps :
      (a : Answer) (sh sh' : Shared) (p p' : Phase)
      → Move a sh p sh' p'
      → IsPhase p
      → Keeps sh p (sh', p')
  Move-Keeps a sh sh' p p' (no_login host) h = quiet sh sh p p' tt refl (omega arith)
  Move-Keeps a sh sh' p p' (login i host q user r v eq (inl (e, n)) x) h =
      NoPhone-Keeps i host user sh _ r.0 (ap (λ m. (set_mids user m sh).mids) e ∙ same_mids user sh)
        n
  Move-Keeps a sh sh' p p' (login i host q user r v eq (inr f) x) h = phone-Keeps i host user sh r f
  Move-Keeps a sh sh' p p' (reply_sent c) h = quiet sh sh p p' h refl (omega arith)
  Move-Keeps a sh sh' p p' (no_answer c) h = quiet sh sh p p' tt refl (omega arith)
  Move-Keeps a sh sh' p p' (count c) h = quiet sh sh' p p' h refl (omega arith)
  Move-Keeps a sh sh' p p' (no_count c) h = quiet sh sh p p' tt refl (omega arith)
  Move-Keeps a sh sh' p p' (list c) h = quiet sh sh' p p' h refl (omega arith)
  Move-Keeps a sh sh' p p' (announced c _ e) h =
      quiet sh sh' p p' h (Pushed-mids c.host sh sh' e) (omega arith)
  Move-Keeps a sh sh' p p' (message c _ e) h =
      quiet sh sh' p p' h (Pushed-mids c.host sh sh' e) (omega arith)
  Move-Keeps a sh sh' p p' (hang_up c) h = quiet sh sh p p' h refl (omega arith)
  Move-Keeps a sh sh' p p' (discount c) h = quiet sh sh' p p' h refl (omega arith)
  Move-Keeps a sh sh' p p' (no_discount c w) h = quiet sh sh p p' h refl (omega arith)
  Move-Keeps a sh sh' p p' (mid_back c) h = give_back-Keeps a.redis c sh h
  Move-Keeps a sh sh' p p' (took_leave c _ e) h =
      quiet sh sh' p p' tt (Pushed-mids c.host sh sh' e) (omega arith)
  Move-Keeps a sh sh' p p' (remove c) h = quiet sh sh' p p' tt refl (omega arith)
  Move-Keeps a sh sh' p p' rest h = quiet sh sh p p' tt refl (omega arith)

  -- All handlers: the ids fit their phone ids, and redis has each phone id that a handler holds, once.
  Held : Shared → List Phase → Type 0
  Held sh ps = All IsPhase ps × (total (holds (pos k)) ps ≤ taken k sh.mids)

  Move-Held :
      (a : Answer) (sh sh' : Shared) (ps : List Phase) (i : ℕ) (p p' : Phase)
      → Unit {0}
      → get_elem? ps i ≡ some p
      → Move a sh p sh' p'
      → Held sh ps
      → Held sh' (set ps i p')
  unfolding Held Keeps
  Move-Held a sh sh' ps i p p' ok e move h =
      let (good, keep) = Move-Keeps a sh sh' p p' move (All-at IsPhase ps i p h.0 e) in
      let (t, before, after) = total-set (holds (pos k)) ps i p p' e in
      (
        All-set IsPhase ps i p' h.0 good,
        subst (λ x. x ≤ taken k sh'.mids) (sym after)
            (keep t (subst (λ x. x ≤ taken k sh.mids) before h.1)),
      )

  start-Held :
      (hosts : List Host) (mids : ℤ → List ℕ)
      → Held (start hosts mids).shared (start hosts mids).phases
  unfolding Held
  start-Held hosts mids = (
    All-map IsPhase waiting hosts (λ h. tt),
    omega (arith, total-map_zero (holds (pos k)) waiting hosts (λ h. refl)),
  )

any_answers : (schedule : List (ℕ × Answer)) → All (λ (t : ℕ × Answer). Unit {0}) schedule
any_answers [] = tt
any_answers ((i, a) ∷ schedule) = (tt, any_answers schedule)

-- Whatever connections come to the comets, in whatever order their handlers take their steps, and whatever redis,
-- the network and the phones answer: all steps return, and afterwards no two handlers that hold a phone id, from
-- the login until it is given back, have the same positive id.
pub phones_differ :
    (env : Env) (md5_sum : List ℕ → List ℕ) (hosts : List Host) (mids : ℤ → List ℕ)
    (schedule : List (ℕ × Answer))
    → (sys : System) × (run env md5_sum schedule (start hosts mids) ≡ done sys)
      × ((k i j : ℕ) (p q : Phase)
          → 0 < k
          → get_elem? sys.phases i ≡ some p
          → get_elem? sys.phases j ≡ some q
          → holds (pos k) p ≡ 1
          → holds (pos k) q ≡ 1
          → i ≡ j)
unfolding Held
phones_differ env md5_sum hosts mids schedule =
    let (sys, e, held) =
      run-keeps env md5_sum (λ sh ps. (k : ℕ) (h : 0 < k) → Held k h sh ps) (λ a. Unit {0})
        (λ a sh sh' ps i p p' ok at move h k pos_k.
          Move-Held k pos_k a sh sh' ps i p p' ok at move (h k pos_k))
        schedule (start hosts mids) (any_answers schedule)
        (λ k pos_k. start-Held k pos_k hosts mids) in
    (
      sys,
      e,
      λ k i j p q pos_k ep eq hp hq.
          total_unique (holds (pos k)) sys.phases i j p q
            (omega (arith, (held k pos_k).1, taken-le k sys.shared.mids)) ep eq hp hq,
    )
