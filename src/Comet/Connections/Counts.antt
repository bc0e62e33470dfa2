-- ===== src/Comet/Connections/Counts.antt =====
-- comet/websocket.go, comet/redis.go: the counts in redis are those of the connections.
use slot_golang.Base.{
  ℕ, suc, ◌+◌, ◌≡◌, refl, ap, sym, ◌∙◌, Bool, true, ◌&&◌, inl, inr, List, some, if◌then◌else◌,
  arith, Bool-cases, All, get_elem?, set,
}
use mathlib.Core.Bool.{false≢true}
use slot_golang.Base.Int64.{ℤ, pos, ◌==ℤ◌, ==ℤ_iff}
use slot_golang.Base.Maps.{bytes_eq, bytes_eq_iff, lookup}
use slot_golang.Base.Run.{done}
use slot_golang.Comet.Redis.{
  Host, Hashes, count_of, increase, decrease, set_user_online, set_user_offline,
}
use slot_golang.Comet.Redis.Counts.{count_of-hset}
use slot_golang.Comet.Udp.Store.{Env}
use slot_golang.Comet.Login.{Outcome, closes, closes_failed, logs_in}
use slot_golang.Comet.Login.Connection.Undone.{count_of-offline}
use slot_golang.Comet.Connections.{
  Shared, Conn, Phase, waiting, accepted, answered, online, listed, reading, broken, offline,
  returned, leaving, gone, Answer, after_login, giving_back, is_phone, System, run, start,
}
use slot_golang.Comet.Connections.Totals.{total, total-set, total-map_zero}
use slot_golang.Comet.Connections.Moves.{
  Pushed, Move, no_login, login, reply_sent, no_answer, count, no_count, list, announced, message,
  hang_up, discount, no_discount, mid_back, took_leave, remove, rest, run-keeps,
}

abbrev pub is_on : Host → ℤ → Conn → Bool
is_on h u c = bytes_eq c.host h && (c.session.uid ==ℤ u)

abbrev pub one_on : Host → ℤ → Conn → ℕ
one_on h u c = if is_on h u c then 1 else 0

-- Whether a handler's connection is counted: from `SetUserOnline` to `SetUserOffline`.
abbrev pub counts : Host → ℤ → Phase → ℕ
counts h u (online c) = one_on h u c
counts h u (listed c) = one_on h u c
counts h u (reading c) = one_on h u c
counts h u (broken c) = one_on h u c
counts h u (waiting host) = 0
counts h u (accepted c) = 0
counts h u (answered c) = 0
counts h u (offline c) = 0
counts h u (returned c) = 0
counts h u (leaving c) = 0
counts h u gone = 0

add_one : (t : ℕ) → t + 1 ≡ suc t
add_one t = omega arith

is_on-same :
    (h : Host) (u : ℤ) (c : Conn)
    → is_on h u c ≡ true
    → record { here : c.host ≡ h; id : c.session.uid ≡ u }
is_on-same h u c e = elim (Bool-cases (bytes_eq c.host h)) [
  | inr a ↦ absurd (false≢true (rw a at e))
  | inl a ↦ record {
    here = (bytes_eq_iff c.host h).0 a;
    id = (==ℤ_iff c.session.uid u).0 (rw a at e);
  }
]

module _ (h : Host) (u : ℤ) where
  -- What a step keeps, however many other connections are counted.
  Keeps : Shared → Phase → Shared → Phase → Type 0
  Keeps sh p sh' p' =
      (t : ℕ)
      → count_of h u sh.hashes ≡ pos (t + counts h u p)
      → count_of h u sh'.hashes ≡ pos (t + counts h u p')

  count-Keeps :
      (c : Conn) (hs : Hashes) (t : ℕ)
      → count_of h u hs ≡ pos (t + 0)
      → count_of h u (set_user_online c.session.uid c.host hs).0 ≡ pos (t + one_on h u c)
  unfolding set_user_online
  count-Keeps c hs t e =
      count_of-hset c.host h c.session.uid u (increase (count_of c.host c.session.uid hs)) hs
      ∙ elim (Bool-cases (is_on h u c)) [
        | inl on ↦ rw on (
            ap increase (
              ap (λ x. count_of x c.session.uid hs) (is_on-same h u c on).here
              ∙ ap (λ x. count_of h x hs) (is_on-same h u c on).id
              ∙ e)
            ∙ ap pos (omega arith))
        | inr off ↦ rw off e
      ]

  discount-Keeps :
      (c : Conn) (hs : Hashes) (t : ℕ)
      → count_of h u hs ≡ pos (t + one_on h u c)
      → count_of h u (set_user_offline c.session.uid c.host hs).0 ≡ pos (t + 0)
  discount-Keeps c hs t e =
      count_of-offline c.host h c.session.uid u (decrease (count_of c.host c.session.uid hs)) hs
        refl
      ∙ elim (Bool-cases (is_on h u c)) [
        | inl on ↦ rw on (
            ap decrease (
              ap (λ x. count_of x c.session.uid hs) (is_on-same h u c on).here
              ∙ ap (λ x. count_of h x hs) (is_on-same h u c on).id
              ∙ rw on at e
              ∙ ap pos (add_one t))
            ∙ ap pos (omega arith))
        | inr off ↦ rw off (rw off at e)
      ]

  -- A step that leaves the counts alone, of a handler that is counted before and after it, or not at all.
  quiet :
      (sh sh' : Shared) (p p' : Phase)
      → sh'.hashes ≡ sh.hashes
      → counts h u p' ≡ counts h u p
      → Keeps sh p sh' p'
  unfolding Keeps
  quiet sh sh' p p' e q t b = rw (e, q) b

  Pushed-hashes : (host : Host) (sh sh' : Shared) → Pushed host sh sh' → sh'.hashes ≡ sh.hashes
  Pushed-hashes host sh sh' (inl e) = ap (λ (x : Shared). x.hashes) e
  Pushed-hashes host sh sh' (inr (l, o, e)) = ap (λ (x : Shared). x.hashes) e

  not_counted : (i : ℕ) (host : Host) (o : Outcome) → counts h u (after_login i host o) ≡ 0
  not_counted i host (closes text) = refl
  not_counted i host closes_failed = refl
  not_counted i host (logs_in uid mid ids) = refl

  giving_back-hashes : (b : Bool) (c : Conn) (sh : Shared) → (giving_back b c sh).hashes ≡ sh.hashes
  giving_back-hashes b c sh = elim (Bool-cases (is_phone c && b)) [
    | inl e ↦ rw e refl
    | inr e ↦ rw e refl
  ]

  Move-Keeps :
      (a : Answer) (sh sh' : Shared) (p p' : Phase)
      → a.redis ≡ true
      → Move a sh p sh' p'
      → Keeps sh p sh' p'
  unfolding Keeps
  Move-Keeps a sh sh' p p' w (no_login host) = quiet sh sh p p' refl refl
  Move-Keeps a sh sh' p p' w (login i host q user r v eq l x) =
      quiet sh sh' p p' refl (not_counted i host r.0)
  Move-Keeps a sh sh' p p' w (reply_sent c) = quiet sh sh p p' refl refl
  Move-Keeps a sh sh' p p' w (no_answer c) = quiet sh sh p p' refl refl
  Move-Keeps a sh sh' p p' w (count c) = count-Keeps c sh.hashes
  Move-Keeps a sh sh' p p' w (no_count c) = quiet sh sh p p' refl refl
  Move-Keeps a sh sh' p p' w (list c) = quiet sh sh' p p' refl refl
  Move-Keeps a sh sh' p p' w (announced c _ e) =
      quiet sh sh' p p' (Pushed-hashes c.host sh sh' e) refl
  Move-Keeps a sh sh' p p' w (message c _ e) =
      quiet sh sh' p p' (Pushed-hashes c.host sh sh' e) refl
  Move-Keeps a sh sh' p p' w (hang_up c) = quiet sh sh p p' refl refl
  Move-Keeps a sh sh' p p' w (discount c) = discount-Keeps c sh.hashes
  Move-Keeps a sh sh' p p' w (no_discount c f) = absurd (false≢true (sym f ∙ w))
  Move-Keeps a sh sh' p p' w (mid_back c) = quiet sh sh' p p' (giving_back-hashes a.redis c sh) refl
  Move-Keeps a sh sh' p p' w (took_leave c _ e) =
      quiet sh sh' p p' (Pushed-hashes c.host sh sh' e) refl
  Move-Keeps a sh sh' p p' w (remove c) = quiet sh sh' p p' refl refl
  Move-Keeps a sh sh' p p' w rest = quiet sh sh p p' refl refl

-- Each user's count for each host is the number of its connections there.
abbrev pub Counted : Shared → List Phase → Type 0
Counted sh ps = (h : Host) (u : ℤ) → count_of h u sh.hashes ≡ pos (total (counts h u) ps)

abbrev pub Works : Answer → Type 0
Works a = a.redis ≡ true

pub Move-Counted :
    (a : Answer) (sh sh' : Shared) (ps : List Phase) (i : ℕ) (p p' : Phase)
    → Works a
    → get_elem? ps i ≡ some p
    → Move a sh p sh' p'
    → Counted sh ps
    → Counted sh' (set ps i p')
unfolding Keeps
Move-Counted a sh sh' ps i p p' w e move c h u =
    let (t, before, after) = total-set (counts h u) ps i p p' e in
    Move-Keeps h u a sh sh' p p' w move t (c h u ∙ ap pos before) ∙ ap pos (sym after)

pub start-Counted :
    (hosts : List Host) (mids : ℤ → List ℕ)
    → Counted (start hosts mids).shared (start hosts mids).phases
unfolding count_of lookup
start-Counted hosts mids h u = ap pos (sym (total-map_zero (counts h u) waiting hosts (λ x. refl)))

-- Whatever connections come to the comets and in whatever order their handlers take their steps, while redis
-- carries out the calls: all steps return, and at the end the count of each user for each host is the number of
-- its connections that are past `SetUserOnline` and not past `SetUserOffline`.
pub counts_are_connections :
    (env : Env) (md5_sum : List ℕ → List ℕ) (hosts : List Host) (mids : ℤ → List ℕ)
    (schedule : List (ℕ × Answer))
    → All (λ (t : ℕ × Answer). Works t.1) schedule
    → (sys : System) × (run env md5_sum schedule (start hosts mids) ≡ done sys)
      × Counted sys.shared sys.phases
counts_are_connections env md5_sum hosts mids schedule works =
    run-keeps env md5_sum Counted Works Move-Counted schedule (start hosts mids) works
      (start-Counted hosts mids)
