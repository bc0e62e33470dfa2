-- ===== src/Comet/Connections/Followed.antt =====
-- comet/websocket.go, comet/redis.go, msgbus/main.go: the bus knows the connections of the comets.
use slot_golang.Base.{
  ℕ, zero, suc, ◌+◌, ◌<◌, ◌≡◌, refl, ap, sym, ◌∙◌, subst, Bool, false, inl, inr, List, [], ◌∷◌,
  ◌++◌, Option, none, some, arith, ltb, lt→ltb, ◌&&◌, Bool-cases, All, All-append, get_elem?, set,
  map,
}
use mathlib.Core.Option
use mathlib.Core.List.{append_assoc, append-nil}
use slot_golang.Base.Int64.{ℤ, pos, IsInt64, is_zero}
use slot_golang.Base.Format.{Without}
use slot_golang.Base.Maps.{lookup}
use slot_golang.Base.Run.{done}
use slot_golang.Hlist.{Hlist}
use slot_golang.Comet.Redis.{Host, Hashes, count_of}
use slot_golang.Comet.Udp.Store.{Env}
use slot_golang.Comet.Login.{Params, Outcome, closes, closes_failed, logs_in, get_login_params}
use slot_golang.Comet.Connections.{
  Shared, Conn, Phase, waiting, accepted, answered, online, listed, reading, broken, Answer,
  after_login, login_user, giving_back, is_phone, System, run, start,
}
use slot_golang.Comet.Connections.Totals.{total, All-at, All-set}
use slot_golang.Comet.Connections.Logins.{NoPhone, Login, Rejected}
use slot_golang.Comet.Connections.Moves.{
  Pushed, Move, no_login, login, reply_sent, no_answer, count, no_count, list, announced, message,
  hang_up, discount, no_discount, mid_back, took_leave, remove, rest, run-keeps,
}
use slot_golang.Comet.Connections.Counts.{counts, Counted, Works, Move-Counted, start-Counted}
use slot_golang.MsgBus.UserMap.{has, UserMap, init_user_map}
use slot_golang.MsgBus.UserMap.Presence.{presence}
use slot_golang.MsgBus.Online.{
  handle_online_events, Call, log_in, log_out, perform, perform_all, IsCall, is_positive,
}
use slot_golang.MsgBus.Online.Follows.{each_followed}

perform_all-append :
    (cs : List Call) (c : Call) (hs : Hashes)
    → perform_all (cs ++ (c ∷ [])) hs ≡ (
      (perform c (perform_all cs hs).0).0,
      (perform_all cs hs).1 ++ (perform c (perform_all cs hs).0).1,
    )
unfolding perform_all
perform_all-append [] c hs = ap (λ ms. ((perform c hs).0, ms)) (append-nil (perform c hs).1)
perform_all-append (d ∷ cs) c hs = rw (perform_all-append cs c (perform d hs).0) (
    let hs' = (perform d hs).0 in
    ap (λ (ms : List (List ℕ)). ((perform c (perform_all cs hs').0).0, ms))
      (sym (
        append_assoc (perform d hs).1 (perform_all cs hs').1 (perform c (perform_all cs hs').0).1)))

-- A connection whose id is an int64 other than 0, on a comet whose address has no '|'.
abbrev IsNamed : Conn → Type 0
IsNamed c = Without b'|' c.host × IsInt64 c.session.uid × (is_zero c.session.uid ≡ false)

abbrev IsPhase : Phase → Type 0
IsPhase (waiting host) = Without b'|' host
IsPhase (accepted c) = IsNamed c
IsPhase (answered c) = IsNamed c
IsPhase (online c) = IsNamed c
IsPhase (listed c) = IsNamed c
IsPhase (reading c) = IsNamed c
IsPhase (broken c) = IsNamed c
IsPhase _ = Unit {0}

abbrev NotZero : Option Params → Type 0
NotZero none = Unit {0}
NotZero (some p) = is_zero p.0 ≡ false

abbrev AllNotZero : Option (Option Params) → Type 0
AllNotZero none = Unit {0}
AllNotZero (some p) = NotZero p

-- Redis carries out the call, and what is received is no login with the id 0.
abbrev pub Allowed : Answer → Type 0
Allowed a = Works a × AllNotZero (Option.map get_login_params a.received)

-- What redis holds and has published comes from a series of logins and logouts.
Traced : Shared → Type 0
Traced sh =
    (cs : List Call) × All IsCall cs
    × ((perform_all cs []).0 ≡ sh.hashes)
    × ((perform_all cs []).1 ≡ sh.published)

Traced-call :
    (sh sh' : Shared) (c : Call)
    → IsCall c
    → sh'.hashes ≡ (perform c sh.hashes).0
    → sh'.published ≡ sh.published ++ (perform c sh.hashes).1
    → Traced sh
    → Traced sh'
unfolding Traced
Traced-call sh sh' c h eh ep (cs, calls, hashes, published) = (
  cs ++ (c ∷ []),
  All-append IsCall cs (c ∷ []) calls (h, tt),
  ap (λ (x : Hashes × List (List ℕ)). x.0) (perform_all-append cs c [])
      ∙ ap (λ hs. (perform c hs).0) hashes
      ∙ sym eh,
  ap (λ (x : Hashes × List (List ℕ)). x.1) (perform_all-append cs c [])
      ∙ ap (λ hs. (perform_all cs []).1 ++ (perform c hs).1) hashes
      ∙ ap (λ ms. ms ++ (perform c sh.hashes).1) published
      ∙ sym ep,
)

Traced-quiet :
    (sh sh' : Shared)
    → sh'.hashes ≡ sh.hashes
    → sh'.published ≡ sh.published
    → Traced sh
    → Traced sh'
unfolding Traced
Traced-quiet sh sh' eh ep (cs, calls, hashes, published) =
    (cs, calls, hashes ∙ sym eh, published ∙ sym ep)

Pushed-Traced : (host : Host) (sh sh' : Shared) → Pushed host sh sh' → Traced sh → Traced sh'
Pushed-Traced host sh sh' (inl e) =
    Traced-quiet sh sh' (ap (λ (x : Shared). x.hashes) e) (ap (λ (x : Shared). x.published) e)
Pushed-Traced host sh sh' (inr (l, o, e)) =
    Traced-quiet sh sh' (ap (λ (x : Shared). x.hashes) e) (ap (λ (x : Shared). x.published) e)

giving_back-Traced : (b : Bool) (c : Conn) (sh : Shared) → Traced sh → Traced (giving_back b c sh)
giving_back-Traced b c sh h = elim (Bool-cases (is_phone c && b)) [
  | inl e ↦ rw e (Traced-quiet sh _ refl refl h)
  | inr e ↦ rw e h
]

NoPhone-IsPhase :
    (i : ℕ) (host : Host) (p : Option Params) (o : Outcome)
    → Without b'|' host
    → NotZero p
    → NoPhone (login_user p) o
    → Rejected p o
    → IsPhase (after_login i host o)
NoPhone-IsPhase i host p (closes text) w z n r = tt
NoPhone-IsPhase i host p closes_failed w z n r = tt
NoPhone-IsPhase i host none (logs_in uid mid ids) w z n r = cc
NoPhone-IsPhase i host (some p) (logs_in uid mid ids) w z n r =
    (w, n.2, subst (λ u. is_zero u ≡ false) (sym n.1) z)

not_zero : (n m : ℕ) → 0 < m → is_zero (pos (n + m)) ≡ false
not_zero n m h = ground arith

Login-IsPhase :
    (i : ℕ) (host : Host) (p : Option Params) (mids : List ℕ) (r : Outcome × List ℕ)
    → Without b'|' host
    → NotZero p
    → Login (login_user p) mids r
    → Rejected p r.0
    → IsPhase (after_login i host r.0)
Login-IsPhase i host p mids r w z (inl (e, n)) x = NoPhone-IsPhase i host p r.0 w z n x
Login-IsPhase i host p mids r w z (inr f) x =
    rw f.outcome (w, omega (arith, f.fits, f.block, f.most), not_zero f.n f.m f.least)

Move-Traced :
    (a : Answer) (sh sh' : Shared) (p p' : Phase)
    → Allowed a
    → Move a sh p sh' p'
    → IsPhase p
    → Traced sh
    → IsPhase p' × Traced sh'
Move-Traced a sh sh' p p' ok (no_login host) h t = (tt, t)
Move-Traced a sh sh' p p' ok (login i host q user r v e l x) h t = (
  Login-IsPhase i host q (sh.mids user) r h (subst AllNotZero v ok.1)
      (subst (λ u. Login u (sh.mids user) r) (sym e) l) x,
  Traced-quiet sh sh' refl refl t,
)
Move-Traced a sh sh' p p' ok (reply_sent c) h t = (h, t)
Move-Traced a sh sh' p p' ok (no_answer c) h t = (tt, t)
Move-Traced a sh sh' p p' ok (count c) h t = (
  h,
  Traced-call sh sh' (log_in c.session.uid c.host) (h.1, h.0) (unfold perform in refl)
      (unfold perform in refl) t,
)
Move-Traced a sh sh' p p' ok (no_count c) h t = (tt, t)
Move-Traced a sh sh' p p' ok (list c) h t = (h, Traced-quiet sh sh' refl refl t)
Move-Traced a sh sh' p p' ok (announced c _ e) h t = (h, Pushed-Traced c.host sh sh' e t)
Move-Traced a sh sh' p p' ok (message c _ e) h t = (h, Pushed-Traced c.host sh sh' e t)
Move-Traced a sh sh' p p' ok (hang_up c) h t = (h, t)
Move-Traced a sh sh' p p' ok (discount c) h t = (
  tt,
  Traced-call sh sh' (log_out c.session.uid c.host) (h.1, h.0, h.2) (unfold perform in refl)
      (unfold perform in refl) t,
)
Move-Traced a sh sh' p p' ok (no_discount c w) h t = (tt, t)
Move-Traced a sh sh' p p' ok (mid_back c) h t = (tt, giving_back-Traced a.redis c sh t)
Move-Traced a sh sh' p p' ok (took_leave c _ e) h t = (tt, Pushed-Traced c.host sh sh' e t)
Move-Traced a sh sh' p p' ok (remove c) h t = (tt, Traced-quiet sh sh' refl refl t)
Move-Traced a sh sh' p p' ok rest h t = (tt, t)

-- All handlers, with the counts.
Followed : Shared → List Phase → Type 0
Followed sh ps = All IsPhase ps × Traced sh × Counted sh ps

Move-Followed :
    (a : Answer) (sh sh' : Shared) (ps : List Phase) (i : ℕ) (p p' : Phase)
    → Allowed a
    → get_elem? ps i ≡ some p
    → Move a sh p sh' p'
    → Followed sh ps
    → Followed sh' (set ps i p')
unfolding Followed
Move-Followed a sh sh' ps i p p' ok e move (phases, traced, counted) =
    let (good, traced') =
      Move-Traced a sh sh' p p' ok move (All-at IsPhase ps i p phases e) traced in
    (
      All-set IsPhase ps i p' phases good,
      traced',
      Move-Counted a sh sh' ps i p p' ok.0 e move counted,
    )

waiting-IsPhase : (hosts : List Host) → All (Without b'|') hosts → All IsPhase (map waiting hosts)
waiting-IsPhase [] h = tt
waiting-IsPhase (x ∷ hosts) h = (h.0, waiting-IsPhase hosts h.1)

start-Followed :
    (hosts : List Host) (mids : ℤ → List ℕ)
    → All (Without b'|') hosts
    → Followed (start hosts mids).shared (start hosts mids).phases
unfolding Followed Traced perform_all
start-Followed hosts mids h =
    (waiting-IsPhase hosts h, ([], tt, refl, refl), start-Counted hosts mids)

positive : (n : ℕ) → is_positive (pos n) ≡ ltb 0 n
unfolding is_positive
positive zero = refl
positive (suc n) = sym (lt→ltb 0 (suc n) (omega arith))

-- Whatever connections come to the comets, whose addresses have no '|', and in whatever order their handlers take
-- their steps, while redis carries out the calls and no login has the id 0: all steps return, and a bus that is
-- told what the comets published handles it without a panic, and then holds a user (an int64) to be on a comet
-- exactly when a connection of the user there is past `SetUserOnline` and not past `SetUserOffline`.
pub bus_follows_connections :
    (hl : Hlist Host) (env : Env) (md5_sum : List ℕ → List ℕ) (hosts : List Host)
    (mids : ℤ → List ℕ) (schedule : List (ℕ × Answer))
    → All (Without b'|') hosts
    → All (λ (t : ℕ × Answer). Allowed t.1) schedule
    → (sys : System) × (kv : UserMap hl) × (run env md5_sum schedule (start hosts mids) ≡ done sys)
      × (handle_online_events hl sys.shared.published (init_user_map hl) ≡ done kv)
      × ((u : ℤ) (h : Host)
          → IsInt64 u
          → presence hl kv u h ≡ ltb 0 (total (counts h u) sys.phases))
unfolding Followed Traced
bus_follows_connections hl env md5_sum hosts mids schedule names ok =
    let (sys, e, (phases, (cs, calls, hashes, published), counted)) =
      run-keeps env md5_sum Followed Allowed Move-Followed schedule (start hosts mids) ok
        (start-Followed hosts mids names) in
    let (kv, handled, (clean, same)) =
      each_followed hl cs [] (init_user_map hl) calls
        (λ u hu. unfold lookup in tt, λ u hu h. unfold lookup has count_of is_positive in refl) in
    (
      sys,
      kv,
      e,
      ap (λ ms. handle_online_events hl ms (init_user_map hl)) (sym published) ∙ handled,
      λ u h hu.
          same u hu h
          ∙ ap is_positive (ap (count_of h u) hashes ∙ counted h u)
          ∙ positive (total (counts h u) sys.phases),
    )
