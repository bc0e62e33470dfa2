-- ===== src/MsgBus/Push.antt =====
-- msgbus/usermap.go: `PushToComet`, which pushes a message to every comet of a user.
use slot_golang.Base.{
  ℕ, ◌%◌, ◌^◌, ◌≡◌, sym, ap, ◌∙◌, Bool, true, false, List, [], ◌∷◌, ◌++◌, Option, none, some,
  length, Option-cases, inl, inr,
}
use mathlib.Core.List.{append_assoc, append-nil}
use slot_golang.Base.Int64.{ℤ}
use slot_golang.Base.Bytes.{put_le}
use slot_golang.Base.Maps.{string_eq, lookup}
use slot_golang.Base.Run.{Run, done, ◌>>=◌}
use slot_golang.Hlist.{Hlist}
use slot_golang.MsgBus.UserMap.{Host, UserMap, find}
use slot_golang.MsgBus.Comets.{Comets, CometServer, push, push_msg, lock}

module _ (works : List (ℕ × List ℕ) → ℕ → List ℕ → Bool) where
  -- The loop over the hosts; the Boolean is `err == nil`, of the last push.
  unfoldable pub push_hosts : List ℕ → List Host → Bool → Comets → Run (Comets × Bool)
  push_hosts msg [] ok c = done (c, ok)
  push_hosts msg (host ∷ hosts) ok c = do
    r ← push_msg works msg host c
    push_hosts msg hosts r.1 r.0

  module _ (hl : Hlist Host) where
    open hl use {Carrier, values}

    -- The user's list of hosts, or the error that there is none.
    unfoldable pub push_found : List ℕ → Comets → Option Carrier → Run (Comets × Bool)
    unfolding push_hosts
    push_found msg c none = done (c, false)
    push_found msg c (some hostlist) = push_hosts msg (values hostlist) true c

    unfoldable pub push_to_comet : ℤ → List ℕ → UserMap hl → Comets → Run (Comets × Bool)
    unfolding push_found
    push_to_comet uid msg kv c = push_found msg c (find hl uid kv)

-- The two writes of a push.
abbrev pub pushed_bytes : List ℕ → ℕ → List (ℕ × List ℕ)
pushed_bytes msg conn = (conn, put_le 4 (length msg % 2 ^ 32)) ∷ (conn, msg) ∷ []

-- The connections of the hosts that have a server, in order, and what is written to them.
abbrev conn_of : Option CometServer → List ℕ
conn_of none = []
conn_of (some s) = s.conn ∷ []

unfoldable pub conns_of : List (Host × CometServer) → List Host → List ℕ
conns_of servers [] = []
conns_of servers (host ∷ hosts) = conn_of (lookup host servers) ++ conns_of servers hosts

unfoldable pub all_pushed : List ℕ → List ℕ → List (ℕ × List ℕ)
all_pushed msg [] = []
all_pushed msg (conn ∷ conns) = pushed_bytes msg conn ++ all_pushed msg conns

abbrev pub up : List (ℕ × List ℕ) → ℕ → List ℕ → Bool
up sent conn bytes = true

-- The state with more written.
wrote : List (ℕ × List ℕ) → Comets → Comets
wrote log c = record c { written = c.written ++ log }

wrote-nil : (c : Comets) → c ≡ wrote [] c
unfolding wrote
wrote-nil c = ap (λ (w : List (ℕ × List ℕ)). record c { written = w }) (sym (append-nil c.written))

wrote-wrote : (xs ys : List (ℕ × List ℕ)) (c : Comets) → wrote ys (wrote xs c) ≡ wrote (xs ++ ys) c
unfolding wrote
wrote-wrote xs ys c =
    ap (λ (w : List (ℕ × List ℕ)). record c { written = w }) (append_assoc c.written xs ys)

-- `PushMsg` once the server is looked up.
found_push : List ℕ → Comets → Option CometServer → Run (Comets × Bool)
found_push msg c server = elim server [ none ↦ done (c, false) | some s ↦ done (push up s msg c) ]

conns_of_unknown :
    (servers : List (Host × CometServer)) (host : Host) (hosts : List Host)
    → lookup host servers ≡ none
    → conns_of servers hosts ≡ conns_of servers (host ∷ hosts)
unfolding conns_of
conns_of_unknown servers host hosts e = ap (λ o. conn_of o ++ conns_of servers hosts) (sym e)

conns_of_known :
    (servers : List (Host × CometServer)) (host : Host) (hosts : List Host) (s : CometServer)
    → lookup host servers ≡ some s
    → s.conn ∷ conns_of servers hosts ≡ conns_of servers (host ∷ hosts)
unfolding conns_of
conns_of_known servers host hosts s e = ap (λ o. conn_of o ++ conns_of servers hosts) (sym e)

push_msg_unknown :
    (msg : List ℕ) (host : Host) (c : Comets)
    → c.mu ≡ false
    → lookup host c.servers ≡ none
    → push_msg up msg host c ≡ done (c, false)
unfolding push_msg found_push
push_msg_unknown msg host c free e =
    ap (λ (b : Bool). lock b >>= λ _. found_push msg c (lookup host c.servers)) free
    ∙ ap (found_push msg c) e

push_msg_known :
    (msg : List ℕ) (host : Host) (s : CometServer) (c : Comets)
    → c.mu ≡ false
    → lookup host c.servers ≡ some s
    → push_msg up msg host c ≡ done (wrote (pushed_bytes msg s.conn) c, true)
unfolding push_msg push wrote found_push
push_msg_known msg host s c free e =
    ap (λ (b : Bool). lock b >>= λ _. found_push msg c (lookup host c.servers)) free
    ∙ ap (found_push msg c) e
    ∙ (ap (λ (w : List (ℕ × List ℕ)). done (record c { written = w }, true))
        (append_assoc c.written ((s.conn, put_le 4 (length msg % 2 ^ 32)) ∷ [])
          ((s.conn, msg) ∷ [])))

push_hosts-all :
    (msg : List ℕ) (hosts : List Host) (ok : Bool) (c : Comets)
    → c.mu ≡ false
    → (r : Bool) × (push_hosts up msg hosts ok c
        ≡ done (wrote (all_pushed msg (conns_of c.servers hosts)) c, r))
unfolding push_hosts all_pushed wrote conns_of
push_hosts-all msg [] ok c free = (ok, ap (λ (d : Comets). done (d, ok)) (wrote-nil c))
push_hosts-all msg (host ∷ hosts) ok c free = elim (Option-cases (lookup host c.servers)) [
  | inl e ↦
      let (r, p) = push_hosts-all msg hosts false c free in
      (
        r,
        rw (push_msg_unknown msg host c free e) (
            p
            ∙ ap (λ l. done (wrote (all_pushed msg l) c, r))
                (conns_of_unknown c.servers host hosts e)),
      )
  | inr (s, e) ↦
      let (r, p) = push_hosts-all msg hosts true (wrote (pushed_bytes msg s.conn) c) free in
      (
        r,
        rw (push_msg_known msg host s c free e) (
            p
            ∙ ap (λ (d : Comets). done (d, r))
                (wrote-wrote (pushed_bytes msg s.conn) (all_pushed msg (conns_of c.servers hosts))
                  c)
            ∙ ap (λ l. done (wrote (all_pushed msg l) c, r))
                (conns_of_known c.servers host hosts s e)),
      )
]

-- With the mutex of the comets free and every write going out, `PushToComet` for a user of the map returns,
-- and each of the user's hosts that is a connected websocket comet is sent the length and the message once,
-- in the order of the hosts; an unknown host does not keep the later ones from getting it.
pub push_to_comet_all :
    (hl : Hlist Host) (uid : ℤ) (msg : List ℕ) (kv : UserMap hl) (c : Comets)
    (hostlist : hl.Carrier)
    → find hl uid kv ≡ some hostlist
    → c.mu ≡ false
    → (r : Bool) × (push_to_comet up hl uid msg kv c
        ≡ done (
          record c {
            written = c.written ++ all_pushed msg (conns_of c.servers (hl.values hostlist));
          },
          r,
        ))
unfolding push_to_comet wrote
push_to_comet_all hl uid msg kv c hostlist found free =
    let (r, p) = push_hosts-all msg (hl.values hostlist) true c free in
    (r, ap (push_found up hl msg c) found ∙ p)
