-- ===== src/Comet/Buses/Turns.antt =====
-- comet/msgbus_man.go: how the buses take turns, and what ends it.
use slot_golang.Base.{
  ℕ, suc, ◌≡◌, refl, ap, sym, ◌∙◌, subst, true, false, List, [], ◌∷◌, ◌++◌, Option, none, some,
  ◌==◌, ==_iff, Bool-cases, inl, inr, length, arith, All,
}
use slot_golang.Base.Run.{done, ◌>>=◌}
use mathlib.Core.Bool.{false≢true}
use mathlib.Core.List.{append_assoc}
use slot_golang.Comet.Buses.{
  Server, Manager, is_listed, offline, front, next_or_front, conn_of, push_conn, push_curr,
  push2bus, push_all,
}

-- No number twice.
abbrev pub Apart : List Server → Type 0
Apart [] = Unit {0}
Apart (s ∷ servers) = (is_listed s.number servers ≡ false) × Apart servers

-- Each server has a connection.
abbrev pub AreConnected : List Server → Type 0
AreConnected servers = All (λ s. (addr : List ℕ) × (s.remote_addr ≡ some addr)) servers

-- What the servers are sent when each has one turn.
abbrev pub one_each : List Server → List (List ℕ) → List (ℕ × List ℕ)
one_each [] ds = []
one_each (s ∷ servers) [] = []
one_each (s ∷ servers) (d ∷ ds) = (s.number, d) ∷ one_each servers ds

unlisted :
    (n : ℕ) (xs : List Server) (s : Server) (ys : List Server)
    → is_listed n (xs ++ (s ∷ ys)) ≡ false
    → (n == s.number) ≡ false
unfolding is_listed
unlisted n [] s ys e = ground (arith, ==_iff s.number n)
unlisted n (x ∷ xs) s ys e = elim (Bool-cases (x.number == n)) [
  | inl hit ↦ absurd (false≢true (sym (rw hit at e)))
  | inr miss ↦ unlisted n xs s ys (rw miss at e)
]

next_here :
    (xs : List Server) (s t : Server) (ys : List Server) (first : Option ℕ)
    → Apart (xs ++ (s ∷ t ∷ ys))
    → next_or_front s.number (xs ++ (s ∷ t ∷ ys)) first ≡ some t.number
unfolding next_or_front
next_here [] s t ys first h = rw ((==_iff s.number s.number).1 refl) refl
next_here (x ∷ []) s t ys first h =
    rw (unlisted x.number [] s (t ∷ ys) h.0) (rw ((==_iff s.number s.number).1 refl) refl)
next_here (x ∷ y ∷ xs) s t ys first h =
    rw (unlisted x.number (y ∷ xs) s (t ∷ ys) h.0) (next_here (y ∷ xs) s t ys first h.1)

next_last :
    (xs : List Server) (s : Server) (first : Option ℕ)
    → Apart (xs ++ (s ∷ []))
    → next_or_front s.number (xs ++ (s ∷ [])) first ≡ first
unfolding next_or_front
next_last [] s first h = refl
next_last (x ∷ []) s first h = rw (unlisted x.number [] s [] h.0) refl
next_last (x ∷ y ∷ xs) s first h =
    rw (unlisted x.number (y ∷ xs) s [] h.0) (next_last (y ∷ xs) s first h.1)

-- The state with more sent and another current server.
abbrev moved : List (ℕ × List ℕ) → Option ℕ → Manager → Manager
moved log curr m = record m { sent = m.sent ++ log; curr = curr }

conn_here :
    (xs : List Server) (s : Server) (ys : List Server)
    → Apart (xs ++ (s ∷ ys))
    → conn_of s.number (xs ++ (s ∷ ys)) ≡ s.remote_addr
conn_here [] s ys h = rw ((==_iff s.number s.number).1 refl) refl
conn_here (x ∷ xs) s ys h = rw (unlisted x.number xs s ys h.0) (conn_here xs s ys h.1)

push2bus_step :
    (d : List ℕ) (c : ℕ) (m : Manager) (next : Option ℕ) (addr : List ℕ)
    → m.curr ≡ some c
    → conn_of c m.servers ≡ some addr
    → next_or_front c m.servers (front m.servers) ≡ next
    → push2bus d m ≡ done (moved ((c, d) ∷ []) next m)
unfolding push2bus
push2bus_step d c m next addr e k n =
    ap (λ o. push_curr d o m) e
    ∙ ap (λ o. push_conn d c o m) k
    ∙ ap (λ o. done (moved ((c, d) ∷ []) o m)) n

-- The rest of a round.
turns_from :
    (ys : List Server) (s : Server) (xs : List Server) (ds : List (List ℕ)) (m : Manager)
    → m.servers ≡ xs ++ (s ∷ ys)
    → m.curr ≡ some s.number
    → Apart (xs ++ (s ∷ ys))
    → AreConnected (s ∷ ys)
    → length ds ≡ suc (length ys)
    → push_all ds m ≡ done (moved (one_each (s ∷ ys) ds) (front m.servers) m)
unfolding push_all
turns_from ys s xs [] m e c a k l = absurd (omega arith)
turns_from [] s xs (d ∷ e' ∷ ds) m e c a k l = absurd (omega arith)
turns_from [] s xs (d ∷ []) m e c a ((addr, k), ks) l =
    ap (λ r. r >>= push_all [])
      (push2bus_step d s.number m (front m.servers) addr c
        (ap (conn_of s.number) e ∙ conn_here xs s [] a ∙ k)
        (ap (λ ss. next_or_front s.number ss (front m.servers)) e
          ∙ next_last xs s (front m.servers) a))
turns_from (t ∷ ys) s xs (d ∷ ds) m e c a ((addr, k), ks) l =
    let m' = moved ((s.number, d) ∷ []) (some t.number) m in
    let shift : (xs ++ (s ∷ [])) ++ (t ∷ ys) ≡ xs ++ (s ∷ t ∷ ys) =
      append_assoc xs (s ∷ []) (t ∷ ys) in
    ap (λ r. r >>= push_all ds)
      (push2bus_step d s.number m (some t.number) addr c
        (ap (conn_of s.number) e ∙ conn_here xs s (t ∷ ys) a ∙ k)
        (ap (λ ss. next_or_front s.number ss (front m.servers)) e
          ∙ next_here xs s t ys (front m.servers) a))
    ∙ turns_from ys t (xs ++ (s ∷ [])) ds m' (e ∙ sym shift) refl (subst Apart (sym shift) a) ks
        (omega arith)
    ∙ ap (λ log. done (record m { sent = log; curr = front m.servers }))
        (append_assoc m.sent ((s.number, d) ∷ []) (one_each (t ∷ ys) ds))

-- A round of `Push2Bus` from the server at the front, with as many messages as there are servers, all of them
-- with a connection, and with every write going out: each server is sent one of the messages, in the order of
-- the list, and the one at the front has its turn again.
pub push_all_round :
    (s : Server) (servers : List Server) (ds : List (List ℕ)) (m : Manager)
    → m.servers ≡ s ∷ servers
    → m.curr ≡ some s.number
    → Apart (s ∷ servers)
    → AreConnected (s ∷ servers)
    → length ds ≡ length (s ∷ servers)
    → push_all ds m
      ≡ done (record m { sent = m.sent ++ one_each (s ∷ servers) ds; curr = some s.number })
push_all_round s servers ds m e c a k l =
    turns_from servers s [] ds m e c a k l
    ∙ ap (λ ss. done (moved (one_each (s ∷ servers) ds) (front ss) m)) e

push_all-none : (ds : List (List ℕ)) (m : Manager) → m.curr ≡ none → push_all ds m ≡ done m
unfolding push_all push2bus
push_all-none [] m e = refl
push_all-none (d ∷ ds) m e =
    ap (λ r. r >>= push_all ds) (ap (λ o. push_curr d o m) e) ∙ push_all-none ds m e

-- Once the server whose turn it is goes off line, `Push2Bus` sends nothing more, to no server, however many are
-- left: every message up to the next `Online` is lost.
pub offline_stops :
    (c : ℕ) (ds : List (List ℕ)) (m : Manager)
    → m.curr ≡ some c
    → is_listed c m.servers ≡ true
    → push_all ds (offline c m) ≡ done (offline c m)
unfolding offline
offline_stops c ds m e listed =
    push_all-none ds (offline c m) (rw (listed, e, (==_iff c c).1 refl) refl)
