-- ===== src/Comet/Connections/Tests.antt =====
-- Two phones of the user 16 log in on two comets, turn by turn; the first one leaves again.
use slot_golang.Base.{
  ℕ, ◌<◌, ◌≡◌, refl, true, false, List, [], ◌∷◌, none, some, inr, arith, ltb, get_elem?,
}
use slot_golang.Base.Int64.{ℤ, pos, IsInt64}
use slot_golang.Base.Run.{done}
use slot_golang.Hlist.{Hlist}
use slot_golang.Hlist.Lists.{list_hlist}
use slot_golang.Comet.Redis.{Host}
use slot_golang.Comet.Udp.Store.{Env}
use slot_golang.Comet.Login.{login_text, token}
use slot_golang.Comet.Login.Accepted.{is_auth-login_text}
use slot_golang.Comet.Connections.{Answer, Phase, System, run, start}
use slot_golang.Comet.Connections.Totals.{total}
use slot_golang.Comet.Connections.Phones.{holds, phones_differ}
use slot_golang.Comet.Connections.Counts.{counts, Counted, counts_are_connections}
use slot_golang.Comet.Connections.Followed.{Allowed, bus_follows_connections}
use slot_golang.MsgBus.UserMap.{UserMap, init_user_map}
use slot_golang.MsgBus.UserMap.Presence.{presence}
use slot_golang.MsgBus.Online.{handle_online_events}

abbrev env : Env
env = record {
  works = λ call w. true;
  hget_owner = λ id. none;
  hget_family = λ user. none;
  smembers = λ key. none;
  parse_uuid = λ bytes. some bytes;
  parse_hex = λ key. some key;
  uuid_string = λ uuid. uuid;
  new_uuid = λ w. [];
  http_post =
      λ command input. record { http_status = 0; failed = false; status = none; cookie = none };
  now = λ w. 1000;
}

abbrev digest : List ℕ → List ℕ
digest text = 1 ∷ 2 ∷ 3 ∷ []

abbrev hosts : List Host
hosts = (b'a' ∷ []) ∷ (b'b' ∷ []) ∷ []

abbrev free : ℤ → List ℕ
free user = []

abbrev login : Answer
login = record {
  redis = true;
  sent = true;
  received = some (login_text (pos 16) 1000 90 (token 1030 digest (pos 16) 1000 90));
  now = 1030;
}

abbrev next : Answer
next = record { redis = true; sent = true; received = none; now = 1031 }

abbrev schedule : List (ℕ × Answer)
schedule =
    (0, login)
    ∷ (1, login)
    ∷ (0, next)
    ∷ (0, next)
    ∷ (1, next)
    ∷ (1, next)
    ∷ (0, next)
    ∷ (0, next)
    ∷ (0, next)
    ∷ (0, next)
    ∷ (1, next)
    ∷ []

phones_differ_example :
    (sys : System) × (run env digest schedule (start hosts free) ≡ done sys)
    × ((k i j : ℕ) (p q : Phase)
        → 0 < k
        → get_elem? sys.phases i ≡ some p
        → get_elem? sys.phases j ≡ some q
        → holds (pos k) p ≡ 1
        → holds (pos k) q ≡ 1
        → i ≡ j)
phones_differ_example = phones_differ env digest hosts free schedule

counts_are_connections_example :
    (sys : System) × (run env digest schedule (start hosts free) ≡ done sys)
    × Counted sys.shared sys.phases
counts_are_connections_example =
    counts_are_connections env digest hosts free schedule
      (refl, (refl, (refl, (refl, (refl, (refl, (refl, (refl, (refl, (refl, (refl, tt)))))))))))

abbrev plain : Hlist Host
plain = list_hlist Host false

login_ok : Allowed login
login_ok = (
  refl,
  rw
      (is_auth-login_text 1030 digest (pos 16) 1000 90 (omega arith) (omega arith) (omega arith)
        (omega arith) (inr ((omega arith), (omega arith)))).0
      refl,
)

next_ok : Allowed next
next_ok = (refl, tt)

bus_follows_connections_example :
    (sys : System) × (kv : UserMap plain) × (run env digest schedule (start hosts free) ≡ done sys)
    × (handle_online_events plain sys.shared.published (init_user_map plain) ≡ done kv)
    × ((u : ℤ) (h : Host)
        → IsInt64 u
        → presence plain kv u h ≡ ltb 0 (total (counts h u) sys.phases))
bus_follows_connections_example =
    bus_follows_connections plain env digest hosts free schedule ((refl, tt), ((refl, tt), tt))
      (
        login_ok,
        (
          login_ok,
          (
            next_ok,
            (
              next_ok,
              (next_ok, (next_ok, (next_ok, (next_ok, (next_ok, (next_ok, (next_ok, tt))))))),
            ),
          ),
        ),
      )
