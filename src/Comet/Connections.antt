-- ===== src/Comet/Connections.antt =====
-- comet/websocket.go: the connections of all comets, each served by a `WsHandler` of its own. The handlers are
-- interleaved at their accesses to what they share: redis, and the list of sessions of their comet.
pub mod Totals
pub mod Logins
pub mod Moves
pub mod Counts
pub mod Followed
pub mod Phones
mod Tests
use slot_golang.Base.{
  ℕ, Bool, true, false, ◌&&◌, List, [], ◌∷◌, ◌++◌, Option, none, some, if◌then◌else◌, ltb,
  get_elem?, set, replicate, map,
}
use slot_golang.Base.Int64.{ℤ, pos, is_pos, sub64, ◌==ℤ◌}
use slot_golang.Base.Maps.{bytes_eq}
use slot_golang.Base.Run.{Run, done, ◌>>=◌}
use slot_golang.Comet.Redis.{Host, Hashes, set_user_online, set_user_offline, return_mobile_id}
use slot_golang.Comet.Sessions.{
  Session, SessionList, init_session_list, add_session, remove_session, list_calc_dest_ids,
}
use slot_golang.Comet.Udp.Store.{Env}
use slot_golang.Comet.Login.{
  Params, Outcome, closes, closes_failed, logs_in, get_login_params, ws_login, Received, pong,
  hangs_up, pushes, ws_receive,
}
use slot_golang.Comet.Login.Connection.{Site, announce}
use slot_golang.Msgs.Status.{mst_device_online, mst_device_offline}

-- What the handlers share: the sessions of each comet, the counts in redis, what was published there, and the
-- phone ids in use of each user.
pub record Shared : Type 0 where
  pub sessions : Host → SessionList
  pub hashes : Hashes
  pub published : List (List ℕ)
  pub mids : ℤ → List ℕ

-- A connection that logged in: its comet, its session, and its phone id (0 if it has none).
pub record Conn : Type 0 where
  pub host : Host
  pub session : Session
  pub mid : ℕ

-- Where a handler stands.
pub data Phase : Type 0 where
  -- before the login, on this comet
  waiting : Host → Phase
  -- the login is accepted, its answer not sent
  accepted : Conn → Phase
  -- before `SetUserOnline`
  answered : Conn → Phase
  -- before `AddSession`
  online : Conn → Phase
  -- before the message that a device is on line
  listed : Conn → Phase
  -- in the loop
  reading : Conn → Phase
  -- before `SetUserOffline`
  broken : Conn → Phase
  -- before `ReturnMobileId`
  offline : Conn → Phase
  -- before the message that a device is off line
  returned : Conn → Phase
  -- before `RemoveSession`
  leaving : Conn → Phase
  gone : Phase

-- How the world answers the next call of a handler: whether redis carries it out, whether a message can be sent,
-- what is received (nothing on an error), and the time.
pub record Answer : Type 0 where
  pub redis : Bool
  pub sent : Bool
  pub received : Option (List ℕ)
  pub now : ℕ

abbrev pub set_mids : ℤ → List ℕ → Shared → Shared
set_mids user mids sh = record sh { mids = λ u. if user ==ℤ u then mids else sh.mids u }

abbrev pub set_sessions : Host → SessionList → Shared → Shared
set_sessions host l sh = record sh { sessions = λ h. if bytes_eq host h then l else sh.sessions h }

abbrev pub counting : Hashes × List (List ℕ) × ℤ → Shared → Shared
counting (hs, messages, count) sh = record sh { hashes = hs; published = sh.published ++ messages }

-- `announce`, on what is shared.
abbrev pub announcing : ℕ → ℕ → ℤ → Conn → Shared → Run Shared
announcing now kind id c sh = do
  site ← announce now kind id c.session (record {
    sessions = sh.sessions c.host;
    hashes = sh.hashes;
    published = sh.published;
    mids = [];
  })
  done (set_sessions c.host site.sessions sh)

-- The user of a phone: the id without the phone id.
abbrev pub user_of_phone : Conn → ℤ
user_of_phone c = sub64 c.session.uid (pos c.mid)

abbrev pub is_phone : Conn → Bool
is_phone c = is_pos c.session.uid && ltb 0 c.mid

abbrev pub own_id : Conn → ℤ
own_id c = if is_phone c then user_of_phone c else c.session.uid

abbrev pub giving_back : Bool → Conn → Shared → Shared
giving_back works c sh =
    if is_phone c && works
    then set_mids (user_of_phone c) (return_mobile_id c.mid (sh.mids (user_of_phone c))).0 sh
    else sh

abbrev pub after_login : ℕ → Host → Outcome → Phase
after_login i host (closes answer) = gone
after_login i host closes_failed = gone
after_login i host (logs_in uid mid ids) = accepted (record {
  host = host;
  session = record { number = i; uid = uid; binded_ids = ids };
  mid = mid;
})

abbrev pub login_user : Option Params → ℤ
login_user none = pos 0
login_user (some (id, timestamp, timeout, md5_str)) = id

abbrev pub after_message : Bool → Conn → Received → Shared → Shared × Phase
after_message sent c pong sh = (sh, if sent then reading c else broken c)
after_message sent c hangs_up sh = (sh, broken c)
after_message sent c (pushes id ids msg) sh =
    let l = sh.sessions c.host in
    (set_sessions c.host (record l { pushed = (id, ids, msg) ∷ l.pushed }) sh, reading c)

abbrev pub receiving : Bool → Conn → Option (List ℕ) → Shared → Run (Shared × Phase)
receiving sent c none sh = done (sh, broken c)
receiving sent c (some msg) sh = do
  r ← ws_receive c.session (sh.sessions c.host) msg
  done (after_message sent c r sh)

pub record System : Type 0 where
  pub shared : Shared
  pub phases : List Phase

module _ (env : Env) (md5_sum : List ℕ → List ℕ) where
  abbrev pub logging_in : ℕ → Answer → Host → Option (List ℕ) → Shared → Shared × Phase
  logging_in i a host none sh = (sh, gone)
  logging_in i a host (some req) sh =
      let user = login_user (get_login_params req) in
      let (outcome, mids) = ws_login a.now md5_sum env a.redis req (sh.mids user) in
      (set_mids user mids sh, after_login i host outcome)

  -- `WsHandler` of the connection i, up to its next access.
  unfoldable pub step : ℕ → Answer → Shared → Phase → Run (Shared × Phase)
  unfolding announce ws_receive ws_login
  step i a sh (waiting host) = done (logging_in i a host a.received sh)
  step i a sh (accepted c) = done (sh, if a.sent then answered c else gone)
  step i a sh (answered c) = done (
      if a.redis
      then (counting (set_user_online c.session.uid c.host sh.hashes) sh, online c)
      else (sh, gone))
  step i a sh (online c) =
      done (set_sessions c.host (add_session c.session (sh.sessions c.host)) sh, listed c)
  step i a sh (listed c) = do
    sh' ← announcing a.now mst_device_online c.session.uid c sh
    done (sh', reading c)
  step i a sh (reading c) = receiving a.sent c a.received sh
  step i a sh (broken c) = done (
    if a.redis then counting (set_user_offline c.session.uid c.host sh.hashes) sh else sh,
    offline c,
  )
  step i a sh (offline c) = done (giving_back a.redis c sh, returned c)
  step i a sh (returned c) = do
    sh' ← announcing a.now mst_device_offline (own_id c) c sh
    done (sh', leaving c)
  step i a sh (leaving c) =
      done (set_sessions c.host (remove_session c.session (sh.sessions c.host)) sh, gone)
  step i a sh gone = done (sh, gone)

  -- A step of the connection i; without such a connection nothing happens.
  unfoldable pub turn : ℕ → Answer → System → Run System
  unfolding step
  turn i a sys = elim (get_elem? sys.phases i) [
    | none ↦ done sys
    | some p ↦
        step i a sys.shared p >>= λ r. done (record { shared = r.0; phases = set sys.phases i r.1 })
  ]

  -- The handlers in the order of a schedule.
  unfoldable pub run : List (ℕ × Answer) → System → Run System
  unfolding turn
  run [] sys = done sys
  run ((i, a) ∷ schedule) sys = do sys' ← turn i a sys; run schedule sys'

-- Comets that start, when redis has no counts, with connections to come on these comets; phone ids may be in use.
abbrev pub start : List Host → (ℤ → List ℕ) → System
start hosts mids = record {
  shared = record { sessions = λ h. init_session_list; hashes = []; published = []; mids = mids };
  phases = map waiting hosts;
}
