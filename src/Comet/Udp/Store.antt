-- ===== src/Comet/Udp/Store.antt =====
-- comet/udp_session.go and comet/redis.go: the sessions of the devices, which redis keeps under the id of the
-- session, and the locker around each. redis and the uuid package are parameters (`Env`); the JSON text of a
-- session is kept as the fields that it has.
use slot_golang.Base.{ℕ, Bool, true, false, List, [], ◌∷◌, Option, none, some, if◌then◌else◌}
use slot_golang.Base.Int64.{ℤ, pos, is_zero}
use slot_golang.Base.Maps.{string_eq, int64_eq, lookup, insert, bytes_eq}

-- The text of a session's id, and the text of a network address.
abbrev pub Key : Type 0
Key = List ℕ

abbrev pub Addr : Type 0
Addr = List ℕ

pub record UdpSession : Type 0 where
  pub sid : Key
  pub device_id : ℤ
  pub addr : Addr
  pub last_heartbeat : ℕ
  pub sidx : ℕ
  pub ridx : ℕ
  pub binded_users : List ℤ

-- The calls that redis may refuse.
pub data RedisCall : Type 0 where
  acquire_lock get_sess set_sess : Key → RedisCall
  get_sid set_sid : ℤ → RedisCall

-- What the comet changes: the sessions (`none` is a text that is not the JSON of a session) and the device
-- index that redis keeps, the lockers that are held, the packets sent and the messages to the bus with the
-- latest first, the timers by address, which of them were set anew, and what was published.
pub record World : Type 0 where
  pub sessions : List (Key × Option UdpSession)
  pub device_sids : List (ℤ × Key)
  pub locked : List Key
  pub sent : List (Addr × List ℕ)
  pub pushed : List (ℤ × List ℤ × List ℕ)
  pub udpmap : List (Addr × UdpSession)
  pub resets : List Addr
  pub device_addrs : List (ℤ × Addr)
  pub published : List (List ℕ)

-- The answer of the HTTP API as `DoHTTPTask` returns it: its status as a uint32, whether it failed, the number
-- under "status" (as a uint32, and whether it is 0) and the string under "cookie", where they are there.
pub record HttpReply : Type 0 where
  pub http_status : ℕ
  pub failed : Bool
  pub status : Option (ℕ × Bool)
  pub cookie : Option (List ℕ)

-- What is not in the repository: the redis server (which calls go through, and the tables that other programs
-- write), the uuid package, the HTTP API and the clock.
pub record Env : Type 0 where
  pub works : RedisCall → World → Bool
  pub hget_owner : ℤ → Option (List ℕ)
  pub hget_family : List ℕ → Option (List ℕ)
  pub smembers : List ℕ → Option (List (List ℕ))
  pub parse_uuid : List ℕ → Option (List ℕ)
  pub parse_hex : Key → Option (List ℕ)
  pub uuid_string : List ℕ → Key
  pub new_uuid : World → List ℕ
  pub http_post : ℕ → List (List ℕ × List ℕ) → HttpReply
  pub now : World → ℕ

-- `NewUdpSession` with an address.
abbrev pub new_udp_session : Env → Addr → World → UdpSession
new_udp_session env addr w = record {
  sid = [];
  device_id = pos 0;
  addr = addr;
  last_heartbeat = env.now w;
  sidx = 0;
  ridx = 0;
  binded_users = [];
}

-- `UdpSession.Update`
abbrev pub update : Env → Addr → World → UdpSession → UdpSession
update env peer w s =
    if bytes_eq s.addr peer
    then record s { last_heartbeat = env.now w }
    else record s { addr = peer; last_heartbeat = env.now w }

unfoldable pub is_held : Key → List Key → Bool
is_held key [] = false
is_held key (k ∷ keys) = if bytes_eq k key then true else is_held key keys

-- `locker.Lock()`: an error where redis refuses or the locker is held.
unfoldable pub acquire : Env → Key → World → Option World
unfolding is_held
acquire env key w =
    if env.works (acquire_lock key) w
    then (if is_held key w.locked then none else some (record w { locked = key ∷ w.locked }))
    else none

unfoldable pub remove_key : Key → List Key → List Key
remove_key key [] = []
remove_key key (k ∷ keys) = if bytes_eq k key then keys else k ∷ remove_key key keys

-- `locker.Unlock()`
unfoldable pub release : Key → World → World
unfolding remove_key
release key w = record w { locked = remove_key key w.locked }

abbrev pub read_session : Key → Option (Option UdpSession) → Option UdpSession
read_session key none = none
read_session key (some none) = none
read_session key (some (some s)) = some (record s { sid = key })

-- `GetSession`: `none` is an error.
unfoldable pub get_session : Env → Key → World → Option UdpSession
get_session env key w =
    if env.works (get_sess key) w then read_session key (lookup key w.sessions) else none

-- `SetDeviceSession`, and whether it returns without an error.
unfoldable pub set_device_session : Env → Key → UdpSession → World → World × Bool
set_device_session env key s w =
    let stored = record w { sessions = insert key (some (record s { sid = [] })) w.sessions } in
    let indexed = record stored { device_sids = insert s.device_id key stored.device_sids } in
    if env.works (set_sess key) w
    then (if is_zero s.device_id
        then (stored, true)
        else if env.works (set_sid s.device_id) stored
        then (indexed, true)
        else (stored, false))
    else (w, false)

abbrev pub reset_timer : Addr → Option UdpSession → World → World
reset_timer addr none w = w
reset_timer addr (some s) w = record w { resets = addr ∷ w.resets }

-- `SaveSession`
unfoldable pub save_session : Env → Key → UdpSession → World → World × Bool
unfolding set_device_session
save_session env key s w =
    set_device_session env key s (reset_timer s.addr (lookup s.addr w.udpmap) w)

-- `GetDeviceSid`
unfoldable pub get_device_sid : Env → ℤ → World → Option Key
get_device_sid env id w = if env.works (get_sid id) w then lookup id w.device_sids else none

-- `UdpServer.Send`
abbrev pub send : Addr → List ℕ → World → World
send peer msg w = record w { sent = (peer, msg) ∷ w.sent }

-- `GMsgBusManager.Push2Bus`, by its arguments; Envelope has the bytes that it writes.
abbrev pub push2bus : ℤ → List ℤ → List ℕ → World → World
push2bus src_id ids msg w = record w { pushed = (src_id, ids, msg) ∷ w.pushed }
