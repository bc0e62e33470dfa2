-- ===== src/Comet/Login.antt =====
-- comet/websocket.go: the login of a phone or a device over a websocket, and what its messages do.
pub mod Accepted
pub mod Connection
mod Tests
use slot_golang.Base.{
  ℕ, zero, suc, ◌+◌, ◌-◌, ◌%◌, ◌^◌, Bool, true, false, not, ◌&&◌, ◌||◌, List, [], ◌∷◌, ◌++◌, Option,
  none, some, if◌then◌else◌, length, leb, ltb, ◌==◌,
}
use slot_golang.Base.Int64.{ℤ, pos, is_pos, is_neg, is_zero, rem64, add64, of_u64}
use slot_golang.Base.Bytes.{uint_at}
use slot_golang.Base.Decimal.{parse_int, parse_uint, split}
use slot_golang.Base.Format.{format_int, format_uint}
use slot_golang.Base.Maps.{bytes_eq}
use slot_golang.Base.Run.{Run, done, checked, ◌>>=◌}
use slot_golang.Comet.Redis.{select_mobile_id}
use slot_golang.Comet.Sessions.{Session, SessionList, list_calc_dest_ids}
use slot_golang.Comet.Udp.Commands.{base64}
use slot_golang.Comet.Udp.Store.{Env}
use slot_golang.Comet.Udp.Users.{get_user_devices, get_device_users}

abbrev pub expire_time : ℕ
expire_time = 60

-- `kLoginKey`, "BlackCrystalWb14527"
abbrev pub k_login_key : List ℕ
k_login_key =
    b'B' ∷ b'l' ∷ b'a' ∷ b'c' ∷ b'k' ∷ b'C' ∷ b'r' ∷ b'y' ∷ b's' ∷ b't' ∷ b'a' ∷ b'l' ∷ b'W' ∷ b'b'
    ∷ b'1' ∷ b'4' ∷ b'5' ∷ b'2' ∷ b'7' ∷ []

-- The id, the timestamp, the timeout and the md5.
abbrev pub Params : Type 0
Params = ℤ × ℕ × ℕ × List ℕ

-- A number that must be there.
abbrev pub needed : List ℕ → Option ℕ
needed [] = none
needed (c ∷ s) = let (n, ok) = parse_uint (c ∷ s) in if ok then some n else none

abbrev pub with_numbers : ℤ × Bool → Option ℕ → Option ℕ → List ℕ → Option Params
with_numbers (id, false) timestamp timeout md5_str = none
with_numbers (id, true) none timeout md5_str = none
with_numbers (id, true) (some timestamp) none md5_str = none
with_numbers (id, true) (some timestamp) (some timeout) md5_str =
    some (id, timestamp, timeout, md5_str)

abbrev pub with_args : List (List ℕ) → Option Params
with_args [] = none
with_args (a ∷ []) = none
with_args (a ∷ b ∷ []) = none
with_args (a ∷ b ∷ c ∷ []) = none
with_args (a ∷ b ∷ c ∷ d ∷ []) = with_numbers (parse_int a) (needed b) (needed c) d
with_args (a ∷ b ∷ c ∷ d ∷ e ∷ rest) = none

-- `getLoginParams`: `none` is an error.
unfoldable pub get_login_params : List ℕ → Option Params
get_login_params req = with_args (split b'|' req)

-- `"%d|%d|%d|%s"`
abbrev pub login_text : ℤ → ℕ → ℕ → List ℕ → List ℕ
login_text id timestamp timeout last =
    format_int id
    ++ (b'|' ∷ (format_uint timestamp ++ (b'|' ∷ (format_uint timeout ++ (b'|' ∷ last)))))

-- What a login comes to: an answer and the end of the connection, or an id with its phone id (0 for a device)
-- and its bound ids, which is answered next.
pub data Outcome : Type 0 where
  closes : List ℕ → Outcome
  closes_failed : Outcome
  logs_in : ℤ → ℕ → List ℤ → Outcome

-- The clock in seconds, and `md5.Sum`.
module _ (now : ℕ) (md5_sum : List ℕ → List ℕ) where
  abbrev pub token : ℤ → ℕ → ℕ → List ℕ
  token id timestamp timeout = base64 (md5_sum (login_text id timestamp timeout k_login_key))

  -- `isAuth`, with the difference of the times in uint64.
  unfoldable pub is_auth : ℤ → ℕ → ℕ → List ℕ → Bool
  is_auth id timestamp timeout md5_str =
      if ltb 0 timestamp && leb expire_time ((now + 2 ^ 64 - timestamp) % 2 ^ 64)
      then false
      else bytes_eq (token id timestamp timeout) md5_str

  -- A user; the sub id of the phone is added to the id.
  abbrev pub login_phone : Env → ℤ → List ℕ × ℕ → Outcome × List ℕ
  login_phone env id (mids', zero) = (closes (3 ∷ []), mids')
  login_phone env id (mids', suc m) =
      (logs_in (add64 id (pos (suc m % 16))) (suc m) (get_user_devices env id), mids')

  abbrev pub login_device : ℤ → Option (List ℤ) → Outcome
  login_device id none = closes_failed
  login_device id (some binded_ids) = logs_in id 0 binded_ids

  -- The id 0 is neither, and passes without bound ids.
  abbrev pub login_id : Env → Bool → ℤ → List ℕ → Outcome × List ℕ
  login_id env select_works id mids =
      if is_pos id
      then (if not (is_zero (rem64 id 16))
          then (closes (3 ∷ []), mids)
          else if select_works
          then login_phone env id (select_mobile_id mids)
          else (closes (9 ∷ []), mids))
      else if is_neg id
      then (login_device id (get_device_users env id), mids)
      else (logs_in id 0 [], mids)

  abbrev pub login_params : Env → Bool → Option Params → List ℕ → Outcome × List ℕ
  login_params env select_works none mids = (closes (1 ∷ []), mids)
  login_params env select_works (some (id, timestamp, timeout, md5_str)) mids =
      if is_auth id timestamp timeout md5_str
      then login_id env select_works id mids
      else (closes_failed, mids)

  -- `WsHandler` from the received text to the answer; `mids` are the phone ids in use of the user, before and
  -- after, and `select_works` is whether redis runs the script.
  unfoldable pub ws_login : Env → Bool → List ℕ → List ℕ → Outcome × List ℕ
  unfolding get_login_params is_auth
  ws_login env select_works req mids = login_params env select_works (get_login_params req) mids

-- What the loop does with a message: a pong, the end of the connection, or a push to the bus.
pub data Received : Type 0 where
  pong hangs_up : Received
  pushes : ℤ → List ℤ → List ℕ → Received

-- One round of the loop of `WsHandler`, on a message that is not an error.
unfoldable pub ws_receive : Session → SessionList → List ℕ → Run Received
ws_receive s l reply =
    if bytes_eq reply (b'p' ∷ [])
    then done pong
    else (if ltb (length reply) 16 then done hangs_up else (do
      to_id ← checked (uint_at reply 8 8)
      done (pushes s.uid (list_calc_dest_ids s (of_u64 to_id) l) reply)))
