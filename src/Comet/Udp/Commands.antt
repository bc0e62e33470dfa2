-- ===== src/Comet/Udp/Commands.antt =====
-- comet/udp_handler.go: the handlers of the commands. Each returns the answer (`none` is nil), and the session
-- and the world as it leaves them; its error is only logged.
use slot_golang.Base.{
  ℕ, ◌+◌, ◌-◌, ◌*◌, ◌/◌, ◌%◌, Bool, true, false, not, List, [], ◌∷◌, Option, none, some,
  if◌then◌else◌, length, ltb, ◌==◌, get_elem?, take, replicate,
}
use slot_golang.Base.Int64.{ℤ, pos, to_u64}
use slot_golang.Base.Bytes.{put_le, slice, uint_at, write_at}
use slot_golang.Base.Decimal.{parse_int}
use slot_golang.Base.Format.{format_uint, split_n}
use slot_golang.Base.Maps.{string_eq, insert}
use slot_golang.Base.Run.{Run, done, panics, checked, ◌>>=◌}
use slot_golang.Comet.Udp.Store.{
  Addr, UdpSession, World, Env, HttpReply, acquire, release, save_session, new_udp_session, update,
}
use slot_golang.Comet.Udp.Users.{get_device_users, push_dev_online}

abbrev pub Answer : Type 0
Answer = Option (List ℕ) × UdpSession × World

abbrev pub k_heart_beat_sec : ℕ
k_heart_beat_sec = 20

abbrev pub d_ack_http_error : ℕ
d_ack_http_error = 1000

abbrev pub d_ack_server_error : ℕ
d_ack_server_error = 1001

abbrev pub make : ℕ → List ℕ
make n = replicate n 0

-- `binary.LittleEndian.PutUint32(output[0:4], v)`
abbrev pub put_status : ℕ → List ℕ → List ℕ
put_status v output = write_at output 0 (put_le 4 v)

abbrev hex_digit : ℕ → ℕ
hex_digit n = if ltb n 10 then b'0' + n else b'a' + (n - 10)

-- `fmt.Sprintf("%x", s)`
unfoldable pub to_hex : List ℕ → List ℕ
to_hex [] = []
to_hex (b ∷ s) = hex_digit (b / 16) ∷ hex_digit (b % 16) ∷ to_hex s

abbrev pub char_of : ℕ → ℕ
char_of n =
    if ltb n 26
    then b'A' + n
    else if ltb n 52
    then b'a' + (n - 26)
    else if ltb n 62
    then b'0' + (n - 52)
    else if n == 62
    then b'+'
    else b'/'

-- `base64.StdEncoding.EncodeToString`
unfoldable pub base64 : List ℕ → List ℕ
base64 [] = []
base64 (a ∷ []) = char_of (a / 4) ∷ char_of (a % 4 * 16) ∷ b'=' ∷ b'=' ∷ []
base64 (a ∷ b ∷ []) =
    char_of (a / 4) ∷ char_of (a % 4 * 16 + b / 16) ∷ char_of (b % 16 * 4) ∷ b'=' ∷ []
base64 (a ∷ b ∷ c ∷ s) =
    char_of (a / 4)
    ∷ char_of (a % 4 * 16 + b / 16)
    ∷ char_of (b % 16 * 4 + c / 64)
    ∷ char_of (c % 64)
    ∷ base64 s

-- `bytes.TrimRight(s, "\x00")`
unfoldable pub trim_zeros : List ℕ → List ℕ
trim_zeros [] = []
trim_zeros (b ∷ s) =
    let rest = trim_zeros s in
    if (b == 0) then (elim rest [ [] ↦ [] | c ∷ cs ↦ b ∷ c ∷ cs ]) else b ∷ rest

-- `strconv.ParseInt(strings.SplitN(cookie, "|", 2)[0], 10, 64)`
abbrev first_number : List (List ℕ) → ℤ × Bool
first_number [] = (pos 0, false)
first_number (w ∷ words) = parse_int w

unfoldable pub cookie_id : List ℕ → ℤ × Bool
cookie_id cookie = first_number (split_n b'|' 2 cookie)

module _ (env : Env) where
  -- `onGetToken`: `SaveSession` failing is fatal. The new session's locker is given back by `defer`.
  abbrev pub get_token_saved : List ℕ → World × Bool → Run (Option (List ℕ) × World)
  get_token_saved sid (w, false) = panics
  get_token_saved sid (w, true) =
      done (some (write_at (make 28) 4 (take 16 sid)), release (env.uuid_string sid) w)

  abbrev pub get_token_locked : Addr → List ℕ → Option World → World → Run (Option (List ℕ) × World)
  get_token_locked peer sid none w = done (none, w)
  get_token_locked peer sid (some w') w =
      get_token_saved sid (save_session env (env.uuid_string sid) (new_udp_session env peer w') w')

  unfoldable pub on_get_token : Addr → List ℕ → World → Run (Option (List ℕ) × World)
  on_get_token peer body w =
      if length body == 24
      then get_token_locked peer (env.new_uuid w) (acquire env (env.uuid_string (env.new_uuid w)) w)
          w
      else done (none, w)

  -- The parts of the answer of `onRegister`.
  abbrev register_status : Option (ℕ × Bool) → List ℕ → List ℕ
  register_status none output = output
  register_status (some (status, z)) output = put_status status output

  abbrev register_cookie : Option (List ℕ) → List ℕ → List ℕ
  register_cookie none output = output
  register_cookie (some cookie) output =
      let copied = write_at output 28 (take 64 cookie) in
      let (id, ok) = cookie_id cookie in
      if ok then write_at copied 20 (put_le 8 (to_u64 id)) else put_status d_ack_server_error copied

  unfoldable pub register_output : HttpReply → List ℕ
  unfolding write_at
  register_output rep =
      if rep.failed
      then put_status rep.http_status (make 92)
      else register_cookie rep.cookie (register_status rep.status (make 92))

  abbrev key_mac : List ℕ
  key_mac = b'm' ∷ b'a' ∷ b'c' ∷ []

  abbrev key_dv : List ℕ
  key_dv = b'd' ∷ b'v' ∷ []

  abbrev key_pt : List ℕ
  key_pt = b'p' ∷ b't' ∷ []

  abbrev key_sn : List ℕ
  key_sn = b's' ∷ b'n' ∷ []

  abbrev key_name : List ℕ
  key_name = b'n' ∷ b'a' ∷ b'm' ∷ b'e' ∷ []

  abbrev key_cookie : List ℕ
  key_cookie = b'c' ∷ b'o' ∷ b'o' ∷ b'k' ∷ b'i' ∷ b'e' ∷ []

  -- `onRegister`
  unfoldable pub on_register : UdpSession → List ℕ → World → Run Answer
  unfolding register_output
  on_register s body w = if ltb (length body) 310 then done (none, s, w) else (do
    dv ← checked (uint_at body 16 2)
    produce_time ← checked (uint_at body 20 4)
    mac ← checked (slice body 24 32)
    sn ← checked (slice body 32 48)
    name_len ← checked (get_elem? body 308)
    name ← checked (if ltb 0 name_len then slice body 309 (309 + name_len) else some [])
    let input : List (List ℕ × List ℕ) =
        (key_mac, base64 mac)
        ∷ (key_dv, format_uint dv)
        ∷ (key_pt, format_uint produce_time)
        ∷ (key_sn, to_hex sn)
        ∷ (key_name, name)
        ∷ []
    done (some (register_output (env.http_post 0xE1 input)), s, w))

  -- A login that the API grants: the device's id from its cookie, its users, and the timer of 40 seconds.
  abbrev pub with_users : Option (List ℤ) → UdpSession → World → UdpSession × World
  with_users none s w = (s, w)
  with_users (some ids) s w =
      let s' = record s { binded_users = ids } in
      let w' = push_dev_online s' w in (s', record w' { udpmap = insert s'.addr s' w'.udpmap })

  abbrev pub with_id : ℤ × Bool → UdpSession → UdpSession
  with_id (id, ok) s = if ok then record s { device_id = id } else s

  unfoldable pub logged_in : List ℕ → UdpSession → World → UdpSession × World
  unfolding push_dev_online
  logged_in cookie s w =
      let s' = with_id (cookie_id cookie) s in with_users (get_device_users env s'.device_id) s' w

  abbrev login_output : ℕ → List ℕ
  login_output status = write_at (put_status status (make 21)) 20 (k_heart_beat_sec ∷ [])

  abbrev pub login_status : List ℕ → Option (ℕ × Bool) → UdpSession → World → Answer
  login_status cookie none s w = (some (login_output d_ack_http_error), s, w)
  login_status cookie (some (status, true)) s w =
      let (s', w') = logged_in cookie s w in (some (login_output status), s', w')
  login_status cookie (some (status, false)) s w = (some (login_output status), s, w)

  -- `onLogin`
  unfoldable pub on_login : UdpSession → List ℕ → World → Run Answer
  unfolding logged_in
  on_login s body w = if not (length body == 88) then done (none, s, w) else (do
    mac ← checked (slice body 16 24)
    text ← checked (slice body 24 88)
    let cookie = trim_zeros text
    let rep = env.http_post 0xE2 ((key_mac, base64 mac) ∷ (key_cookie, cookie) ∷ [])
    done (
        if rep.failed
        then (some (put_status rep.http_status (make 21)), s, w)
        else login_status cookie rep.status s w))

  abbrev rename_status : Option (ℕ × Bool) → ℕ
  rename_status none = d_ack_http_error
  rename_status (some (status, z)) = status

  -- `onRename`: the length of the name is added in 8 bits.
  unfoldable pub on_rename : UdpSession → List ℕ → World → Run Answer
  on_rename s body w = do
    mac ← checked (slice body 16 24)
    name_len ← checked (get_elem? body 24)
    name ← checked (slice body 25 ((25 + name_len) % 256))
    let rep = env.http_post 0xE3 ((key_name, name) ∷ (key_mac, base64 mac) ∷ [])
    let output = write_at (make 28) 20 mac
    done (
      some (put_status (if rep.failed then rep.http_status else rename_status rep.status) output),
      s,
      w,
    )

  -- `onHearBeat`
  unfoldable pub on_hear_beat : Addr → UdpSession → World → Answer
  on_hear_beat peer s w = (some (make 20), update env peer w s, w)

-- `onSubDeviceOffline`
abbrev pub on_sub_device_offline : UdpSession → World → Answer
on_sub_device_offline s w = (none, s, w)
