-- ===== src/Comet/Udp/Users.antt =====
-- comet/redis.go: the users of a device, and what the comet publishes when a device goes on or off line.
use slot_golang.Base.{ℕ, List, [], ◌∷◌, ◌++◌, Option, none, some, if◌then◌else◌, map}
use slot_golang.Base.Int64.{ℤ, to_u64}
use slot_golang.Base.Bytes.{put_le}
use slot_golang.Base.Decimal.{parse_int}
use slot_golang.Base.Format.{format_int, join}
use slot_golang.Base.Maps.{int64_eq, string_eq, insert, delete}
use slot_golang.Comet.Udp.Store.{Env, World, UdpSession}

-- The loops that keep the ids that parse.
unfoldable pub parsed_ids : List (List ℕ) → List ℤ
parsed_ids [] = []
parsed_ids (m ∷ mems) =
    let (id, ok) = parse_int m in let rest = parsed_ids mems in if ok then id ∷ rest else rest

abbrev or_nil : Option (List (List ℕ)) → List (List ℕ)
or_nil none = []
or_nil (some ms) = ms

abbrev family_key : List ℕ → List ℕ
family_key host = b'f' ∷ b'a' ∷ b'm' ∷ b'i' ∷ b'l' ∷ b'y' ∷ b':' ∷ host

-- The members of a user's family; a user without one counts alone.
abbrev pub family_users : Env → List ℕ → Option (List ℕ) → List ℤ
family_users env user none = (parse_int user).0 ∷ []
family_users env user (some []) = (parse_int user).0 ∷ []
family_users env user (some (c ∷ host)) = parsed_ids (or_nil (env.smembers (family_key (c ∷ host))))

-- `GetDeviceUsers`: `none` is an error.
unfoldable pub get_device_users : Env → ℤ → Option (List ℤ)
unfolding parsed_ids
get_device_users env device_id = elim (env.hget_owner device_id) [
  | none ↦ none
  | some user ↦ some (family_users env user (env.hget_family user))
]

abbrev devices_key : List ℕ → List ℕ
devices_key user =
    b'u' ∷ b':' ∷ (user ++ (b':' ∷ b'd' ∷ b'e' ∷ b'v' ∷ b'i' ∷ b'c' ∷ b'e' ∷ b's' ∷ []))

unfoldable pub all_devices : Env → List (List ℕ) → List (List ℕ)
all_devices env [] = []
all_devices env (m ∷ mems) = or_nil (env.smembers (devices_key m)) ++ all_devices env mems

abbrev pub family_devices : Env → List ℕ → Option (List ℕ) → List (List ℕ)
family_devices env user none = or_nil (env.smembers (devices_key user))
family_devices env user (some []) = or_nil (env.smembers (devices_key user))
family_devices env user (some (c ∷ host)) =
    all_devices env (or_nil (env.smembers (family_key (c ∷ host))))

-- `GetUserDevices`, which never returns an error.
unfoldable pub get_user_devices : Env → ℤ → List ℤ
unfolding parsed_ids all_devices
get_user_devices env user_id =
    parsed_ids (family_devices env (format_int user_id) (env.hget_family (format_int user_id)))

-- The text before the '|', the kind of the event, the device's id and an empty payload.
abbrev pub device_message : ℕ → UdpSession → List ℕ
device_message kind s =
    join b',' (map format_int s.binded_users)
    ++ (b'|' ∷ kind ∷ (put_le 8 (to_u64 s.device_id) ++ (0 ∷ [])))

-- `PushDevOnlineMsgToUsers`
unfoldable pub push_dev_online : UdpSession → World → World
push_dev_online s w = record w {
  device_addrs = insert s.device_id s.addr w.device_addrs;
  published = device_message 9 s ∷ w.published;
}

-- `PushDevOfflineMsgToUsers`; "hdel" of one more field, the name of the network, removes nothing else.
unfoldable pub push_dev_offline : UdpSession → World → World
push_dev_offline s w = record w {
  device_addrs = delete s.device_id w.device_addrs;
  published = device_message 10 s ∷ w.published;
}

-- The function of the timer of 40 seconds that a login starts.
unfoldable pub timer_expired : UdpSession → World → World
unfolding push_dev_offline
timer_expired s w = let w' = push_dev_offline s w in record w' { udpmap = delete s.addr w'.udpmap }
