-- ===== src/Comet/Udp/Devices.antt =====
-- comet/udp_session.go: what reaches a device by its id; comet/redis.go: the published messages that ask for it.
pub mod Reaches
use slot_golang.Base.{
  ℕ, zero, suc, ◌+◌, ◌-◌, ◌*◌, ◌%◌, ◌^◌, Bool, true, false, not, ◌||◌, List, [], ◌∷◌, ◌++◌, Option,
  none, some, if◌then◌else◌, length, take, ltb, leb, ◌==◌,
}
use slot_golang.Base.Int64.{ℤ, pos, is_zero}
use slot_golang.Base.Bytes.{put_le, slice, write_at}
use slot_golang.Base.Decimal.{parse_int, split, Scan, scan_digits}
use slot_golang.Base.Format.{split_n}
use slot_golang.Base.Run.{Run, done, panics, checked, ◌>>=◌}
use slot_golang.Msgs.Frame.{AppMsg, new_msg, app_marshal_bytes}
use slot_golang.Msgs.Status.{status_marshal, mst_binded, mst_unbinded}
use slot_golang.Comet.Ids.{trans_id, update_bindings}
use slot_golang.Comet.Udp.Store.{
  Key, Addr, UdpSession, World, Env, acquire, release, get_session, save_session, get_device_sid,
  send, push2bus,
}
use slot_golang.Comet.Udp.Users.{parsed_ids}

-- What the methods below have in common: the session of a device is found, locked and read, and `defer` gives
-- the lock back. `some` is the result of the method that does not return an error.
module _ {A : Type 0} (env : Env)
    (use_session : List ℕ → Key → UdpSession → World → Run (World × A)) where
  abbrev with_session : List ℕ → Option UdpSession → World → Run (World × Option A)
  with_session i none w = done (w, none)
  with_session i (some s) w = do (w', a) ← use_session i (env.uuid_string i) s w; done (w', some a)

  abbrev with_uuid : Option (List ℕ) → World → Run (World × Option A)
  with_uuid none w = done (w, none)
  with_uuid (some i) w = with_session i (get_session env (env.uuid_string i) w) w

  abbrev with_lock : Key → Option World → World → Run (World × Option A)
  with_lock sid none w = done (w, none)
  with_lock sid (some w') w = do
    (w'', a) ← with_uuid (env.parse_hex sid) w'
    done (release sid w'', a)

  abbrev with_sid : Option Key → World → Run (World × Option A)
  with_sid none w = done (w, none)
  with_sid (some sid) w = with_lock sid (acquire env sid w) w

  unfoldable pub with_device : ℤ → World → Run (World × Option A)
  with_device id w = with_sid (get_device_sid env id w) w

-- `GetDeviceAddr`
unfoldable pub get_device_addr : Env → ℤ → World → Run (World × Option Addr)
unfolding with_device
get_device_addr env id w = with_device env (λ i sid s w. done (w, s.addr)) id w

-- `sess.Sidx++` on a uint16
abbrev next_sidx : UdpSession → UdpSession
next_sidx s = record s { sidx = (s.sidx + 1) % 2 ^ 16 }

-- The message of `PushCommonMsg` to a device, with its number.
abbrev pub common_msg : ℕ → ℕ → ℤ → ℕ → List ℕ → AppMsg
common_msg now msg_id did sequence body =
    let m = new_msg now body none in
    record m {
      frame_header = record (m.frame_header) { opcode = 2; dst_id = did; sequence = sequence };
      data_header = record (m.data_header) { msg_id = msg_id };
    }

abbrev pub push_common_step :
    Env → ℕ → ℤ → List ℕ → List ℕ → Key → UdpSession → World → Run (World × Unit {0})
push_common_step env msg_id did body i sid s w = do
  let s' = next_sidx s
  (m, bytes) ← app_marshal_bytes (env.now w) (common_msg (env.now w) msg_id did s'.sidx body)
  done ((save_session env sid s' (send s'.addr bytes w)).0, tt)

-- `UdpSessionList.PushCommonMsg`
unfoldable pub push_common_msg : Env → ℕ → ℤ → List ℕ → World → Run (World × Option (Unit {0}))
unfolding with_device
push_common_msg env msg_id did body w = with_device env (push_common_step env msg_id did body) did w

-- `UdpSessionList.PushMsg`: the number and the id of the session are written into the message. `spare` is what the
-- reader's buffer holds behind the message, which the slices `msg[2:4]` and `msg[24:40]` can reach; only the
-- message itself is sent.
unfoldable pub push_msg : Env → ℤ → List ℕ → List ℕ → World → Run (World × Option (Unit {0}))
unfolding with_device
push_msg env did msg spare w =
    with_device env
      (λ i sid s w. do
        let s' = next_sidx s
        let buf = msg ++ spare
        _ ← checked (slice buf 2 4)
        let numbered = write_at buf 2 (put_le 2 s'.sidx)
        _ ← checked (slice numbered 24 40)
        let filled = take (length msg) (write_at numbered 24 (take 16 i))
        done ((save_session env sid s' (send s'.addr filled w)).0, tt))
      did w

abbrev or_nil : Option (List ℕ) → List ℕ
or_nil none = []
or_nil (some bytes) = bytes

-- The message of `NotifyBindedIdChanged` of one kind.
abbrev pub notice : ℕ → ℕ → ℤ → AppMsg
notice now kind device_id =
    let m =
      new_msg now (or_nil (status_marshal (record { kind = kind; id = device_id; payload = [] })))
        none in
    record m {
      frame_header = record (m.frame_header) { opcode = 2; src_id = device_id };
      data_header = record (m.data_header) { msg_id = 0x36 };
    }

abbrev pub notify : Env → ℕ → ℤ → List ℤ → World → Run World
notify env kind device_id [] w = done w
notify env kind device_id (id ∷ ids) w = do
  (m, bytes) ← app_marshal_bytes (env.now w) (notice (env.now w) kind device_id)
  done (push2bus (pos 0) (id ∷ ids) bytes w)

-- `NotifyBindedIdChanged`
unfoldable pub notify_binded_id_changed : Env → ℤ → List ℤ → List ℤ → World → Run World
notify_binded_id_changed env device_id new_bind_ids unbind_ids w = do
  w' ← notify env mst_binded device_id new_bind_ids w
  notify env mst_unbinded device_id unbind_ids w'

abbrev pub notice_of_change : Env → ℤ → ℤ → Bool → Option (Unit {0}) → World → Run World
notice_of_change env device_id user_id bind none w = done w
notice_of_change env device_id user_id true (some t) w =
    notify_binded_id_changed env device_id (trans_id user_id) [] w
notice_of_change env device_id user_id false (some t) w =
    notify_binded_id_changed env device_id [] (trans_id user_id) w

abbrev pub bind_step : Env → ℤ → Bool → List ℕ → Key → UdpSession → World → Run (World × Unit {0})
bind_step env user_id bind i sid s w = done (
  (save_session env sid (record s { binded_users = update_bindings bind user_id s.binded_users })
      w).0,
  tt,
)

-- `UdpSessionList.UpdateIds`, with its notice (a goroutine of its own) after the lock is given back.
unfoldable pub update_ids : Env → ℤ → ℤ → Bool → World → Run World
unfolding with_device notify_binded_id_changed
update_ids env device_id user_id bind w = do
  (w', ok) ← with_device env (bind_step env user_id bind) device_id w
  notice_of_change env device_id user_id bind ok w'

-- What `HandleDeviceUsers` reads from a published message: the device, the user, and whether it is a binding.
-- The last number is of 32 bits.
abbrev int32_fits : ℤ → Bool
int32_fits (pos n) = ltb n (2 ^ 31)
int32_fits (ℤ.negsuc n) = ltb n (2 ^ 31)

abbrev device_fields : List (List ℕ) → Option (ℤ × ℤ × Bool)
device_fields [] = none
device_fields (a ∷ []) = none
device_fields (a ∷ b ∷ []) = none
device_fields (a ∷ b ∷ c ∷ d ∷ rest) = none
device_fields (a ∷ b ∷ c ∷ []) =
    let (device_id, ok) = parse_int a in
    let (user_id, ok') = parse_int b in
    let (kind, ok'') = parse_int c in
    if not ok || (not ok' || (not ok'' || not (int32_fits kind)))
    then none
    else some (device_id, user_id, not (is_zero kind))

unfoldable pub parse_device_users : List ℕ → Option (ℤ × ℤ × Bool)
parse_device_users buf = device_fields (split_n b'|' 3 buf)

abbrev update_parsed : Env → Option (ℤ × ℤ × Bool) → World → Run World
update_parsed env none w = done w
update_parsed env (some (device_id, user_id, bind)) w = update_ids env device_id user_id bind w

-- One round of the loop of `HandleDeviceUsers`.
unfoldable pub handle_device_users : Env → List ℕ → World → Run World
unfolding parse_device_users
handle_device_users env buf w = update_parsed env (parse_device_users buf) w
