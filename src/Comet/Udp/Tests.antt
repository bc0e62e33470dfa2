-- ===== src/Comet/Udp/Tests.antt =====
-- The UDP comet at concrete packets, with a redis that keeps what it is given.
use slot_golang.Base.{
  ℕ, ◌≡◌, refl, true, false, List, [], ◌∷◌, ◌++◌, none, some, arith, ◌⊎◌, inl, drop,
}
use slot_golang.Base.Int64.{pos, of_u64}
use slot_golang.Base.Bytes.{put_le, get_le, uint_at, slice}
use slot_golang.Base.Maps.{lookup, string_eq, bytes_eq}
use slot_golang.Base.Run.{Run, done, panics, blocks}
use slot_golang.Msgs.Checksum.{checksum_header}
use slot_golang.Comet.Ids.{trans_id, udp_calc_dest_ids, update_bindings}
use slot_golang.Comet.Sequence.{verify_session}
use slot_golang.Comet.Udp.{accepted, command, check_packet, check_opcode, check_data, check_body}
use slot_golang.Comet.Udp.Store.{
  Env, World, UdpSession, Key, acquire, get_session, get_device_sid, push2bus,
}
use slot_golang.Comet.Udp.Users.{device_message}
use slot_golang.Comet.Udp.Common.{key_prefix, parse_common_msg}
use slot_golang.Comet.Udp.Common.Published.{device_message_read}
use slot_golang.Comet.Udp.Devices.{push_common_msg, update_ids}
use slot_golang.Comet.Udp.Devices.Reaches.{push_common_msg_lem, update_ids_lem, IsKnown, IsTold}
use slot_golang.Msgs.Frame.Checks.{IsFilled}
use slot_golang.Msgs.Status.{mst_binded}
use slot_golang.Comet.Udp.Handler.{handle, handle_forward, reply}
use slot_golang.Comet.Udp.Handler.Locks.{handle-locked}
use slot_golang.Comet.Udp.Handler.Again.{handle_again}
use slot_golang.Comet.Udp.Handler.Replies.{reply_accepted}
use slot_golang.Comet.Udp.Handler.Returns.{handle-Returns}
use slot_golang.Comet.Udp.Handler.Forwards.{handle_forward_effect}

abbrev env : Env
env = record {
  works = λ call w. true;
  hget_owner = λ id. none;
  hget_family = λ user. none;
  smembers = λ key. none;
  parse_uuid = λ bytes. some bytes;
  parse_hex = λ key. some key;
  uuid_string = λ uuid. uuid;
  new_uuid = λ w. [];
  http_post =
      λ command input. record { http_status = 0; failed = false; status = none; cookie = none };
  now = λ w. 1000;
}

abbrev sid : Key
sid = 1 ∷ 2 ∷ 3 ∷ 4 ∷ 5 ∷ 6 ∷ 7 ∷ 8 ∷ 9 ∷ 10 ∷ 11 ∷ 12 ∷ 13 ∷ 14 ∷ 15 ∷ 16 ∷ []

abbrev addr : List ℕ
addr = b'a' ∷ []

abbrev session : UdpSession
session = record {
  sid = [];
  device_id = pos 5;
  addr = addr;
  last_heartbeat = 0;
  sidx = 3;
  ridx = 6;
  binded_users = pos 16 ∷ pos 32 ∷ [];
}

abbrev world : World
world = record {
  sessions = (sid, some session) ∷ [];
  device_sids = (pos 5, sid) ∷ [];
  locked = [];
  sent = [];
  pushed = [];
  udpmap = [];
  resets = [];
  device_addrs = [];
  published = [];
}

abbrev result : Run World → World
result (done w) = w
result panics = world
result blocks = world

-- A heartbeat with the number 7.
abbrev heart_beat : List ℕ
heart_beat =
    130 ∷ 0 ∷ 7 ∷ 0 ∷ 0 ∷ 0 ∷ 0 ∷ 0 ∷ 0 ∷ 0 ∷ 0 ∷ 0 ∷ 0 ∷ 0 ∷ 0 ∷ 0 ∷ 0 ∷ 0 ∷ 0 ∷ 0 ∷ 0 ∷ 0 ∷ 0 ∷ 0
    ∷ 0 ∷ 0 ∷ 0 ∷ 0 ∷ 229 ∷ 0 ∷ 16 ∷ 0 ∷ 199 ∷ 193 ∷ 0 ∷ 0 ∷ 1 ∷ 2 ∷ 3 ∷ 4 ∷ 5 ∷ 6 ∷ 7 ∷ 8 ∷ 9 ∷ 10
    ∷ 11 ∷ 12 ∷ 13 ∷ 14 ∷ 15 ∷ 16 ∷ []

-- A message to forward with the number 7, from the device 5.
abbrev to_forward : List ℕ
to_forward =
    131 ∷ 0 ∷ 7 ∷ 0 ∷ 0 ∷ 0 ∷ 0 ∷ 0 ∷ 0 ∷ 0 ∷ 0 ∷ 0 ∷ 0 ∷ 0 ∷ 0 ∷ 0 ∷ 5 ∷ 0 ∷ 0 ∷ 0 ∷ 0 ∷ 0 ∷ 0 ∷ 0
    ∷ 1 ∷ 2 ∷ 3 ∷ 4 ∷ 5 ∷ 6 ∷ 7 ∷ 8 ∷ 9 ∷ 10 ∷ 11 ∷ 12 ∷ 13 ∷ 14 ∷ 15 ∷ 16 ∷ 0 ∷ 0 ∷ 0 ∷ 0 ∷ 0 ∷ 0
    ∷ 0 ∷ 0 ∷ 0 ∷ 0 ∷ 0 ∷ 0 ∷ 0 ∷ 0 ∷ 0 ∷ 0 ∷ 0 ∷ 0 ∷ 0 ∷ 0 ∷ 0 ∷ 0 ∷ 0 ∷ 0 ∷ 0 ∷ 0 ∷ 0 ∷ 0 ∷ 0 ∷ 0
    ∷ 0 ∷ 0 ∷ 0 ∷ 0 ∷ 0 ∷ 0 ∷ []

abbrev after : World
after = result (handle env addr heart_beat world)

handled : handle env addr heart_beat world ≡ done after
unfolding handle check_opcode check_data uint_at checksum_header check_body get_le acquire
    get_session lookup bytes_eq verify_session reply put_le
handled = refl

handle_again_example : handle env addr heart_beat after ≡ done after
unfolding check_packet check_opcode check_data uint_at checksum_header check_body get_le
handle_again_example =
    handle_again env addr heart_beat 0xE5 7 world after refl refl refl refl refl (λ key x. refl)
      handled

handle-Returns_example : (w' : World) × (handle env addr heart_beat world ≡ done w')
unfolding check_packet check_opcode check_data uint_at checksum_header check_body get_le
handle-Returns_example =
    handle-Returns env addr heart_beat 0x82 0xE5 7 world (omega arith) refl refl refl refl refl
      (inl refl)

handle-locked_example : after.locked ≡ world.locked
handle-locked_example = handle-locked env addr heart_beat world after handled

forwarded : World
forwarded = result (handle env addr to_forward world)

handle_forward_effect_example :
    (forwarded ≡ world)
    ⊎ ((raw id : List ℕ) × (s : UdpSession) × (slice to_forward 24 40 ≡ some raw)
        × (env.parse_uuid raw ≡ some id)
        × (get_session env
              (env.uuid_string id)
              (record world { locked = env.uuid_string id ∷ world.locked })
            ≡ some s)
        × (verify_session s.ridx 7 ≡ (7, true))
        × (forwarded
            ≡ push2bus (of_u64 5) (udp_calc_dest_ids s.binded_users (of_u64 0)) to_forward world))
unfolding handle check_opcode check_packet uint_at get_le forwarded acquire get_session lookup
    bytes_eq verify_session handle_forward
handle_forward_effect_example =
    handle_forward_effect env addr to_forward world 7 0 5 forwarded refl refl refl refl refl

reply_accepted_example :
    (out : List ℕ) × (reply heart_beat (1 ∷ 2 ∷ []) ≡ done out)
    × (check_packet out ≡ done (accepted command))
    × (drop 36 out ≡ 1 ∷ 2 ∷ [])
reply_accepted_example =
    reply_accepted heart_beat (1 ∷ 2 ∷ []) 0x82 (omega arith) (omega arith) refl refl

known : IsKnown env (pos 5) sid sid (record session { sid = sid }) world
unfolding acquire get_session lookup bytes_eq get_device_sid
known = (refl, refl, refl, refl)

push_common_msg_lem_example :
    (w' : World) × (bytes : List ℕ) × (push_common_msg env 0x36 (pos 5) (9 ∷ []) world
      ≡ done (w', some tt))
    × (w'.sent ≡ (addr, bytes) ∷ [])
    × (check_packet bytes ≡ done (accepted command))
    × IsFilled bytes 4 (pos 5) (pos 0) 0x36 (9 ∷ [])
    × (w'.locked ≡ [])
    × (lookup sid w'.sessions ≡ some (some (record session { sidx = 4 })))
push_common_msg_lem_example =
    push_common_msg_lem env 0x36 (pos 5) (9 ∷ []) sid sid (record session { sid = sid }) world known
      (omega arith) (omega arith) (λ key x. refl)

update_ids_lem_example :
    (w' : World) × (update_ids env (pos 5) (pos 48) true world ≡ done w')
    × (lookup sid w'.sessions
        ≡ some (
            some (record session {
              binded_users = update_bindings true (pos 48) session.binded_users;
            })))
    × (w'.locked ≡ [])
    × IsTold (pos 5) mst_binded (trans_id (pos 48)) [] w'.pushed
update_ids_lem_example =
    update_ids_lem env (pos 5) (pos 48) true sid sid (record session { sid = sid }) world known
      (λ key x. refl)

device_message_read_example :
    parse_common_msg (key_prefix ++ (b'0' ∷ b'x' ∷ b'3' ∷ b'6' ∷ [])) (device_message 9 session)
    ≡ some (0x36, session.binded_users, 9 ∷ (put_le 8 5 ++ (0 ∷ [])))
device_message_read_example =
    device_message_read 9 session (pos 16) (pos 32 ∷ []) refl ((omega arith), ((omega arith), tt))
