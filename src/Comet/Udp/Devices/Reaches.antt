-- ===== src/Comet/Udp/Devices/Reaches.antt =====
-- comet/udp_session.go: a device that is known is reached.
use slot_golang.Base.{
  ℕ, ◌+◌, ◌%◌, ◌^◌, ◌<◌, ◌≡◌, refl, sym, ap, subst, ◌++◌, ◌∙◌, Bool, true, false, List, [], ◌∷◌,
  Option, none, some, length, arith,
}
use slot_golang.Base.Int64.{ℤ, pos, to_u64}
use slot_golang.Base.Maps.{string_eq, lookup}
use slot_golang.Base.Run.{Run, done, ◌>>=◌}
use slot_golang.Base.Bytes.{put_le, write_at}
use slot_golang.Msgs.Frame.{AppMsg, new_msg, app_marshal_bytes}
use slot_golang.Msgs.Frame.Checks.{
  IsFilled, app_marshal_layout, app_marshal_bytes-layout, app_marshal_bytes-IsFilled,
}
use slot_golang.Msgs.Status.{status_marshal, mst_binded, mst_unbinded}
use slot_golang.Comet.Ids.{trans_id, update_bindings}
use slot_golang.Comet.Udp.{accepted, command, check_packet}
use slot_golang.Comet.Udp.Packets.{marshalled_is_accepted}
use slot_golang.Comet.Udp.Store.{
  Key, UdpSession, World, Env, set_sess, acquire, release, get_session, get_device_sid,
  save_session, send, push2bus,
}
use slot_golang.Comet.Udp.Devices.{
  with_device, common_msg, push_common_step, push_common_msg, update_ids, bind_step, notify, notice,
  notice_of_change, notify_binded_id_changed,
}
use slot_golang.Comet.Udp.Handler.Steps.{
  save_session-same, save_session-lookup, save_session-locked,
}
use slot_golang.Comet.Udp.Handler.Locks.{release_top}

pub release-sent : (key : Key) (w : World) → (release key w).sent ≡ w.sent
unfolding release
release-sent key w = refl

release-pushed : (key : Key) (w : World) → (release key w).pushed ≡ w.pushed
unfolding release
release-pushed key w = refl

-- A device that redis knows, with the session that is stored for it: its session id is found, locked, is a uuid,
-- and reads as s.
abbrev pub IsKnown : Env → ℤ → Key → List ℕ → UdpSession → World → Type 0
IsKnown env id sid i s w =
    (get_device_sid env id w ≡ some sid)
    × (acquire env sid w ≡ some (record w { locked = sid ∷ w.locked }))
    × (env.parse_hex sid ≡ some i)
    × (get_session env (env.uuid_string i) (record w { locked = sid ∷ w.locked }) ≡ some s)

with_device_known :
    {A : Type 0} (env : Env) (use_session : List ℕ → Key → UdpSession → World → Run (World × A))
    (id : ℤ) (sid : Key) (i : List ℕ) (s : UdpSession) (w w' : World) (a : A)
    → IsKnown env id sid i s w
    → use_session i (env.uuid_string i) s (record w { locked = sid ∷ w.locked }) ≡ done (w', a)
    → with_device env use_session id w ≡ done (release sid w', some a)
unfolding with_device
with_device_known env use_session id sid i s w w' a (h, l, p, g) e =
    rw h (rw l (rw p (rw g (rw e refl))))

-- A message with opcode 2 and no forward header, as bytes that pass the checks and hold its fields.
accepted_bytes :
    (now : ℕ) (m : AppMsg)
    → m.forward_header ≡ none
    → m.frame_header.guid ≡ []
    → m.frame_header.ver < 256
    → m.frame_header.opcode ≡ 2
    → length m.body < 2 ^ 16
    → m.frame_header.sequence < 2 ^ 16
    → m.data_header.msg_id < 2 ^ 16
    → (m' : AppMsg) × (bytes : List ℕ) × (app_marshal_bytes now m ≡ done (m', bytes))
      × (check_packet bytes ≡ done (accepted command))
      × IsFilled bytes m.frame_header.sequence m.frame_header.dst_id m.frame_header.src_id
          m.data_header.msg_id m.body
accepted_bytes now m no_forward no_guid ver op short hs hm =
    let (m', e) = app_marshal_bytes-layout now m no_forward no_guid in
    (
      m',
      app_marshal_layout now m,
      e,
      ap (λ r. r >>= λ p. check_packet p.1) (sym e)
          ∙ marshalled_is_accepted now m no_forward no_guid ver op short,
      app_marshal_bytes-IsFilled now m hs hm,
    )

common_msg_bytes :
    (now msg_id : ℕ) (did : ℤ) (sequence : ℕ) (body : List ℕ)
    → length body < 2 ^ 16
    → sequence < 2 ^ 16
    → msg_id < 2 ^ 16
    → (m' : AppMsg) × (bytes : List ℕ) × (app_marshal_bytes now
          (common_msg now msg_id did sequence body)
        ≡ done (m', bytes))
      × (check_packet bytes ≡ done (accepted command))
      × IsFilled bytes sequence did (pos 0) msg_id body
unfolding new_msg
common_msg_bytes now msg_id did sequence body short hs hm =
    accepted_bytes now (common_msg now msg_id did sequence body) refl refl (omega arith) refl short
      hs hm

released-lookup :
    (key sid : Key) (w : World) (o : Option (Option UdpSession))
    → lookup key w.sessions ≡ o
    → lookup key (release sid w).sessions ≡ o
unfolding release
released-lookup key sid w o e = e

-- A message for a device that is known, with an id and a number of bytes below 2 ^ 16, where redis stores sessions:
-- one packet is sent, to the address of the device's session. It passes every check of a packet, and a receiver
-- reads from it the next number of the session, the device as the receiver, 0 as the sender, the id of the message,
-- and the body, unchanged. The stored session has that number and is otherwise as it was, and the locker is given
-- back.
pub push_common_msg_lem :
    (env : Env) (msg_id : ℕ) (did : ℤ) (body : List ℕ) (sid : Key) (i : List ℕ) (s : UdpSession)
    (w : World)
    → IsKnown env did sid i s w
    → length body < 2 ^ 16
    → msg_id < 2 ^ 16
    → ((key : Key) (x : World) → env.works (set_sess key) x ≡ true)
    → (w' : World) × (bytes : List ℕ) × (push_common_msg env msg_id did body w ≡ done (w', some tt))
      × (w'.sent ≡ (s.addr, bytes) ∷ w.sent)
      × (check_packet bytes ≡ done (accepted command))
      × IsFilled bytes ((s.sidx + 1) % 2 ^ 16) did (pos 0) msg_id body
      × (w'.locked ≡ w.locked)
      × (lookup (env.uuid_string i) w'.sessions
          ≡ some (some (record s { sid = []; sidx = (s.sidx + 1) % 2 ^ 16 })))
unfolding push_common_msg
push_common_msg_lem env msg_id did body sid i s w known short small works =
    let locked = record w { locked = sid ∷ w.locked } in
    let s' = record s { sidx = (s.sidx + 1) % 2 ^ 16 } in
    let (m', bytes, e, passes, filled) =
      common_msg_bytes (env.now locked) msg_id did s'.sidx body short (omega arith) small in
    let key = env.uuid_string i in
    let sent = send s.addr bytes locked in
    let saved = (save_session env key s' sent).0 in
    (
      release sid saved,
      bytes,
      with_device_known env (push_common_step env msg_id did body) did sid i s w saved tt known
          (rw e refl),
      release-sent sid saved
          ∙ save_session-same (λ x. x.sent) env key s' sent (λ x t. refl, λ x d. refl, λ x r. refl),
      passes,
      filled,
      release_top sid saved w.locked (save_session-locked env key s' sent),
      released-lookup key sid saved _ (save_session-lookup env key s' sent (works key)),
    )

-- What the phones are told of the device: nothing where there are none, and otherwise one message for all of them,
-- which passes the checks of a packet and has the device as its sender and in its body.
abbrev pub IsTold :
    ℤ → ℕ → List ℤ → List (ℤ × List ℤ × List ℕ) → List (ℤ × List ℤ × List ℕ) → Type 0
IsTold did kind [] before after = after ≡ before
IsTold did kind (id ∷ ids) before after =
    (bytes : List ℕ) × (after ≡ (pos 0, id ∷ ids, bytes) ∷ before)
    × (check_packet bytes ≡ done (accepted command))
    × IsFilled bytes 0 (pos 0) did 0x36 (kind ∷ (put_le 8 (to_u64 did) ++ (0 ∷ [])))

pub notice_bytes :
    (now kind : ℕ) (device_id : ℤ)
    → (m' : AppMsg) × (bytes : List ℕ) × (app_marshal_bytes now (notice now kind device_id)
        ≡ done (m', bytes))
unfolding new_msg
notice_bytes now kind device_id =
    let (m', e) = app_marshal_bytes-layout now (notice now kind device_id) refl refl in (m', _, e)

notice_read :
    (now kind : ℕ) (did : ℤ)
    → (m' : AppMsg) × (bytes : List ℕ) × (app_marshal_bytes now (notice now kind did)
        ≡ done (m', bytes))
      × (check_packet bytes ≡ done (accepted command))
      × IsFilled bytes 0 (pos 0) did 0x36 (kind ∷ (put_le 8 (to_u64 did) ++ (0 ∷ [])))
unfolding new_msg status_marshal write_at put_le
notice_read now kind did =
    accepted_bytes now (notice now kind did) refl refl (omega arith) refl (omega arith)
      (omega arith) (omega arith)

-- A step that pushes to the bus at most, and comes to its end.
abbrev Notified : ℤ → ℕ → List ℤ → World → Run World → Type 0
Notified did kind ids w m =
    (w' : World) × (m ≡ done w')
    × (w'.sessions ≡ w.sessions)
    × (w'.locked ≡ w.locked)
    × IsTold did kind ids w.pushed w'.pushed

notify-Notified :
    (env : Env) (kind : ℕ) (did : ℤ) (ids : List ℤ) (w : World)
    → Notified did kind ids w (notify env kind did ids w)
notify-Notified env kind did [] w = (w, refl, refl, refl, refl)
notify-Notified env kind did (id ∷ ids) w =
    let (m', bytes, e, passes, filled) = notice_read (env.now w) kind did in
    (push2bus (pos 0) (id ∷ ids) bytes w, rw e refl, refl, refl, (bytes, refl, passes, filled))

abbrev pub kind_of : Bool → ℕ
kind_of true = mst_binded
kind_of false = mst_unbinded

change-Notified :
    (env : Env) (did user_id : ℤ) (bind : Bool) (w : World)
    → Notified did
        (kind_of bind)
        (trans_id user_id)
        w
        (notice_of_change env did user_id bind (some tt) w)
unfolding notify_binded_id_changed
change-Notified env did user_id true w =
    let (w', e, t, l, told) = notify-Notified env mst_binded did (trans_id user_id) w in
    (w', rw e refl, t, l, told)
change-Notified env did user_id false w = notify-Notified env mst_unbinded did (trans_id user_id) w

-- `UpdateIds` for a device that is known, while redis stores sessions: the stored session has the users with the
-- one bound or unbound and is otherwise as it was, and the locker is given back. The phones of the user, as
-- `TransId` gives them, are told so by one message to the bus, without a panic: it passes the checks of a packet, has
-- the device as its sender, and its body is the kind of the change, the device and a 0; where there are no phones
-- nothing is sent.
pub update_ids_lem :
    (env : Env) (did user_id : ℤ) (bind : Bool) (sid : Key) (i : List ℕ) (s : UdpSession)
    (w : World)
    → IsKnown env did sid i s w
    → ((key : Key) (x : World) → env.works (set_sess key) x ≡ true)
    → (w' : World) × (update_ids env did user_id bind w ≡ done w')
      × (lookup (env.uuid_string i) w'.sessions
          ≡ some (
              some (record s {
                sid = [];
                binded_users = update_bindings bind user_id s.binded_users;
              })))
      × (w'.locked ≡ w.locked)
      × IsTold did (kind_of bind) (trans_id user_id) w.pushed w'.pushed
unfolding update_ids
update_ids_lem env did user_id bind sid i s w known works =
    let locked = record w { locked = sid ∷ w.locked } in
    let s' = record s { binded_users = update_bindings bind user_id s.binded_users } in
    let key = env.uuid_string i in
    let saved = (save_session env key s' locked).0 in
    let (w', e, t, l, told) = change-Notified env did user_id bind (release sid saved) in
    (
      w',
      rw (with_device_known env (bind_step env user_id bind) did sid i s w saved tt known refl) e,
      ap (lookup key) t
          ∙ released-lookup key sid saved _ (save_session-lookup env key s' locked (works key)),
      l ∙ release_top sid saved w.locked (save_session-locked env key s' locked),
      subst (λ before. IsTold did (kind_of bind) (trans_id user_id) before w'.pushed)
          (release-pushed sid saved
            ∙ save_session-same (λ x. x.pushed) env key s' locked
                (λ x t. refl, λ x d. refl, λ x r. refl))
          told,
    )
