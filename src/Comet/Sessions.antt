-- ===== src/Comet/Sessions.antt =====
-- comet/session.go: the websocket sessions by user id, in 128 maps of linked lists. A list is kept from its front
-- on, a session by a number of its own. Each method holds the mutex of a block and gives it back on every path.
pub mod Kept
pub mod Kicked
pub mod Modified
pub mod Pushed
mod Tests
use slot_golang.Base.{
  ℕ, zero, suc, ◌+◌, ◌%◌, ◌^◌, Bool, true, false, List, [], ◌∷◌, ◌++◌, Option, none, some, ◌==◌,
  if◌then◌else◌, map,
}
use slot_golang.Base.Int64.{ℤ, pos, pos_part}
use slot_golang.Base.Maps.{int64_eq, lookup, insert, delete}
use slot_golang.Base.Run.{Run, done, ◌>>=◌}
use slot_golang.Comet.Ids.{get_block_id, trans_id, calc_dest_ids, update_bindings}
use slot_golang.Msgs.Frame.{AppMsg, new_msg, app_marshal_bytes}
use slot_golang.Comet.Udp.Devices.{notice}
use slot_golang.Msgs.Status.{status_marshal, mst_binded, mst_unbinded, mst_kick_off}

pub record Session : Type 0 where
  pub number : ℕ
  pub uid : ℤ
  pub binded_ids : List ℤ

-- The maps by block; what was sent to the connections of sessions and which of these were closed, by number, and
-- what was pushed to the bus, with the latest first.
pub record SessionList : Type 0 where
  pub onlined : ℕ → List (ℤ × List Session)
  pub sent : List (ℕ × List ℕ)
  pub closed : List ℕ
  pub pushed : List (ℤ × List ℤ × List ℕ)

-- `InitSessionList`
abbrev pub init_session_list : SessionList
init_session_list = record { onlined = λ block. []; sent = []; closed = []; pushed = [] }

-- The index of a block is never negative (Comet.Ids.Blocks).
abbrev pub block_of : ℤ → ℕ
block_of uid = pos_part (get_block_id uid)

-- `this.onlined[blockId][uid]`
unfoldable pub find : ℤ → SessionList → Option (List Session)
find uid l = lookup uid (l.onlined (block_of uid))

abbrev pub in_block :
    ℤ → (List (ℤ × List Session) → List (ℤ × List Session)) → SessionList → SessionList
in_block uid f l = record l {
  onlined = λ block. if block == block_of uid then f (l.onlined block) else l.onlined block;
}

unfoldable pub store : ℤ → List Session → SessionList → SessionList
store uid list l = in_block uid (insert uid list) l

unfoldable pub drop_id : ℤ → SessionList → SessionList
drop_id uid l = in_block uid (delete uid) l

abbrev pub or_new : Option (List Session) → List Session
or_new none = []
or_new (some list) = list

-- `AddSession`
unfoldable pub add_session : Session → SessionList → SessionList
unfolding find store
add_session s l = store s.uid (s ∷ or_new (find s.uid l)) l

-- `list.Remove(e)`
unfoldable pub remove : ℕ → List Session → List Session
remove number [] = []
remove number (s ∷ list) = if s.number == number then list else s ∷ remove number list

abbrev pub put_back : ℤ → List Session → SessionList → SessionList
put_back uid [] l = drop_id uid l
put_back uid (s ∷ list) l = store uid (s ∷ list) l

abbrev pub remove_found : Session → Option (List Session) → SessionList → SessionList
remove_found s none l = l
remove_found s (some list) l = put_back s.uid (remove s.number list) l

-- `RemoveSession` of a session with a connection.
unfoldable pub remove_session : Session → SessionList → SessionList
unfolding find drop_id store remove
remove_session s l = remove_found s (find s.uid l) (record l { closed = s.number ∷ l.closed })

-- `SessionList.CalcDestIds`. The session is a pointer: its ids are those it has now.
unfoldable pub list_calc_dest_ids : Session → ℤ → SessionList → List ℤ
unfolding find
list_calc_dest_ids s to_id l = elim (find s.uid l) [
  | none ↦ []
  | some list ↦ calc_dest_ids s.uid s.binded_ids to_id
]

abbrev pub rebind : Bool → ℤ → Session → Session
rebind bind id s = record s { binded_ids = update_bindings bind id s.binded_ids }

abbrev pub rebind_found : Bool → ℤ → ℤ → Option (List Session) → SessionList → SessionList
rebind_found bind id uid none l = l
rebind_found bind id uid (some list) l = store uid (map (rebind bind id) list) l

-- The update of every session of an id.
unfoldable pub update_one : Bool → ℤ → ℤ → SessionList → SessionList
unfolding find store
update_one bind id uid l = rebind_found bind id uid (find uid l) l

unfoldable pub update_each : Bool → ℤ → List ℤ → SessionList → SessionList
unfolding update_one
update_each bind id [] l = l
update_each bind id (mid ∷ mids) l = update_each bind id mids (update_one bind id mid l)

abbrev or_nil : Option (List ℕ) → List ℕ
or_nil none = []
or_nil (some bytes) = bytes

-- `Conn.Send` to each session of a list. The sends go out; what is done on an error is not modelled.
unfoldable pub send_each : List ℕ → List Session → SessionList → SessionList
send_each msg [] l = l
send_each msg (s ∷ list) l = send_each msg list (record l { sent = (s.number, msg) ∷ l.sent })

-- `SessionList.PushMsg`
unfoldable pub push_msg : ℤ → List ℕ → SessionList → SessionList
unfolding find send_each
push_msg uid text l = send_each text (or_new (find uid l)) l

-- `Conn.Send` and `Conn.Close` of each session of a list.
unfoldable pub kick_each : List ℕ → List Session → SessionList → SessionList
kick_each msg [] l = l
kick_each msg (s ∷ list) l =
    kick_each msg list (record l { sent = (s.number, msg) ∷ l.sent; closed = s.number ∷ l.closed })

-- The message of `KickOffline` for one phone.
abbrev pub kick_msg : ℕ → ℤ → AppMsg
kick_msg now id =
    let m =
      new_msg now (or_nil (status_marshal (record { kind = mst_kick_off; id = id; payload = [] })))
        none in
    record m {
      frame_header = record (m.frame_header) { opcode = 2; dst_id = id };
      data_header = record (m.data_header) { msg_id = 0x36 };
    }

-- The loop of `KickOffline` over the phones.
unfoldable pub kick_ids : ℕ → List ℤ → SessionList → Run SessionList
unfolding find kick_each
kick_ids now [] l = done l
kick_ids now (id ∷ ids) l = do
  (m, bytes) ← app_marshal_bytes now (kick_msg now id)
  kick_ids now ids (kick_each bytes (or_new (find id l)) l)

-- `KickOffline`
unfoldable pub kick_offline : ℕ → ℤ → SessionList → Run SessionList
unfolding kick_ids
kick_offline now uid l = kick_ids now (trans_id uid) l

-- The message of `PushCommonMsg` for one phone.
abbrev pub phone_msg : ℕ → ℕ → ℤ → List ℕ → AppMsg
phone_msg now msg_id id body =
    let m = new_msg now body none in
    record m {
      frame_header = record (m.frame_header) { opcode = 2; dst_id = id };
      data_header = record (m.data_header) { msg_id = msg_id };
    }

-- The loop of `PushCommonMsg` over the phones.
unfoldable pub push_common_ids : ℕ → ℕ → List ℤ → List ℕ → SessionList → Run SessionList
unfolding find send_each
push_common_ids now msg_id [] body l = done l
push_common_ids now msg_id (id ∷ ids) body l = do
  (m, bytes) ← app_marshal_bytes now (phone_msg now msg_id id body)
  push_common_ids now msg_id ids body (send_each bytes (or_new (find id l)) l)

-- `SessionList.PushCommonMsg`
unfoldable pub push_common_msg : ℕ → ℕ → ℤ → List ℕ → SessionList → Run SessionList
unfolding push_common_ids
push_common_msg now msg_id dst_id body l = push_common_ids now msg_id (trans_id dst_id) body l

-- `NotifyBindedIdChanged` of one kind.
abbrev notify : ℕ → ℕ → ℤ → List ℤ → SessionList → Run SessionList
notify now kind device_id [] l = done l
notify now kind device_id (id ∷ ids) l = do
  (m, bytes) ← app_marshal_bytes now (notice now kind device_id)
  done (record l { pushed = (pos 0, id ∷ ids, bytes) ∷ l.pushed })

abbrev notify_found : ℕ → ℤ → ℤ → Bool → Option (List Session) → SessionList → Run SessionList
notify_found now device_id user_id bind none l = done l
notify_found now device_id user_id true (some list) l =
    notify now mst_binded device_id (trans_id user_id) l
notify_found now device_id user_id false (some list) l =
    notify now mst_unbinded device_id (trans_id user_id) l

-- `SessionList.UpdateIds`: the device in the sessions of the user's phones, the user in those of the device, and
-- the notice to the phones if the device has a session here.
unfoldable pub update_ids : ℕ → ℤ → ℤ → Bool → SessionList → Run SessionList
unfolding find update_each update_one
update_ids now device_id user_id bind l =
    let l' = update_each bind device_id (trans_id user_id) l in
    notify_found now device_id user_id bind (find device_id l')
      (update_one bind user_id device_id l')
