-- ===== src/Msgs/Status.antt =====
-- msgs/body.go: the body of a status message.
use slot_golang.Base.{
  ℕ, ◌+◌, ◌%◌, List, Option, none, some, ltb, if◌then◌else◌, length, set, replicate,
}
use slot_golang.Base.Int64.{ℤ, to_u64}
use slot_golang.Base.Bytes.{put_le, write_at}

abbrev pub mst_binded : ℕ
mst_binded = 7

abbrev pub mst_unbinded : ℕ
mst_unbinded = 8

abbrev pub mst_device_online : ℕ
mst_device_online = 9

abbrev pub mst_device_offline : ℕ
mst_device_offline = 10

abbrev pub mst_kick_off : ℕ
mst_kick_off = 13

pub record MsgStatus : Type 0 where
  pub kind : ℕ
  pub id : ℤ
  pub payload : List ℕ

-- `none` is `ErrPayloadTooLong`. The buffer has 10 + n bytes: `copy` to position 11 drops what does
-- not fit, and no index is out of range.
unfoldable pub status_marshal : MsgStatus → Option (List ℕ)
unfolding write_at
status_marshal m =
    let n = length m.payload in
    let buf = set (replicate (1 + 8 + 1 + n) 0) 0 m.kind in
    let buf = write_at buf 1 (put_le 8 (to_u64 m.id)) in
    let filled = write_at (set buf 10 (n % 256)) 11 m.payload in
    if ltb 255 n then none else if ltb 0 n then some filled else some buf
