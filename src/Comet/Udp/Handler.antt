-- ===== src/Comet/Udp/Handler.antt =====
-- comet/udp_handler.go: `Handler.handle`, one packet from a device, from its checks to the reply.
pub mod Steps
pub mod Locks
pub mod Again
pub mod Replies
pub mod Forwards
pub mod Returns
use Prim.Native.Nat.{bit_and, bit_or}
use slot_golang.Base.{
  ℕ, zero, suc, ◌+◌, ◌-◌, ◌%◌, ◌^◌, Bool, true, false, not, ◌&&◌, ◌||◌, List, [], ◌∷◌, ◌++◌, Option,
  none, some, if◌then◌else◌, length, ltb, ◌==◌, get_elem?, set, take, drop,
}
use slot_golang.Base.Int64.{ℤ, pos, of_u64}
use slot_golang.Base.Bytes.{put_le, slice, uint_at, write_at}
use slot_golang.Base.Run.{Run, done, panics, checked, ◌>>=◌}
use slot_golang.Msgs.Checksum.{checksum_header}
use slot_golang.Comet.Ids.{udp_calc_dest_ids}
use slot_golang.Comet.Sequence.{verify_session}
use slot_golang.Comet.Udp.{
  Verdict, Accepted, Reject, refused, accepted, command, forward, check_packet,
}
use slot_golang.Comet.Udp.Store.{
  Key, Addr, UdpSession, World, Env, acquire, release, get_session, save_session, send, push2bus,
}
use slot_golang.Comet.Udp.Commands.{
  Answer, on_get_token, on_register, on_login, on_rename, on_hear_beat, on_sub_device_offline,
}

-- The answer in front of which the head of the packet stands, with the flags, the length and the checksums.
abbrev pub or_empty : Option (List ℕ) → List ℕ
or_empty none = []
or_empty (some res) = res

unfoldable pub reply : List ℕ → List ℕ → Run (List ℕ)
unfolding write_at
reply msg res = do
  let output = take 36 msg ++ res
  flags ← checked (get_elem? output 24)
  let output = set output 24 (bit_or flags 0xC0)
  let output = write_at output 30 (put_le 2 (length res % 2 ^ 16))
  head_sum ← checked (checksum_header output 32)
  let output = set output 32 head_sum
  body_sum ← checked (checksum_header (drop 34 output) (2 + length res))
  done (set output 33 body_sum)

-- `copy(res[4:20], sid[:])`: an answer of fewer than 20 bytes, nil among them, panics.
abbrev pub with_sid : List ℕ → List ℕ → Run (List ℕ)
with_sid sid res = do _ ← checked (slice res 4 20); done (write_at res 4 (take 16 sid))

-- What the switch knows; the other commands have no case.
pub data Command : Type 0 where
  register login rename heart_beat sub_device_offline : Command

abbrev pub command_of : ℕ → Option Command
command_of c =
    if c == 0xE1
    then some register
    else if c == 0xE2
    then some login
    else if c == 0xE3
    then some rename
    else if c == 0xE5
    then some heart_beat
    else if c == 0xE6
    then some sub_device_offline
    else none

unfoldable pub run_command : Env → Addr → Command → List ℕ → UdpSession → World → Run Answer
unfolding on_register on_login on_rename on_hear_beat
run_command env peer register body s w = on_register env s body w
run_command env peer login body s w = on_login env s body w
run_command env peer rename body s w = on_rename env s body w
run_command env peer heart_beat body s w = done (on_hear_beat env peer s w)
run_command env peer sub_device_offline body s w = done (on_sub_device_offline s w)

module _ (env : Env) (peer : Addr) (msg : List ℕ) where
  -- The reply, with the id of the session in the answer.
  abbrev pub answer : List ℕ → Option (List ℕ) → World → Run World
  answer sid res w = do
    res' ← with_sid sid (or_empty res)
    output ← reply msg res'
    done (send peer output w)

  -- The session is saved, whatever its command answers, and the locker given back.
  abbrev pub finish : List ℕ → Answer → Run World
  finish sid (res, s, w) =
      let key = env.uuid_string sid in answer sid res (release key (save_session env key s w).0)

  abbrev pub dispatch : List ℕ → Option Command → List ℕ → UdpSession → World → Run World
  dispatch sid none body s w = done (release (env.uuid_string sid) w)
  dispatch sid (some c) body s w = do a ← run_command env peer c body s w; finish sid a

  abbrev pub verified : List ℕ → ℕ → List ℕ → UdpSession → ℕ × Bool → World → Run World
  verified sid c body s (ridx, false) w = done (release (env.uuid_string sid) w)
  verified sid c body s (ridx, true) w =
      dispatch sid (command_of c) body (record s { ridx = ridx }) w

  abbrev pub found : List ℕ → ℕ → ℕ → List ℕ → Option UdpSession → World → Run World
  found sid c pack_num body none w = done (release (env.uuid_string sid) w)
  found sid c pack_num body (some s) w = verified sid c body s (verify_session s.ridx pack_num) w

  abbrev pub with_locker : List ℕ → ℕ → ℕ → List ℕ → Option World → World → Run World
  with_locker sid c pack_num body none w = done w
  with_locker sid c pack_num body (some w') w =
      found sid c pack_num body (get_session env (env.uuid_string sid) w') w'

  abbrev pub parsed : Option (List ℕ) → ℕ → ℕ → List ℕ → World → Run World
  parsed none c pack_num body w = done w
  parsed (some sid) c pack_num body w =
      with_locker sid c pack_num body (acquire env (env.uuid_string sid) w) w

  -- A command of a session.
  unfoldable pub session_command : ℕ → ℕ → List ℕ → World → Run World
  unfolding run_command
  session_command c pack_num body w = do
    sid ← checked (slice msg 36 52)
    parsed (env.parse_uuid sid) c pack_num body w

  abbrev pub token_answer : Option (List ℕ) × World → Run World
  token_answer (res, w) = do output ← reply msg (or_empty res); done (send peer output w)

  -- A packet with opcode 2 that passed the checks.
  unfoldable pub handle_command : World → Run World
  unfolding session_command on_get_token
  handle_command w = do
    pack_num ← checked (uint_at msg 2 2)
    c ← checked (uint_at msg 28 2)
    let body = drop 36 msg
    if (c == 0x30) || (c == 0x31)
        then done (push2bus (pos 0) [] msg w)
        else (if c == 0xE0
            then (on_get_token env peer body w >>= token_answer)
            else session_command c pack_num body w)

  -- `Ridx` of the session is not saved.
  abbrev pub forward_verified : List ℕ → ℤ → ℤ → UdpSession → ℕ × Bool → World → World
  forward_verified sid to_id src_id s (ridx, false) w = release (env.uuid_string sid) w
  forward_verified sid to_id src_id s (ridx, true) w =
      push2bus src_id (udp_calc_dest_ids s.binded_users to_id) msg (release (env.uuid_string sid) w)

  abbrev pub forward_found : List ℕ → ℤ → ℤ → ℕ → Option UdpSession → World → World
  forward_found sid to_id src_id pack_num none w = release (env.uuid_string sid) w
  forward_found sid to_id src_id pack_num (some s) w =
      forward_verified sid to_id src_id s (verify_session s.ridx pack_num) w

  abbrev pub forward_locked : List ℕ → ℤ → ℤ → ℕ → Option World → World → World
  forward_locked sid to_id src_id pack_num none w = w
  forward_locked sid to_id src_id pack_num (some w') w =
      forward_found sid to_id src_id pack_num (get_session env (env.uuid_string sid) w') w'

  abbrev pub forward_parsed : Option (List ℕ) → ℤ → ℤ → ℕ → World → World
  forward_parsed none to_id src_id pack_num w = w
  forward_parsed (some sid) to_id src_id pack_num w =
      forward_locked sid to_id src_id pack_num (acquire env (env.uuid_string sid) w) w

  -- A packet with opcode 3.
  unfoldable pub handle_forward : World → Run World
  handle_forward w = do
    pack_num ← checked (uint_at msg 2 2)
    sid ← checked (slice msg 24 40)
    to_id ← checked (uint_at msg 8 8)
    src_id ← checked (uint_at msg 16 8)
    done (forward_parsed (env.parse_uuid sid) (of_u64 to_id) (of_u64 src_id) pack_num w)

  abbrev pub by_verdict : Verdict → World → Run World
  by_verdict (refused reason) w = done w
  by_verdict (accepted command) w = handle_command w
  by_verdict (accepted forward) w = handle_forward w

  unfoldable pub handle : World → Run World
  unfolding check_packet handle_command handle_forward
  handle w = do verdict ← check_packet msg; by_verdict verdict w
