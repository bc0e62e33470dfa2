-- ===== src/Comet/Tests.antt =====
-- The comet at concrete ids and packets.
use slot_golang.Base.{
  ℕ, ◌+◌, ◌%◌, ◌^◌, ◌<◌, ◌≡◌, ◌≢◌, ◌↔◌, refl, true, false, ◌&&◌, not, List, [], ◌∷◌, none, arith,
  length, inr, All, replicate, if◌then◌else◌,
}
use slot_golang.Base.Int64.{ℤ, pos, negsuc, is_zero, rem64, ◌==ℤ◌}
use slot_golang.Base.Run.{done, panics, ◌>>=◌}
use slot_golang.Comet.Ids.{
  get_block_id, trans_id, contains, user_of, is_binded, calc_dest_ids, udp_calc_dest_ids,
  update_bindings,
}
use slot_golang.Comet.Ids.Blocks.{get_block_id_bounds}
use slot_golang.Comet.Ids.Phones.{trans_id_iff, IsUserId}
use slot_golang.Comet.Ids.Routing.{calc_dest_ids_bound}
use slot_golang.Comet.Ids.Broadcast.{broadcast_exact, udp_calc_dest_ids_differs}
use slot_golang.Comet.Ids.Bindings.{count, unbind_count, unbind-bind}
use slot_golang.Comet.Sequence.{
  verify_session, ridx_after, verify_session_next, verify_session_replay,
}
use slot_golang.Msgs.Frame.{AppMsg, new_msg, new_frame_header, app_marshal_bytes}
use slot_golang.Comet.Udp.{check_body, check_packet, accepted, command}
use slot_golang.Comet.Udp.Packets.{check_body_panic, marshalled_is_accepted}

get_block_id_bounds_example : (b : ℕ) × (get_block_id (negsuc 299) ≡ pos b) × (b < 128)
get_block_id_bounds_example = get_block_id_bounds (negsuc 299) (omega arith)

trans_id_phones :
    (length (trans_id (pos 32)) ≡ 15)
    × ((contains (trans_id (pos 32)) (pos 35) ≡ true)
        ↔ ((user_of (pos 35) ≡ pos 32) × (pos 35 ≢ pos 32)))
trans_id_phones = trans_id_iff 32 (pos 35) (omega arith, omega arith, omega arith) (omega arith)

-- A device, and the two users that it is bound to.
abbrev device : ℤ
device = negsuc 9

abbrev users : List ℤ
users = pos 16 ∷ pos 32 ∷ []

users_valid : All IsUserId users
users_valid =
    ((omega arith, omega arith, omega arith), ((omega arith, omega arith, omega arith), tt))

calc_dest_ids_bound_example :
    All (λ d. is_binded device users d ≡ true) (calc_dest_ids device users (pos 32))
calc_dest_ids_bound_example =
    calc_dest_ids_bound device users (pos 32) (inr (refl, users_valid)) (omega arith)

broadcast_exact_example :
    contains (calc_dest_ids device users (pos 0)) (pos 35)
    ≡ is_binded device users (pos 35) && not (is_zero (rem64 (pos 35) 16))
broadcast_exact_example = broadcast_exact device users (pos 35) refl users_valid (omega arith)

udp_calc_dest_ids_differs_example :
    udp_calc_dest_ids users (pos 35)
    ≡ (if is_zero (rem64 (pos 35) 16) then calc_dest_ids device users (pos 35) else [])
udp_calc_dest_ids_differs_example = udp_calc_dest_ids_differs device users (pos 35) refl

one_fewer :
    count (pos 32) (update_bindings false (pos 16) users)
      + (if contains users (pos 16) && (pos 16 ==ℤ pos 32) then 1 else 0)
    ≡ count (pos 32) users
one_fewer = unbind_count (pos 16) (pos 32) users

bound_and_unbound :
    count (pos 32) (update_bindings false (pos 48) (update_bindings true (pos 48) users))
    ≡ count (pos 32) users
bound_and_unbound = unbind-bind (pos 48) (pos 32) users

next_accepted : verify_session 65534 ((65534 + 3) % 2 ^ 16) ≡ ((65534 + 3) % 2 ^ 16, true)
next_accepted = verify_session_next 65534 3 (omega arith) (omega arith) (omega arith)

verify_session_replay_example :
    verify_session (ridx_after (verify_session 6 7).0 (8 ∷ 12 ∷ [])) 7
    ≡ (ridx_after (verify_session 6 7).0 (8 ∷ 12 ∷ []), false)
verify_session_replay_example =
    verify_session_replay 6 7 (8 ∷ 12 ∷ []) (omega arith) (omega arith, (omega arith, tt))
      (unfold verify_session in refl)

check_body_panic_example :
    (check_body (replicate 40 0) 9 ≡ panics) ↔ (length {A = ℕ} (replicate 40 0) < 36 + 9)
check_body_panic_example = check_body_panic (replicate 40 0) 9 (omega arith)

-- What `NewMsg` gives for a body of three bytes, as a command.
abbrev message : AppMsg
message = record (new_msg 1000 (1 ∷ 2 ∷ 3 ∷ []) none) {
  frame_header = record (new_frame_header 1000) { opcode = 2 };
}

marshalled_is_accepted_example :
    (app_marshal_bytes 2000 message >>= λ p. check_packet p.1) ≡ done (accepted command)
marshalled_is_accepted_example =
    marshalled_is_accepted 2000 message (unfold new_msg in refl) refl (omega arith) refl
      (unfold new_msg in omega arith)
