-- ===== src/Comet/Sequence.antt =====
-- comet/udp_session.go: the check of the sequence number of a device's packet.
use slot_golang.Base.{
  ℕ, ◌+◌, ◌%◌, ◌^◌, ◌<◌, ◌≤◌, ◌≡◌, Bool, true, false, ◌&&◌, ◌||◌, List, [], ◌∷◌, arith, ltb, All,
  if◌then◌else◌,
}

-- The two cases of the switch that do not return an error.
unfoldable pub in_sequence : ℕ → ℕ → Bool
in_sequence ridx pack_num =
    ltb ridx pack_num || ((ltb pack_num ridx && ltb pack_num 10) && ltb 65530 ridx)

-- `UdpSession.VerifySession` on the field Ridx: the new value, and whether the packet is accepted.
unfoldable pub verify_session : ℕ → ℕ → ℕ × Bool
unfolding in_sequence
verify_session ridx pack_num = if in_sequence ridx pack_num then (pack_num, true) else (ridx, false)

-- The field after a series of packets.
unfoldable pub ridx_after : ℕ → List ℕ → ℕ
unfolding verify_session
ridx_after ridx [] = ridx
ridx_after ridx (p ∷ packets) = ridx_after (verify_session ridx p).0 packets

-- A device whose next packet is numbered one to five further on (so up to four packets in a row were
-- lost), modulo 2^16, is accepted from every state, the wrap-around included.
pub verify_session_next :
    (ridx step : ℕ)
    → ridx < 2 ^ 16
    → 1 ≤ step
    → step ≤ 5
    → verify_session ridx ((ridx + step) % 2 ^ 16) ≡ ((ridx + step) % 2 ^ 16, true)
unfolding verify_session
verify_session_next ridx step h lo hi = ground arith

ridx_after_mono :
    (ridx : ℕ) (packets : List ℕ)
    → ridx ≤ 65530
    → All (λ p. p ≤ 65530) packets
    → (ridx ≤ ridx_after ridx packets) × (ridx_after ridx packets ≤ 65530)
unfolding ridx_after
ridx_after_mono ridx [] h all = omega arith
ridx_after_mono ridx (p ∷ packets) h (hp, all) =
    ground (arith, ridx_after_mono p packets hp all, ridx_after_mono ridx packets h all)

-- Once a packet is accepted, a copy of it is refused and changes nothing, whatever packets came in
-- between, as long as the numbers stay at most 65530 (before the wrap-around window opens).
pub verify_session_replay :
    (ridx p : ℕ) (packets : List ℕ)
    → p ≤ 65530
    → All (λ q. q ≤ 65530) packets
    → (verify_session ridx p).1 ≡ true
    → verify_session (ridx_after (verify_session ridx p).0 packets) p
      ≡ (ridx_after (verify_session ridx p).0 packets, false)
unfolding verify_session
verify_session_replay ridx p packets hp all ok = ground (arith, ridx_after_mono p packets hp all)
