-- ===== src/Comet/Udp/Common/Published.antt =====
-- comet/redis.go: what the comet publishes of its devices, as the comets read it back.
use slot_golang.Base.{ℕ, ◌≡◌, refl, ap, List, [], ◌∷◌, ◌++◌, some, inl, inr, arith, All, map}
use slot_golang.Base.Int64.{ℤ, IsInt64, to_u64}
use slot_golang.Base.Bytes.{put_le}
use slot_golang.Base.Format.{
  format_int, join, Without, split_n, split_n-append, split-join, parse_int-format_int,
  format_int-Without,
}
use slot_golang.Comet.Udp.Store.{UdpSession}
use slot_golang.Comet.Udp.Users.{parsed_ids, device_message}
use slot_golang.Comet.Udp.Common.{
  key_prefix, parse_common_msg, parse_uint16, trim_prefix, scan_base,
}

parsed_ids-map : (ids : List ℤ) → All IsInt64 ids → parsed_ids (map format_int ids) ≡ ids
unfolding parsed_ids
parsed_ids-map [] h = refl
parsed_ids-map (id ∷ ids) h =
    rw (parse_int-format_int id h.0) (ap (◌∷◌ id) (parsed_ids-map ids h.1))

map-Without : (ids : List ℤ) → All (Without b',') (map format_int ids)
map-Without [] = tt
map-Without (id ∷ ids) = (format_int-Without b',' id (inl (omega arith)), map-Without ids)

All-append_two :
    {A : Type 0} (P : A → Type 0) (xs ys : List A) → All P xs → All P ys → All P (xs ++ ys)
All-append_two P [] ys h k = k
All-append_two P (x ∷ xs) ys h k = (h.0, All-append_two P xs ys h.1 k)

join-Without : (ids : List ℤ) → Without b'|' (join b',' (map format_int ids))
unfolding join
join-Without [] = tt
join-Without (id ∷ []) = format_int-Without b'|' id (inr (omega arith))
join-Without (id ∷ v ∷ ids) =
    All-append_two _ (format_int id) (b',' ∷ join b',' (map format_int (v ∷ ids)))
      (format_int-Without b'|' id (inr (omega arith))) (refl, join-Without (v ∷ ids))

-- For a device that is bound to at least one user, with int64 ids, what the comet publishes when the device goes
-- on or off line under "PubCommonMsg:0x36" is read back by `HandleCommonMsg` as a status message for exactly the
-- bound users, whatever bytes the kind and the device's id take ('|' and ',' included).
pub device_message_read :
    (kind : ℕ) (s : UdpSession) (user : ℤ) (users : List ℤ)
    → s.binded_users ≡ user ∷ users
    → All IsInt64 (user ∷ users)
    → parse_common_msg (key_prefix ++ (b'0' ∷ b'x' ∷ b'3' ∷ b'6' ∷ [])) (device_message kind s)
      ≡ some (0x36, s.binded_users, kind ∷ (put_le 8 (to_u64 s.device_id) ++ (0 ∷ [])))
unfolding parse_common_msg parse_uint16 trim_prefix scan_base split_n join put_le
device_message_read kind s user users e h = rw e (
    rw
      (
        split_n-append b'|' 0 (join b',' (map format_int (user ∷ users)))
            (kind ∷ (put_le 8 (to_u64 s.device_id) ++ (0 ∷ []))) (join-Without (user ∷ users)),
        split-join b',' (format_int user) (map format_int users) (map-Without (user ∷ users)),
        parsed_ids-map (user ∷ users) h,
      )
      refl)
