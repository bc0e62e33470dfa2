-- ===== src/Envelope/RoundTrip.antt =====
-- What is read from an envelope is what was written into it.
use slot_golang.Base.{
  ℕ, suc, ◌+◌, ◌*◌, ◌^◌, ◌<◌, ◌≡◌, refl, sym, ap, ◌∙◌, List, [], ◌∷◌, ◌++◌, some, le→leb, length,
  drop, map, arith, All, length-append, drop-append_of_length,
}
use mathlib.Core.List.{append_assoc}
use slot_golang.Base.Int64.{ℤ, IsInt64, to_u64, to_u64-lt, of_u64-to_u64}
use slot_golang.Base.Bytes.{put_le, uint_at, uint_at-put_le, length-put_le}
use slot_golang.Base.Run.{done, ◌>>=◌}
use slot_golang.Envelope.{wrap16, push2bus_data, read_ids, main_handle_head, down_data, handle_msg}
use slot_golang.Envelope.Written.{
  ids_bytes, up_bytes, down_bytes, length-ids_bytes, push2bus_data-layout, down_data-layout,
}

read_ids-bytes :
    (ids : List ℤ) (i : ℕ) (xs zs : List ℕ)
    → All IsInt64 ids
    → (i + length ids) * 8 < 2 ^ 16
    → length xs ≡ i * 8
    → read_ids (length ids) i (xs ++ (ids_bytes ids ++ zs)) ≡ done ids
unfolding read_ids ids_bytes
read_ids-bytes [] i xs zs all small h = refl
read_ids-bytes (id ∷ ids) i xs zs all small h =
    let here : wrap16 (i * 8) ≡ i * 8 = omega arith in
    let next : wrap16 (i * 8 + 8) ≡ i * 8 + 8 = omega arith in
    let value : uint_at (xs ++ (put_le 8 (to_u64 id) ++ (ids_bytes ids ++ zs))) (i * 8) 8
        ≡ some (to_u64 id) =
      uint_at-put_le xs (ids_bytes ids ++ zs) (i * 8) 8 (to_u64 id) h (to_u64-lt id) in
    let more : read_ids (length ids) (suc i) (xs ++ (put_le 8 (to_u64 id) ++ (ids_bytes ids ++ zs)))
        ≡ done ids =
      ap (read_ids (length ids) (suc i))
        (sym (append_assoc xs (put_le 8 (to_u64 id)) (ids_bytes ids ++ zs)))
      ∙ read_ids-bytes ids (suc i) (xs ++ put_le 8 (to_u64 id)) zs all.1 (omega arith)
          (omega (arith, length-append xs (put_le 8 (to_u64 id)), length-put_le 8 (to_u64 id))) in
    rw
      (
        here,
        next,
        le→leb (i * 8 + 8) (i * 8 + 8) (omega arith),
        append_assoc (put_le 8 (to_u64 id)) (ids_bytes ids) zs,
      )
      (rw (value, more) (ap (λ v. done (v ∷ ids)) (of_u64-to_u64 id all.0)))

up_bytes-source :
    (src_id : ℤ) (ids : List ℤ) (msg : List ℕ)
    → uint_at (up_bytes src_id ids msg) 0 8 ≡ some (to_u64 src_id)
unfolding up_bytes put_le
up_bytes-source src_id ids msg = uint_at-put_le [] _ 0 8 (to_u64 src_id) refl (to_u64-lt src_id)

pub drop-up_bytes :
    (src_id : ℤ) (ids : List ℤ) (msg : List ℕ)
    → drop 8 (up_bytes src_id ids msg) ≡ down_bytes ids msg
unfolding up_bytes down_bytes put_le
drop-up_bytes src_id ids msg = refl

module _ (ids : List ℤ) (msg : List ℕ) (h : 10 + length ids * 8 + length msg < 2 ^ 16) where
  down_bytes-size : uint_at (down_bytes ids msg) 0 2 ≡ some (length ids)
  unfolding down_bytes
  down_bytes-size = uint_at-put_le [] (ids_bytes ids ++ msg) 0 2 (length ids) refl (omega arith)

  length-down_bytes : length (down_bytes ids msg) ≡ 2 + length ids * 8 + length msg
  unfolding down_bytes put_le
  length-down_bytes = omega (arith, length-append (ids_bytes ids) msg, length-ids_bytes ids)

  drop-down_bytes : drop 2 (down_bytes ids msg) ≡ ids_bytes ids ++ msg
  unfolding down_bytes put_le
  drop-down_bytes = refl

  down_bytes-data : drop (2 + length ids * 8) (down_bytes ids msg) ≡ msg
  unfolding down_bytes put_le
  down_bytes-data =
      drop-append_of_length (2 + length ids * 8) (put_le 2 (length ids) ++ ids_bytes ids) msg
        (omega (arith, length-ids_bytes ids))

  read_ids-spare :
      (spare : List ℕ)
      → All IsInt64 ids
      → read_ids (length ids) 0 ((ids_bytes ids ++ msg) ++ spare) ≡ done ids
  read_ids-spare spare all =
      ap (read_ids (length ids) 0) (append_assoc (ids_bytes ids) msg spare)
      ∙ read_ids-bytes ids 0 [] (msg ++ spare) all (omega arith) refl

pub head_of_up :
    (spare : List ℕ) (src_id : ℤ) (ids : List ℤ) (msg : List ℕ)
    → IsInt64 src_id
    → All IsInt64 ids
    → 10 + length ids * 8 + length msg < 2 ^ 16
    → main_handle_head spare (up_bytes src_id ids msg) ≡ done (src_id, ids, msg)
unfolding main_handle_head
head_of_up spare src_id ids msg hs hi h =
    let stop : wrap16 (2 + length ids * 8) ≡ 2 + length ids * 8 = omega arith in
    rw (up_bytes-source src_id ids msg, drop-up_bytes src_id ids msg, down_bytes-size ids msg h)
      (rw
        (
          stop,
          le→leb 2 (2 + length ids * 8) (omega arith),
          le→leb (2 + length ids * 8) (length (down_bytes ids msg))
              (omega (arith, length-down_bytes ids msg h)),
          drop-down_bytes ids msg h,
          down_bytes-data ids msg h,
          read_ids-spare ids msg h spare hi,
          of_u64-to_u64 src_id hs,
        )
        refl)

-- Of an envelope that `Push2Bus` wrote for int64 ids, shorter than 2 ^ 16 (which the uint16 sizes need), the
-- head of `MainHandle` reads the source, all the ids in order, and the message, whatever its buffer holds
-- behind the envelope. Neither of them panics.
pub push2bus-main_handle :
    (spare : List ℕ) (src_id : ℤ) (ids : List ℤ) (msg : List ℕ)
    → IsInt64 src_id
    → All IsInt64 ids
    → 10 + length ids * 8 + length msg < 2 ^ 16
    → (push2bus_data src_id ids msg >>= main_handle_head spare) ≡ done (src_id, ids, msg)
push2bus-main_handle spare src_id ids msg hs hi h =
    rw (push2bus_data-layout src_id ids msg h) (head_of_up spare src_id ids msg hs hi h)

-- For an envelope that `MainHandle` wrote for int64 ids, `HandleMsg` calls `PushMsg` once for each id, in
-- order, with the data, as long as 10 bytes, the ids and the data together are shorter than 2 ^ 16. Neither of
-- them panics.
pub down-handle_msg :
    (spare : List ℕ) (ids : List ℤ) (data_bytes : List ℕ)
    → All IsInt64 ids
    → 10 + length ids * 8 + length data_bytes < 2 ^ 16
    → (down_data ids data_bytes >>= handle_msg spare) ≡ done (map (λ id. (id, data_bytes)) ids)
unfolding handle_msg
down-handle_msg spare ids data_bytes hi h =
    let start : wrap16 (length ids * 8) ≡ length ids * 8 = omega arith in
    rw (down_data-layout ids data_bytes h, down_bytes-size ids data_bytes h)
      (rw
        (
          drop-down_bytes ids data_bytes h,
          start,
          le→leb (length ids * 8) (length (ids_bytes ids ++ data_bytes))
              (omega (arith, length-append (ids_bytes ids) data_bytes, length-ids_bytes ids)),
          read_ids-spare ids data_bytes h spare hi,
          drop-append_of_length (length ids * 8) (ids_bytes ids) data_bytes (length-ids_bytes ids),
        )
        refl)
