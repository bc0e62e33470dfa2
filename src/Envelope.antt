-- ===== src/Envelope.antt =====
-- The envelope of a message between the processes: comet/msgbus_man.go `Push2Bus` writes it and the head of
-- msgbus/handler.go `MainHandle` reads it; `MainHandle` writes the one for a comet, and comet/client.go
-- `HandleMsg` reads it. The sizes are computed in uint16, with its wrap-around.
pub mod Buffers
pub mod Written
pub mod RoundTrip
mod Tests
use slot_golang.Base.{
  ℕ, zero, suc, ◌+◌, ◌-◌, ◌*◌, ◌%◌, ◌^◌, List, [], ◌∷◌, ◌++◌, leb, ◌&&◌, length, take, drop,
  replicate, map,
}
use slot_golang.Base.Int64.{ℤ, to_u64, of_u64}
use slot_golang.Base.Bytes.{put_le, slice, uint_at, write_at}
use slot_golang.Base.Run.{Run, done, checked, in_bounds, ◌>>=◌}

-- The wrap-around of uint16.
abbrev pub wrap16 : ℕ → ℕ
wrap16 n = n % 2 ^ 16

-- `PutUint64(buf[base+i*8:base+i*8+8], uint64(id))` for each id in turn; `wrap` is the arithmetic of i.
unfoldable pub write_ids : (ℕ → ℕ) → ℕ → List ℤ → ℕ → List ℕ → Run (List ℕ)
write_ids wrap base [] i buf = done buf
write_ids wrap base (id ∷ ids) i buf = do
  _ ←
      in_bounds
        (leb (wrap (i * 8) + 8) (wrap (i * 8 + 8)) && leb (base + wrap (i * 8 + 8)) (length buf))
  write_ids wrap base ids (suc i) (write_at buf (base + wrap (i * 8)) (put_le 8 (to_u64 id)))

-- The bytes that `Push2Bus` sends.
unfoldable pub push2bus_data : ℤ → List ℤ → List ℕ → Run (List ℕ)
unfolding write_ids
push2bus_data src_id ids msg = do
  let size = wrap16 (length ids)
  let buf = replicate (wrap16 (8 + 2 + size * 8 + wrap16 (length msg))) 0
  let start = wrap16 (8 + 2 + size * 8)
  _ ← in_bounds (leb (8 + 2) (length buf))
  let buf = write_at buf 0 (put_le 8 (to_u64 src_id))
  let buf = write_at buf 8 (put_le 2 size)
  _ ← in_bounds (leb (8 + 2) start && leb start (length buf))
  buf ← write_ids wrap16 (8 + 2) (take size ids) 0 buf
  done (write_at buf start msg)

-- The ids in a slice, each read from `toIds[i*8:i*8+8]`.
unfoldable pub read_ids : ℕ → ℕ → List ℕ → Run (List ℤ)
read_ids zero i to_ids = done []
read_ids (suc n) i to_ids = do
  _ ← in_bounds (leb (wrap16 (i * 8) + 8) (wrap16 (i * 8 + 8)))
  id ← checked (uint_at to_ids (wrap16 (i * 8)) 8)
  ids ← read_ids n (suc i) to_ids
  done (of_u64 id ∷ ids)

-- The head of `MainHandle`: the source, the ids and the data. `spare` is what the reader's buffer holds
-- behind the message, which a slice of a slice can reach.
unfoldable pub main_handle_head : List ℕ → List ℕ → Run (ℤ × List ℤ × List ℕ)
unfolding read_ids
main_handle_head spare src_msg = do
  src_id ← checked (uint_at src_msg 0 8)
  let msg = drop 8 src_msg
  ids_size ← checked (uint_at msg 0 2)
  let stop = wrap16 (2 + ids_size * 8)
  _ ← in_bounds (leb 2 stop && leb stop (length msg))
  ids ← read_ids ids_size 0 (drop 2 msg ++ spare)
  done (of_u64 src_id, ids, drop stop msg)

-- The bytes that `MainHandle` sends to a comet, for the ids in the order of their list.
unfoldable pub down_data : List ℤ → List ℕ → Run (List ℕ)
unfolding write_ids
down_data ids data_bytes = do
  let size = wrap16 (length ids)
  let buf = replicate (wrap16 (2 + size * 8 + wrap16 (length data_bytes))) 0
  let start = wrap16 (2 + size * 8)
  _ ← in_bounds (leb 2 (length buf))
  buf ← write_ids (λ n. n) 2 ids 0 (write_at buf 0 (put_le 2 size))
  _ ← in_bounds (leb start (length buf))
  done (write_at buf start data_bytes)

-- `HandleMsg`: the calls of `PushMsg`, each with an id and the data.
unfoldable pub handle_msg : List ℕ → List ℕ → Run (List (ℤ × List ℕ))
unfolding read_ids
handle_msg spare msg = do
  size ← checked (uint_at msg 0 2)
  let rest = drop 2 msg
  let start = wrap16 (size * 8)
  _ ← in_bounds (leb start (length rest))
  ids ← read_ids size 0 (rest ++ spare)
  done (map (λ id. (id, drop start rest)) ids)
