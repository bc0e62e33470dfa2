-- ===== src/Wire/Delivery.antt =====
-- What the readers deliver of a stream that the writers wrote.
use slot_golang.Base.{
  ℕ, zero, suc, ◌*◌, ◌%◌, ◌^◌, ◌≤◌, ◌<◌, ◌≡◌, refl, ap, ◌∙◌, false, List, [], ◌∷◌, ◌++◌, some, ltb,
  if◌then◌else◌, length, arith, All, length-append, take-append_of_length, drop-append_of_length,
}
use slot_golang.Base.Bytes.{put_le, get_le, get_le-put_le, length-put_le}
use slot_golang.Wire.{
  frame, read_full, read_payload, comet_payload_max, bus_init_max, bus_payload_max, reciver,
  handle_client,
}
use mathlib.Core.List.{append_assoc}

-- What a writer sends for a series of messages.
unfoldable pub frames : List (List ℕ) → List ℕ
frames [] = []
frames (m ∷ msgs) = frame m ++ frames msgs

-- The messages within a limit, in order.
unfoldable pub within : ℕ → List (List ℕ) → List (List ℕ)
within limit [] = []
within limit (m ∷ msgs) = if ltb limit (length m) then within limit msgs else m ∷ within limit msgs

read_full-append : (n : ℕ) (xs ys : List ℕ) → length xs ≡ n → read_full n (xs ++ ys) ≡ some (xs, ys)
unfolding read_full
read_full-append n xs ys h =
    rw (enough, take-append_of_length n xs ys h, drop-append_of_length n xs ys h)
  where
    enough : ltb (length (xs ++ ys)) n ≡ false
    enough = ground (arith, length-append xs ys)

header_value : (m : List ℕ) → length m < 2 ^ 32 → get_le (put_le 4 (length m % 2 ^ 32)) ≡ length m
header_value m h = get_le-put_le 4 (length m % 2 ^ 32) (omega arith) ∙ omega arith

read_header :
    (m rest : List ℕ)
    → read_full 4 (frame m ++ rest) ≡ some (put_le 4 (length m % 2 ^ 32), m ++ rest)
unfolding frame
read_header m rest =
    let header = put_le 4 (length m % 2 ^ 32) in
    ap (read_full 4) (append_assoc header m rest)
    ∙ read_full-append 4 header (m ++ rest) (length-put_le 4 (length m % 2 ^ 32))

read_payload-frame :
    (m rest : List ℕ)
    → length m < 2 ^ 32
    → read_payload (frame m ++ rest) ≡ some (length m, m, rest)
unfolding read_payload
read_payload-frame m rest h =
    rw (read_payload, read_header m rest)
      (rw (header_value m h, read_full-append (length m) m rest refl, header_value m h))

-- One round of each reader, on a framed message.
reciver_step :
    (fuel : ℕ) (m rest : List ℕ)
    → length m < 2 ^ 32
    → reciver (suc fuel) (frame m ++ rest)
      ≡ (if ltb 1024 (length m) then reciver fuel rest else m ∷ reciver fuel rest)
unfolding reciver
reciver_step fuel m rest h = rw (reciver, read_payload-frame m rest h)

handle_client_step :
    (fuel buf_len : ℕ) (m rest : List ℕ)
    → length m < 2 ^ 32
    → handle_client (suc fuel) buf_len (frame m ++ rest) ≡ (
        if ltb buf_len (length m)
        then (if ltb (32 * 1024) (length m)
            then handle_client fuel buf_len rest
            else m ∷ handle_client fuel (length m) rest)
        else m ∷ handle_client fuel buf_len rest)
unfolding handle_client
handle_client_step fuel buf_len m rest h = rw (handle_client, read_payload-frame m rest h)

abbrev pub Framed : List (List ℕ) → Type 0
Framed msgs = All (λ m. length m < 2 ^ 32) msgs

-- The comet's reader hands on the messages of up to 1024 bytes that the bus framed, unchanged and in
-- order, and drops the longer ones without losing the frame of what follows; a round of fuel for each
-- message is enough.
pub reciver_delivers :
    (msgs : List (List ℕ)) (fuel : ℕ)
    → Framed msgs
    → length msgs ≤ fuel
    → reciver fuel (frames msgs) ≡ within comet_payload_max msgs
unfolding frames within
reciver_delivers [] zero h enough = unfold reciver in refl
reciver_delivers [] (suc fuel) h enough = unfold reciver read_payload read_full in refl
reciver_delivers (m ∷ msgs) zero h enough = absurd (omega arith)
reciver_delivers (m ∷ msgs) (suc fuel) h enough =
    reciver_step fuel m (frames msgs) h.0 ∙ rw (reciver_delivers msgs fuel h.1 (omega arith))

-- The bus's reader does the same with its limit of 32 kB, however its buffer has grown.
handle_client_delivers :
    (msgs : List (List ℕ)) (fuel buf_len : ℕ)
    → Framed msgs
    → length msgs ≤ fuel
    → buf_len ≤ bus_payload_max
    → handle_client fuel buf_len (frames msgs) ≡ within bus_payload_max msgs
unfolding frames within
handle_client_delivers [] zero buf_len h enough small = unfold handle_client in refl
handle_client_delivers [] (suc fuel) buf_len h enough small =
    unfold handle_client read_payload read_full in refl
handle_client_delivers (m ∷ msgs) zero buf_len h enough small = absurd (omega arith)
handle_client_delivers (m ∷ msgs) (suc fuel) buf_len h enough small =
    handle_client_step fuel buf_len m (frames msgs) h.0
    ∙ ground (
      arith,
      handle_client_delivers msgs fuel buf_len h.1 (omega arith) small,
      handle_client_delivers msgs fuel (length m) h.1 (omega arith),
    )

-- The bus's reader, from its first buffer of 1024 bytes, hands on the messages of up to 32 kB that a comet
-- framed, unchanged and in order, and drops the longer ones; a round of fuel for each message is enough.
pub handle_client_all :
    (msgs : List (List ℕ)) (fuel : ℕ)
    → Framed msgs
    → length msgs ≤ fuel
    → handle_client fuel bus_init_max (frames msgs) ≡ within bus_payload_max msgs
handle_client_all msgs fuel h enough =
    handle_client_delivers msgs fuel bus_init_max h enough (omega arith)
