-- ===== src/Wire.antt =====
-- The TCP stream between a comet and the bus: msgbus/comet.go `Push` and comet/msgbus.go `Send` write
-- it, msgbus/server.go `handleClient` and comet/msgbus.go `Reciver` read it.
pub mod Delivery
mod Tests
use slot_golang.Base.{
  ℕ, zero, suc, ◌+◌, ◌*◌, ◌%◌, ◌^◌, Bool, true, false, List, [], ◌∷◌, ◌++◌, Option, none, some, ltb,
  if◌then◌else◌, length, take, drop,
}
use slot_golang.Base.Bytes.{put_le, get_le}

-- `binary.Write(uint32(len(msg)))`, then the message.
unfoldable pub frame : List ℕ → List ℕ
frame msg = put_le 4 (length msg % 2 ^ 32) ++ msg

abbrev pub header_size : ℕ
header_size = 4

-- `io.ReadFull` of n bytes: what was read and what is left, or an error when the stream ends before.
unfoldable pub read_full : ℕ → List ℕ → Option (List ℕ × List ℕ)
read_full n stream = if ltb (length stream) n then none else some (take n stream, drop n stream)

-- The limits of the two readers.
abbrev pub comet_payload_max : ℕ
comet_payload_max = 1024

abbrev pub bus_init_max : ℕ
bus_init_max = 1024

abbrev pub bus_payload_max : ℕ
bus_payload_max = 32 * 1024

-- A header and as many bytes as it says. The readers take the bytes also of a payload over the limit,
-- which they throw away (`io.CopyN(ioutil.Discard, …)`), and stop where the stream ends too early.
unfoldable pub read_payload : List ℕ → Option (ℕ × List ℕ × List ℕ)
read_payload stream = elim (read_full header_size stream) [
  | none ↦ none
  | some (header, rest) ↦ elim (read_full (get_le header) rest) [
    | none ↦ none
    | some (payload, rest') ↦ some (get_le header, payload, rest')
  ]
]

-- `Reciver`: the payloads handed to `HandleMsg` until the stream ends. Each round takes the header's
-- four bytes at least.
unfoldable pub reciver : ℕ → List ℕ → List (List ℕ)
reciver zero stream = []
reciver (suc fuel) stream = elim (read_payload stream) [
  | none ↦ []
  | some (size, payload, rest) ↦
      let more = reciver fuel rest in if ltb comet_payload_max size then more else payload ∷ more
]

-- The loop of `handleClient`, with the length of its buffer, which grows to the largest payload so far:
-- the payloads handed to `MainHandle`.
unfoldable pub handle_client : ℕ → ℕ → List ℕ → List (List ℕ)
handle_client zero buf_len stream = []
handle_client (suc fuel) buf_len stream = elim (read_payload stream) [
  | none ↦ []
  | some (size, payload, rest) ↦
      let same = handle_client fuel buf_len rest in
      let grown = handle_client fuel size rest in
      if ltb buf_len size
      then (if ltb bus_payload_max size then same else payload ∷ grown)
      else payload ∷ same
]
