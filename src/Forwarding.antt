-- ===== src/Forwarding.antt =====
-- A message on its way from one comet over the bus to another: the comet's envelopes in its stream to the bus
-- (comet/msgbus_man.go `Push2Bus`, comet/msgbus.go `Send`), the loop of msgbus/server.go `handleClient` with
-- its calls of `MainHandle`, and the calls of `HandleMsg` by comet/msgbus.go `Reciver`.
pub mod Sent
pub mod Streams
pub mod Delivered
pub mod Reached
mod Tests
use slot_golang.Base.{
  ℕ, zero, suc, Bool, true, false, List, [], ◌∷◌, ◌++◌, Option, none, some, if◌then◌else◌, ◌==◌,
}
use slot_golang.Base.Int64.{ℤ}
use slot_golang.Base.Run.{Run, done, ◌>>=◌}
use slot_golang.Envelope.{push2bus_data, handle_msg}
use slot_golang.Hlist.{Hlist}
use slot_golang.MsgBus.Comets.{Comets, add_server}
use slot_golang.MsgBus.Handle.{Bus, Groups, main_handle, handle_close}
use slot_golang.MsgBus.UserMap.{Host}
use slot_golang.Msgs.Inspect.{CometType, comet_ws, comet_udp}
use slot_golang.Wire.{frame, bus_init_max, handle_client}

-- A call of `Push2Bus` for one receiver.
pub record Post : Type 0 where
  pub src_id : ℤ
  pub uid : ℤ
  pub text : List ℕ

-- What such calls put on the stream to the bus.
unfoldable pub sent : List Post → Run (List ℕ)
sent [] = done []
sent (p ∷ ps) = do
  data_bytes ← push2bus_data p.src_id (p.uid ∷ []) p.text
  rest ← sent ps
  done (frame data_bytes ++ rest)

-- The bytes of a log of writes that go to one connection.
unfoldable pub stream_of : ℕ → List (ℕ × List ℕ) → List ℕ
stream_of conn [] = []
stream_of conn ((c, bytes) ∷ log) =
    if c == conn then bytes ++ stream_of conn log else stream_of conn log

-- `HandleMsg` of each message of `Reciver`; `spare i` is what its buffer holds behind the i-th one.
unfoldable pub push_all : (ℕ → List ℕ) → ℕ → List (List ℕ) → Run (List (ℤ × List ℕ))
push_all spare i [] = done []
push_all spare i (msg ∷ msgs) = do
  pushed ← handle_msg (spare i) msg
  rest ← push_all spare (suc i) msgs
  done (pushed ++ rest)

-- The byte with which a comet says what it is, which `login` sends back; `acked` says whether that write goes
-- out. An error closes the connection.
unfoldable pub login : Bool → List ℕ → Option (CometType × List ℕ)
login acked [] = none
login acked (b ∷ stream) =
    let kind =
      if b == 0
      then some (comet_ws, stream)
      else if b == 1
      then some (comet_udp, stream)
      else none in
    if acked then kind else none

module _ (hl : Hlist Host) (il : Hlist ℤ) (works : List (ℕ × List ℕ) → ℕ → List ℕ → Bool)
    (choice : ℕ) (order : Groups hl il → Groups hl il) where
  -- `MainHandle` of each message that the loop of `handleClient` read.
  unfoldable pub handle_all : (ℕ → List ℕ) → ℕ → List (List ℕ) → Bus hl → Run (Bus hl)
  handle_all spare i [] bus = done bus
  handle_all spare i (msg ∷ msgs) bus = do
    bus' ← main_handle hl il works choice order (spare i) msg bus
    handle_all spare (suc i) msgs bus'

  -- `handleClient` of a comet at `host` whose connection has the number conn.
  unfoldable pub serve_client : (ℕ → List ℕ) → ℕ → Host → ℕ → Bool → List ℕ → Bus hl → Run (Bus hl)
  serve_client spare fuel host conn acked stream bus = elim (login acked stream) [
    | none ↦ done bus
    | some (kind, rest) ↦ do
      c ← add_server host conn kind bus.comets
      bus' ← handle_all spare 0 (handle_client fuel bus_init_max rest) (record bus { comets = c })
      c' ← handle_close host bus'.comets
      done (record bus' { comets = c' })
  ]
