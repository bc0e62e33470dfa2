-- ===== src/Forwarding/Reached.antt =====
-- From one comet to the websocket sessions of another.
use slot_golang.Base.{ℕ, ◌≤◌, ◌≡◌, ap, false, List, [], ◌++◌, length, All}
use slot_golang.Base.Int64.{ℤ}
use slot_golang.Base.Run.{done, ◌>>=◌}
use slot_golang.Comet.Sessions.{SessionList}
use slot_golang.Comet.Sessions.Pushed.{push_each, sent_to, texts_for, push_each_in_order}
use slot_golang.Forwarding.{Post, sent, stream_of, push_all, handle_all}
use slot_golang.Forwarding.Sent.{IsCarried}
use slot_golang.Forwarding.Streams.{received}
use slot_golang.Forwarding.Delivered.{posts_forwarded}
use slot_golang.Hlist.{Hlist}
use slot_golang.MsgBus.Handle.{Bus, Groups}
use slot_golang.MsgBus.Push.{up}
use slot_golang.MsgBus.UserMap.{Host}
use slot_golang.Wire.{bus_init_max, handle_client, reciver}

-- Let a comet send messages with non-negative sources, each to one positive int64 id and of at most 1014
-- bytes. With the mutex of the comets free and every write going out, the bus reads and handles the whole
-- stream without a panic and without waiting, a round of fuel for each message being enough. Let another comet,
-- on whose connection nothing was written before, hold any websocket sessions. Its reader handles what it is
-- sent without a panic, and each of its sessions is sent, behind what it was sent before, the texts of
-- these messages in the order in which they were sent: each text as often as the session is in the list
-- of the receiver's id, once for each time that the comet's connection is among those of the receiver's hosts.
-- No session is sent anything else, and the lists of sessions stay as they are.
pub posts_reach_sessions :
    (hl : Hlist Host) (il : Hlist ℤ) (choice : ℕ) (order : Groups hl il → Groups hl il)
    (spare spare' : ℕ → List ℕ) (fuel fuel' : ℕ) (ps : List Post) (bus : Bus hl) (conn : ℕ)
    (l : SessionList)
    → All IsCarried ps
    → bus.comets.mu ≡ false
    → stream_of conn bus.comets.written ≡ []
    → length ps ≤ fuel
    → length (received hl bus.users bus.comets.servers conn ps) ≤ fuel'
    → (after : Bus hl) × (l' : SessionList) × ((sent ps >>= λ stream.
          handle_all hl il up choice order spare 0 (handle_client fuel bus_init_max stream) bus)
        ≡ done after)
      × ((push_all spare' 0 (reciver fuel' (stream_of conn after.comets.written)) >>= λ pushes.
            done (push_each pushes l))
          ≡ done l')
      × (l'.onlined ≡ l.onlined)
      × ((j : ℕ)
          → sent_to j l'.sent
            ≡ sent_to j l.sent ++ texts_for j l (received hl bus.users bus.comets.servers conn ps))
posts_reach_sessions hl il choice order spare spare' fuel fuel' ps bus conn l h free fresh enough
      enough' =
    let pushes = received hl bus.users bus.comets.servers conn ps in
    let (after, handled, read) =
      posts_forwarded hl il choice order spare spare' fuel fuel' ps bus conn h free fresh enough
        enough' in
    let (kept, texts) = push_each_in_order pushes l in
    (
      after,
      push_each pushes l,
      handled,
      ap (λ r. r >>= λ pushes. done (push_each pushes l)) read,
      kept,
      texts,
    )
