-- ===== src/Forwarding/Delivered.antt =====
-- From one comet to another.
use slot_golang.Base.{
  ℕ, ◌≤◌, ◌≡◌, ◌≢◌, refl, ap, ◌∙◌, true, false, List, [], ◌∷◌, ◌++◌, Option, none, some, length,
  arith, All,
}
use slot_golang.Base.Int64.{ℤ}
use slot_golang.Base.Run.{Run, done, blocks, ◌>>=◌}
use slot_golang.Forwarding.{Post, sent, stream_of, push_all, handle_all, login, serve_client}
use slot_golang.Forwarding.Sent.{IsCarried, log_of, wrote, sent-frames, bus_handles}
use slot_golang.Forwarding.Streams.{received, stream_of-append, comet_receives}
use slot_golang.Hlist.{Hlist}
use slot_golang.MsgBus.Handle.{Bus, Groups, handle_close}
use slot_golang.MsgBus.Push.{up}
use slot_golang.MsgBus.UserMap.{Host}
use slot_golang.Base.Maps.{string_eq, lookup, insert, delete, lookup-insert, lookup-delete}
use slot_golang.MsgBus.Comets.{
  Comets, CometServer, Servers, lock, new_server, add_server, remove_server, remove_udp_server,
  host_name,
}
use slot_golang.Msgs.Inspect.{comet_ws}
use slot_golang.Wire.{bus_init_max, handle_client, reciver}

-- Let a comet send messages with non-negative sources, each to one positive int64 id and of at most 1014
-- bytes. With the mutex of the comets free and every write going out, the bus reads and handles the whole
-- stream without a panic and without waiting, a round of fuel for each message being enough. A comet on
-- whose connection nothing was written before then calls `PushMsg` with exactly the receivers and texts of
-- these messages, in the order in which they were sent, each as often as the comet's connection is among those
-- of the receiver's hosts, and never for another.
pub posts_forwarded :
    (hl : Hlist Host) (il : Hlist ℤ) (choice : ℕ) (order : Groups hl il → Groups hl il)
    (spare spare' : ℕ → List ℕ) (fuel fuel' : ℕ) (ps : List Post) (bus : Bus hl) (conn : ℕ)
    → All IsCarried ps
    → bus.comets.mu ≡ false
    → stream_of conn bus.comets.written ≡ []
    → length ps ≤ fuel
    → length (received hl bus.users bus.comets.servers conn ps) ≤ fuel'
    → (after : Bus hl) × ((sent ps >>= λ stream.
          handle_all hl il up choice order spare 0 (handle_client fuel bus_init_max stream) bus)
        ≡ done after)
      × (push_all spare' 0 (reciver fuel' (stream_of conn after.comets.written))
          ≡ done (received hl bus.users bus.comets.servers conn ps))
unfolding wrote
posts_forwarded hl il choice order spare spare' fuel fuel' ps bus conn h free fresh enough enough' =
    let log = log_of hl bus.users bus.comets.servers ps in
    (
      record bus { comets = wrote hl log bus.comets },
      ap
            (λ r. r >>= λ stream.
              handle_all hl il up choice order spare 0 (handle_client fuel bus_init_max stream) bus)
            (sent-frames ps h)
          ∙ bus_handles hl il choice order spare fuel ps bus h free enough,
      ap (λ s. push_all spare' 0 (reciver fuel' s))
            (stream_of-append conn bus.comets.written log ∙ ap (λ s. s ++ stream_of conn log) fresh)
          ∙ comet_receives hl bus.users bus.comets.servers conn spare' fuel' ps h enough',
    )

-- The list of servers of a host that came and went.
passed : Host → CometServer → Servers → Servers
passed host s servers = delete host (insert host s servers)

lookup-passed_same :
    (host : Host) (s : CometServer) (servers : Servers) → lookup host (passed host s servers) ≡ none
unfolding passed
lookup-passed_same host s servers =
    ground (arith, lookup-delete host host (insert host s servers), string_eq.beq_iff host host)

lookup-passed_other :
    (host other : Host) (s : CometServer) (servers : Servers)
    → other ≢ host
    → lookup other (passed host s servers) ≡ lookup other servers
unfolding passed
lookup-passed_other host other s servers h = ground (
  arith,
  lookup-delete host other (insert host s servers),
  lookup-insert host other s servers,
  string_eq.beq_iff host other,
)

add_server-free :
    (host : Host) (conn : ℕ) (c : Comets)
    → c.mu ≡ false
    → add_server host conn comet_ws c
      ≡ done (record c { servers = insert host (new_server conn comet_ws) c.servers })
unfolding add_server
add_server-free host conn c free =
    ap
      (λ b. lock b >>= λ _.
        done (record c { servers = insert host (new_server conn comet_ws) c.servers }))
      free

-- `RemoveServer` once the server is looked up.
removed : Host → Comets → Option CometServer → Run Comets
removed host c found = elim found [
  | some _ ↦ done (record c { servers = delete host c.servers })
  | none ↦ elim c.mu_udp [ true ↦ blocks | false ↦ remove_udp_server host c ]
]

handle_close-free :
    (host : Host) (s : CometServer) (servers : Servers) (c : Comets)
    → c.mu ≡ false
    → host_name host ≡ host
    → handle_close host (record c { servers = insert host s servers })
      ≡ done (record c { servers = passed host s servers })
unfolding handle_close remove_server removed passed
handle_close-free host s servers c free name =
    let d : Comets = record c { servers = insert host s servers } in
    let there : lookup host (insert host s servers) ≡ some s =
      ground (arith, lookup-insert host host s servers, string_eq.beq_iff host host) in
    ap (λ k. remove_server k d) name
    ∙ ap (λ b. lock b >>= λ _. removed host d (lookup host d.servers)) free
    ∙ ap (removed host d) there

-- The whole connection of a websocket comet whose name is an address (without "Host:"), that logs in, sends
-- messages with non-negative sources, each to one positive int64 id and of at most 1014 bytes, and closes. Nothing
-- else is done to the bus meanwhile, the mutex of the websocket comets is free at first, and every write goes out.
-- `handleClient` comes to its end without a panic, with that mutex free and the mutex of the UDP comets as it was. The
-- host then has no server among the websocket comets, every other host has the server that it had, and the UDP
-- comets, their names, the user map and what was given to rabbitmq are as they were.
pub served :
    (hl : Hlist Host) (il : Hlist ℤ) (choice : ℕ) (order : Groups hl il → Groups hl il)
    (spare : ℕ → List ℕ) (fuel : ℕ) (ps : List Post) (bus : Bus hl) (host : Host) (conn : ℕ)
    → All IsCarried ps
    → bus.comets.mu ≡ false
    → host_name host ≡ host
    → length ps ≤ fuel
    → (after : Bus hl) × ((sent ps >>= λ stream.
          serve_client hl il up choice order spare fuel host conn true (0 ∷ stream) bus)
        ≡ done after)
      × (after.comets.mu ≡ false)
      × (after.comets.mu_udp ≡ bus.comets.mu_udp)
      × (after.comets.servers_udp ≡ bus.comets.servers_udp)
      × (after.comets.udp_comet_names ≡ bus.comets.udp_comet_names)
      × (after.rmq ≡ bus.rmq)
      × (lookup host after.comets.servers ≡ none)
      × ((other : Host)
          → other ≢ host
          → lookup other after.comets.servers ≡ lookup other bus.comets.servers)
      × (after.users ≡ bus.users)
unfolding serve_client login wrote
served hl il choice order spare fuel ps bus host conn h free name enough =
    let s = new_server conn comet_ws in
    let servers = insert host s bus.comets.servers in
    let bus' : Bus hl = record bus { comets = record bus.comets { servers = servers } } in
    let after : Comets = wrote hl (log_of hl bus.users servers ps) bus.comets in
    (
      record bus { comets = record after { servers = passed host s bus.comets.servers } },
      rw
          (
            sent-frames ps h,
            add_server-free host conn bus.comets free,
            bus_handles hl il choice order spare fuel ps bus' h free enough,
            handle_close-free host s bus.comets.servers after free name,
          )
          refl,
      free,
      refl,
      refl,
      refl,
      refl,
      lookup-passed_same host s bus.comets.servers,
      λ other h. lookup-passed_other host other s bus.comets.servers h,
      refl,
    )
