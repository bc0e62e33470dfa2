-- ===== src/Forwarding/Tests.antt =====
-- Messages on their way at concrete users and comets.
use slot_golang.Base.{
  ℕ, ◌≡◌, ◌≢◌, refl, ap, true, false, All, List, [], ◌∷◌, ◌++◌, arith, length, none, some,
}
use slot_golang.Base.Int64.{ℤ, pos, rem64}
use slot_golang.Base.Run.{done, ◌>>=◌}
use slot_golang.Forwarding.{Post, sent, stream_of, push_all, handle_all, login, serve_client}
use slot_golang.Forwarding.Streams.{received, times}
use slot_golang.Forwarding.Sent.{IsCarried, conns_found}
use slot_golang.Base.Maps.{string_eq, lookup, insert, bytes_eq}
use slot_golang.Comet.Ids.{get_block_id}
use slot_golang.Forwarding.Delivered.{posts_forwarded, served}
use slot_golang.Comet.Sessions.{SessionList, init_session_list, add_session}
use slot_golang.Comet.Sessions.Pushed.{push_each, sent_to, texts_for}
use slot_golang.Forwarding.Reached.{posts_reach_sessions}
use slot_golang.Hlist.{Hlist}
use slot_golang.Hlist.Lists.{list_hlist}
use slot_golang.MsgBus.Comets.{new_comets, new_server, host_name}
use slot_golang.MsgBus.Handle.{Bus}
use slot_golang.MsgBus.Push.{up, conns_of}
use slot_golang.MsgBus.UserMap.{Host, UserMap, init_user_map, online, store}
use slot_golang.MsgBus.UserMap.Presence.{on, run, handle}
use slot_golang.Msgs.Inspect.{comet_ws}
use slot_golang.Wire.{bus_init_max, handle_client, reciver}

abbrev plain : Hlist Host
plain = list_hlist Host true

abbrev plain_ids : Hlist ℤ
plain_ids = list_hlist ℤ true

-- The user 16 is on the comets a and b, the user 32 on b only; a has the connection 1 and b the connection 2.
abbrev two_users : UserMap plain
two_users =
    run plain (on (pos 16) (b'a' ∷ []) ∷ on (pos 16) (b'b' ∷ []) ∷ on (pos 32) (b'b' ∷ []) ∷ [])
      (init_user_map plain)

abbrev two_comets : Bus plain
two_comets = record {
  users = two_users;
  comets = record new_comets {
    servers = ((b'a' ∷ []), new_server 1 comet_ws) ∷ ((b'b' ∷ []), new_server 2 comet_ws) ∷ [];
  };
  rmq = [];
}

-- To the users 16, 32, 48, of whom the last is unknown, and to 16 again.
abbrev posts : List Post
posts =
    record { src_id = pos 5; uid = pos 16; text = 1 ∷ [] }
    ∷ record { src_id = pos 0; uid = pos 32; text = 2 ∷ 3 ∷ [] }
    ∷ record { src_id = pos 5; uid = pos 48; text = [] }
    ∷ record { src_id = pos 5; uid = pos 16; text = 4 ∷ [] }
    ∷ []

-- The comet a receives the first and the last of them.
received_by_a :
    received plain two_users two_comets.comets.servers 1 posts
    ≡ (pos 16, 1 ∷ []) ∷ (pos 16, 4 ∷ []) ∷ []
unfolding received times conns_found lookup run handle online store get_block_id rem64 insert
    conns_of bytes_eq
received_by_a = refl

carried : All IsCarried posts
carried = (
  (refl, omega arith, refl, omega arith, omega arith),
  (
    (refl, omega arith, refl, omega arith, omega arith),
    (
      (refl, omega arith, refl, omega arith, omega arith),
      ((refl, omega arith, refl, omega arith, omega arith), tt),
    ),
  ),
)

handed_on_by_a :
    (after : Bus plain) × ((sent posts >>= λ stream.
    handle_all plain plain_ids up 0
      (λ m. m)
      (λ i. [])
      0
      (handle_client 4 bus_init_max stream)
      two_comets)
      ≡ done after)
    × (push_all (λ i. []) 0 (reciver 4 (stream_of 1 after.comets.written))
        ≡ done (received plain two_users two_comets.comets.servers 1 posts))
handed_on_by_a =
    posts_forwarded plain plain_ids 0 (λ m. m) (λ i. []) (λ i. []) 4 4 posts two_comets 1 carried
      refl (unfold stream_of in refl) (omega arith)
      (omega (arith, ap (λ (l : List (ℤ × List ℕ)). length l) received_by_a))

login_ws : login true (0 ∷ 7 ∷ []) ≡ some (comet_ws, 7 ∷ [])
unfolding login
login_ws = refl

login_wrong : login true (2 ∷ 7 ∷ []) ≡ none
unfolding login
login_wrong = refl

served_example :
    (after : Bus plain) × ((sent posts >>= λ stream.
    serve_client plain plain_ids up 0
      (λ m. m)
      (λ i. [])
      4
      (b'c' ∷ [])
      3
      true
      (0 ∷ stream)
      two_comets)
      ≡ done after)
    × (after.comets.mu ≡ false)
    × (after.comets.mu_udp ≡ false)
    × (after.comets.servers_udp ≡ [])
    × (after.comets.udp_comet_names ≡ [])
    × (after.rmq ≡ [])
    × (lookup (b'c' ∷ []) after.comets.servers ≡ none)
    × ((other : Host)
        → other ≢ (b'c' ∷ [])
        → lookup other after.comets.servers ≡ lookup other two_comets.comets.servers)
    × (after.users ≡ two_users)
served_example =
    served plain plain_ids 0 (λ m. m) (λ i. []) 4 posts two_comets (b'c' ∷ []) 3 carried refl
      (unfold host_name bytes_eq in refl) (omega arith)

-- Two sessions of the phone with the id 16, and one of another.
abbrev sessions : SessionList
sessions =
    add_session (record { number = 7; uid = pos 16; binded_ids = [] })
      (add_session (record { number = 8; uid = pos 16; binded_ids = [] })
        (add_session (record { number = 9; uid = pos 17; binded_ids = [] }) init_session_list))

posts_reach_sessions_example :
    (after : Bus plain) × (l' : SessionList) × ((sent posts >>= λ stream.
    handle_all plain plain_ids up 0
      (λ m. m)
      (λ i. [])
      0
      (handle_client 4 bus_init_max stream)
      two_comets)
      ≡ done after)
    × ((push_all (λ i. []) 0 (reciver 4 (stream_of 1 after.comets.written)) >>= λ pushes.
          done (push_each pushes sessions))
        ≡ done l')
    × (l'.onlined ≡ sessions.onlined)
    × ((j : ℕ)
        → sent_to j l'.sent
          ≡ sent_to j sessions.sent
            ++ texts_for j sessions (received plain two_users two_comets.comets.servers 1 posts))
posts_reach_sessions_example =
    posts_reach_sessions plain plain_ids 0 (λ m. m) (λ i. []) (λ i. []) 4 4 posts two_comets 1
      sessions carried refl (unfold stream_of in refl) (omega arith)
      (omega (arith, ap (λ (l : List (ℤ × List ℕ)). length l) received_by_a))
