-- ===== src/MsgBus/Tests.antt =====
-- The bus at concrete users, comets and messages, with a plain list for the linked list.
use slot_golang.Base.{
  ℕ, ◌≡◌, refl, Bool, true, false, List, [], ◌∷◌, ◌++◌, arith, ◌==◌, if◌then◌else◌,
}
use slot_golang.Base.Int64.{rem64, pos}
use slot_golang.Comet.Ids.{get_block_id}
use slot_golang.Base.Bytes.{put_le}
use slot_golang.Base.Maps.{lookup, string_eq, bytes_eq}
use slot_golang.Base.Run.{done, ◌>>=◌}
use slot_golang.Hlist.{Hlist}
use slot_golang.Hlist.Lists.{list_hlist}
use slot_golang.Wire.{frame}
use slot_golang.Msgs.Inspect.{comet_udp, comet_ws}
use slot_golang.MsgBus.UserMap.{Host, init_user_map}
use slot_golang.MsgBus.UserMap.Spec.{Distinct, hosts}
use slot_golang.MsgBus.UserMap.Presence.{
  Event, on, off, host_off, presence, run, run_spec, user_map_refines,
}
use slot_golang.MsgBus.Push.{push_to_comet, up, all_pushed, conns_of, push_to_comet_all}
use slot_golang.MsgBus.UserMap.{UserMap}
use slot_golang.MsgBus.Comets.{
  Comets, new_comets, new_server, add_server, remove_server, push_msg, push,
}
use slot_golang.MsgBus.Comets.Locks.{UdpStuck, sent_on, remove_udp_deadlock, push_msg_frames}

abbrev plain : Hlist Host
plain = list_hlist Host true

abbrev host_a : Host
host_a = b'a' ∷ []

abbrev host_b : Host
host_b = b'b' ∷ []

abbrev events : List Event
events =
    on (pos 16) host_a
    ∷ on (pos 16) host_b
    ∷ on (pos 16) host_a
    ∷ off (pos 16) host_b
    ∷ host_off host_a
    ∷ []

user_map_refines_example :
    Distinct (hosts plain (pos 16) (run plain events (init_user_map plain)))
    × (presence plain (run plain events (init_user_map plain)) (pos 16) host_b
        ≡ run_spec events (λ _ _. false) (pos 16) host_b)
user_map_refines_example =
    user_map_refines plain events (pos 16) host_b
      (omega arith, (omega arith, (omega arith, (omega arith, (tt, tt))))) (omega arith)

remove_udp_deadlock_example :
    (c' : Comets) × ((add_server host_a 4 comet_udp new_comets >>= remove_server host_a) ≡ done c')
    × UdpStuck c'
unfolding lookup
remove_udp_deadlock_example = remove_udp_deadlock host_a 4 new_comets refl refl refl

-- A bus with one websocket comet on connection 4.
abbrev one_comet : Comets
one_comet = record new_comets { servers = (host_a, new_server 4 comet_ws) ∷ [] }

abbrev network_up : List (ℕ × List ℕ) → ℕ → List ℕ → Bool
network_up sent conn bytes = true

abbrev after_push : Comets
after_push = record one_comet { written = (4, 2 ∷ 0 ∷ 0 ∷ 0 ∷ []) ∷ (4, 7 ∷ 9 ∷ []) ∷ [] }

framed_push :
    sent_on 4 after_push.written
    ≡ sent_on 4 one_comet.written ++ (if 4 == 4 then frame (7 ∷ 9 ∷ []) else [])
unfolding lookup bytes_eq push put_le
framed_push =
    push_msg_frames network_up (7 ∷ 9 ∷ []) host_a (new_server 4 comet_ws) one_comet after_push 4
      refl (unfold push_msg in refl)

-- A user on a connected comet, and on one that is not.
abbrev user_16 : UserMap plain
user_16 bn = if bn == 16 then (pos 16, host_a ∷ host_b ∷ []) ∷ [] else []

push_to_comet_all_example :
    (r : Bool) × (push_to_comet up plain (pos 16) (7 ∷ 9 ∷ []) user_16 one_comet
      ≡ done (
        record one_comet {
          written =
              one_comet.written
              ++ all_pushed (7 ∷ 9 ∷ []) (conns_of one_comet.servers (host_a ∷ host_b ∷ []));
        },
        r,
      ))
unfolding lookup get_block_id rem64
push_to_comet_all_example =
    push_to_comet_all plain (pos 16) (7 ∷ 9 ∷ []) user_16 one_comet (host_a ∷ host_b ∷ []) refl refl
