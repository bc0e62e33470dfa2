-- ===== src/MsgBus/Online/Tests.antt =====
-- Logins and logouts at concrete users and hosts.
use slot_golang.Base.{◌≡◌, refl, false, List, [], ◌∷◌, arith}
use slot_golang.Base.Int64.{pos}
use slot_golang.Base.Run.{done}
use slot_golang.Hlist.{Hlist}
use slot_golang.Hlist.Lists.{list_hlist}
use slot_golang.Comet.Redis.{count_of}
use slot_golang.MsgBus.UserMap.{Host, UserMap, init_user_map}
use slot_golang.MsgBus.UserMap.Presence.{presence}
use slot_golang.MsgBus.Online.{
  Call, log_in, log_out, restart, handle_online_events, perform_all, is_positive,
}
use slot_golang.MsgBus.Online.Follows.{online_follows_counts}

abbrev plain : Hlist Host
plain = list_hlist Host false

abbrev calls : List Call
calls =
    log_in (pos 16) (b'a' ∷ [])
    ∷ log_in (pos 16) (b'a' ∷ [])
    ∷ log_in (pos 16) (b'b' ∷ [])
    ∷ log_out (pos 16) (b'a' ∷ [])
    ∷ restart (b'b' ∷ [])
    ∷ []

online_follows_counts_example :
    (kv : UserMap plain) × (handle_online_events plain
        (perform_all calls []).1
        (init_user_map plain)
      ≡ done kv)
    × (presence plain kv (pos 16) (b'a' ∷ [])
        ≡ is_positive (count_of (b'a' ∷ []) (pos 16) (perform_all calls []).0))
online_follows_counts_example =
    online_follows_counts plain calls (pos 16) (b'a' ∷ [])
      (
        ((omega arith), (refl, tt)),
        (
          ((omega arith), (refl, tt)),
          (((omega arith), (refl, tt)), (((omega arith), (refl, tt), refl), ((refl, tt), tt))),
        ),
      )
      (omega arith)
