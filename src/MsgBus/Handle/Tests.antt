-- ===== src/MsgBus/Handle/Tests.antt =====
-- The groups of a message at concrete users and comets.
use slot_golang.Base.{◌≡◌, true, ◌&&◌, List, [], ◌∷◌, none}
use slot_golang.Base.Int64.{ℤ, pos, negsuc, is_pos}
use slot_golang.Comet.Ids.{contains}
use slot_golang.Hlist.{Hlist}
use slot_golang.Hlist.Lists.{list_hlist}
use slot_golang.MsgBus.UserMap.{Host, UserMap, has, init_user_map}
use slot_golang.MsgBus.UserMap.Spec.{hosts}
use slot_golang.MsgBus.UserMap.Presence.{on, run}
use slot_golang.MsgBus.Handle.{group}
use slot_golang.MsgBus.Handle.Grouped.{members, group_exact}

abbrev plain : Hlist Host
plain = list_hlist Host true

abbrev plain_ids : Hlist ℤ
plain_ids = list_hlist ℤ true

-- The user 16 is on the comets a and b, the user 32 on b.
abbrev two_users : UserMap plain
two_users =
    run plain (on (pos 16) (b'a' ∷ []) ∷ on (pos 16) (b'b' ∷ []) ∷ on (pos 32) (b'b' ∷ []) ∷ [])
      (init_user_map plain)

abbrev receivers : List ℤ
receivers = pos 16 ∷ negsuc 4 ∷ pos 32 ∷ pos 48 ∷ []

group_exact_example :
    contains
      (members plain plain_ids (b'b' ∷ []) (group plain plain_ids receivers two_users [] none).0)
      (pos 32)
    ≡ ((contains receivers (pos 32) && is_pos (pos 32))
        && has (b'b' ∷ []) (hosts plain (pos 32) two_users))
group_exact_example = group_exact plain plain_ids receivers two_users (pos 32) (b'b' ∷ [])
