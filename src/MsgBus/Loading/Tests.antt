-- ===== src/MsgBus/Loading/Tests.antt =====
-- A bus that starts while the user 16 logs in on the comet "a".
use slot_golang.Base.{ℕ, ◌+◌, ◌≡◌, refl, false, List, [], ◌∷◌, some}
use slot_golang.Base.Int64.{ℤ, pos, rem64}
use slot_golang.Base.Decimal.{parse_int}
use slot_golang.Base.Maps.{lookup, insert, bytes_eq}
use slot_golang.Comet.Ids.{get_block_id}
use slot_golang.Hlist.{Hlist}
use slot_golang.Hlist.Lists.{list_hlist}
use slot_golang.MsgBus.UserMap.{Host, UserMap, init_user_map, load, store, online}
use slot_golang.MsgBus.UserMap.Spec.{hosts}
use slot_golang.MsgBus.Loading.{Redis, load_users, get_all_users}
use slot_golang.MsgBus.Loading.Counted.{count, listed, load_users_counts}

abbrev plain : Hlist Host
plain = list_hlist Host false

abbrev key : List ℕ
key = b'H' ∷ b'o' ∷ b's' ∷ b't' ∷ b':' ∷ b'a' ∷ []

abbrev redis : Redis
redis = record { keys = some (key ∷ []); hkeys = λ k. some ((b'1' ∷ b'6' ∷ []) ∷ []) }

-- Its message has come, and its field is in the hash.
abbrev early : UserMap plain
early = online plain (pos 16) (b'a' ∷ []) (init_user_map plain)

load_users_counts_example :
    (kv' : UserMap plain) × (load_users plain redis early ≡ some kv')
    × ((uid : ℤ) (h : Host)
        → count h (hosts plain uid kv')
          ≡ listed redis uid h (key ∷ []) + count h (hosts plain uid early))
load_users_counts_example = load_users_counts plain redis (key ∷ []) early refl

listed_twice :
    hosts plain (pos 16) (get_all_users plain redis (key ∷ []) early)
    ≡ (b'a' ∷ []) ∷ (b'a' ∷ []) ∷ []
unfolding get_all_users lookup load store get_block_id rem64 parse_int insert online bytes_eq
listed_twice = refl
