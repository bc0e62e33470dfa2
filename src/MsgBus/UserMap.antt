-- ===== src/MsgBus/UserMap.antt =====
-- msgbus/usermap.go: the hosts (comets) that each user is on. Each method holds the mutex of the user's
-- block and gives it back on every path, so a call is one step.
pub mod Spec
pub mod Presence
use slot_golang.Base.{
  ℕ, zero, suc, ◌+◌, Bool, true, false, ◌||◌, List, [], ◌∷◌, Option, none, some, ltb, ◌==◌,
  if◌then◌else◌,
}
use slot_golang.Base.Int64.{ℤ, pos, negsuc, pos_part}
use slot_golang.Base.Decimal.{parse_int}
use slot_golang.Base.Maps.{Eq, string_eq, int64_eq, lookup, insert, map_values, bytes_eq}
use slot_golang.Hlist.{Hlist, sweep}
use slot_golang.Comet.Ids.{get_block_id, block_size}

abbrev pub Host : Type 0
Host = List ℕ

-- `for e := l.Front(); …; { if host == e.Value { … } }`
unfoldable pub has : Host → List Host → Bool
has host [] = false
has host (h ∷ hosts) = bytes_eq h host || has host hosts

-- The index of a user's block. It is never negative (Comet.Ids.Blocks).
abbrev pub block_of : ℤ → ℕ
block_of uid = pos_part (get_block_id uid)

module _ (hl : Hlist Host) where
  open hl use {Carrier, new, push_front, values, len}

  -- The slice of 128 maps, by index.
  abbrev pub UserMap : Type 0
  UserMap = ℕ → List (ℤ × Carrier)

  abbrev pub init_user_map : UserMap
  init_user_map bn = []

  abbrev pub find : ℤ → UserMap → Option Carrier
  find uid kv = lookup uid (kv (block_of uid))

  -- `this.kv[bn][uid] = h`; the lists are pointers, so a change of one is such a write too.
  unfoldable pub store : ℤ → Carrier → UserMap → UserMap
  store uid h kv bn = if bn == block_of uid then insert uid h (kv bn) else kv bn

  abbrev pub found_or_new : Option Carrier → Carrier
  found_or_new none = new
  found_or_new (some h) = h

  unfoldable pub load : List (List ℕ) → Host → UserMap → UserMap
  load [] host kv = kv
  load (user ∷ users) host kv =
      let uid = (parse_int user).0 in
      load users host (store uid (push_front host (found_or_new (find uid kv))) kv)

  unfoldable pub online : ℤ → Host → UserMap → UserMap
  unfolding has
  online uid host kv =
      let hostlist = found_or_new (find uid kv) in
      let seen = if ltb 0 (len hostlist) then has host (values hostlist) else false in
      store uid (if seen then hostlist else push_front host hostlist) kv

  unfoldable pub offline : ℤ → Host → UserMap → UserMap
  offline uid host kv = elim (find uid kv) [
    | none ↦ kv
    | some hostlist ↦ store uid (sweep hl (λ h. bytes_eq h host) hostlist).0 kv
  ]

  -- The order in which a range visits a map does not matter: each entry changes by itself.
  unfoldable pub offline_host : Host → UserMap → UserMap
  offline_host host kv bn =
      if ltb bn block_size
      then map_values (λ hostlist. (sweep hl (λ h. bytes_eq h host) hostlist).0) (kv bn)
      else kv bn

  -- `newList.PushFront` for each host: a copy in reverse order.
  unfoldable pub copy_reversed : List Host → Carrier → Carrier
  copy_reversed [] copy = copy
  copy_reversed (h ∷ hosts) copy = copy_reversed hosts (push_front h copy)

  -- `none` is the error that no comet was found.
  unfoldable pub get_user_comet : ℤ → UserMap → Option Carrier
  unfolding copy_reversed
  get_user_comet uid kv = elim (find uid kv) [
    | none ↦ none
    | some hosts ↦ some (copy_reversed (values hosts) new)
  ]
