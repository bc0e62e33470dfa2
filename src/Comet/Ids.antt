-- ===== src/Comet/Ids.antt =====
-- comet/util.go, comet/session.go, comet/udp_session.go: ids of users, phones and devices, and the
-- ids that a message goes to. A user id is a positive multiple of 16, its phones are the 15 ids
-- behind it, and a device id is negative.
pub mod Blocks
pub mod Phones
pub mod Routing
pub mod Broadcast
pub mod Bindings
use mathlib.Core.Option
use slot_golang.Base.{
  ℕ, zero, suc, ◌+◌, ◌-◌, Bool, true, false, ◌&&◌, ◌||◌, List, [], ◌∷◌, ◌++◌, Option, none, some,
  if◌then◌else◌, length, take, set, get_elem?,
}
use slot_golang.Base.Int64.{
  ℤ, pos, negsuc, add64, sub64, neg64, rem64, is_pos, is_neg, is_zero, ◌==ℤ◌,
}

abbrev pub block_size : ℕ
block_size = 128

-- `getBlockID`, the same in both programs
unfoldable pub get_block_id : ℤ → ℤ
get_block_id uid = if is_pos uid then rem64 uid block_size else rem64 (neg64 uid) block_size

-- `kUseridUnit`
abbrev pub k_userid_unit : ℕ
k_userid_unit = 16

-- The ids base + i, base + i + 1, … of a loop that has n rounds left.
unfoldable pub ids_from : ℤ → ℕ → ℕ → List ℤ
ids_from base i zero = []
ids_from base i (suc n) = add64 base (pos i) ∷ ids_from base (i + 1) n

-- `TransId`: a device's own id, the 15 phones of a user, nothing for another id.
unfoldable pub trans_id : ℤ → List ℤ
unfolding ids_from
trans_id id =
    if is_neg id then id ∷ [] else if is_zero (rem64 id k_userid_unit) then ids_from id 1 15 else []

-- `for _, v := range ids { if v == id { return true } }; return false`
unfoldable pub contains : List ℤ → ℤ → Bool
contains [] id = false
contains (v ∷ ids) id = (v ==ℤ id) || contains ids id

-- `id - id%int64(kUseridUnit)`
unfoldable pub user_of : ℤ → ℤ
user_of id = sub64 id (rem64 id k_userid_unit)

-- `Session.isBinded`
unfoldable pub is_binded : ℤ → List ℤ → ℤ → Bool
unfolding contains user_of
is_binded uid binded_ids id = contains binded_ids (if is_neg uid then user_of id else id)

-- The phones of every bound user: the two nested loops of a broadcast.
unfoldable pub all_phones : List ℤ → List ℤ
unfolding ids_from
all_phones [] = []
all_phones (v ∷ users) = ids_from v 1 15 ++ all_phones users

-- `toId++; destIds[i] = toId`, n times
unfoldable pub count_up : ℕ → ℤ → List ℤ
count_up zero to_id = []
count_up (suc n) to_id = let next = add64 to_id (pos 1) in next ∷ count_up n next

-- `Session.calcDestIds`
unfoldable pub calc_dest_ids : ℤ → List ℤ → ℤ → List ℤ
unfolding is_binded all_phones count_up
calc_dest_ids uid binded_ids to_id =
    if is_zero to_id
    then (if is_pos uid then binded_ids else all_phones binded_ids)
    else if is_binded uid binded_ids to_id
    then (if is_neg uid && is_zero (rem64 to_id k_userid_unit)
        then count_up 15 to_id
        else to_id ∷ [])
    else []

-- `UdpSession.isBinded` and `UdpSession.CalcDestIds`, for a device
unfoldable pub udp_is_binded : List ℤ → ℤ → Bool
unfolding contains user_of
udp_is_binded binded_users id = contains binded_users (user_of id)

unfoldable pub udp_calc_dest_ids : List ℤ → ℤ → List ℤ
unfolding udp_is_binded all_phones count_up
udp_calc_dest_ids binded_users to_id =
    if is_zero to_id
    then all_phones binded_users
    else if udp_is_binded binded_users to_id
    then (if is_zero (rem64 to_id k_userid_unit) then count_up 15 to_id else [])
    else []

-- The search of the loop that unbinds: the first position that holds the id.
unfoldable pub index_of : ℤ → List ℤ → Option ℕ
index_of id [] = none
index_of id (v ∷ ids) = if v ==ℤ id then some 0 else Option.map suc (index_of id ids)

-- `ids[k] = ids[lastIndex]; ids = ids[:lastIndex]`
unfoldable pub swap_remove : List ℤ → ℕ → List ℤ
swap_remove ids k = elim (get_elem? ids (length ids - 1)) [
  | none ↦ ids
  | some last ↦ take (length ids - 1) (set ids k last)
]

-- The body of `UpdateIds` for one session.
unfoldable pub update_bindings : Bool → ℤ → List ℤ → List ℤ
unfolding index_of swap_remove
update_bindings bind id ids =
    if bind
    then ids ++ (id ∷ [])
    else elim (index_of id ids) [ none ↦ ids | some k ↦ swap_remove ids k ]
