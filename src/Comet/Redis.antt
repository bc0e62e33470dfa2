-- ===== src/Comet/Redis.antt =====
-- comet/redis.go: what the scripts and calls of the comet do to the keys that redis keeps: the hash
-- "Host:<host>" of each comet's connections, and the set of a user's phone ids. Redis refuses an increment
-- past int64, which a count of connections does not reach.
pub mod Mobiles
pub mod Counts
mod Tests
use slot_golang.Base.{
  ℕ, zero, suc, ◌+◌, Bool, true, false, ◌||◌, not, List, [], ◌∷◌, ◌++◌, Option, none, some, ◌==◌,
  if◌then◌else◌,
}
use slot_golang.Base.Int64.{ℤ, pos, negsuc, ◌==ℤ◌, is_zero}
use slot_golang.Base.Format.{format_int}
use slot_golang.Base.Maps.{string_eq, int64_eq, lookup, insert, delete}

abbrev pub Host : Type 0
Host = List ℕ

-- For each comet, the number of connections of each id.
abbrev pub Hashes : Type 0
Hashes = List (Host × List (ℤ × ℤ))

abbrev or_empty : Option (List (ℤ × ℤ)) → List (ℤ × ℤ)
or_empty none = []
or_empty (some fields) = fields

abbrev or_zero : Option ℤ → ℤ
or_zero none = pos 0
or_zero (some n) = n

abbrev pub fields_of : Host → Hashes → List (ℤ × ℤ)
fields_of host hs = or_empty (lookup host hs)

-- The value that "hincrby" starts from: a missing field counts as 0.
unfoldable pub count_of : Host → ℤ → Hashes → ℤ
count_of host uid hs = or_zero (lookup uid (fields_of host hs))

abbrev pub increase : ℤ → ℤ
increase (pos n) = pos (suc n)
increase (negsuc zero) = pos 0
increase (negsuc (suc n)) = negsuc n

abbrev pub decrease : ℤ → ℤ
decrease (pos zero) = negsuc 0
decrease (pos (suc n)) = pos n
decrease (negsuc n) = negsuc (suc n)

unfoldable pub hset : Host → ℤ → ℤ → Hashes → Hashes
hset host uid n hs = insert host (insert uid n (fields_of host hs)) hs

unfoldable pub hdel : Host → ℤ → Hashes → Hashes
hdel host uid hs = insert host (delete uid (fields_of host hs)) hs

-- `KEYS[2].."|"..ARGV[2].."|1"`
abbrev pub state_message : ℤ → Host → ℕ → List ℕ
state_message uid host state = format_int uid ++ (b'|' ∷ (host ++ (b'|' ∷ state ∷ [])))

-- `_scriptOnline`, as `SetUserOnline` runs it: the hashes, what is published, and the count.
unfoldable pub set_user_online : ℤ → Host → Hashes → Hashes × List (List ℕ) × ℤ
unfolding count_of hset
set_user_online uid host hs =
    let count = increase (count_of host uid hs) in
    (
      hset host uid count hs,
      if count ==ℤ pos 1 then state_message uid host b'1' ∷ [] else [],
      count,
    )

-- `_scriptOffline`, as `SetUserOffline` runs it.
unfoldable pub set_user_offline : ℤ → Host → Hashes → Hashes × List (List ℕ) × ℤ
unfolding count_of hset hdel
set_user_offline uid host hs =
    let count = decrease (count_of host uid hs) in
    if is_zero count
    then (hdel host uid (hset host uid count hs), state_message uid host b'0' ∷ [], count)
    else (hset host uid count hs, [], count)

-- `ClearRedis`, when both commands go through.
unfoldable pub clear_redis : Host → Hashes → Hashes × List (List ℕ)
clear_redis ip hs = (delete ip hs, state_message (pos 0) ip b'0' ∷ [])

-- The set "user:mobileid:<id>" of a user.
unfoldable pub in_use : ℕ → List ℕ → Bool
in_use mid [] = false
in_use mid (m ∷ mids) = (m == mid) || in_use mid mids

-- `for mid=1,15,1 do if 1 == redis.call('sadd', KEYS[1], mid)`, with the rounds left.
unfoldable pub select_loop : ℕ → ℕ → List ℕ → List ℕ × ℕ
unfolding in_use
select_loop zero mid mids = (mids, 0)
select_loop (suc rounds) mid mids =
    let more = select_loop rounds (mid + 1) mids in
    if in_use mid mids then more else (mid ∷ mids, mid)

-- `SelectMobileId`: the set, and the id chosen or 0.
unfoldable pub select_mobile_id : List ℕ → List ℕ × ℕ
unfolding select_loop
select_mobile_id mids = select_loop 15 1 mids

-- `ReturnMobileId`: "srem" of the id, and how many were removed.
unfoldable pub srem : ℕ → List ℕ → List ℕ
srem mid [] = []
srem mid (m ∷ mids) = if m == mid then srem mid mids else m ∷ srem mid mids

unfoldable pub return_mobile_id : ℕ → List ℕ → List ℕ × ℕ
unfolding in_use srem
return_mobile_id mid mids = (srem mid mids, if in_use mid mids then 1 else 0)
