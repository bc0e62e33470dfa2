-- ===== src/MsgBus/Loading/Counted.antt =====
-- msgbus/redis.go: each field of the hashes is one entry of the user map.
use slot_golang.Base.{
  ℕ, ◌+◌, ◌≡◌, refl, ap, ◌∙◌, List, [], ◌∷◌, Option, none, some, if◌then◌else◌, arith, Bool-cases,
  inl, inr,
}
use slot_golang.Base.Int64.{ℤ, ◌==ℤ◌, ==ℤ_iff}
use slot_golang.Base.Decimal.{parse_int}
use slot_golang.Base.Maps.{bytes_eq}
use slot_golang.Hlist.{Hlist}
use slot_golang.MsgBus.Comets.{host_name}
use slot_golang.MsgBus.UserMap.{Host, UserMap, find, store, found_or_new, load}
use slot_golang.MsgBus.UserMap.Spec.{hosts, hosts-store, values-found_or_new}
use slot_golang.MsgBus.Loading.{Redis, load_found, get_all_users, load_users}

-- How often a host is in a list.
unfoldable pub count : Host → List Host → ℕ
count host [] = 0
count host (h ∷ hs) = let n = count host hs in if bytes_eq h host then 1 + n else n

-- How many of the fields are this user's id.
unfoldable pub user_fields : ℤ → List (List ℕ) → ℕ
user_fields uid [] = 0
user_fields uid (user ∷ users) =
    let n = user_fields uid users in if (parse_int user).0 ==ℤ uid then 1 + n else n

abbrev pub fields_at : ℤ → Option (List (List ℕ)) → ℕ
fields_at uid none = 0
fields_at uid (some users) = user_fields uid users

-- The user's fields in the hashes of a host.
unfoldable pub listed : Redis → ℤ → Host → List (List ℕ) → ℕ
unfolding user_fields
listed redis uid host [] = 0
listed redis uid host (key ∷ keys) =
    let n = listed redis uid host keys in
    if bytes_eq (host_name key) host then fields_at uid (redis.hkeys key) + n else n

module _ (hl : Hlist Host) where
  open hl use {values-push_front, push_front}

  -- One field is one more entry.
  count-store :
      (u uid : ℤ) (host h : Host) (kv : UserMap hl)
      → count h (hosts hl uid (store hl u (push_front host (found_or_new hl (find hl u kv))) kv))
        ≡ (if bytes_eq host h then (if u ==ℤ uid then 1 else 0) else 0) + count h (hosts hl uid kv)
  unfolding count
  count-store u uid host h kv =
      ap (count h) (hosts-store hl u uid (push_front host (found_or_new hl (find hl u kv))) kv)
      ∙ rw
          (
            values-push_front host (found_or_new hl (find hl u kv)),
            values-found_or_new hl (find hl u kv),
          )
          (elim (Bool-cases (u ==ℤ uid)) [
            | inl same ↦ rw (same, (==ℤ_iff u uid).0 same) (ground arith)
            | inr differ ↦ rw differ (ground arith)
          ])

  count-load :
      (users : List (List ℕ)) (host h : Host) (uid : ℤ) (kv : UserMap hl)
      → count h (hosts hl uid (load hl users host kv))
        ≡ (if bytes_eq host h then user_fields uid users else 0) + count h (hosts hl uid kv)
  unfolding load user_fields
  count-load [] host h uid kv = ground arith
  count-load (user ∷ users) host h uid kv =
      count-load users host h uid _
      ∙ rw (count-store (parse_int user).0 uid host h kv) (ground arith)

  count-found :
      (o : Option (List (List ℕ))) (host h : Host) (uid : ℤ) (kv : UserMap hl)
      → count h (hosts hl uid (load_found hl o host kv))
        ≡ (if bytes_eq host h then fields_at uid o else 0) + count h (hosts hl uid kv)
  count-found none host h uid kv = ground arith
  count-found (some users) host h uid kv = count-load users host h uid kv

  count-get_all_users :
      (redis : Redis) (keys : List (List ℕ)) (h : Host) (uid : ℤ) (kv : UserMap hl)
      → count h (hosts hl uid (get_all_users hl redis keys kv))
        ≡ listed redis uid h keys + count h (hosts hl uid kv)
  unfolding get_all_users listed
  count-get_all_users redis [] h uid kv = ground arith
  count-get_all_users redis (key ∷ keys) h uid kv =
      count-get_all_users redis keys h uid _
      ∙ rw (count-found (redis.hkeys key) (host_name key) h uid kv) (ground arith)

  -- When redis lists its hashes, `LoadUsers` comes to its end without an error, and the list of each user then holds
  -- a host as often as before, and once more for each field with the user's id in the hashes of that host; a hash
  -- that redis does not give counts as one without fields.
  pub load_users_counts :
      (redis : Redis) (keys : List (List ℕ)) (kv : UserMap hl)
      → redis.keys ≡ some keys
      → (kv' : UserMap hl) × (load_users hl redis kv ≡ some kv')
        × ((uid : ℤ) (h : Host)
            → count h (hosts hl uid kv') ≡ listed redis uid h keys + count h (hosts hl uid kv))
  unfolding load_users
  load_users_counts redis keys kv e =
      (get_all_users hl redis keys kv, rw e refl, λ uid h. count-get_all_users redis keys h uid kv)
