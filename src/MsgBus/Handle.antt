-- ===== src/MsgBus/Handle.antt =====
-- msgbus/handler.go: `MainHandle`, which sends a message from a comet on to the comets of its receivers.
pub mod Grouped
mod Tests
use slot_golang.Base.{
  ℕ, zero, suc, ◌+◌, ◌*◌, ◌%◌, ◌^◌, Bool, true, false, not, ◌&&◌, List, [], ◌∷◌, ◌++◌, Option, none,
  some, if◌then◌else◌, length, leb, ltb, ◌==◌, replicate, drop,
}
use slot_golang.Base.Int64.{ℤ, pos, to_u64, is_pos, is_neg}
use slot_golang.Base.Bytes.{put_le, write_at}
use slot_golang.Base.Maps.{string_eq, lookup, insert}
use slot_golang.Base.Run.{Run, done, checked, in_bounds, ◌>>=◌}
use slot_golang.Envelope.{main_handle_head, down_data, wrap16}
use slot_golang.Hlist.{Hlist}
use slot_golang.Msgs.Inspect.{is_forward_type, get_msg_id, forward_src_id, new_ack_msg}
use slot_golang.MsgBus.UserMap.{Host, UserMap, get_user_comet}
use slot_golang.MsgBus.Comets.{Comets, host_name, remove_server, push_msg, push_udp_msg}
use slot_golang.MsgBus.Push.{push_to_comet}

-- The user map, the comets, and the messages given to rabbitmq with the latest first.
module _ (hl : Hlist Host) where
  pub record Bus : Type 0 where
    pub users : UserMap hl
    pub comets : Comets
    pub rmq : List (List ℕ × ℕ)

module _ (hl : Hlist Host) (il : Hlist ℤ) where
  -- `wsCometToIds`: for each comet the ids that it is sent.
  abbrev pub Groups : Type 0
  Groups = List (Host × il.Carrier)

  abbrev pub found_or_new : Option il.Carrier → il.Carrier
  found_or_new none = il.new
  found_or_new (some ids) = ids

  unfoldable pub add_to_group : ℤ → Host → Groups → Groups
  add_to_group id haddr m = insert haddr (il.push_front id (found_or_new (lookup haddr m))) m

  -- `for e := cometHosts.Front(); …`
  unfoldable pub add_hosts : ℤ → List Host → Groups → Groups
  unfolding add_to_group
  add_hosts id [] m = m
  add_hosts id (haddr ∷ hosts) m = add_hosts id hosts (add_to_group id haddr m)

  abbrev pub add_found : ℤ → Option hl.Carrier → Groups → Groups
  add_found id none m = m
  add_found id (some hosts) m = add_hosts id (hl.values hosts) m

  -- The loop over the ids: the groups of the positive ones, and the negative ones.
  unfoldable pub group :
      List ℤ → UserMap hl → Groups → Option il.Carrier → Groups × Option il.Carrier
  unfolding add_hosts
  group [] kv m udp_ids = (m, udp_ids)
  group (id ∷ ids) kv m udp_ids =
      let m' = if is_pos id then add_found id (get_user_comet hl id kv) m else m in
      let udp_ids' =
        if is_pos id
        then udp_ids
        else (if is_neg id then some (il.push_front id (found_or_new udp_ids)) else udp_ids) in
      group ids kv m' udp_ids'

  -- The message for a UDP comet: the number of ids and room for them, and the data.
  unfoldable pub udp_data : ℕ → List ℕ → Run (List ℕ)
  udp_data count text = do
    let size = wrap16 count
    let buf = replicate (wrap16 (2 + size * 8 + wrap16 (length text))) 0
    let start = wrap16 (2 + size * 8)
    _ ← in_bounds (leb 2 (length buf))
    _ ← in_bounds (leb start (length buf))
    done (write_at (write_at buf 0 (put_le 2 size)) start text)

  -- What Go leaves open: whether a write goes out, the choice of a UDP comet, and the order in which a range
  -- visits a map.
  module _ (works : List (ℕ × List ℕ) → ℕ → List ℕ → Bool) (choice : ℕ)
      (order : Groups → Groups) where
    -- The loop over the groups; an error of one comet does not stop the others.
    unfoldable pub send_groups : Groups → List ℕ → Comets → Run Comets
    send_groups [] text c = done c
    send_groups ((haddr, ids) ∷ m) text c = do
      push_data ← down_data (il.values ids) text
      r ← push_msg works push_data haddr c
      send_groups m text r.0

    abbrev pub send_udp : Option il.Carrier → List ℕ → Comets → Run Comets
    send_udp none text c = done c
    send_udp (some ids) text c = do
      push_data ← udp_data (il.len ids) text
      r ← push_udp_msg works choice push_data c
      done (r.0)

    -- A message of a device that is not to be forwarded: it goes to rabbitmq, and its sender is sent an
    -- acknowledgement.
    unfoldable pub acknowledge : List ℕ → Bus hl → Run (Bus hl)
    acknowledge text bus = do
      msg_id ← get_msg_id text
      let bus' = record bus { rmq = (text, msg_id) ∷ bus.rmq }
      id ← forward_src_id text
      ack_msg ← new_ack_msg text
      let push_buf = put_le 2 1 ++ (put_le 8 (to_u64 id) ++ ack_msg)
      r ← push_to_comet works hl id push_buf bus'.users bus'.comets
      done (record bus' { comets = r.0 })

    -- A message for one id goes on as it came.
    abbrev pub send_one : ℤ → List ℕ → Bus hl → Run (Bus hl)
    send_one uid msg bus =
        if is_pos uid
        then (do
          r ← push_to_comet works hl uid msg bus.users bus.comets
          done (record bus { comets = r.0 }))
        else if is_neg uid
        then (do r ← push_udp_msg works choice msg bus.comets; done (record bus { comets = r.0 }))
        else done bus

    unfoldable pub send_many : List ℤ → List ℕ → Bus hl → Run (Bus hl)
    unfolding group send_groups udp_data
    send_many ids text bus = do
      let (m, udp_ids) = group ids bus.users [] none
      c ← send_groups (order m) text bus.comets
      c' ← send_udp udp_ids text c
      done (record bus { comets = c' })

    -- By the number of ids.
    abbrev pub send_on : List ℤ → List ℕ → List ℕ → Bus hl → Run (Bus hl)
    send_on [] msg text bus = send_many [] text bus
    send_on (uid ∷ []) msg text bus = send_one uid msg bus
    send_on (uid ∷ v ∷ ids) msg text bus = send_many (uid ∷ v ∷ ids) text bus

    -- `MainHandle`. `spare` is what the reader's buffer holds behind the message.
    unfoldable pub main_handle : List ℕ → List ℕ → Bus hl → Run (Bus hl)
    unfolding send_many acknowledge
    main_handle spare src_msg bus = do
      (src_id, ids, text) ← main_handle_head spare src_msg
      should_forward ← if is_neg src_id then is_forward_type text else done true
      if should_forward then send_on ids (drop 8 src_msg) text bus else acknowledge text bus

-- `HandleClose`
unfoldable pub handle_close : List ℕ → Comets → Run Comets
handle_close host c = remove_server (host_name host) c
