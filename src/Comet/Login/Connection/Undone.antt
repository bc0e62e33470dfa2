-- ===== src/Comet/Login/Connection/Undone.antt =====
-- comet/websocket.go: a phone that comes and goes leaves nothing behind.
use slot_golang.Base.{
  ℕ, zero, suc, ◌≡◌, refl, ap, sym, ◌∙◌, Bool, true, false, ◌&&◌, some, if◌then◌else◌, Bool-cases,
  inl, inr, ◌<◌, lt→ltb, ◌==◌, ==_iff, ◌⊎◌,
}
use mathlib.Core.Bool.{false≢true}
use slot_golang.Base.Int64.{ℤ, pos, negsuc, is_pos, is_neg, is_zero, ◌==ℤ◌, ==ℤ_iff, sub64}
use slot_golang.Base.Maps.{bytes_eq, bytes_eq_iff}
use slot_golang.Base.Run.{done}
use slot_golang.Comet.Redis.{
  Host, Hashes, count_of, hset, increase, decrease, set_user_online, set_user_offline, in_use,
  return_mobile_id,
}
use slot_golang.Comet.Redis.Counts.{count_of-hset, count_of-hdel}
use slot_golang.Comet.Redis.Mobiles.{in_use-srem}
use slot_golang.Comet.Sessions.{Session, find, add_session, remove_session}
use slot_golang.Comet.Sessions.Kept.{IsTidy, remove_session-add_session}
use slot_golang.Comet.Login.Connection.{Site, counted, give_back, announce, ws_open, ws_close}

decrease-increase : (n : ℤ) → decrease (increase n) ≡ n
decrease-increase (pos n) = refl
decrease-increase (negsuc zero) = refl
decrease-increase (negsuc (suc n)) = refl

count_of-same : (host : Host) (uid n : ℤ) (hs : Hashes) → count_of host uid (hset host uid n hs) ≡ n
count_of-same host uid n hs =
    count_of-hset host host uid uid n hs
    ∙ rw ((bytes_eq_iff host host).1 refl, (==ℤ_iff uid uid).1 refl) refl

zero_is : (n : ℤ) → is_zero n ≡ true → n ≡ pos 0
zero_is (pos n) h = ap pos ((==_iff n 0).0 h)
zero_is (negsuc n) h = absurd (false≢true h)

settled :
    (b : Bool) (n m : ℤ)
    → n ≡ pos 0
    → (if b then pos 0 else (if b then n else m)) ≡ (if b then n else m)
settled true n m e = sym e
settled false n m e = refl

pos_not_neg : (n : ℤ) → is_pos n ≡ true → is_neg n ≡ false
pos_not_neg (pos n) h = refl
pos_not_neg (negsuc n) h = absurd (false≢true h)

-- The counts after a logout, from the count that it finds.
pub count_of-offline :
    (host h : Host) (uid u n : ℤ) (hs : Hashes)
    → decrease (count_of host uid hs) ≡ n
    → count_of h u (set_user_offline uid host hs).0
      ≡ (if bytes_eq host h && (uid ==ℤ u) then n else count_of h u hs)
unfolding set_user_offline
count_of-offline host h uid u n hs e = rw e (elim (Bool-cases (is_zero n)) [
  | inl z ↦ rw z (
      count_of-hdel host h uid u (hset host uid n hs)
      ∙ rw (count_of-hset host h uid u n hs)
          (settled (bytes_eq host h && (uid ==ℤ u)) n (count_of h u hs) (zero_is n z)))
  | inr nz ↦ rw nz (count_of-hset host h uid u n hs)
])

-- A logout undoes a login.
offline-online :
    (host h : Host) (uid u : ℤ) (hs : Hashes)
    → count_of h u (set_user_offline uid host (set_user_online uid host hs).0).0 ≡ count_of h u hs
unfolding set_user_online
offline-online host h uid u hs =
    let n = count_of host uid hs in
    count_of-offline host h uid u n (hset host uid (increase n) hs)
      (ap decrease (count_of-same host uid (increase n) hs) ∙ decrease-increase n)
    ∙ rw (count_of-hset host h uid u (increase n) hs)
        (same_count (Bool-cases (bytes_eq host h)) (Bool-cases (uid ==ℤ u)))
  where
    same_count :
        ((bytes_eq host h ≡ true) ⊎ (bytes_eq host h ≡ false))
        → ((uid ==ℤ u ≡ true) ⊎ (uid ==ℤ u ≡ false))
        → (if bytes_eq host h && (uid ==ℤ u)
            then count_of host uid hs
            else (if bytes_eq host h && (uid ==ℤ u)
                then increase (count_of host uid hs)
                else count_of h u hs))
          ≡ count_of h u hs
    same_count (inl a) (inl b) = rw (a, b, (bytes_eq_iff host h).0 a, (==ℤ_iff uid u).0 b) refl
    same_count (inl a) (inr b) = rw (a, b) refl
    same_count (inr a) o = rw a refl

module _ (host : Host) (s : Session) (mid : ℕ) where
  abbrev opened : Site → Site
  opened site = record (counted (set_user_online s.uid host site.hashes) site) {
    sessions = add_session s site.sessions;
  }

  abbrev closed : Site → Site
  closed site =
      let w = give_back true mid (counted (set_user_offline s.uid host site.hashes) site) in
      record w { sessions = remove_session s w.sessions }

  ws_open-opened :
      (now : ℕ) (site : Site)
      → is_neg s.uid ≡ false
      → ws_open now host true s site ≡ done (some (opened site))
  unfolding ws_open announce
  ws_open-opened now site e = rw e refl

  ws_close-closed :
      (now : ℕ) (site : Site)
      → is_pos s.uid ≡ true
      → 0 < mid
      → is_neg (sub64 s.uid (pos mid)) ≡ false
      → ws_close now host true true mid s site ≡ done (closed site)
  unfolding ws_close announce
  ws_close-closed now site p lt e = rw (p, lt→ltb 0 mid lt) (rw e refl)

-- A phone (a positive id) whose connection is opened and closed again, while redis runs the scripts, comes to its end, and the
-- sessions of every id and the counts of every user on every host are as they were; its phone id is free, and the
-- other phone ids are as before. The maps hold no id without a session, and the id less the phone id is not negative.
pub ws_close-ws_open :
    (now later : ℕ) (host : Host) (s : Session) (mid : ℕ) (site : Site)
    → IsTidy site.sessions
    → is_pos s.uid ≡ true
    → 0 < mid
    → is_neg (sub64 s.uid (pos mid)) ≡ false
    → (site' : Site) × (site'' : Site) × (ws_open now host true s site ≡ done (some site'))
      × (ws_close later host true true mid s site' ≡ done site'')
      × ((u : ℤ) → find u site''.sessions ≡ find u site.sessions)
      × ((h : Host) (u : ℤ) → count_of h u site''.hashes ≡ count_of h u site.hashes)
      × ((m : ℕ) → in_use m site''.mids ≡ (if mid == m then false else in_use m site.mids))
unfolding return_mobile_id
ws_close-ws_open now later host s mid site tidy p lt id =
    let open_site = opened host s mid site in
    (
      open_site,
      closed host s mid open_site,
      ws_open-opened host s mid now site (pos_not_neg s.uid p),
      ws_close-closed host s mid later open_site p lt id,
      λ u. (remove_session-add_session s site.sessions u tidy).0,
      λ h u. offline-online host h s.uid u site.hashes,
      λ m. in_use-srem mid m site.mids,
    )
