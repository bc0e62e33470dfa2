-- ===== src/Comet/Connections/Logins.antt =====
-- comet/websocket.go: what a login does to the phone ids of its user.
use slot_golang.Base.{
  ℕ, zero, suc, ◌+◌, ◌%◌, ◌^◌, ◌<◌, ◌≡◌, refl, ap, sym, ◌∙◌, Bool, true, false, ◌⊎◌, inl, inr, List,
  [], ◌∷◌, Option, none, some, if◌then◌else◌, arith, ltb, ◌==◌, Bool-cases,
}
use slot_golang.Base.Int64.{ℤ, pos, negsuc, IsInt64, is_pos, is_zero, rem64, add64, sub64}
use slot_golang.Base.Decimal.{Scan, parse_int, parse_signed, scan_digits, split}
use slot_golang.Comet.Redis.{in_use, select_mobile_id}
use slot_golang.Comet.Redis.Mobiles.{select_mobile_id_lem}
use slot_golang.Comet.Udp.Store.{Env}
use slot_golang.Comet.Udp.Users.{get_user_devices}
use slot_golang.Comet.Login.{
  Params, Outcome, closes, closes_failed, logs_in, needed, with_args, with_numbers,
  get_login_params, ws_login, is_auth, login_phone, login_device, login_id, login_params,
}
use slot_golang.Comet.Connections.{login_user}

parse_signed-IsInt64 : (b : Bool) (s : Scan) → IsInt64 (parse_signed b s).0
parse_signed-IsInt64 b Scan.syntax_error = omega arith
parse_signed-IsInt64 true Scan.range_error = omega arith
parse_signed-IsInt64 false Scan.range_error = omega arith
parse_signed-IsInt64 true (Scan.number zero) = omega arith
parse_signed-IsInt64 true (Scan.number (suc n)) = ground arith
parse_signed-IsInt64 false (Scan.number n) = ground arith

pub parse_int-IsInt64 : (s : List ℕ) → IsInt64 (parse_int s).0
unfolding parse_int
parse_int-IsInt64 [] = omega arith
parse_int-IsInt64 (c ∷ s) = choice (c == b'-') (c == b'+')
  where
    choice :
        (a b : Bool)
        → IsInt64
            (if a
              then parse_signed true (scan_digits s)
              else if b
              then parse_signed false (scan_digits s)
              else parse_signed false (scan_digits (c ∷ s))).0
    choice true b = parse_signed-IsInt64 true (scan_digits s)
    choice false true = parse_signed-IsInt64 false (scan_digits s)
    choice false false = parse_signed-IsInt64 false (scan_digits (c ∷ s))

-- Not a login of a phone.
abbrev pub NoPhone : ℤ → Outcome → Type 0
NoPhone id (closes answer) = Unit {0}
NoPhone id closes_failed = Unit {0}
NoPhone id (logs_in uid mid ids) = (is_pos uid ≡ false) × (uid ≡ id) × IsInt64 uid

-- The login of a phone: one of the ids 1 to 15 that was free, added to the id of the user.
pub record IsPhone (user : ℤ) (mids : List ℕ) (r : Outcome × List ℕ) : Type 0 where
  pub n : ℕ
  pub m : ℕ
  pub ids : List ℤ
  pub whole : user ≡ pos n
  pub fits : n < 2 ^ 63
  pub block : n % 16 ≡ 0
  pub least : 0 < m
  pub most : m < 16
  pub free : in_use m mids ≡ false
  pub outcome : r.0 ≡ logs_in (pos (n + m)) m ids
  pub mids' : r.1 ≡ m ∷ mids

abbrev pub Login : ℤ → List ℕ → Outcome × List ℕ → Type 0
Login user mids r = ((r.1 ≡ mids) × NoPhone user r.0) ⊎ IsPhone user mids r

phone_id : (n m : ℕ) → n < 2 ^ 63 → n % 16 ≡ 0 → m < 16 → add64 (pos n) (pos (m % 16)) ≡ pos (n + m)
unfolding add64
phone_id n m h e l = ground arith

-- The user of a phone is found again from the id of the phone.
pub phone_user : (n m : ℕ) → n < 2 ^ 63 → n % 16 ≡ 0 → m < 16 → sub64 (pos (n + m)) (pos m) ≡ pos n
unfolding sub64
phone_user n m h e l = ground arith

module _ (now : ℕ) (md5_sum : List ℕ → List ℕ) (env : Env) (works : Bool) where
  phone-Login :
      (n : ℕ) (mids : List ℕ) (r : List ℕ × ℕ)
      → r ≡ select_mobile_id mids
      → n < 2 ^ 63
      → n % 16 ≡ 0
      → Login (pos n) mids (login_phone now md5_sum env (pos n) r)
  phone-Login n mids (mids', zero) e h b = elim (select_mobile_id_lem mids) [
    | inl (all, _) ↦ inl (ap (λ (x : List ℕ × ℕ). x.0) (e ∙ all), tt)
    | inr (_, lo, _, _) ↦ absurd (omega (arith, lo, ap (λ (x : List ℕ × ℕ). x.1) e))
  ]
  phone-Login n mids (mids', suc m) e h b = elim (select_mobile_id_lem mids) [
    | inl (all, _) ↦ absurd (omega (arith, ap (λ (x : List ℕ × ℕ). x.1) (e ∙ all)))
    | inr (cons, lo, hi, free) ↦
        let e' = ap (λ (x : List ℕ × ℕ). x.1) e in
        inr (record {
          n = n;
          m = suc m;
          ids = get_user_devices env (pos n);
          whole = refl;
          fits = h;
          block = b;
          least = omega arith;
          most = omega (arith, e', hi);
          free = rw e' free;
          outcome = rw (phone_id n (suc m) h b (omega (arith, e', hi))) refl;
          mids' = ap (λ (x : List ℕ × ℕ). x.0) e ∙ cons ∙ ap (λ x. x ∷ mids) (sym e');
        })
  ]

  device-Login :
      (id : ℤ) (o : Option (List ℤ)) (mids : List ℕ)
      → is_pos id ≡ false
      → IsInt64 id
      → Login id mids (login_device now md5_sum id o, mids)
  device-Login id none mids e h = inl (refl, tt)
  device-Login id (some ids) mids e h = inl (refl, (e, refl, h))

  multiple : (n : ℕ) → is_zero (rem64 (pos n) 16) ≡ true → n % 16 ≡ 0
  unfolding rem64
  multiple n e = ground arith

  not_pos : (n : ℕ) → is_pos (negsuc n) ≡ false
  not_pos n = refl

  id-Login :
      (id : ℤ) (mids : List ℕ) → IsInt64 id → Login id mids (login_id now md5_sum env works id mids)
  id-Login (negsuc n) mids h = device-Login (negsuc n) _ mids refl h
  id-Login (pos n) mids h = elim (Bool-cases (ltb 0 n)) [
    | inr none_left ↦ rw none_left (inl (refl, (none_left, refl, h)))
    | inl positive ↦ rw positive (elim (Bool-cases (is_zero (rem64 (pos n) 16))) [
      | inr odd ↦ rw odd (inl (refl, tt))
      | inl even ↦ rw even (elim (Bool-cases works) [
        | inr down ↦ rw down (inl (refl, tt))
        | inl up ↦ rw up (phone-Login n mids (select_mobile_id mids) refl h (multiple n even))
      ])
    ])
  ]

  IsParams : Option Params → Type 0
  IsParams none = Unit {0}
  IsParams (some (id, timestamp, timeout, md5_str)) = IsInt64 id

  params-Login :
      (o : Option Params) (mids : List ℕ)
      → IsParams o
      → Login (login_user o) mids (login_params now md5_sum env works o mids)
  unfolding IsParams
  params-Login none mids h = inl (refl, tt)
  params-Login (some (id, timestamp, timeout, md5_str)) mids h =
      elim (Bool-cases (is_auth now md5_sum id timestamp timeout md5_str)) [
        | inl e ↦ rw e (id-Login id mids h)
        | inr e ↦ rw e (inl (refl, tt))
      ]

  numbers-IsParams :
      (p : ℤ × Bool) (timestamp timeout : Option ℕ) (md5_str : List ℕ)
      → IsInt64 p.0
      → IsParams (with_numbers p timestamp timeout md5_str)
  unfolding IsParams
  numbers-IsParams (id, false) timestamp timeout md5_str h = tt
  numbers-IsParams (id, true) none timeout md5_str h = tt
  numbers-IsParams (id, true) (some timestamp) none md5_str h = tt
  numbers-IsParams (id, true) (some timestamp) (some timeout) md5_str h = h

  args-IsParams : (args : List (List ℕ)) → IsParams (with_args args)
  unfolding IsParams
  args-IsParams [] = tt
  args-IsParams (a ∷ []) = tt
  args-IsParams (a ∷ b ∷ []) = tt
  args-IsParams (a ∷ b ∷ c ∷ []) = tt
  args-IsParams (a ∷ b ∷ c ∷ d ∷ []) =
      numbers-IsParams (parse_int a) (needed b) (needed c) d (parse_int-IsInt64 a)
  args-IsParams (a ∷ b ∷ c ∷ d ∷ e ∷ rest) = tt

  -- A login of a phone takes a free phone id of its user; any other login leaves the phone ids alone.
  pub ws_login-Login :
      (req : List ℕ) (mids : List ℕ)
      → Login (login_user (get_login_params req)) mids (ws_login now md5_sum env works req mids)
  unfolding ws_login get_login_params
  ws_login-Login req mids =
      params-Login (get_login_params req) mids (args-IsParams (split b'|' req))

-- A text that is no login is answered with an error.
abbrev pub Rejected : Option Params → Outcome → Type 0
Rejected none o = o ≡ closes (1 ∷ [])
Rejected (some p) o = Unit {0}

pub ws_login-Rejected :
    (now : ℕ) (md5_sum : List ℕ → List ℕ) (env : Env) (works : Bool) (req : List ℕ) (mids : List ℕ)
    → Rejected (get_login_params req) (ws_login now md5_sum env works req mids).0
unfolding ws_login
ws_login-Rejected now md5_sum env works req mids = by_params (get_login_params req)
  where
    by_params : (o : Option Params) → Rejected o (login_params now md5_sum env works o mids).0
    by_params none = refl
    by_params (some p) = tt
