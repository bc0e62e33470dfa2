-- ===== src/Comet/Login/Accepted.antt =====
-- comet/websocket.go: a login with the right md5, in time.
use slot_golang.Base.{
  ℕ, ◌+◌, ◌-◌, ◌*◌, ◌/◌, ◌%◌, ◌^◌, ◌≤◌, ◌<◌, ◌≡◌, refl, ap, sym, ◌∙◌, ◌⊎◌, inl, inr, true, false,
  ◌&&◌, List, [], ◌∷◌, some, arith, ltb, leb, ◌==◌, Bool-cases,
}
use slot_golang.Base.Int64.{ℤ, pos, IsInt64}
use slot_golang.Base.Decimal.{parse_uint, split}
use slot_golang.Base.Format.{
  Without, format_int, format_uint, format_uint-cons, parse_int-format_int, format_int-Without,
  scan_digits-format_uint, split-append, split-whole,
}
use slot_golang.Base.Maps.{bytes_eq_iff}
use slot_golang.Comet.Udp.Commands.{base64, char_of}
use slot_golang.Comet.Login.{
  needed, with_args, get_login_params, login_text, k_login_key, token, is_auth,
}

parse_uint-format_uint : (n : ℕ) → n < 2 ^ 64 → parse_uint (format_uint n) ≡ (n, true)
unfolding parse_uint
parse_uint-format_uint n h = rw (parse_uint, scan_digits-format_uint n h) refl

needed_step :
    (s : List ℕ) (n c : ℕ) (t : List ℕ) → s ≡ c ∷ t → parse_uint s ≡ (n, true) → needed s ≡ some n
needed_step s n c t e p = rw e (rw (ap parse_uint (sym e) ∙ p) refl)

needed-format_uint : (n : ℕ) → n < 2 ^ 64 → needed (format_uint n) ≡ some n
needed-format_uint n h =
    let (c, s, e, d) = format_uint-cons n in
    needed_step (format_uint n) n c s e (parse_uint-format_uint n h)

char_of_other : (n : ℕ) → (char_of n == b'|') ≡ false
char_of_other n = ground arith

base64-Without : (s : List ℕ) → Without b'|' (base64 s)
unfolding base64
base64-Without [] = tt
base64-Without (a ∷ []) = (char_of_other (a / 4), (char_of_other (a % 4 * 16), (refl, (refl, tt))))
base64-Without (a ∷ b ∷ []) = (
  char_of_other (a / 4),
  (char_of_other (a % 4 * 16 + b / 16), (char_of_other (b % 16 * 4), (refl, tt))),
)
base64-Without (a ∷ b ∷ c ∷ s) = (
  char_of_other (a / 4),
  (
    char_of_other (a % 4 * 16 + b / 16),
    (char_of_other (b % 16 * 4 + c / 64), (char_of_other (c % 64), base64-Without s)),
  ),
)

split-login_text :
    (id : ℤ) (timestamp timeout : ℕ) (last : List ℕ)
    → Without b'|' last
    → split b'|' (login_text id timestamp timeout last)
      ≡ format_int id ∷ format_uint timestamp ∷ format_uint timeout ∷ last ∷ []
split-login_text id timestamp timeout last h =
    split-append b'|' (format_int id) _ (format_int-Without b'|' id (inr (omega arith)))
    ∙ ap (◌∷◌ (format_int id)) (
        split-append b'|' (format_uint timestamp) _ (format_uint-Without timestamp)
        ∙ ap (◌∷◌ (format_uint timestamp)) (
            split-append b'|' (format_uint timeout) last (format_uint-Without timeout)
            ∙ ap (◌∷◌ (format_uint timeout)) (split-whole b'|' last h)))
  where
    format_uint-Without : (n : ℕ) → Without b'|' (format_uint n)
    format_uint-Without n = unfold format_int in format_int-Without b'|' (pos n) (inr (omega arith))

-- What a login sends is read back.
get_login_params-login_text :
    (id : ℤ) (timestamp timeout : ℕ) (last : List ℕ)
    → IsInt64 id
    → timestamp < 2 ^ 64
    → timeout < 2 ^ 64
    → Without b'|' last
    → get_login_params (login_text id timestamp timeout last) ≡ some (id, timestamp, timeout, last)
unfolding get_login_params
get_login_params-login_text id timestamp timeout last hi hs ht hl =
    ap with_args (split-login_text id timestamp timeout last hl)
    ∙ rw
        (parse_int-format_int id hi, needed-format_uint timestamp hs, needed-format_uint timeout ht)
        refl

in_time :
    (now timestamp : ℕ)
    → now < 2 ^ 64
    → timestamp ≡ 0 ⊎ ((timestamp ≤ now) × (now < timestamp + 60))
    → (ltb 0 timestamp && leb 60 ((now + 2 ^ 64 - timestamp) % 2 ^ 64)) ≡ false
in_time now timestamp h (inl e) = rw e refl
in_time now timestamp h (inr (lo, hi)) = elim (Bool-cases (ltb 0 timestamp)) [
  | inr e ↦ rw e refl
  | inl e ↦ rw e (late ((now + 2 ^ 64 - timestamp) % 2 ^ 64) (omega arith))
]
  where
    late : (n : ℕ) → n < 60 → leb 60 n ≡ false
    late n h = ground arith

-- A login that states an int64 id, a timestamp and a timeout of 64 bits and the base64 of the md5 of these with the
-- key, where the timestamp is 0 or less than 60 seconds old, is parsed to what it states and passes `isAuth`,
-- whatever function md5 is.
pub is_auth-login_text :
    (now : ℕ) (md5_sum : List ℕ → List ℕ) (id : ℤ) (timestamp timeout : ℕ)
    → IsInt64 id
    → timestamp < 2 ^ 64
    → timeout < 2 ^ 64
    → now < 2 ^ 64
    → timestamp ≡ 0 ⊎ ((timestamp ≤ now) × (now < timestamp + 60))
    → (get_login_params (login_text id timestamp timeout (token now md5_sum id timestamp timeout))
        ≡ some (id, timestamp, timeout, token now md5_sum id timestamp timeout))
      × (is_auth now md5_sum id timestamp timeout (token now md5_sum id timestamp timeout) ≡ true)
unfolding is_auth
is_auth-login_text now md5_sum id timestamp timeout hi hs ht hn time = (
  get_login_params-login_text id timestamp timeout _ hi hs ht
      (base64-Without (md5_sum (login_text id timestamp timeout k_login_key))),
  rw (in_time now timestamp hn time)
      ((bytes_eq_iff (token now md5_sum id timestamp timeout) _).1 refl),
)
