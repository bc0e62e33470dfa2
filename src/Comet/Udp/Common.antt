-- ===== src/Comet/Udp/Common.antt =====
-- comet/redis.go: `HandleCommonMsg` and `PushMsg` of a UDP comet, for what is published under "PubCommonMsg:".
pub mod Published
use slot_golang.Base.{
  ℕ, zero, suc, ◌+◌, ◌-◌, ◌*◌, ◌^◌, Bool, true, false, ◌&&◌, ◌||◌, List, [], ◌∷◌, ◌++◌, Option,
  none, some, if◌then◌else◌, ltb, leb, ◌==◌,
}
use slot_golang.Base.Int64.{ℤ}
use slot_golang.Base.Decimal.{split}
use slot_golang.Base.Format.{split_n}
use slot_golang.Base.Run.{Run, done, ◌>>=◌}
use slot_golang.Comet.Udp.Store.{Env, World}
use slot_golang.Comet.Udp.Users.{parsed_ids}
use slot_golang.Comet.Udp.Devices.{push_common_msg}

-- `SubCommonMsgKeyPrefix`, "PubCommonMsg:"
abbrev pub key_prefix : List ℕ
key_prefix =
    b'P' ∷ b'u' ∷ b'b' ∷ b'C' ∷ b'o' ∷ b'm' ∷ b'm' ∷ b'o' ∷ b'n' ∷ b'M' ∷ b's' ∷ b'g' ∷ b':' ∷ []

abbrev cut : List ℕ → List ℕ → Option (List ℕ)
cut [] s = some s
cut (p ∷ prefix) [] = none
cut (p ∷ prefix) (c ∷ s) = if p == c then cut prefix s else none

-- `strings.TrimPrefix`
unfoldable pub trim_prefix : List ℕ → List ℕ → List ℕ
trim_prefix s prefix = elim (cut prefix s) [ none ↦ s | some rest ↦ rest ]

-- The value of a digit of strconv; 36 stands for a character that is none.
abbrev digit_of : ℕ → ℕ
digit_of c =
    if leb b'0' c && leb c b'9'
    then c - b'0'
    else if leb b'a' c && leb c b'z'
    then c - b'a' + 10
    else if leb b'A' c && leb c b'Z'
    then c - b'A' + 10
    else 36

-- The digits after n, in 16 bits.
unfoldable pub scan_base : ℕ → List ℕ → ℕ → Option ℕ
scan_base base [] n = some n
scan_base base (c ∷ s) n =
    let more = scan_base base s (n * base + digit_of c) in
    if leb base (digit_of c) || ltb (2 ^ 16 - 1) (n * base + digit_of c) then none else more

abbrev digits : ℕ → List ℕ → Option ℕ
digits base [] = none
digits base (c ∷ s) = scan_base base (c ∷ s) 0

-- `strconv.ParseUint(s, 0, 16)` with the prefixes "0x" and "0"; `none` is the error.
unfoldable pub parse_uint16 : List ℕ → Option ℕ
unfolding scan_base
parse_uint16 [] = none
parse_uint16 (c ∷ []) = digits (if c == b'0' then 8 else 10) (c ∷ [])
parse_uint16 (c ∷ x ∷ s) =
    if c == b'0'
    then (if (x == b'x') || (x == b'X') then digits 16 s else digits 8 (x ∷ s))
    else digits 10 (c ∷ x ∷ s)

-- The ids of the devices, and the body.
abbrev two_fields : List (List ℕ) → Option (List ℤ × List ℕ)
two_fields [] = none
two_fields (a ∷ []) = none
two_fields (a ∷ b ∷ c ∷ rest) = none
two_fields (a ∷ b ∷ []) = some (parsed_ids (split b',' a), b)

-- What the message stands for: its id, where it goes to, and its body.
unfoldable pub parse_common_msg : List ℕ → List ℕ → Option (ℕ × List ℤ × List ℕ)
unfolding parse_uint16 trim_prefix
parse_common_msg channel text = elim (parse_uint16 (trim_prefix channel key_prefix)) [
  | none ↦ none
  | some mid ↦ elim (two_fields (split_n b'|' 2 text)) [
    | none ↦ none
    | some (ids, body) ↦ some (mid, ids, body)
  ]
]

-- `PushMsg` of a UDP comet; an error for one device does not stop the others.
unfoldable pub push_msg_all : Env → ℕ → List ℤ → List ℕ → World → Run World
push_msg_all env msg_id [] body w = done w
push_msg_all env msg_id (id ∷ ids) body w = do
  (w', err) ← push_common_msg env msg_id id body w
  push_msg_all env msg_id ids body w'

abbrev push_parsed : Env → Option (ℕ × List ℤ × List ℕ) → World → Run World
push_parsed env none w = done w
push_parsed env (some (msg_id, ids, body)) w = push_msg_all env msg_id ids body w

-- One round of the loop of `HandleCommonMsg`, with the goroutine that it starts.
unfoldable pub handle_common_msg : Env → List ℕ → List ℕ → World → Run World
unfolding parse_common_msg push_msg_all
handle_common_msg env channel text w = push_parsed env (parse_common_msg channel text) w
