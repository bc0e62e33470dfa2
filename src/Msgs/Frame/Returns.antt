-- ===== src/Msgs/Frame/Returns.antt =====
-- msgs/msgs.go: `MarshalBytes` returns for every message, with its parts in their places.
use slot_golang.Base.{
  ℕ, zero, suc, ◌+◌, ◌-◌, ◌%◌, ◌^◌, ◌≤◌, ◌<◌, ◌≡◌, refl, sym, ap, ◌∙◌, List, [], ◌∷◌, ◌++◌, some,
  arith, length, take, drop, set, length-append, length-set, length-drop, take-append_of_length,
  drop-append_of_length,
}
use mathlib.Core.List.{append_assoc}
use slot_golang.Base.Run.{done, ◌>>=◌}
use slot_golang.Envelope.Buffers.{split_at}
use slot_golang.Msgs.Checksum.{checksum_header}
use slot_golang.Msgs.Checksum.Detects.{crc, checksum_header-crc}
use slot_golang.Msgs.Frame.{AppMsg, forward_part, frame_marshal_bytes, app_marshal_bytes}
use slot_golang.Msgs.Frame.Reads.{frame_bytes, frame_marshal_bytes-layout, length-frame_bytes}
use slot_golang.Msgs.Frame.Sums.{
  data_bytes, length-data_bytes, forward_bytes, forward_part-bytes, stamped, headers,
  app_marshal_bytes-sums, put_sums_lem,
}

-- Within the length of a message there is a checksum.
checksum_header_within :
    (b : List ℕ) (n : ℕ) → n ≤ length b → (h : ℕ) × (checksum_header b n ≡ some h)
checksum_header_within b n le =
    let (xs, ys, e, l) = split_at n b le in
    (
      crc 0 xs,
      ap (λ z. checksum_header z n) e
          ∙ ap (checksum_header (xs ++ ys)) (sym l)
          ∙ checksum_header-crc xs ys,
    )

-- What is written outside a part leaves the part as it was.
take-set : (k i x : ℕ) (b : List ℕ) → k ≤ i → take k (set b i x) ≡ take k b
take-set k i x [] h = refl
take-set zero zero x (y ∷ b) h = refl
take-set zero (suc i) x (y ∷ b) h = refl
take-set (suc k) zero x (y ∷ b) h = absurd (omega arith)
take-set (suc k) (suc i) x (y ∷ b) h = ap (◌∷◌ y) (take-set k i x b (omega arith))

drop-set : (k i x : ℕ) (b : List ℕ) → i < k → drop k (set b i x) ≡ drop k b
drop-set k i x [] h = refl
drop-set zero i x (y ∷ b) h = absurd (omega arith)
drop-set (suc k) zero x (y ∷ b) h = refl
drop-set (suc k) (suc i) x (y ∷ b) h = drop-set k i x b (omega arith)

pub app_marshal_bytes_returns :
    (now : ℕ) (m : AppMsg)
    → (front middle bytes : List ℕ) × (app_marshal_bytes now m
        ≡ done (record m { frame_header = record (m.frame_header) { time = now % 2 ^ 32 } }, bytes))
      × (forward_part m.forward_header ≡ done front)
      × (frame_marshal_bytes (record (m.frame_header) { time = now % 2 ^ 32 }) ≡ done middle)
      × (length middle ≡ 24 + length m.frame_header.guid)
      × (take (length (front ++ middle)) bytes ≡ front ++ middle)
      × (length bytes ≡ length (front ++ middle) + 12 + length m.body)
      × (drop (length (front ++ middle) + 12) bytes ≡ m.body)
app_marshal_bytes_returns now m =
    let front = forward_bytes m.forward_header in
    let frame = (stamped now m).frame_header in
    let header = data_bytes m.data_header (length m.body) in
    let header_len = length-data_bytes m.data_header (length m.body) in
    let head = headers now m in
    let buf = head ++ (header ++ m.body) in
    let buf_len = length-append head (header ++ m.body) in
    let rest_len = length-append header m.body in
    let n = 8 + length head in
    let q = 10 + length head in
    let k = length head + 12 in
    let (h, first) = checksum_header_within buf n (omega arith) in
    let b1 = set buf n h in
    let len1 = length-set buf n h in
    let (c, second) =
      checksum_header_within (drop q b1) (length buf - q) (omega (arith, length-drop q b1)) in
    let head_kept =
      take-set (length head) (suc n) c b1 (omega arith)
      ∙ take-set (length head) n h buf (omega arith) in
    let body_kept = drop-set k (suc n) c b1 (omega arith) ∙ drop-set k n h buf (omega arith) in
    (
      front,
      frame_bytes frame,
      set b1 (suc n) c,
      app_marshal_bytes-sums now m
          ∙ ap (λ r. r >>= λ b. done (stamped now m, b))
              (put_sums_lem buf (9 + length head) q n (suc n) h c (omega arith) (omega arith)
                (omega arith) (omega arith) first second),
      forward_part-bytes m.forward_header,
      frame_marshal_bytes-layout frame,
      length-frame_bytes frame,
      head_kept ∙ take-append_of_length (length head) head (header ++ m.body) refl,
      omega (arith, length-set b1 (suc n) c),
      body_kept
          ∙ ap (drop k) (sym (append_assoc head header m.body))
          ∙ drop-append_of_length k (head ++ header) m.body
              (omega (arith, length-append head header)),
    )
