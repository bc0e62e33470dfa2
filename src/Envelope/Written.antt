-- ===== src/Envelope/Written.antt =====
-- The bytes that the envelopes of Envelope are made of.
use slot_golang.Base.{
  ℕ, suc, ◌+◌, ◌*◌, ◌^◌, ◌<◌, ◌≤◌, ◌≡◌, refl, sym, ap, ◌∙◌, List, [], ◌∷◌, ◌++◌, le→leb, length,
  replicate, arith, length-append, length-replicate, take-all,
}
use mathlib.Core.List.{append_assoc}
use slot_golang.Base.Int64.{ℤ, to_u64}
use slot_golang.Base.Bytes.{put_le, write_at, length-put_le, length-write_at}
use slot_golang.Base.Run.{done}
use slot_golang.Envelope.{wrap16, write_ids, push2bus_data, down_data}
use slot_golang.Envelope.Buffers.{
  split_at, write_at-eight, write_at-front, write_at-last, checked_write,
}

-- The bytes of the ids.
unfoldable pub ids_bytes : List ℤ → List ℕ
ids_bytes [] = []
ids_bytes (id ∷ ids) = put_le 8 (to_u64 id) ++ ids_bytes ids

pub length-ids_bytes : (ids : List ℤ) → length (ids_bytes ids) ≡ length ids * 8
unfolding ids_bytes put_le
length-ids_bytes [] = refl
length-ids_bytes (id ∷ ids) = omega (arith, length-ids_bytes ids)

-- Writing the ids fills as many bytes as they need.
write_ids-middle :
    (wrap : ℕ → ℕ) (base : ℕ) (ids : List ℤ) (i : ℕ) (xs ys zs : List ℕ)
    → ((n : ℕ) → n ≤ (i + length ids) * 8 → wrap n ≡ n)
    → length xs ≡ base + i * 8
    → length ys ≡ length ids * 8
    → write_ids wrap base ids i (xs ++ (ys ++ zs)) ≡ done (xs ++ (ids_bytes ids ++ zs))
unfolding write_ids ids_bytes
write_ids-middle wrap base [] i xs [] zs small hx hy = refl
write_ids-middle wrap base [] i xs (y ∷ ys) zs small hx hy = absurd (omega arith)
write_ids-middle wrap base (id ∷ ids) i xs ys zs small hx hy =
    let (b, l, written) = write_at-eight xs ys zs (to_u64 id) (length ids * 8) (omega arith) in
    let here : wrap (i * 8) ≡ i * 8 = small (i * 8) (omega arith) in
    let next : wrap (i * 8 + 8) ≡ i * 8 + 8 = small (i * 8 + 8) (omega arith) in
    let room : base + (i * 8 + 8) ≤ length (xs ++ (ys ++ zs)) =
      omega (arith, length-append xs (ys ++ zs), length-append ys zs) in
    rw
      (
        here,
        next,
        le→leb (i * 8 + 8) (i * 8 + 8) (omega arith),
        le→leb (base + (i * 8 + 8)) (length (xs ++ (ys ++ zs))) room,
        ← hx,
        written,
      )
      (write_ids-middle wrap base ids (suc i) (xs ++ put_le 8 (to_u64 id)) b zs
          (λ n h. small n (omega arith))
          (omega (arith, length-append xs (put_le 8 (to_u64 id)), length-put_le 8 (to_u64 id))) l
        ∙ ap done (
            append_assoc xs (put_le 8 (to_u64 id)) (ids_bytes ids ++ zs)
            ∙ ap (◌++◌ xs) (sym (append_assoc (put_le 8 (to_u64 id)) (ids_bytes ids) zs))))

write_ids-front :
    (wrap : ℕ → ℕ) (ids : List ℤ) (xs ys : List ℕ) (k : ℕ)
    → ((n : ℕ) → n ≤ length ids * 8 → wrap n ≡ n)
    → length ys ≡ length ids * 8 + k
    → (b : List ℕ) × (length b ≡ k)
      × (write_ids wrap (length xs) ids 0 (xs ++ ys) ≡ done ((xs ++ ids_bytes ids) ++ b))
write_ids-front wrap ids xs ys k small h =
    let (a, b, e, l) = split_at (length ids * 8) ys (omega arith) in
    (
      b,
      omega (arith, length-append a b, ap (λ (t : List ℕ). length t) e),
      rw e (
          write_ids-middle wrap (length xs) ids 0 xs a b (λ n p. small n (omega arith))
            (omega arith) l
          ∙ ap done (sym (append_assoc xs (ids_bytes ids) b))),
    )

-- The bytes of the envelope to the bus.
unfoldable pub up_bytes : ℤ → List ℤ → List ℕ → List ℕ
up_bytes src_id ids msg =
    ((put_le 8 (to_u64 src_id) ++ put_le 2 (length ids)) ++ ids_bytes ids) ++ msg

pub push2bus_data-layout :
    (src_id : ℤ) (ids : List ℤ) (msg : List ℕ)
    → 10 + length ids * 8 + length msg < 2 ^ 16
    → push2bus_data src_id ids msg ≡ done (up_bytes src_id ids msg)
unfolding push2bus_data up_bytes put_le
push2bus_data-layout src_id ids msg h =
    let n = length ids in
    let len = 10 + n * 8 + length msg in
    let (b1, l1, e1) =
      write_at-front [] (replicate len 0) (put_le 8 (to_u64 src_id)) (2 + n * 8 + length msg)
        (omega (arith, length-replicate {A = ℕ} len 0)) in
    let (b2, l2, e2) =
      write_at-front (put_le 8 (to_u64 src_id)) b1 (put_le 2 n) (n * 8 + length msg)
        (omega arith) in
    let (b3, l3, e3) =
      write_ids-front wrap16 ids (put_le 8 (to_u64 src_id) ++ put_le 2 n) b2 (length msg)
        (λ m p. omega arith) (omega arith) in
    let size : wrap16 n ≡ n = omega arith in
    let rest : wrap16 (length msg) ≡ length msg = omega arith in
    let total : wrap16 (8 + 2 + n * 8 + length msg) ≡ len = omega arith in
    let start : wrap16 (8 + 2 + n * 8) ≡ 10 + n * 8 = omega arith in
    let buf = replicate len 0 in
    let filled = write_at (write_at buf 0 (put_le 8 (to_u64 src_id))) 8 (put_le 2 n) in
    let filled_length : length filled ≡ len =
      length-write_at (write_at buf 0 (put_le 8 (to_u64 src_id))) 8 (put_le 2 n)
      ∙ length-write_at buf 0 (put_le 8 (to_u64 src_id))
      ∙ length-replicate {A = ℕ} len 0 in
    let here : 10 + n * 8 ≡ length ((put_le 8 (to_u64 src_id) ++ put_le 2 n) ++ ids_bytes ids) =
      omega (arith, length-ids_bytes ids) in
    rw
      (
        size,
        rest,
        total,
        start,
        take-all n ids (omega arith),
        le→leb 10 (length buf) (omega (arith, length-replicate {A = ℕ} len 0)),
        le→leb 10 (10 + n * 8) (omega arith),
        le→leb (10 + n * 8) (length filled) (omega arith),
      )
      (rw (e1, e2, e3)
        (ap done (
          write_at-last ((put_le 8 (to_u64 src_id) ++ put_le 2 n) ++ ids_bytes ids) b3 msg
            (10 + n * 8) here l3)))

-- The bytes of the envelope to a comet, which are the ones to the bus without the source.
unfoldable pub down_bytes : List ℤ → List ℕ → List ℕ
down_bytes ids msg = put_le 2 (length ids) ++ (ids_bytes ids ++ msg)

pub down_data-layout :
    (ids : List ℤ) (msg : List ℕ)
    → 10 + length ids * 8 + length msg < 2 ^ 16
    → down_data ids msg ≡ done (down_bytes ids msg)
unfolding down_data down_bytes put_le
down_data-layout ids msg h =
    let n = length ids in
    let len = 2 + n * 8 + length msg in
    let buf = replicate len 0 in
    let (b1, l1, e1) =
      write_at-front [] buf (put_le 2 n) (n * 8 + length msg)
        (omega (arith, length-replicate {A = ℕ} len 0)) in
    let (b2, l2, e2) =
      write_ids-front (λ m. m) ids (put_le 2 n) b1 (length msg) (λ m p. refl) (omega arith) in
    let size : wrap16 n ≡ n = omega arith in
    let rest : wrap16 (length msg) ≡ length msg = omega arith in
    let total : wrap16 len ≡ len = omega arith in
    let start : wrap16 (2 + n * 8) ≡ 2 + n * 8 = omega arith in
    let here : 2 + n * 8 ≡ length (put_le 2 n ++ ids_bytes ids) =
      omega (arith, length-ids_bytes ids) in
    rw
      (
        size,
        rest,
        total,
        start,
        le→leb 2 (length buf) (omega (arith, length-replicate {A = ℕ} len 0)),
      )
      (rw (e1, e2)
        (checked_write (put_le 2 n ++ ids_bytes ids) b2 msg (2 + n * 8) here l2
          ∙ ap done (append_assoc (put_le 2 n) (ids_bytes ids) msg)))
