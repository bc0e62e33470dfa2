-- ===== src/Rates/Windows.antt =====
-- comet/status.go, msgbus/status.go: the rates are those of the last 1, 60 and 300 seconds.
use slot_golang.Base.{
  ℕ, zero, suc, ◌+◌, ◌-◌, ◌/◌, ◌%◌, ◌^◌, ◌<◌, ◌≡◌, refl, ap, List, [], ◌∷◌, ◌++◌, ◌==◌,
  if◌then◌else◌, arith, Bool-cases, inl, inr,
}
use slot_golang.Rates.{Last, Names, Locals, sub_u64, begin, window, renew, stream, second}

-- The totals when the current window of each length began, after n seconds.
abbrev began : (ℕ → ℕ) → ℕ → Last
began r n = record { s1 = r n; m1 = r (n - n % 60); m5 = r (n - n % 300) }

renewed_60 :
    (n : ℕ) (r : ℕ → ℕ) → renew 60 (suc n) (r (suc n)) (r (n - n % 60)) ≡ r (suc n - suc n % 60)
renewed_60 n r = elim (Bool-cases ((suc n % 60) == 0)) [
  | inl e ↦ rw e (ap r (ground arith))
  | inr e ↦ rw e (ap r (ground arith))
]

renewed_300 :
    (n : ℕ) (r : ℕ → ℕ) → renew 300 (suc n) (r (suc n)) (r (n - n % 300)) ≡ r (suc n - suc n % 300)
renewed_300 n r = elim (Bool-cases ((suc n % 300) == 0)) [
  | inl e ↦ rw e (ap r (ground arith))
  | inr e ↦ rw e (ap r (ground arith))
]

-- The rate over the last k seconds, in each k-th second.
abbrev pub rate : {K : Type 0} → K → ℕ → (ℕ → ℕ) → ℕ → List (K × ℕ)
rate key k r n = if n % k == 0 then (key, sub_u64 (r n) (r (n - k)) / k) ∷ [] else []

module _ {K : Type 0} where
  window_60 :
      (key : K) (n : ℕ) (r : ℕ → ℕ)
      → window key 60 (suc n) (r (suc n)) (r (n - n % 60)) ≡ rate key 60 r (suc n)
  window_60 key n r = elim (Bool-cases ((suc n % 60) == 0)) [
    | inl e ↦ rw e (ap (λ x. (key, sub_u64 (r (suc n)) (r x) / 60) ∷ []) (ground arith))
    | inr e ↦ rw e refl
  ]

  window_300 :
      (key : K) (n : ℕ) (r : ℕ → ℕ)
      → window key 300 (suc n) (r (suc n)) (r (n - n % 300)) ≡ rate key 300 r (suc n)
  window_300 key n r = elim (Bool-cases ((suc n % 300) == 0)) [
    | inl e ↦ rw e (ap (λ x. (key, sub_u64 (r (suc n)) (r x) / 300) ∷ []) (ground arith))
    | inr e ↦ rw e refl
  ]

  -- The rates of a stream in second n + 1.
  abbrev pub rates : Names K → (ℕ → ℕ) → ℕ → List (K × ℕ)
  rates names r n =
      (names.ps1s, sub_u64 (r (suc n)) (r n))
      ∷ (rate names.ps1m 60 r (suc n) ++ rate names.ps5m 300 r (suc n))

  stream-rates :
      (names : Names K) (n : ℕ) (r : ℕ → ℕ)
      → stream names (suc n) (r (suc n)) (began r n) ≡ (rates names r n, began r (suc n))
  unfolding stream
  stream-rates names n r =
      rw (window_60 names.ps1m n r, window_300 names.ps5m n r, renewed_60 n r, renewed_300 n r) refl

module _ {K : Type 0} (up down : Names K) (u d : ℕ → ℕ) where
  -- The loop after n seconds, where u i and d i are the totals that it reads in second i (in second 0, before it).
  unfoldable pub after : ℕ → Locals
  after zero = record { n1s = 0; up = begin (u 0); down = begin (d 0) }
  after (suc n) = (second up down (u (suc n)) (d (suc n)) (after n)).1

  -- What is set in second n + 1.
  unfoldable pub sets : ℕ → List (K × ℕ)
  sets n = (second up down (u (suc n)) (d (suc n)) (after n)).0

  abbrev locals : ℕ → Locals
  locals n = record { n1s = n; up = began u n; down = began d n }

  second-rates :
      (n : ℕ)
      → suc n < 2 ^ 64
      → second up down (u (suc n)) (d (suc n)) (locals n)
        ≡ (rates up u n ++ rates down d n, locals (suc n))
  unfolding second
  second-rates n h =
      let same : (n + 1) % 2 ^ 64 ≡ suc n = omega arith in
      rw same (rw (stream-rates up n u, stream-rates down n d) refl)

  after-began : (n : ℕ) → n < 2 ^ 64 → after n ≡ locals n
  unfolding after second
  after-began zero h = refl
  after-began (suc n) h =
      rw (after-began n (omega arith)) (ap (λ (x : List (K × ℕ) × Locals). x.1) (second-rates n h))

  -- In each of the first 2^64 seconds the loop sets, for both streams in turn, the rate of the last second, in
  -- every 60th second that of the last 60, and in every 300th that of the last 300, and nothing else, where the
  -- total of a stream in a second is whatever was read then, and the differences are in 64 bits.
  pub sets-rates : (n : ℕ) → suc n < 2 ^ 64 → sets n ≡ rates up u n ++ rates down d n
  unfolding sets second
  sets-rates n h =
      rw (after-began n (omega arith)) (ap (λ (x : List (K × ℕ) × Locals). x.0) (second-rates n h))
