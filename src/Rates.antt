-- ===== src/Rates.antt =====
-- The loops `statUpdatePerSecond` of comet/status.go and msgbus/status.go, which differ only in the names of their
-- counters: the messages per second of two streams, over windows of 1, 60 and 300 seconds.
pub mod Windows
mod Tests
use slot_golang.Base.{ℕ, ◌+◌, ◌-◌, ◌/◌, ◌%◌, ◌^◌, List, [], ◌∷◌, ◌++◌, ◌==◌, if◌then◌else◌}

-- The totals at the start of the current window of each length.
pub record Last : Type 0 where
  pub s1 : ℕ
  pub m1 : ℕ
  pub m5 : ℕ

-- The names of the three rates of a stream.
pub record Names (K : Type 0) : Type 0 where
  pub ps1s : K
  pub ps1m : K
  pub ps5m : K

-- The local variables of the loop.
pub record Locals : Type 0 where
  pub n1s : ℕ
  pub up : Last
  pub down : Last

abbrev pub sub_u64 : ℕ → ℕ → ℕ
sub_u64 a b = (a + 2 ^ 64 - b) % 2 ^ 64

abbrev pub begin : ℕ → Last
begin total = record { s1 = total; m1 = total; m5 = total }

abbrev pub renew : ℕ → ℕ → ℕ → ℕ → ℕ
renew k n total last = if n % k == 0 then total else last

module _ {K : Type 0} where
  -- A window of k seconds: the rate is set when the number of seconds is a multiple of k.
  abbrev pub window : K → ℕ → ℕ → ℕ → ℕ → List (K × ℕ)
  window key k n total last = if n % k == 0 then (key, sub_u64 total last / k) ∷ [] else []

  -- One stream in one second: the calls of `Set`, in their order, and the new totals.
  unfoldable pub stream : Names K → ℕ → ℕ → Last → List (K × ℕ) × Last
  stream names n total last = (
    (names.ps1s, sub_u64 total last.s1)
        ∷ (window names.ps1m 60 n total last.m1 ++ window names.ps5m 300 n total last.m5),
    record { s1 = total; m1 = renew 60 n total last.m1; m5 = renew 300 n total last.m5 },
  )

  -- One round of the loop, with the totals that it reads.
  unfoldable pub second : Names K → Names K → ℕ → ℕ → Locals → List (K × ℕ) × Locals
  second up down u_total d_total l =
      let n1s = (l.n1s + 1) % 2 ^ 64 in
      let (sets, u) = stream up n1s u_total l.up in
      let (sets', d) = stream down n1s d_total l.down in
      (sets ++ sets', record { n1s = n1s; up = u; down = d })
