-- ===== src/MsgBus/Status.antt =====
-- msgbus/status.go: the counters of the bus, and its rates. `Inc` and `Dec` of a counter are calls of the library
-- `cloud-base/status`.
use slot_golang.Base.{ℕ, List, [], ◌∷◌}
use slot_golang.Rates.{Names, Locals, second}

pub data Key : Type 0 where
  up_stream_in up_stream_in_ps1s up_stream_in_ps1m up_stream_in_ps5m : Key
  down_stream_out down_stream_out_bad : Key
  down_stream_out_ps1s down_stream_out_ps1m down_stream_out_ps5m : Key
  msg_to_rmq comet_count rmq_count : Key

-- `InitStat`: the counters that it adds.
abbrev pub init_stat : List Key
init_stat =
    up_stream_in ∷ up_stream_in_ps1s ∷ up_stream_in_ps1m ∷ up_stream_in_ps5m ∷ down_stream_out
    ∷ down_stream_out_bad ∷ down_stream_out_ps1s ∷ down_stream_out_ps1m ∷ down_stream_out_ps5m
    ∷ comet_count ∷ rmq_count ∷ msg_to_rmq ∷ []

abbrev pub up_names : Names Key
up_names = record { ps1s = up_stream_in_ps1s; ps1m = up_stream_in_ps1m; ps5m = up_stream_in_ps5m }

abbrev pub down_names : Names Key
down_names = record {
  ps1s = down_stream_out_ps1s;
  ps1m = down_stream_out_ps1m;
  ps5m = down_stream_out_ps5m;
}

-- One round of `statUpdatePerSecond`, with the totals of `up_stream_in` and `down_stream_out`.
unfoldable pub stat_update : ℕ → ℕ → Locals → List (Key × ℕ) × Locals
unfolding second
stat_update = second up_names down_names
