-- ===== src/Rates/Tests.antt =====
-- The rates of a comet that sends 3 messages a second and receives 5.
use slot_golang.Base.{◌*◌, ◌≡◌, ◌++◌, arith}
use slot_golang.Rates.Windows.{sets, rates, sets-rates}
use slot_golang.Comet.Status.{up_names, down_names}

sets-rates_example :
    sets up_names down_names (λ i. i * 3) (λ i. i * 5) 599
    ≡ rates up_names (λ i. i * 3) 599 ++ rates down_names (λ i. i * 5) 599
sets-rates_example = sets-rates up_names down_names (λ i. i * 3) (λ i. i * 5) 599 (omega arith)
