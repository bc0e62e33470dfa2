-- ===== src/Comet/Redis/Tests.antt =====
-- The keys of a comet in redis at concrete values.
use slot_golang.Base.{ℕ, ◌≡◌, List, [], ◌∷◌, ◌==◌, if◌then◌else◌, false}
use slot_golang.Comet.Redis.{in_use, select_mobile_id, return_mobile_id}
use slot_golang.Comet.Redis.Mobiles.{Selected, select_mobile_id_lem, return_mobile_id_select}

abbrev two_in_use : List ℕ
two_in_use = 1 ∷ 2 ∷ []

select_mobile_id_lem_example : Selected 1 15 two_in_use (select_mobile_id two_in_use)
select_mobile_id_lem_example = select_mobile_id_lem two_in_use

return_mobile_id_select_example :
    in_use 2 (return_mobile_id (select_mobile_id two_in_use).1 (select_mobile_id two_in_use).0).0
    ≡ (if (select_mobile_id two_in_use).1 == 2 then false else in_use 2 two_in_use)
return_mobile_id_select_example = return_mobile_id_select two_in_use 2
