-- ===== src/Tests/Values.antt =====
-- Timestamps and configurations.
use mergeshare.Prelude.{ℕ, ◌^◌, ◌<◌, ◌≤◌, ◌≡◌, refl, true, some, arith}
use mergeshare.Timestamp.{at, TimeRange}
use mergeshare.Config.{
  default, with_capacity, is_valid, is_power_of_two, round_up_capacity_to_power_of_two, round_up,
  bit_and,
}
use mergeshare.Config.PowerOfTwo.{round_up_capacity-least}

abbrev morning : TimeRange
morning = record { start = at 10; end = at 20 }

abbrev noon : TimeRange
noon = record { start = at 15; end = at 30 }

default-is_valid : is_valid default ≡ true
unfolding is_valid
default-is_valid = refl

round_up_5 : round_up_capacity_to_power_of_two 64 (with_capacity 5) ≡ some (with_capacity 8)
unfolding round_up_capacity_to_power_of_two is_power_of_two round_up bit_and
round_up_5 = refl

round_up_capacity-least_example :
    (k : ℕ) × (round_up_capacity_to_power_of_two 64 (with_capacity 1000)
      ≡ some (with_capacity (2 ^ k)))
    × (1000 ≤ 2 ^ k)
    × (2 ^ k < 2000)
round_up_capacity-least_example =
    round_up_capacity-least (with_capacity 1000) (omega arith) (omega arith)
