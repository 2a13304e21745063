-- ===== src/Config.antt =====
-- multiqueue-shm/core/include/multiqueue/config.hpp: the settings of a ring queue. Strings are
-- lists of bytes; `async_thread_count` is an `int`.
pub mod PowerOfTwo
use mergeshare.Prelude.{
  ℕ, zero, suc, ◌+◌, ◌-◌, ◌*◌, ◌/◌, ◌%◌, Bool, true, false, not, ◌&&◌, ◌||◌, List, [], Option, none,
  some, length, ltb, leb, ◌==◌, if◌then◌else◌, ℤ, pos, negsuc, u64_mod, sub64,
}

pub data QueueRole : Type 0 where
  producer consumer : QueueRole

pub data BlockingMode : Type 0 where
  blocking non_blocking : BlockingMode

-- `QueueConfig`
pub record QueueConfig : Type 0 where
  pub capacity : ℕ
  pub queue_role : QueueRole
  pub blocking_mode : BlockingMode
  pub timeout_ms : ℕ
  pub has_timestamp : Bool
  pub open_retry_count : ℕ
  pub open_retry_interval_ms : ℕ
  pub queue_name : List ℕ
  pub extra_queue_names : List (List ℕ)
  pub user_metadata : List ℕ
  pub enable_async : Bool
  pub async_buffer_size : ℕ
  pub async_thread_count : ℤ
  pub enable_batch_optimization : Bool
  pub enable_spin_wait : Bool
  pub spin_wait_iterations : ℕ

-- `QueueConfig()` and `QueueConfig(cap)`
abbrev pub default : QueueConfig
default = record {
  capacity = 1024;
  queue_role = producer;
  blocking_mode = blocking;
  timeout_ms = 1000;
  has_timestamp = false;
  open_retry_count = 10;
  open_retry_interval_ms = 100;
  queue_name = [];
  extra_queue_names = [];
  user_metadata = [];
  enable_async = false;
  async_buffer_size = 256;
  async_thread_count = pos 1;
  enable_batch_optimization = true;
  enable_spin_wait = true;
  spin_wait_iterations = 1000;
}

abbrev pub with_capacity : ℕ → QueueConfig
with_capacity cap = record default { capacity = cap }

-- `n <= 0 || n > 64`
abbrev bad_thread_count : ℤ → Bool
bad_thread_count (pos n) = (n == 0) || ltb 64 n
bad_thread_count (negsuc n) = true

unfoldable pub is_valid : QueueConfig → Bool
is_valid c =
    if c.capacity == 0
    then false
    else if ltb 3600000 c.timeout_ms
    then false
    else if ltb 512 (length c.user_metadata)
    then false
    else if c.enable_async
    then (if bad_thread_count c.async_thread_count
        then false
        else if c.async_buffer_size == 0
        then false
        else true)
    else true

-- `a & b` on `w` bits
unfoldable pub bit_and : ℕ → ℕ → ℕ → ℕ
bit_and zero a b = 0
bit_and (suc w) a b =
    (if (a % 2 == 1) && (b % 2 == 1) then 1 else 0) + 2 * bit_and w (a / 2) (b / 2)

unfoldable pub is_power_of_two : QueueConfig → Bool
is_power_of_two c = not (c.capacity == 0) && (bit_and 64 c.capacity (sub64 c.capacity 1) == 0)

-- The loop of `round_up_capacity_to_power_of_two`, of at most the given number of tests; `none` has
-- made them all and goes on.
unfoldable pub round_up : ℕ → ℕ → ℕ → Option ℕ
round_up zero power capacity = none
round_up (suc fuel) power capacity =
    let rest = round_up fuel (power * 2 % u64_mod) capacity in
    if ltb power capacity then rest else some power

unfoldable pub round_up_capacity_to_power_of_two : ℕ → QueueConfig → Option QueueConfig
round_up_capacity_to_power_of_two fuel c =
    if is_power_of_two c then some c else elim (round_up fuel 1 c.capacity) [
      | none ↦ none
      | some power ↦ some (record c { capacity = power })
    ]
