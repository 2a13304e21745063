-- ===== src/Timestamp.antt =====
-- multiqueue-shm/core/include/multiqueue/timestamp.hpp: nanosecond timestamps and time ranges.
-- The conversions from and to `double` and to text are left out.
pub mod Laws
use mergeshare.Prelude.{ℕ, Bool, not, ◌&&◌, ◌||◌, ltb, leb, ◌==◌, if◌then◌else◌, add64, sub64}

pub record Timestamp : Type 0 where
  pub nanoseconds : ℕ

abbrev pub at : ℕ → Timestamp
at n = record { nanoseconds = n }

-- `Timestamp()`
abbrev pub epoch : Timestamp
epoch = at 0

unfoldable pub valid : Timestamp → Bool
valid t = ltb 0 t.nanoseconds

unfoldable pub equal : Timestamp → Timestamp → Bool
equal s t = s.nanoseconds == t.nanoseconds

unfoldable pub before : Timestamp → Timestamp → Bool
before s t = ltb s.nanoseconds t.nanoseconds

unfoldable pub at_most : Timestamp → Timestamp → Bool
at_most s t = leb s.nanoseconds t.nanoseconds

-- `operator+` and `operator-`, on `uint64_t`
unfoldable pub add : Timestamp → Timestamp → Timestamp
add s t = at (add64 s.nanoseconds t.nanoseconds)

unfoldable pub sub : Timestamp → Timestamp → Timestamp
sub s t = at (sub64 s.nanoseconds t.nanoseconds)

unfoldable pub abs_diff : Timestamp → Timestamp → Timestamp
unfolding before sub
abs_diff a b = if before b a then sub a b else sub b a

pub record TimeRange : Type 0 where
  pub start : Timestamp
  pub end : Timestamp

abbrev pub no_range : TimeRange
no_range = record { start = epoch; end = epoch }

unfoldable pub range_valid : TimeRange → Bool
unfolding valid before
range_valid r = valid r.start && valid r.end && before r.start r.end

unfoldable pub duration : TimeRange → Timestamp
unfolding sub
duration r = sub r.end r.start

unfoldable pub contains : TimeRange → Timestamp → Bool
unfolding at_most
contains r t = at_most r.start t && at_most t r.end

unfoldable pub overlaps : TimeRange → TimeRange → Bool
unfolding before
overlaps r s = not (before r.end s.start || before s.end r.start)
