-- ===== src/Timestamp/Laws.antt =====
-- The arithmetic of timestamps and time ranges, within 64 bits.
use Prim.Native.Nat.{max}
use mergeshare.Prelude.{◌+◌, ◌<◌, ◌≡◌, ◌↔◌, true, arith, u64_mod, min}
use mergeshare.Timestamp.{
  Timestamp, at, add, sub, abs_diff, TimeRange, range_valid, duration, contains, overlaps,
}

abbrev pub Fits : Timestamp → Type 0
Fits t = t.nanoseconds < u64_mod

-- For timestamps of 64 bits, adding and subtracting one undo each other, wrap-around included.
pub sub-add : (s t : Timestamp) → Fits s → Fits t → (sub (add s t) t ≡ s) × (add (sub s t) t ≡ s)
unfolding sub add
sub-add s t hs ht = ground arith

-- For timestamps of 64 bits, `abs_diff` is the distance: it is the same both ways, and added to
-- the earlier of two timestamps it gives the later one.
pub abs_diff_lem :
    (s t : Timestamp)
    → Fits s
    → Fits t
    → (abs_diff s t ≡ abs_diff t s)
      × (min s.nanoseconds t.nanoseconds + (abs_diff s t).nanoseconds
          ≡ max s.nanoseconds t.nanoseconds)
unfolding abs_diff
abs_diff_lem s t hs ht = ground arith

-- For a valid range of 64-bit timestamps: from its start the duration leads to its end, and both
-- ends lie in it.
pub range_valid-duration :
    (r : TimeRange)
    → Fits r.start
    → Fits r.end
    → range_valid r ≡ true
    → (r.start.nanoseconds + (duration r).nanoseconds ≡ r.end.nanoseconds)
      × (contains r r.start ≡ true)
      × (contains r r.end ≡ true)
unfolding range_valid duration contains
range_valid-duration r hs he h = ground arith

-- Two valid ranges overlap exactly when some timestamp lies in both.
pub overlaps_iff :
    (r s : TimeRange)
    → range_valid r ≡ true
    → range_valid s ≡ true
    → (overlaps r s ≡ true) ↔ ((t : Timestamp) × (contains r t ≡ true) × (contains s t ≡ true))
unfolding range_valid overlaps contains
overlaps_iff r s hr hs =
    (λ h. (later, ground arith, ground arith), λ c. let t = c.0 in ground (arith, c.1, c.2))
  where
    later : Timestamp
    later = at (max r.start.nanoseconds s.start.nanoseconds)
