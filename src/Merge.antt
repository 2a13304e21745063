-- ===== src/Merge.antt =====
-- multiqueue-shm/core/include/multiqueue/timestamp_sync.hpp: `MergedQueueView`, which reads several
-- queues as one. A queue is known to it by `try_pop` and `empty` alone, the interface `PopQueue`.
pub mod Select
pub mod Refill
pub mod Sorted
pub mod Start
pub mod Waiting
pub mod Timeout
pub mod Rings
use mergeshare.Prelude.{
  ℕ, zero, suc, ◌+◌, ◌-◌, ◌*◌, ◌/◌, ◌%◌, ◌≡◌, ◌↔◌, Bool, true, false, not, ◌&&◌, ◌||◌, List, [],
  ◌∷◌, ◌++◌, map, Option, none, some, length, set, get_or, replicate, ltb, if◌then◌else◌, add64,
  u64_max, u64_mod,
}

-- What the view uses of a queue of elements with timestamps, and what it relies on: `pending` is
-- what the consumer has still to read, oldest first.
pub record PopQueue (Q A : Type 0) : Type 0 where
  pub try_pop : Q → Q × Option (A × ℕ)
  pub empty : Q → Bool
  pub pending : Q → List (A × ℕ)
  pub pop_none : (q : Q) → pending q ≡ [] → ((try_pop q).1 ≡ none) × (pending (try_pop q).0 ≡ [])
  pub pop_some :
      (q : Q) (e : A × ℕ) (es : List (A × ℕ))
      → pending q ≡ e ∷ es
      → ((try_pop q).1 ≡ some e) × (pending (try_pop q).0 ≡ es)
  pub empty_iff : (q : Q) → (empty q ≡ true) ↔ (pending q ≡ [])

-- `SyncStats`
pub record SyncStats : Type 0 where
  pub total_synced : ℕ
  pub timeout_count : ℕ
  pub timestamp_rewind_count : ℕ

abbrev pub no_stats : SyncStats
no_stats = record { total_synced = 0; timeout_count = 0; timestamp_rewind_count = 0 }

-- `queues_[i]`, `buffers_[i]` and `has_data_[i]`: the constructor gives the three vectors one length.
pub record Lane (Q A : Type 0) : Type 0 where
  pub queue : Q
  pub datum : A
  pub timestamp : ℕ
  pub has_data : Bool

pub record MergedView (Q A : Type 0) : Type 0 where
  pub lanes : List (Lane Q A)
  pub last_timestamps : List ℕ
  pub stats : SyncStats

abbrev pub at_lane : {Q A : Type 0} → List (Lane Q A) → ℕ → Option (Lane Q A)
at_lane [] i = none
at_lane (l ∷ ls) zero = some l
at_lane (l ∷ ls) (suc i) = at_lane ls i

-- `last_timestamps_.resize(i + 1, 0)` where it is needed, and the write at `i`
unfoldable pub store_last : List ℕ → ℕ → ℕ → List ℕ
store_last ts i t =
    set (if ltb i (length ts) then ts else ts ++ replicate (i + 1 - length ts) 0) i t

-- The check for a timestamp that went back, and the last timestamp's update.
unfoldable pub note_time : {Q A : Type 0} → MergedView Q A → ℕ → ℕ → MergedView Q A
note_time v i t = record v {
  last_timestamps = store_last v.last_timestamps i t;
  stats =
      if ltb i (length v.last_timestamps) && ltb t (get_or v.last_timestamps i 0)
      then record v.stats { timestamp_rewind_count = add64 v.stats.timestamp_rewind_count 1 }
      else v.stats;
}

-- The test of the two loops that look for the least timestamp.
unfoldable pub better : Bool → ℕ → ℕ → ℕ × Option ℕ → ℕ × Option ℕ
better has t i best = if has && ltb t best.0 then (t, some i) else best

abbrev pub nothing_found : ℕ × Option ℕ
nothing_found = (u64_max, none)

-- `next`'s first loop, from lane `i` on: the least timestamp and its lane.
unfoldable pub find_min : {Q A : Type 0} → ℕ → List (Lane Q A) → ℕ × Option ℕ → ℕ × Option ℕ
find_min i [] best = best
find_min i (l ∷ ls) best = find_min (i + 1) ls (better l.has_data l.timestamp i best)

-- `has_data_[i] = false`
abbrev pub unload : {Q A : Type 0} → List (Lane Q A) → ℕ → List (Lane Q A)
unload [] i = []
unload (l ∷ ls) zero = record l { has_data = false } ∷ ls
unload (l ∷ ls) (suc i) = l ∷ unload ls i

-- What the writers did to the queues.
abbrev pub arrive : {Q A : Type 0} → (ℕ → Q → Q) → ℕ → List (Lane Q A) → List (Lane Q A)
arrive others i [] = []
arrive others i (l ∷ ls) = record l { queue = others i l.queue } ∷ arrive others (i + 1) ls

module _ {Q A : Type 0} (s : PopQueue Q A) where
  -- The pop of `try_fetch_next` and the writes to the buffer: the lane, and the timestamp got.
  unfoldable pub fetch : Lane Q A → Lane Q A × Option ℕ
  fetch l =
      let (q', item) = s.try_pop l.queue in
      elim item [
        | none ↦ (record l { queue = q' }, none)
        | some (x, t) ↦ (record { queue = q'; datum = x; timestamp = t; has_data = true }, some t)
      ]

  unfoldable pub fetch_at : List (Lane Q A) → ℕ → List (Lane Q A) × Option ℕ
  fetch_at [] i = ([], none)
  fetch_at (l ∷ ls) zero = ((fetch l).0 ∷ ls, (fetch l).1)
  fetch_at (l ∷ ls) (suc i) = (l ∷ (fetch_at ls i).0, (fetch_at ls i).1)

  -- `try_fetch_next`: the timestamp got stands for `true`.
  unfoldable pub try_fetch_next : MergedView Q A → ℕ → MergedView Q A × Option ℕ
  try_fetch_next v i =
      let (ls, got) = fetch_at v.lanes i in
      elim got [
        | none ↦ (record v { lanes = ls }, none)
        | some t ↦ (note_time (record v { lanes = ls }) i t, some t)
      ]

  -- The constructor's loop over the `n` lanes from `i` on.
  unfoldable pub prefetch : ℕ → ℕ → MergedView Q A → MergedView Q A
  prefetch zero i v = v
  prefetch (suc n) i v = prefetch n (i + 1) (try_fetch_next v i).0

  unfoldable pub make_view : A → List Q → MergedView Q A
  make_view blank qs = prefetch (length qs) 0 (record {
    lanes = map (λ q. record { queue = q; datum = blank; timestamp = 0; has_data = false }) qs;
    last_timestamps = [];
    stats = no_stats;
  })

  -- The loop inside the wait, over the `n` lanes from `i` on: whether any gave an element, and the
  -- least timestamp.
  unfoldable pub fetch_all :
      ℕ → ℕ → MergedView Q A → Bool → ℕ × Option ℕ → MergedView Q A × Bool × (ℕ × Option ℕ)
  fetch_all zero i v progress best = (v, progress, best)
  fetch_all (suc n) i v progress best =
      let (v', got) = try_fetch_next v i in
      elim got [
        | none ↦ fetch_all n (i + 1) v' progress best
        | some t ↦ fetch_all n (i + 1) v' true (better true t i best)
      ]

  -- The last part of `next`, for the lane that was chosen.
  unfoldable pub deliver : MergedView Q A → ℕ → MergedView Q A × Option (A × ℕ)
  deliver v i = elim (at_lane v.lanes i) [
    | none ↦ (v, none)
    | some l ↦
        let v' = (try_fetch_next (record v { lanes = unload v.lanes i }) i).0 in
        (
          record v' { stats = record v'.stats { total_synced = add64 v'.stats.total_synced 1 } },
          some (l.datum, l.timestamp),
        )
  ]

  -- The wait of `next`. A round is what the writers did before it, and whether the time is up after
  -- it; `none` has not returned.
  unfoldable pub wait :
      MergedView Q A → List ((ℕ → Q → Q) × Bool) → Option (MergedView Q A × Option (A × ℕ))
  wait v [] = none
  wait v ((others, late) ∷ rounds) =
      let w = record v { lanes = arrive others 0 v.lanes } in
      let (v', progress, best) = fetch_all (length w.lanes) 0 w false nothing_found in
      let rest = wait v' rounds in
      elim best.1 [
        | some i ↦ some (deliver v' i)
        | none ↦
            if progress
            then rest
            else if late
            then some (
              record v' {
                stats = record v'.stats { timeout_count = add64 v'.stats.timeout_count 1 };
              },
              none,
            )
            else rest
      ]

  unfoldable pub next :
      MergedView Q A → List ((ℕ → Q → Q) × Bool) → Option (MergedView Q A × Option (A × ℕ))
  next v rounds = elim (find_min 0 v.lanes nothing_found).1 [
    | some i ↦ some (deliver v i)
    | none ↦ wait v rounds
  ]

  unfoldable pub has_more_from : List (Lane Q A) → Bool
  has_more_from [] = false
  has_more_from (l ∷ ls) = (l.has_data || not (s.empty l.queue)) || has_more_from ls

  unfoldable pub has_more : MergedView Q A → Bool
  has_more v = has_more_from v.lanes

unfoldable pub reset_stats : {Q A : Type 0} → MergedView Q A → MergedView Q A
reset_stats v = record v { stats = no_stats }

-- `TimestampSynchronizer`; `current` is what the clock gives.
unfoldable pub nanos_to_micros : ℕ → ℕ
nanos_to_micros nanos = nanos / 1000

unfoldable pub nanos_to_millis : ℕ → ℕ
nanos_to_millis nanos = nanos / 1000000

unfoldable pub is_timestamp_valid : ℕ → ℕ → ℕ → Bool
is_timestamp_valid current timestamp tolerance_ms =
    if ltb (add64 current (tolerance_ms * 1000000 % u64_mod)) timestamp then false else true
