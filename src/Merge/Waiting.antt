-- ===== src/Merge/Waiting.antt =====
-- timestamp_sync.hpp: `next` when writers are still at work: which lane it serves, which it does not
-- look at, and when it gives up.
use mergeshare.Prelude.{
  ℕ, zero, suc, ◌≤◌, ◌<◌, ◌≡◌, ◌≢◌, inl, inr, refl, ap, ◌∙◌, Bool, List, [], ◌∷◌, some, arith,
  u64_max,
}
use mergeshare.Merge.{PopQueue, Lane, MergedView, at_lane, nothing_found, fetch_at, deliver, next}
use mergeshare.Merge.Select.{Loaded, find_min-Found}
use mergeshare.Merge.Refill.{refill}
use mergeshare.Merge.Sorted.{deliver-eq, next-delivers}

module _ {Q A : Type 0} (s : PopQueue Q A) where
  refill-others :
      (ls : List (Lane Q A)) (i m : ℕ) → m ≢ i → at_lane (refill s ls i) m ≡ at_lane ls m
  unfolding fetch_at
  refill-others [] i m ne = refl
  refill-others (l ∷ ls) zero zero ne = absurd (ne refl)
  refill-others (l ∷ ls) zero (suc m) ne = refl
  refill-others (l ∷ ls) (suc i) zero ne = refl
  refill-others (l ∷ ls) (suc i) (suc m) ne = refill-others ls i m (λ e. ne (ap suc e))

  -- What `next` serves when some lane is loaded.
  pub record Serves (v : MergedView Q A) (rounds : List ((ℕ → Q → Q) × Bool)) : Type 0 where
    pub lane : ℕ
    pub entry : Lane Q A
    pub after : MergedView Q A
    pub loaded : Loaded v.lanes lane entry
    pub gives : next s v rounds ≡ some (after, some (entry.datum, entry.timestamp))
    pub least : (j : ℕ) (l : Lane Q A) → Loaded v.lanes j l → entry.timestamp ≤ l.timestamp
    pub others : (m : ℕ) → m ≢ lane → at_lane after.lanes m ≡ at_lane v.lanes m

  -- If a lane has a buffered element with a timestamp below UINT64_MAX, `next` gives at once a
  -- buffered element whose timestamp is the least of those buffered, and no other lane changes: in
  -- particular, no queue of a lane without a buffered element is read.
  pub next-Serves :
      (v : MergedView Q A) (rounds : List ((ℕ → Q → Q) × Bool)) (j : ℕ) (l : Lane Q A)
      → Loaded v.lanes j l
      → l.timestamp < u64_max
      → Serves v rounds
  next-Serves v rounds j l h timed =
      let f = find_min-Found 0 v.lanes nothing_found in
      elim (f.origin) [
        | inl e ↦ absurd (omega (arith, f.least j l h, ap (λ o. o.0) e))
        | inr (i, k, k_loaded, e) ↦ record {
          lane = i;
          entry = k;
          after = (deliver s v i).0;
          loaded = k_loaded;
          gives =
              next-delivers s v rounds i (ap (λ o. o.1) e ∙ ap some (omega arith))
              ∙ ap (λ o. some ((deliver s v i).0, o)) (deliver-eq s v i k k_loaded.0).1;
          least = λ m l' h'. omega (arith, f.least m l' h', ap (λ o. o.0) e);
          others = λ m ne.
              ap (λ ls. at_lane ls m) (deliver-eq s v i k k_loaded.0).0
              ∙ refill-others v.lanes i m ne;
        }
      ]
