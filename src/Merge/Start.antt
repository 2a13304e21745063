-- ===== src/Merge/Start.antt =====
-- timestamp_sync.hpp: a `MergedQueueView` from its constructor on, over queues to which nothing is
-- added any more.
use mathlib.Core.List.{Perm, append_assoc}
use mergeshare.Prelude.{
  ℕ, ◌≤◌, ◌≡◌, refl, sym, ap, ap₂, subst, ◌∙◌, false, List, [], ◌∷◌, ◌++◌, arith, length,
  length-append, map,
}
use mergeshare.Merge.{
  PopQueue, Lane, MergedView, fetch, fetch_at, try_fetch_next, prefetch, make_view,
}
use mergeshare.Merge.Select.{All, Ascending, all_contents, EachAscending, fetch_unloaded}
use mergeshare.Merge.Sorted.{IsTimed, drain, drain-Merges, try_fetch_next-lanes}

module _ {Q A : Type 0} (s : PopQueue Q A) where
  -- Everything that the queues hold.
  abbrev pub all_pending : List Q → List (A × ℕ)
  all_pending [] = []
  all_pending (q ∷ qs) = s.pending q ++ all_pending qs

  -- Each queue holds its elements in the order of their timestamps.
  abbrev pub EachSorted : List Q → Type 0
  EachSorted [] = Unit {0}
  EachSorted (q ∷ qs) = Ascending (s.pending q) × EachSorted qs

  module _ (blank : A) where
    abbrev start_lane : Q → Lane Q A
    start_lane q = record { queue = q; datum = blank; timestamp = 0; has_data = false }

    abbrev first_lane : Q → Lane Q A
    first_lane q = (fetch s (start_lane q)).0

    fetch_at-append :
        (pre : List (Lane Q A)) (l : Lane Q A) (ls : List (Lane Q A))
        → (fetch_at s (pre ++ l ∷ ls) (length pre)).0 ≡ (pre ++ (fetch s l).0 ∷ []) ++ ls
    unfolding fetch_at
    fetch_at-append [] l ls = refl
    fetch_at-append (p ∷ pre) l ls = ap (λ xs. p ∷ xs) (fetch_at-append pre l ls)

    prefetch-lanes :
        (qs : List Q) (pre : List (Lane Q A)) (v : MergedView Q A)
        → v.lanes ≡ pre ++ map start_lane qs
        → (prefetch s (length qs) (length pre) v).lanes ≡ pre ++ map first_lane qs
    unfolding prefetch
    prefetch-lanes [] pre v e = e
    prefetch-lanes (q ∷ qs) pre v e =
        ap (λ k. (prefetch s (length qs) k (try_fetch_next s v (length pre)).0).lanes)
          (sym (length-append pre (first_lane q ∷ [])) ∙ refl)
        ∙ prefetch-lanes qs (pre ++ first_lane q ∷ []) (try_fetch_next s v (length pre)).0 (
            try_fetch_next-lanes s v (length pre)
            ∙ ap (λ ls. (fetch_at s ls (length pre)).0) e
            ∙ fetch_at-append pre (start_lane q) (map start_lane qs))
        ∙ append_assoc pre (first_lane q ∷ []) (map first_lane qs)

    make_view-lanes : (qs : List Q) → (make_view s blank qs).lanes ≡ map first_lane qs
    unfolding make_view
    make_view-lanes qs = prefetch-lanes qs [] _ refl

    first_lanes-contents : (qs : List Q) → all_contents s (map first_lane qs) ≡ all_pending qs
    first_lanes-contents [] = refl
    first_lanes-contents (q ∷ qs) =
        ap₂ ◌++◌ (fetch_unloaded s (start_lane q) refl).0 (first_lanes-contents qs)

    first_lanes-EachAscending : (qs : List Q) → EachSorted qs → EachAscending s (map first_lane qs)
    first_lanes-EachAscending [] h = tt
    first_lanes-EachAscending (q ∷ qs) h = (
      subst (λ es. Ascending es) (sym (fetch_unloaded s (start_lane q) refl).0) h.0,
      first_lanes-EachAscending qs h.1,
    )

    pub make_view-contents :
        (qs : List Q) → all_contents s (make_view s blank qs).lanes ≡ all_pending qs
    make_view-contents qs =
        ap (λ ls. all_contents s ls) (make_view-lanes qs) ∙ first_lanes-contents qs

    -- On queues that are each in the order of their timestamps, all of them below UINT64_MAX, and to
    -- which nothing is added, as many calls of `next` as there are elements give every element of
    -- every queue once, and the whole in the order of the timestamps.
    pub make_view-drain :
        (qs : List Q) (n : ℕ)
        → EachSorted qs
        → All IsTimed (all_pending qs)
        → length (all_pending qs) ≤ n
        → Perm (drain s n (make_view s blank qs)) (all_pending qs)
          × Ascending (drain s n (make_view s blank qs))
    make_view-drain qs n sorted timed enough =
        let c = make_view-contents qs in
        let m =
          drain-Merges s n (make_view s blank qs) (omega (arith, ap length c))
            (subst (λ ls. EachAscending s ls) (sym (make_view-lanes qs))
              (first_lanes-EachAscending qs sorted))
            (subst (λ es. All IsTimed es) (sym c) timed) in
        (subst (λ es. Perm (drain s n (make_view s blank qs)) es) c m.all, m.ascending)
