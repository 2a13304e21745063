-- ===== src/Merge/Sorted.antt =====
-- timestamp_sync.hpp: the calls of `next` on queues to which nothing is added any more give all
-- elements in the order of their timestamps.
use mathlib.Core.List.{Perm}
use mathlib.Core.List.Perm
use mergeshare.Prelude.{
  ℕ, zero, suc, ◌≤◌, ◌<◌, ◌≡◌, inl, inr, refl, sym, ap, subst, ◌∙◌, Bool, true, false, List, [],
  ◌∷◌, ◌++◌, none, some, arith, length, Bool-cases, Option-cases, u64_max,
}
use mergeshare.Merge.{
  PopQueue, Lane, MergedView, at_lane, note_time, find_min, nothing_found, fetch_at, try_fetch_next,
  deliver, unload, next, wait,
}
use mergeshare.Merge.Select.{
  Loaded, find_min-Found, All, All-append, Ascending, contents, all_contents, EachAscending,
}
use mergeshare.Merge.Refill.{refill, refill-perm, refill-length, refill-All, refill-EachAscending}

-- The timestamp can be told from `UINT64_MAX`, with which the search for the least one starts.
abbrev pub IsTimed : {A : Type 0} → A × ℕ → Type 0
IsTimed e = e.1 < u64_max

All-above :
    {A : Type 0} (m t : ℕ) (es : List (A × ℕ))
    → m ≤ t
    → All (λ e. t ≤ e.1) es
    → All (λ e. m ≤ e.1) es
All-above m t [] h all = tt
All-above m t (e ∷ es) h all = (omega (arith, all.0), All-above m t es h all.1)

nil_of_length : {A : Type 0} (xs : List A) → length xs ≤ 0 → xs ≡ []
nil_of_length [] h = refl
nil_of_length (x ∷ xs) h = absurd (omega arith)

module _ {Q A : Type 0} (s : PopQueue Q A) where
  pub try_fetch_next-lanes :
      (v : MergedView Q A) (i : ℕ) → (try_fetch_next s v i).0.lanes ≡ (fetch_at s v.lanes i).0
  unfolding try_fetch_next note_time
  try_fetch_next-lanes v i = elim (Option-cases (fetch_at s v.lanes i).1) [
    | inl e ↦ rw (e, try_fetch_next) refl
    | inr (t, e) ↦ rw (e, try_fetch_next) refl
  ]

  pub deliver-eq :
      (v : MergedView Q A) (i : ℕ) (l : Lane Q A)
      → at_lane v.lanes i ≡ some l
      → ((deliver s v i).0.lanes ≡ refill s v.lanes i)
        × ((deliver s v i).1 ≡ some (l.datum, l.timestamp))
  unfolding deliver
  deliver-eq v i l e =
      rw (e, deliver) (try_fetch_next-lanes (record v { lanes = unload v.lanes i }) i, refl)

  contents-on :
      (l : Lane Q A) → l.has_data ≡ true → contents s l ≡ (l.datum, l.timestamp) ∷ s.pending l.queue
  contents-on l on = ground arith

  contents-off : (l : Lane Q A) → l.has_data ≡ false → contents s l ≡ []
  contents-off l off = ground arith

  contents-from :
      (m : ℕ) (l : Lane Q A)
      → (l.has_data ≡ true → m ≤ l.timestamp)
      → Ascending (contents s l)
      → All (λ e. m ≤ e.1) (contents s l)
  contents-from m l head a = elim (Bool-cases l.has_data) [
    | inl on ↦
        let a' : Ascending ((l.datum, l.timestamp) ∷ s.pending l.queue) =
          subst (λ es. Ascending es) (contents-on l on) a in
        subst (λ es. All (λ e. m ≤ e.1) es) (sym (contents-on l on))
          (head on, All-above m l.timestamp (s.pending l.queue) (head on) a'.0)
    | inr off ↦ subst (λ es. All (λ e. m ≤ e.1) es) (sym (contents-off l off)) tt
  ]

  -- If the loaded lanes begin with no less than `m`, nothing anywhere is less than `m`.
  All-from :
      (m : ℕ) (ls : List (Lane Q A))
      → ((j : ℕ) (l : Lane Q A) → Loaded ls j l → m ≤ l.timestamp)
      → EachAscending s ls
      → All (λ e. m ≤ e.1) (all_contents s ls)
  All-from m [] heads a = tt
  All-from m (l ∷ ls) heads a =
      All-append (λ e. m ≤ e.1) (contents s l) (all_contents s ls)
        (contents-from m l (λ on. heads 0 l (refl, on)) a.0)
        (All-from m ls (λ j k h. heads (suc j) k h) a.1)

  -- No lane is loaded only if nothing is left.
  all_empty :
      (ls : List (Lane Q A)) → ((j : ℕ) (l : Lane Q A) → ¬ Loaded ls j l) → all_contents s ls ≡ []
  all_empty [] off = refl
  all_empty (l ∷ ls) off = elim (Bool-cases l.has_data) [
    | inl on ↦ absurd (off 0 l (refl, on))
    | inr no_data ↦
        ap (λ es. es ++ all_contents s ls) (contents-off l no_data)
        ∙ all_empty ls (λ j k. off (suc j) k)
  ]

  pub next-waits :
      (v : MergedView Q A) (rounds : List ((ℕ → Q → Q) × Bool))
      → (find_min 0 v.lanes nothing_found).1 ≡ none
      → next s v rounds ≡ wait s v rounds
  unfolding next
  next-waits v rounds e = rw (e, next) refl

  pub next-delivers :
      (v : MergedView Q A) (rounds : List ((ℕ → Q → Q) × Bool)) (i : ℕ)
      → (find_min 0 v.lanes nothing_found).1 ≡ some i
      → next s v rounds ≡ some (deliver s v i)
  unfolding next
  next-delivers v rounds i e = rw (e, next) refl

  -- What `next` does on lanes that are in order.
  data Outcome (v : MergedView Q A) (rounds : List ((ℕ → Q → Q) × Bool)) : Type 0 where
    dry : all_contents s v.lanes ≡ [] → next s v rounds ≡ wait s v rounds → Outcome v rounds
    gives :
        (i : ℕ) (l : Lane Q A)
        → Loaded v.lanes i l
        → All (λ e. l.timestamp ≤ e.1) (all_contents s v.lanes)
        → next s v rounds ≡ some (deliver s v i)
        → Outcome v rounds

  next-Outcome :
      (v : MergedView Q A) (rounds : List ((ℕ → Q → Q) × Bool))
      → EachAscending s v.lanes
      → All IsTimed (all_contents s v.lanes)
      → Outcome v rounds
  next-Outcome v rounds a timed =
      let f = find_min-Found 0 v.lanes nothing_found in
      elim (f.origin) [
        | inl e ↦
            dry
              (all_empty v.lanes (λ j l h. omega (
                arith,
                f.least j l h,
                ap (λ o. o.0) e,
                (refill-All s IsTimed v.lanes j l h timed).0,
              )))
              (next-waits v rounds (ap (λ o. o.1) e))
        | inr (i, l, h, e) ↦
            gives i l h
              (All-from l.timestamp v.lanes
                (λ j k h'. omega (arith, f.least j k h', ap (λ o. o.0) e)) a)
              (next-delivers v rounds i (ap (λ o. o.1) e ∙ ap some (omega arith)))
      ]

  -- The calls of `next` up to one that would wait, `n` at most.
  unfoldable pub drain : ℕ → MergedView Q A → List (A × ℕ)
  drain zero v = []
  drain (suc n) v = elim (next s v []) [
    | none ↦ []
    | some (v', item) ↦ elim item [ none ↦ [] | some e ↦ e ∷ drain n v' ]
  ]

  -- What is in the lanes, in the order of the timestamps.
  pub record Merges (n : ℕ) (v : MergedView Q A) : Type 0 where
    pub all : Perm (drain n v) (all_contents s v.lanes)
    pub ascending : Ascending (drain n v)

  drain-dry : (n : ℕ) (v : MergedView Q A) → next s v [] ≡ none → drain n v ≡ []
  unfolding drain
  drain-dry zero v e = refl
  drain-dry (suc n) v e = rw (e, drain) refl

  drain-gives :
      (n : ℕ) (v : MergedView Q A) (i : ℕ) (e : A × ℕ)
      → next s v [] ≡ some (deliver s v i)
      → (deliver s v i).1 ≡ some e
      → drain (suc n) v ≡ e ∷ drain n (deliver s v i).0
  unfolding drain
  drain-gives n v i e given item = rw (given, drain) (rw (item, drain) refl)

  Merges-dry :
      (n : ℕ) (v : MergedView Q A) → drain n v ≡ [] → all_contents s v.lanes ≡ [] → Merges n v
  Merges-dry n v d c = record {
    all =
        subst (λ es. Perm es (all_contents s v.lanes)) (sym d)
          (subst (λ es. Perm [] es) (sym c) Perm.rfl);
    ascending = subst (λ es. Ascending es) (sym d) tt;
  }

  -- A property of all elements holds of the one delivered and of what is left.
  module _ (v : MergedView Q A) (i : ℕ) (l : Lane Q A) (h : Loaded v.lanes i l) where
    deliver-All :
        (P : A × ℕ → Type 0)
        → All P (all_contents s v.lanes)
        → P (l.datum, l.timestamp) × All P (all_contents s (deliver s v i).0.lanes)
    deliver-All P all =
        let (one, rest) = refill-All s P v.lanes i l h all in
        (one, subst (λ ls. All P (all_contents s ls)) (sym (deliver-eq v i l h.0).0) rest)

    deliver-EachAscending : EachAscending s v.lanes → EachAscending s (deliver s v i).0.lanes
    deliver-EachAscending a =
        subst (λ ls. EachAscending s ls) (sym (deliver-eq v i l h.0).0)
          (refill-EachAscending s v.lanes i l h a)

    deliver-perm :
        Perm
          (all_contents s v.lanes)
          ((l.datum, l.timestamp) ∷ all_contents s (deliver s v i).0.lanes)
    deliver-perm =
        subst (λ ls. Perm (all_contents s v.lanes) ((l.datum, l.timestamp) ∷ all_contents s ls))
          (sym (deliver-eq v i l h.0).0) (refill-perm s v.lanes i l h)

    deliver-length :
        length (all_contents s v.lanes) ≡ suc (length (all_contents s (deliver s v i).0.lanes))
    deliver-length =
        refill-length s v.lanes i l h
        ∙ ap (λ ls. suc (length (all_contents s ls))) (sym (deliver-eq v i l h.0).0)

  All-drain :
      (P : A × ℕ → Type 0) (n : ℕ) (v : MergedView Q A)
      → EachAscending s v.lanes
      → All IsTimed (all_contents s v.lanes)
      → All P (all_contents s v.lanes)
      → All P (drain n v)
  unfolding drain
  All-drain P zero v a timed all = tt
  All-drain P (suc n) v a timed all = elim (next-Outcome v [] a timed) [
    | dry c w ↦ subst (λ es. All P es) (sym (drain-dry (suc n) v (w ∙ unfold wait in refl))) tt
    | gives i l h least e ↦
        let (one, rest) = deliver-All v i l h P all in
        subst (λ es. All P es) (sym (drain-gives n v i _ e (deliver-eq v i l h.0).1))
          (
            one,
            All-drain P n (deliver s v i).0 (deliver-EachAscending v i l h a)
                (deliver-All v i l h IsTimed timed).1 rest,
          )
  ]

  -- `next` on well-ordered lanes gives everything in order.
  pub drain-Merges :
      (n : ℕ) (v : MergedView Q A)
      → length (all_contents s v.lanes) ≤ n
      → EachAscending s v.lanes
      → All IsTimed (all_contents s v.lanes)
      → Merges n v
  drain-Merges zero v enough a timed =
      Merges-dry 0 v (unfold drain in refl) (nil_of_length _ enough)
  drain-Merges (suc n) v enough a timed = elim (next-Outcome v [] a timed) [
    | dry c w ↦ Merges-dry (suc n) v (drain-dry (suc n) v (w ∙ unfold wait in refl)) c
    | gives i l h least e ↦
        let w : MergedView Q A = (deliver s v i).0 in
        let a' : EachAscending s w.lanes = deliver-EachAscending v i l h a in
        let timed' : All IsTimed (all_contents s w.lanes) = (deliver-All v i l h IsTimed timed).1 in
        let m = drain-Merges n w (omega (arith, deliver-length v i l h)) a' timed' in
        let d = drain-gives n v i _ e (deliver-eq v i l h.0).1 in
        record {
          all =
              subst (λ es. Perm es (all_contents s v.lanes)) (sym d)
                (Perm.trans (Perm.cons (l.datum, l.timestamp) m.all)
                  (Perm.symm (deliver-perm v i l h)));
          ascending =
              subst (λ es. Ascending es) (sym d)
                (
                  All-drain (λ e. l.timestamp ≤ e.1) n w a' timed'
                      (deliver-All v i l h (λ e. l.timestamp ≤ e.1) least).1,
                  m.ascending,
                );
        }
  ]
