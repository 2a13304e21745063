-- ===== src/Merge/Select.antt =====
-- timestamp_sync.hpp: what a lane has still to give, which lane `next` chooses, and what it takes.
use mergeshare.Prelude.{
  ℕ, zero, suc, ◌+◌, ◌≤◌, ◌<◌, ◌≡◌, ◌⊎◌, inl, inr, refl, ap, ◌∙◌, Bool, true, false, List, [], ◌∷◌,
  ◌++◌, Option, some, arith, ltb, ◌&&◌, if◌then◌else◌, Bool-cases,
}
use mergeshare.Merge.{PopQueue, Lane, at_lane, better, find_min, fetch}

-- What `better` makes of the best timestamp so far.
abbrev Chosen : Bool → ℕ → ℕ → ℕ × Option ℕ → ℕ × Option ℕ → Type 0
Chosen has t i best out =
    ((out ≡ best) × (has ≡ true → best.0 ≤ t)) ⊎ ((out ≡ (t, some i)) × (has ≡ true) × (t < best.0))

better-cases :
    (has : Bool) (t i : ℕ) (best : ℕ × Option ℕ) → Chosen has t i best (better has t i best)
unfolding better
better-cases has t i best = elim (Bool-cases (has && ltb t best.0)) [
  | inl e ↦ inr (rw e refl, ground arith, ground arith)
  | inr e ↦ inl (rw e refl, λ h. ground arith)
]

module _ {Q A : Type 0} where
  -- The lane with a buffered element.
  abbrev pub Loaded : List (Lane Q A) → ℕ → Lane Q A → Type 0
  Loaded ls i l = (at_lane ls i ≡ some l) × (l.has_data ≡ true)

  -- What a search from lane `i` on makes of `best`.
  pub record Found (i : ℕ) (ls : List (Lane Q A)) (best out : ℕ × Option ℕ) : Type 0 where
    pub below : out.0 ≤ best.0
    pub least : (j : ℕ) (l : Lane Q A) → Loaded ls j l → out.0 ≤ l.timestamp
    pub origin :
        (out ≡ best)
        ⊎ ((j : ℕ) × (l : Lane Q A) × Loaded ls j l × (out ≡ (l.timestamp, some (i + j))))

  least-cons :
      (l : Lane Q A) (ls : List (Lane Q A)) (m : ℕ)
      → (l.has_data ≡ true → m ≤ l.timestamp)
      → ((j : ℕ) (l' : Lane Q A) → Loaded ls j l' → m ≤ l'.timestamp)
      → (j : ℕ) (l' : Lane Q A) → Loaded (l ∷ ls) j l'
      → m ≤ l'.timestamp
  least-cons l ls m here later zero l' h = ground (arith, here)
  least-cons l ls m here later (suc j) l' h = later j l' h

  -- Where a best timestamp comes from.
  abbrev Origin : ℕ → List (Lane Q A) → ℕ × Option ℕ → Type 0
  Origin i ls out = (j : ℕ) × (l : Lane Q A) × Loaded ls j l × (out ≡ (l.timestamp, some (i + j)))

  Origin-cons :
      (i : ℕ) (l : Lane Q A) (ls : List (Lane Q A)) (out : ℕ × Option ℕ)
      → Origin (i + 1) ls out
      → Origin i (l ∷ ls) out
  Origin-cons i l ls out (j, l', h, e) =
      (suc j, l', h, e ∙ ap (λ (k : ℕ). (l'.timestamp, some k)) (omega arith))

  Found-cons :
      (i : ℕ) (l : Lane Q A) (ls : List (Lane Q A)) (best mid out : ℕ × Option ℕ)
      → Chosen l.has_data l.timestamp i best mid
      → Found (i + 1) ls mid out
      → Found i (l ∷ ls) best out
  Found-cons i l ls best mid out (inl (e, keeps)) f = record {
    below = ground (arith, f.below);
    least = least-cons l ls out.0 (λ h. ground (arith, f.below, keeps h)) f.least;
    origin = elim (f.origin) [
      | inl same ↦ inl (same ∙ e)
      | inr there ↦ inr (Origin-cons i l ls out there)
    ];
  }
  Found-cons i l ls best mid out (inr (e, has, lt)) f = record {
    below = ground (arith, f.below);
    least = least-cons l ls out.0 (λ h. ground (arith, f.below)) f.least;
    origin = elim (f.origin) [
      | inl same ↦
          inr (0, l, (refl, has), same ∙ e ∙ ap (λ (k : ℕ). (l.timestamp, some k)) (omega arith))
      | inr there ↦ inr (Origin-cons i l ls out there)
    ];
  }

  pub find_min-Found :
      (i : ℕ) (ls : List (Lane Q A)) (best : ℕ × Option ℕ) → Found i ls best (find_min i ls best)
  unfolding find_min
  find_min-Found i [] best = record {
    below = omega arith;
    least = λ j l h. cc (h.0);
    origin = inl refl;
  }
  find_min-Found i (l ∷ ls) best =
      Found-cons i l ls best (better l.has_data l.timestamp i best) _
        (better-cases l.has_data l.timestamp i best)
        (find_min-Found (i + 1) ls (better l.has_data l.timestamp i best))

-- Everything of `xs` has the property.
abbrev pub All : {A : Type 0} → (A → Type 0) → List A → Type 0
All P [] = Unit {0}
All P (x ∷ xs) = P x × All P xs

pub All-append :
    {A : Type 0} (P : A → Type 0) (xs ys : List A) → All P xs → All P ys → All P (xs ++ ys)
All-append P [] ys h k = k
All-append P (x ∷ xs) ys h k = (h.0, All-append P xs ys h.1 k)

pub All-append_left : {A : Type 0} (P : A → Type 0) (xs ys : List A) → All P (xs ++ ys) → All P xs
All-append_left P [] ys h = tt
All-append_left P (x ∷ xs) ys h = (h.0, All-append_left P xs ys h.1)

pub All-append_right : {A : Type 0} (P : A → Type 0) (xs ys : List A) → All P (xs ++ ys) → All P ys
All-append_right P [] ys h = h
All-append_right P (x ∷ xs) ys h = All-append_right P xs ys h.1

-- In the order of the timestamps.
abbrev pub Ascending : {A : Type 0} → List (A × ℕ) → Type 0
Ascending [] = Unit {0}
Ascending (e ∷ es) = All (λ e'. e.1 ≤ e'.1) es × Ascending es

module _ {Q A : Type 0} (s : PopQueue Q A) where
  -- What a lane has still to give: its buffered element and what its queue holds. (A lane with no
  -- buffered element is looked at only in a wait.)
  abbrev pub contents : Lane Q A → List (A × ℕ)
  contents l = if l.has_data then (l.datum, l.timestamp) ∷ s.pending l.queue else []

  abbrev pub all_contents : List (Lane Q A) → List (A × ℕ)
  all_contents [] = []
  all_contents (l ∷ ls) = contents l ++ all_contents ls

  -- A lane has no buffered element only if its queue is empty.
  abbrev pub Primed : List (Lane Q A) → Type 0
  Primed [] = Unit {0}
  Primed (l ∷ ls) = (l.has_data ≡ false → s.pending l.queue ≡ []) × Primed ls

  abbrev pub EachAscending : List (Lane Q A) → Type 0
  EachAscending [] = Unit {0}
  EachAscending (l ∷ ls) = Ascending (contents l) × EachAscending ls

  -- `try_fetch_next` of a lane without an element: what its queue held is now the lane's contents.
  pub fetch_unloaded :
      (l : Lane Q A)
      → l.has_data ≡ false
      → (contents (fetch s l).0 ≡ s.pending l.queue)
        × ((fetch s l).0.has_data ≡ false → s.pending (fetch s l).0.queue ≡ [])
  unfolding fetch
  fetch_unloaded l off = go (s.pending l.queue) refl
    where
      go :
          (p : List (A × ℕ))
          → s.pending l.queue ≡ p
          → (contents (fetch s l).0 ≡ s.pending l.queue)
            × ((fetch s l).0.has_data ≡ false → s.pending (fetch s l).0.queue ≡ [])
      go [] e = ground (arith, s.pop_none l.queue e)
      go (x ∷ xs) e = ground (arith, s.pop_some l.queue x xs e)
