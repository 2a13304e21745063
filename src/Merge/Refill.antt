-- ===== src/Merge/Refill.antt =====
-- timestamp_sync.hpp: what taking the element of one lane and reading its queue again does to all
-- that the lanes have still to give.
use mathlib.Core.List.{Perm, perm_middle}
use mathlib.Core.List.Perm
use mergeshare.Prelude.{
  ℕ, zero, suc, ◌≡◌, refl, sym, ap, subst, true, false, List, [], ◌∷◌, ◌++◌, arith, length,
  length-append,
}
use mergeshare.Merge.{PopQueue, Lane, fetch, fetch_at, unload}
use mergeshare.Merge.Select.{
  Loaded, All, All-append, All-append_left, All-append_right, Ascending, contents, all_contents,
  Primed, EachAscending, fetch_unloaded,
}

module _ {Q A : Type 0} (s : PopQueue Q A) where
  -- The lanes after `next` took the element of lane `i`.
  abbrev pub refill : List (Lane Q A) → ℕ → List (Lane Q A)
  refill ls i = (fetch_at s (unload ls i) i).0

  abbrev Emptied : Lane Q A → Lane Q A
  Emptied l = record l { has_data = false }

  contents_loaded :
      (l : Lane Q A)
      → l.has_data ≡ true
      → contents s l ≡ (l.datum, l.timestamp) ∷ contents s (fetch s (Emptied l)).0
  contents_loaded l on = ground (arith, on, (fetch_unloaded s (Emptied l) refl).0)

  loaded_head :
      (k l : Lane Q A) (ls : List (Lane Q A)) → Loaded (k ∷ ls) 0 l → (k ≡ l) × (k.has_data ≡ true)
  loaded_head k l ls h = (cc (h.0), cc (h.0, h.1))

  pub refill-perm :
      (ls : List (Lane Q A)) (i : ℕ) (l : Lane Q A)
      → Loaded ls i l
      → Perm (all_contents s ls) ((l.datum, l.timestamp) ∷ all_contents s (refill ls i))
  unfolding fetch_at
  refill-perm [] i l h = cc (h.0)
  refill-perm (k ∷ ls) zero l h =
      let (e, on) = loaded_head k l ls h in
      let rest = contents s (fetch s (Emptied k)).0 ++ all_contents s ls in
      subst (λ z. Perm (z ++ all_contents s ls) ((l.datum, l.timestamp) ∷ rest))
        (sym (contents_loaded k on))
        (subst (λ z. Perm ((k.datum, k.timestamp) ∷ rest) ((z.datum, z.timestamp) ∷ rest)) e
          Perm.rfl)
  refill-perm (k ∷ ls) (suc i) l h =
      Perm.trans (Perm.append_left (contents s k) (refill-perm ls i l h))
        (perm_middle (contents s k) (all_contents s (refill ls i)))

  pub refill-length :
      (ls : List (Lane Q A)) (i : ℕ) (l : Lane Q A)
      → Loaded ls i l
      → length (all_contents s ls) ≡ suc (length (all_contents s (refill ls i)))
  unfolding fetch_at
  refill-length [] i l h = cc (h.0)
  refill-length (k ∷ ls) zero l h =
      ap (λ z. length (z ++ all_contents s ls)) (contents_loaded k (loaded_head k l ls h).1)
  refill-length (k ∷ ls) (suc i) l h = omega (
    arith,
    refill-length ls i l h,
    length-append (contents s k) (all_contents s ls),
    length-append (contents s k) (all_contents s (refill ls i)),
  )

  pub refill-All :
      (P : A × ℕ → Type 0) (ls : List (Lane Q A)) (i : ℕ) (l : Lane Q A)
      → Loaded ls i l
      → All P (all_contents s ls)
      → P (l.datum, l.timestamp) × All P (all_contents s (refill ls i))
  unfolding fetch_at
  refill-All P [] i l h all = cc (h.0)
  refill-All P (k ∷ ls) zero l h all =
      let (e, on) = loaded_head k l ls h in
      let both : All P
          (((k.datum, k.timestamp) ∷ contents s (fetch s (Emptied k)).0) ++ all_contents s ls) =
        subst (λ z. All P (z ++ all_contents s ls)) (contents_loaded k on) all in
      (subst (λ z. P (z.datum, z.timestamp)) e both.0, both.1)
  refill-All P (k ∷ ls) (suc i) l h all =
      let ih = refill-All P ls i l h (All-append_right P (contents s k) (all_contents s ls) all) in
      (
        ih.0,
        All-append P (contents s k) (all_contents s (refill ls i))
            (All-append_left P (contents s k) (all_contents s ls) all) ih.1,
      )

  pub refill-Primed :
      (ls : List (Lane Q A)) (i : ℕ) (l : Lane Q A)
      → Loaded ls i l
      → Primed s ls
      → Primed s (refill ls i)
  unfolding fetch_at
  refill-Primed [] i l h p = tt
  refill-Primed (k ∷ ls) zero l h p = ((fetch_unloaded s (Emptied k) refl).1, p.1)
  refill-Primed (k ∷ ls) (suc i) l h p = (p.0, refill-Primed ls i l h p.1)

  pub refill-EachAscending :
      (ls : List (Lane Q A)) (i : ℕ) (l : Lane Q A)
      → Loaded ls i l
      → EachAscending s ls
      → EachAscending s (refill ls i)
  unfolding fetch_at
  refill-EachAscending [] i l h a = tt
  refill-EachAscending (k ∷ ls) zero l h a =
      let both : Ascending ((k.datum, k.timestamp) ∷ contents s (fetch s (Emptied k)).0) =
        subst (λ z. Ascending z) (contents_loaded k (loaded_head k l ls h).1) a.0 in
      (both.1, a.1)
  refill-EachAscending (k ∷ ls) (suc i) l h a = (a.0, refill-EachAscending ls i l h a.1)
