-- ===== src/Merge/Timeout.antt =====
-- timestamp_sync.hpp: `next` when there is nothing to read.
use mergeshare.Prelude.{
  ℕ, zero, suc, ◌+◌, ◌≡◌, inl, inr, refl, ap, ◌∙◌, Bool, true, false, List, [], ◌∷◌, ◌++◌, Option,
  none, some, arith, length, replicate, if◌then◌else◌, add64,
}
use mergeshare.Merge.{
  PopQueue, SyncStats, Lane, MergedView, better, nothing_found, fetch, fetch_at, try_fetch_next,
  fetch_all, arrive, deliver, wait, next,
}
use mergeshare.Merge.Select.{Loaded, find_min-Found}
use mergeshare.Merge.Sorted.{next-waits}

module _ {Q A : Type 0} (s : PopQueue Q A) where
  -- Every lane is without an element, in the buffer and in the queue.
  abbrev pub Idle : List (Lane Q A) → Type 0
  Idle [] = Unit {0}
  Idle (l ∷ ls) = (l.has_data ≡ false) × (s.pending l.queue ≡ []) × Idle ls

  Idle-not_loaded : (ls : List (Lane Q A)) (j : ℕ) (l : Lane Q A) → Idle ls → ¬ Loaded ls j l
  Idle-not_loaded [] j l idle h = cc (h.0)
  Idle-not_loaded (k ∷ ls) zero l idle h = cc (h.0, h.1, idle.0)
  Idle-not_loaded (k ∷ ls) (suc j) l idle h = Idle-not_loaded ls j l idle.2 h

  fetch_idle :
      (l : Lane Q A)
      → l.has_data ≡ false
      → s.pending l.queue ≡ []
      → ((fetch s l).1 ≡ none)
        × ((fetch s l).0.has_data ≡ false)
        × (s.pending (fetch s l).0.queue ≡ [])
  unfolding fetch
  fetch_idle l off nothing = ground (arith, s.pop_none l.queue nothing)

  fetch_at-Idle :
      (ls : List (Lane Q A)) (i : ℕ)
      → Idle ls
      → ((fetch_at s ls i).1 ≡ none) × Idle (fetch_at s ls i).0
  unfolding fetch_at
  fetch_at-Idle [] i idle = (refl, tt)
  fetch_at-Idle (l ∷ ls) zero idle = let f = fetch_idle l idle.0 idle.1 in (f.0, (f.1, f.2, idle.2))
  fetch_at-Idle (l ∷ ls) (suc i) idle =
      let ih = fetch_at-Idle ls i idle.2 in (ih.0, (idle.0, idle.1, ih.1))

  -- A round over idle lanes finds nothing and changes no count.
  try_fetch_next-Idle :
      (v : MergedView Q A) (i : ℕ)
      → Idle v.lanes
      → try_fetch_next s v i ≡ (record v { lanes = (fetch_at s v.lanes i).0 }, none)
  unfolding try_fetch_next
  try_fetch_next-Idle v i idle = rw ((fetch_at-Idle v.lanes i idle).0, try_fetch_next) refl

  fetch_all-none :
      (n i : ℕ) (v v' : MergedView Q A) (best : ℕ × Option ℕ)
      → try_fetch_next s v i ≡ (v', none)
      → fetch_all s (suc n) i v false best ≡ fetch_all s n (i + 1) v' false best
  unfolding fetch_all
  fetch_all-none n i v v' best e = ap step e
    where
      step : MergedView Q A × Option ℕ → MergedView Q A × Bool × (ℕ × Option ℕ)
      step (u, got) = elim got [
        | none ↦ fetch_all s n (i + 1) u false best
        | some t ↦ fetch_all s n (i + 1) u true (better true t i best)
      ]

  record Quiet (v w : MergedView Q A) : Type 0 where
    idle : Idle w.lanes
    stats : w.stats ≡ v.stats

  fetch_all-Idle :
      (n i : ℕ) (v : MergedView Q A) (best : ℕ × Option ℕ)
      → Idle v.lanes
      → (w : MergedView Q A) × (fetch_all s n i v false best ≡ (w, false, best)) × Quiet v w
  unfolding fetch_all
  fetch_all-Idle zero i v best idle = (v, refl, record { idle = idle; stats = refl })
  fetch_all-Idle (suc n) i v best idle =
      let v' : MergedView Q A = record v { lanes = (fetch_at s v.lanes i).0 } in
      let (w, e, q) = fetch_all-Idle n (i + 1) v' best (fetch_at-Idle v.lanes i idle).1 in
      (
        w,
        fetch_all-none n i v v' best (try_fetch_next-Idle v i idle) ∙ e,
        record { idle = q.idle; stats = q.stats },
      )

  -- Nothing is written to the queues.
  abbrev pub no_writer : ℕ → Q → Q
  no_writer i q = q

  arrive_same : (i : ℕ) (ls : List (Lane Q A)) → arrive no_writer i ls ≡ ls
  arrive_same i [] = refl
  arrive_same i (l ∷ ls) = ap (λ xs. l ∷ xs) (arrive_same (i + 1) ls)

  -- `n` rounds that find nothing, and one more at whose end the time is up.
  abbrev pub quiet_rounds : ℕ → List ((ℕ → Q → Q) × Bool)
  quiet_rounds n = replicate n (no_writer, false) ++ (no_writer, true) ∷ []

  abbrev pub TimesOut : MergedView Q A → Option (MergedView Q A × Option (A × ℕ)) → Type 0
  TimesOut v out =
      (w : MergedView Q A) × (out ≡ some (w, none))
      × Idle w.lanes
      × (w.stats ≡ record v.stats { timeout_count = add64 v.stats.timeout_count 1 })

  wait-nothing :
      (v w : MergedView Q A) (late : Bool) (rounds : List ((ℕ → Q → Q) × Bool))
      → fetch_all s (length v.lanes) 0 v false nothing_found ≡ (w, false, nothing_found)
      → wait s v ((no_writer, late) ∷ rounds) ≡ (
          if late
          then some (
            record w { stats = record w.stats { timeout_count = add64 w.stats.timeout_count 1 } },
            none,
          )
          else wait s w rounds)
  unfolding wait
  wait-nothing v w late rounds e =
      ap (λ ls. step (fetch_all s (length ls) 0 (record v { lanes = ls }) false nothing_found))
        (arrive_same 0 v.lanes)
      ∙ ap step e
    where
      step : MergedView Q A × Bool × (ℕ × Option ℕ) → Option (MergedView Q A × Option (A × ℕ))
      step (u, progress, best) =
          let rest = wait s u rounds in
          elim best.1 [
            | some i ↦ some (deliver s u i)
            | none ↦
                if progress
                then rest
                else if late
                then some (
                  record u {
                    stats = record u.stats { timeout_count = add64 u.stats.timeout_count 1 };
                  },
                  none,
                )
                else rest
          ]

  -- One round of the wait over idle lanes.
  wait-round :
      (v : MergedView Q A) (late : Bool) (rounds : List ((ℕ → Q → Q) × Bool))
      → Idle v.lanes
      → (w : MergedView Q A) × Quiet v w
        × (wait s v ((no_writer, late) ∷ rounds) ≡ (
            if late
            then some (
              record w { stats = record w.stats { timeout_count = add64 w.stats.timeout_count 1 } },
              none,
            )
            else wait s w rounds))
  wait-round v late rounds idle =
      let (w, e, q) = fetch_all-Idle (length v.lanes) 0 v nothing_found idle in
      (w, q, wait-nothing v w late rounds e)

  wait-TimesOut :
      (n : ℕ) (v : MergedView Q A) → Idle v.lanes → TimesOut v (wait s v (quiet_rounds n))
  wait-TimesOut zero v idle =
      let (w, q, e) = wait-round v true [] idle in
      (
        _,
        e,
        q.idle,
        ap (λ (t : SyncStats). record t { timeout_count = add64 t.timeout_count 1 }) q.stats,
      )
  wait-TimesOut (suc n) v idle =
      let (w, q, e) = wait-round v false (quiet_rounds n) idle in
      let (u, e', idle', st) = wait-TimesOut n w q.idle in
      (
        u,
        e ∙ e',
        idle',
        st ∙ ap (λ (t : SyncStats). record t { timeout_count = add64 t.timeout_count 1 }) q.stats,
      )

  -- If no lane and no queue has an element and none is written, `next` returns without one once the
  -- time is up, however many rounds that takes, and counts one timeout and nothing else.
  pub next-TimesOut :
      (n : ℕ) (v : MergedView Q A) → Idle v.lanes → TimesOut v (next s v (quiet_rounds n))
  next-TimesOut n v idle =
      let f = find_min-Found 0 v.lanes nothing_found in
      elim (f.origin) [
        | inl e ↦
            let (w, waits, still, counted) = wait-TimesOut n v idle in
            (w, next-waits s v (quiet_rounds n) (ap (λ o. o.1) e) ∙ waits, still, counted)
        | inr (i, l, h, e) ↦ absurd (Idle-not_loaded v.lanes i l idle h)
      ]
