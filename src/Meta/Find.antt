-- ===== src/Meta/Find.antt =====
-- `find_slot_by_id` against its meaning: the first valid slot with the id.
use mergeshare.Prelude.{
  ℕ, zero, suc, ◌+◌, ◌≤◌, ◌<◌, ◌^◌, ◌≡◌, ◌⊎◌, inl, inr, refl, ap, true, false, ◌&&◌, List, [], ◌∷◌,
  arith, length, get_or, ◌==◌, set, to_i32, if◌then◌else◌, ℤ, pos, minus_one, to_i32-pos,
  Bool-cases, ◌∙◌,
}
use mergeshare.Meta.{
  Metadata, blank, Table, entry, set_entry, find_from, find_slot_by_id, max_buffers,
}

-- The slot holds the valid metadata of the id.
abbrev pub Holds : Metadata → ℕ → Type 0
Holds m id = (m.valid ≡ true) × (m.buffer_id ≡ id)

-- What the search from slot `i` on returns: -1 if no slot holds the id, else a slot that does.
abbrev Searched : List Metadata → ℕ → ℕ → ℤ → Type 0
Searched ms id i r =
    ((r ≡ minus_one) × ((j : ℕ) → ¬ Holds (get_or ms j blank) id))
    ⊎ ((j : ℕ) × (r ≡ pos (i + j)) × (j < length ms) × Holds (get_or ms j blank) id)

hit : (id : ℕ) (m : Metadata) → (m.valid && (m.buffer_id == id)) ≡ true → Holds m id
hit id m e = ground arith

miss : (id : ℕ) (m : Metadata) → (m.valid && (m.buffer_id == id)) ≡ false → ¬ Holds m id
miss id m e h = ground arith

skip :
    (id i : ℕ) (m : Metadata) (ms : List Metadata) {r : ℤ}
    → ¬ Holds m id
    → Searched ms id (i + 1) r
    → Searched (m ∷ ms) id i r
skip id i m ms no_hit (inl (e, none_holds)) = inl (e, beyond)
  where
    beyond : (j : ℕ) → ¬ Holds (get_or (m ∷ ms) j blank) id
    beyond zero = no_hit
    beyond (suc j) = none_holds j
skip id i m ms no_hit (inr (j, e, lt, h)) = inr (suc j, e ∙ ap pos (omega arith), omega arith, h)

find_from-Searched :
    (id i : ℕ) (ms : List Metadata) → i + length ms ≤ 2 ^ 31 → Searched ms id i (find_from id i ms)
unfolding find_from
find_from-Searched id i [] h = inl (refl, λ j x. cc (x.0))
find_from-Searched id i (m ∷ ms) h = elim (Bool-cases (m.valid && (m.buffer_id == id))) [
  | inl e ↦
      rw e (inr (0, to_i32-pos i (omega arith) ∙ ap pos (omega arith), omega arith, hit id m e))
  | inr e ↦ rw e (skip id i m ms (miss id m e) (find_from-Searched id (i + 1) ms (omega arith)))
]

-- The table has its `MAX_BUFFERS` slots.
abbrev pub IsSized : Table → Type 0
IsSized t = length t.entries ≡ max_buffers

-- On a table of full size, `find_slot_by_id` returns -1, and then no slot holds the id as valid,
-- or the number of a slot that does.
pub find_slot_by_id_lem :
    (t : Table) (id : ℕ)
    → IsSized t
    → ((find_slot_by_id t id ≡ minus_one) × ((j : ℕ) → ¬ Holds (entry t j) id))
      ⊎ ((j : ℕ) × (find_slot_by_id t id ≡ pos j) × (j < max_buffers) × Holds (entry t j) id)
unfolding find_slot_by_id
find_slot_by_id_lem t id sized = elim (find_from-Searched id 0 t.entries (omega arith)) [
  | inl none_holds ↦ inl none_holds
  | inr (j, e, lt, h) ↦ inr (j, e ∙ ap pos (omega arith), omega arith, h)
]

-- An id that one slot alone holds is found there.
pub find_slot_by_id_unique :
    (t : Table) (id s : ℕ)
    → IsSized t
    → Holds (entry t s) id
    → ((j : ℕ) → Holds (entry t j) id → j ≡ s)
    → find_slot_by_id t id ≡ pos s
find_slot_by_id_unique t id s sized h only = elim (find_slot_by_id_lem t id sized) [
  | inl (e, none_holds) ↦ absurd (none_holds s h)
  | inr (j, e, lt, h') ↦ e ∙ ap pos (only j h')
]

-- An id that no slot holds is not found.
pub find_slot_by_id-missing :
    (t : Table) (id : ℕ)
    → IsSized t
    → ((j : ℕ) → ¬ Holds (entry t j) id)
    → find_slot_by_id t id ≡ minus_one
find_slot_by_id-missing t id sized none_holds = elim (find_slot_by_id_lem t id sized) [
  | inl (e, _) ↦ e
  | inr (j, e, lt, h) ↦ absurd (none_holds j h)
]

-- A write that keeps a slot's validity and id is not seen by the search.
find_from-set :
    (id i s : ℕ) (m : Metadata) (ms : List Metadata)
    → m.valid ≡ (get_or ms s blank).valid
    → m.buffer_id ≡ (get_or ms s blank).buffer_id
    → find_from id i (set ms s m) ≡ find_from id i ms
unfolding find_from
find_from-set id i s m [] v e = refl
find_from-set id i zero m (x ∷ ms) v e = rw (v, e)
find_from-set id i (suc s) m (x ∷ ms) v e =
    ap (λ r. if x.valid && (x.buffer_id == id) then to_i32 i else r)
      (find_from-set id (i + 1) s m ms v e)

pub find_slot_by_id-set_entry :
    (t : Table) (id s : ℕ) (m : Metadata)
    → m.valid ≡ (entry t s).valid
    → m.buffer_id ≡ (entry t s).buffer_id
    → find_slot_by_id (set_entry t s m) id ≡ find_slot_by_id t id
unfolding find_slot_by_id
find_slot_by_id-set_entry t id s m v e = find_from-set id 0 s m t.entries v e
