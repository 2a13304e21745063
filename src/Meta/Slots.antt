-- ===== src/Meta/Slots.antt =====
-- The slots of the table: which are free, and that a live id stands in one slot alone.
use mergeshare.Prelude.{
  ℕ, ◌+◌, ◌≤◌, ◌<◌, ◌≡◌, ◌≢◌, refl, true, false, List, [], ◌∷◌, arith, length, get_or, set,
  replicate, length-set, get_or-set, pos, minus_one, length-replicate, get_or-replicate, u64_mod,
  add64, add32, sub32, if◌then◌else◌, ◌==◌,
}
use mergeshare.FreeList.{Chain, Chain-push, Chain-init, length-link_from}
use mergeshare.FreeList.Partition.{
  count, count_from, without, count-without_ne, Partition, Partition-init, Partition-take,
  Partition-give, Partition-held,
}
use mergeshare.Meta.{
  Metadata, blank, Table, entry, set_entry, initialize, allocate_slot, free_slot, max_buffers,
  invalid_buffer_id,
}
use mergeshare.Meta.Find.{IsSized}

-- The slots `free` are on the free list, the slots `held` are not.
pub record SlotsFree (t : Table) (free held : List ℕ) : Type 0 where
  pub chain : Chain t.next_free t.free_head free
  pub parts : Partition max_buffers free held
  pub counted : t.allocated_count ≡ length held
  pub sized : IsSized t
  pub links : length t.next_free ≡ max_buffers

-- Valid slots are held, and their ids are real, below the next one, and never in two slots.
pub record IdsUnique (t : Table) (held : List ℕ) : Type 0 where
  pub in_use : (i : ℕ) → (entry t i).valid ≡ true → count i held ≢ 0
  pub known :
      (i : ℕ)
      → (entry t i).valid ≡ true
      → (0 < (entry t i).buffer_id) × ((entry t i).buffer_id < t.next_buffer_id)
  pub unique :
      (i j : ℕ)
      → (entry t i).valid ≡ true
      → (entry t j).valid ≡ true
      → (entry t i).buffer_id ≡ (entry t j).buffer_id
      → i ≡ j

pub record IsTable (t : Table) (free held : List ℕ) : Type 0 where
  pub slots : SlotsFree t free held
  pub ids : IdsUnique t held

-- Where no entry is valid, nothing is claimed of ids.
IdsUnique-blank : (t : Table) → ((i : ℕ) → (entry t i).valid ≡ false) → IdsUnique t []
IdsUnique-blank t off = record {
  in_use = λ i h. cc (off i);
  known = λ i h. ground (arith, off i);
  unique = λ i j h h' e. cc (off i);
}

blank_valid : (n i : ℕ) → (get_or (replicate n blank) i blank).valid ≡ false
blank_valid n i = rw (get_or-replicate n i blank)

-- The table that `initialize` sets up is well-formed, with every slot free, the first on top.
pub initialize-IsTable : IsTable initialize (count_from max_buffers 0) []
unfolding initialize
initialize-IsTable = record {
  slots = record {
    chain = Chain-init max_buffers (omega arith) (omega arith);
    parts = Partition-init max_buffers;
    counted = refl;
    sized = length-replicate max_buffers blank;
    links = length-link_from max_buffers max_buffers 0;
  };
  ids = IdsUnique-blank initialize (blank_valid max_buffers);
}

-- One entry is written; the invariant on ids survives if the new entry has a fresh id.
module _ {t t' : Table} {held held' : List ℕ} (s : ℕ) (m : Metadata) (ids : IdsUnique t held)
    (written : (i : ℕ) → entry t' i ≡ (if s == i then m else entry t i))
    (later : t.next_buffer_id ≤ t'.next_buffer_id)
    (still : (i : ℕ) → s ≢ i → count i held ≢ 0 → count i held' ≢ 0)
    (used : m.valid ≡ true → count s held' ≢ 0)
    (real : m.valid ≡ true → (0 < m.buffer_id) × (m.buffer_id < t'.next_buffer_id))
    (fresh : (j : ℕ)
      → m.valid ≡ true
      → s ≢ j
      → (entry t j).valid ≡ true
      → (entry t j).buffer_id ≢ m.buffer_id) where
  pub IdsUnique-write : IdsUnique t' held'
  IdsUnique-write = record {
    in_use = λ i h. ground (arith, written i, still i, used, ids.in_use i);
    known = λ i h. ground (arith, written i, real, ids.known i);
    unique = λ i j h h' e. ground (arith, written i, written j, ids.unique i j, fresh i, fresh j);
  }

pub entry-set :
    (t : Table) (s i : ℕ) (m : Metadata)
    → s < length t.entries
    → get_or (set t.entries s m) i blank ≡ (if s == i then m else entry t i)
entry-set t s i m lt = ground (arith, get_or-set t.entries s i m blank)

-- Writing a held slot, whatever else it does, keeps the slot list.
pub set_entry-SlotsFree :
    {t : Table} {free held : List ℕ} (s : ℕ) (m : Metadata)
    → SlotsFree t free held
    → SlotsFree (set_entry t s m) free held
set_entry-SlotsFree {t} s m p = record {
  chain = p.chain;
  parts = p.parts;
  counted = p.counted;
  sized = omega (arith, p.sized, length-set t.entries s m);
  links = p.links;
}

-- The entry and the table that `allocate_slot` leaves at a free list that begins with `s`.
abbrev reserved : Table → ℕ → Metadata
reserved t s = record (entry t s) { buffer_id = t.next_buffer_id; ref_count = 0; valid = false }

abbrev taken : Table → ℕ → Table
taken t s = record t {
  free_head = get_or t.next_free s minus_one;
  next_buffer_id = add64 t.next_buffer_id 1;
  entries = set t.entries s (reserved t s);
  allocated_count = add32 t.allocated_count 1;
}

allocate_slot-taken :
    (t : Table) (s : ℕ) → t.free_head ≡ pos s → allocate_slot t ≡ (pos s, taken t s)
unfolding allocate_slot
allocate_slot-taken t s e = ground arith

taken-SlotsFree :
    {t : Table} {free held : List ℕ} (s : ℕ)
    → SlotsFree t (s ∷ free) held
    → SlotsFree (taken t s) free (s ∷ held)
taken-SlotsFree {t} s p = record {
  chain = p.chain.2;
  parts = Partition-take s p.parts;
  counted = omega (arith, p.counted, p.parts.total);
  sized = omega (arith, p.sized, length-set t.entries s (reserved t s));
  links = p.links;
}

-- On a well-formed table with a free slot, and no wrap of the next id, `allocate_slot` returns the
-- top of the free list and reserves it under the next id; the table stays well-formed, with that
-- slot held, and no other entry changes.
pub allocate_slot-IsTable :
    {t : Table} {free held : List ℕ} (s : ℕ)
    → t.next_buffer_id + 1 < u64_mod
    → IsTable t (s ∷ free) held
    → let (r, t') = allocate_slot t in
      (r ≡ pos s)
      × IsTable t' free (s ∷ held)
      × ((entry t' s).buffer_id ≡ t.next_buffer_id)
      × ((j : ℕ) → s ≢ j → entry t' j ≡ entry t j)
unfolding count
allocate_slot-IsTable {t} {free} {held} s room p = rw (allocate_slot-taken t s p.slots.chain.0) (
  refl,
  record {
    slots = taken-SlotsFree s p.slots;
    ids =
        IdsUnique-write s (reserved t s) p.ids written (omega arith) (λ i ne h. ground arith)
          (λ v. cc) (λ v. cc) (λ j v. cc);
  },
  rw (written s) (ground arith),
  λ j ne. ground (arith, written j),
)
  where
    in_bounds : s < length t.entries
    in_bounds = omega (arith, p.slots.sized, p.slots.links, p.slots.chain)

    written : (i : ℕ) → entry (taken t s) i ≡ (if s == i then reserved t s else entry t i)
    written i = entry-set t s i (reserved t s) in_bounds

-- The same for `free_slot` at a held slot.
abbrev cleared : Table → ℕ → Metadata
cleared t s = record (entry t s) { valid = false; buffer_id = invalid_buffer_id }

abbrev returned : Table → ℕ → Table
returned t s = record t {
  entries = set t.entries s (cleared t s);
  next_free = set t.next_free s t.free_head;
  free_head = pos s;
  allocated_count = sub32 t.allocated_count 1;
}

free_slot-returned : (t : Table) (s : ℕ) → s < max_buffers → free_slot t (pos s) ≡ returned t s
unfolding free_slot
free_slot-returned t s lt = ground arith

returned-SlotsFree :
    {t : Table} {free held : List ℕ} (s : ℕ)
    → count s held ≢ 0
    → SlotsFree t free held
    → SlotsFree (returned t s) (s ∷ free) (without s held)
returned-SlotsFree {t} {free} {held} s h p =
    let at_s = Partition-held s p.parts h in
    let parts' = Partition-give s h p.parts in
    record {
      chain = Chain-push t.next_free t.free_head free s (omega (arith, p.links)) at_s.1 p.chain;
      parts = parts';
      counted = omega (arith, p.counted, p.parts.total, parts'.total);
      sized = omega (arith, p.sized, length-set t.entries s (cleared t s));
      links = omega (arith, p.links, length-set t.next_free s t.free_head);
    }

-- On a well-formed table, `free_slot` puts a slot that is held on top of the free list and makes
-- its entry invalid; the table stays well-formed, and no other entry changes.
pub free_slot-IsTable :
    {t : Table} {free held : List ℕ} (s : ℕ)
    → count s held ≢ 0
    → IsTable t free held
    → let t' = free_slot t (pos s) in
      IsTable t' (s ∷ free) (without s held)
      × ((entry t' s).valid ≡ false)
      × ((j : ℕ) → s ≢ j → entry t' j ≡ entry t j)
free_slot-IsTable {t} {free} {held} s h p = rw (free_slot-returned t s at_s.0) (
  record {
    slots = returned-SlotsFree s h p.slots;
    ids =
        IdsUnique-write s (cleared t s) p.ids written (omega arith)
          (λ i ne k. omega (arith, count-without_ne s i held ne)) (λ v. cc) (λ v. cc) (λ j v. cc);
  },
  rw (written s) (ground arith),
  λ j ne. ground (arith, written j),
)
  where
    at_s : (s < max_buffers) × (count s free ≡ 0)
    at_s = Partition-held s p.slots.parts h

    written : (i : ℕ) → entry (returned t s) i ≡ (if s == i then cleared t s else entry t i)
    written i = entry-set t s i (cleared t s) (omega (arith, at_s.0, p.slots.sized))
