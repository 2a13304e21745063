-- ===== src/RingQueue/Valid.antt =====
-- The invariant of a ring queue, and what one write does to its elements.
use mergeshare.Prelude.{
  ℕ, zero, suc, ◌+◌, ◌%◌, ◌≤◌, ◌<◌, ◌≡◌, refl, ap, ◌∙◌, true, false, List, [], ◌∷◌, arith, length,
  get_or, set, get_or-set_self, u64_mod, add64, inl, inr,
}
use mergeshare.Control.{slot, max_consumers, initialize_header, mark_valid, is_valid, Header}
use mergeshare.Control.Slots.{get_slowest_offset-le, get_slowest_offset-attained}
use mergeshare.RingQueue.State.{Element, Ring, no_room}
use mergeshare.RingQueue.Push.{write_header, write_payload, publish, count_push, write_element}

set-set {ℓ} : {A : Type ℓ} (xs : List A) (i : ℕ) (v w : A) → set (set xs i v) i w ≡ set xs i w
set-set [] i v w = refl
set-set (x ∷ xs) zero v w = refl
set-set (x ∷ xs) (suc i) v w = ap (λ ys. x ∷ ys) (set-set xs i v w)

-- Two changes of the same item, one after the other.
set-get_or-set {ℓ} :
    {A : Type ℓ} (xs : List A) (i : ℕ) (v d : A) (f : A → A)
    → i < length xs
    → set (set xs i v) i (f (get_or (set xs i v) i d)) ≡ set xs i (f v)
set-get_or-set xs i v d f lt =
    set-set xs i v (f (get_or (set xs i v) i d))
    ∙ ap (λ x. set xs i (f x)) (get_or-set_self xs i v d lt)

-- The header of an element that is written.
abbrev pub written_header : ℕ → ℕ → ℕ → Header
written_header size_of idx ts = mark_valid (initialize_header idx ts size_of)

module _ {ℓ} {A : Type ℓ} where
  abbrev pub written : ℕ → ℕ → ℕ → A → Element A
  written size_of idx ts x = record { header = written_header size_of idx ts; payload = x }

  -- `blank` stands for the memory beyond the elements, and the queue has `capacity` of them.
  pub record IsRing (capacity : ℕ) (blank : Element A) (r : Ring A) : Type 0 where
    pub room : 0 < capacity
    pub stored : length r.elements ≡ capacity
    pub slots : length r.control.consumers.slots ≡ max_consumers
    pub behind :
        (i : ℕ)
        → (slot r.control.consumers i).active ≡ true
        → (slot r.control.consumers i).read_offset ≤ r.control.write_offset
    pub near :
        (i : ℕ)
        → (slot r.control.consumers i).active ≡ true
        → r.control.write_offset ≤ (slot r.control.consumers i).read_offset + capacity
    pub finished :
        (i n : ℕ)
        → (slot r.control.consumers i).active ≡ true
        → (slot r.control.consumers i).read_offset ≤ n
        → n < r.control.write_offset
        → is_valid (get_or r.elements (n % capacity) blank).header ≡ true

  -- One write sets one element.
  pub write_element-eq :
      (capacity size_of idx : ℕ) (x : A) (ts now : ℕ) (blank : Element A) (r : Ring A)
      → idx % capacity < length r.elements
      → write_element capacity size_of idx x ts now blank r
        ≡ count_push now
            (record r { elements = set r.elements (idx % capacity) (written size_of idx ts x) })
  unfolding write_element write_header write_payload publish
  write_element-eq capacity size_of idx x ts now blank r lt =
      ap (λ es. count_push now (record r { elements = es }))
        (ap (λ es. set es i (valid (get_or es i blank)))
            (set-get_or-set r.elements i first blank filled lt)
          ∙ set-get_or-set r.elements i (filled first) blank valid lt)
    where
      i : ℕ
      i = idx % capacity

      filled : Element A → Element A
      filled e = record e { payload = x }

      valid : Element A → Element A
      valid e = record e { header = mark_valid e.header }

      first : Element A
      first = record (get_or r.elements i blank) { header = initialize_header idx ts size_of }

  -- Only reads came between two states of a ring: the active consumers were active, and not ahead.
  abbrev pub Later : Ring A → Ring A → Type 0
  Later seen r =
      (i : ℕ)
      → (slot r.control.consumers i).active ≡ true
      → ((slot seen.control.consumers i).active ≡ true)
        × ((slot seen.control.consumers i).read_offset ≤ (slot r.control.consumers i).read_offset)

  -- The ring after a push at its write offset.
  abbrev pub extended : ℕ → ℕ → A → ℕ → ℕ → Ring A → Ring A
  extended capacity size_of x ts now r = count_push now (record r {
    control = record r.control { write_offset = add64 r.control.write_offset 1 };
    elements =
        set r.elements (r.control.write_offset % capacity)
          (written size_of r.control.write_offset ts x);
  })

module _ {ℓ} {A : Type ℓ} (capacity : ℕ) (blank : Element A) (seen r : Ring A)
    (before : IsRing capacity blank seen) (v : IsRing capacity blank r) (later : Later seen r)
    (unclaimed : r.control.write_offset ≡ seen.control.write_offset)
    (small : r.control.write_offset + capacity < u64_mod) where
  -- Room at the loads is room at the exchange, before every active consumer.
  pub room-near :
      (i : ℕ)
      → no_room capacity seen.control ≡ false
      → (slot r.control.consumers i).active ≡ true
      → r.control.write_offset < (slot r.control.consumers i).read_offset + capacity
  room-near i space on = elim (get_slowest_offset-attained seen.control.consumers) [
    | inl e ↦
        ground (arith, later i on, get_slowest_offset-le seen.control.consumers i, before.behind i)
    | inr (k, k_on, e) ↦
        ground (arith, later i on, get_slowest_offset-le seen.control.consumers i, before.behind k)
  ]
