-- ===== src/Merge/Rings.antt =====
-- Ring queues (ring_queue.hpp) as the queues of a `MergedQueueView` (timestamp_sync.hpp).
use mergeshare.Prelude.{
  ℕ, ◌+◌, ◌-◌, ◌%◌, ◌≤◌, ◌<◌, ◌≡◌, ◌⊎◌, ◌↔◌, inl, inr, refl, sym, ap, ◌∙◌, ap₂, Bool, true, List,
  [], ◌∷◌, Option, none, some, arith, get_or, map, u64_mod,
}
use mergeshare.Window.{window, window-cons}
use mergeshare.Pool.{index}
use mergeshare.RingQueue.State.{Element, Ring, Client, own_slot}
use mergeshare.RingQueue.Pop.{try_pop, size, empty, advance}
use mergeshare.RingQueue.Valid.{IsRing}
use mergeshare.RingQueue.Consume.{
  IsConsumer, consumed, try_pop-cases, consumed-slot, consumed-IsRing, read_out,
}
use mergeshare.Merge.{PopQueue}

module _ {A : Type 0} (blank : Element A) where
  -- A registered consumer of a ring queue with timestamps, which reads at the time `now`.
  pub record Reader : Type 0 where
    pub client : Client
    pub now : ℕ
    pub ring : Ring A
    pub is_consumer : IsConsumer client ring
    pub valid : IsRing client.config.capacity blank ring
    pub small : ring.control.write_offset + client.config.capacity < u64_mod
    pub stamped : client.config.has_timestamp ≡ true

  abbrev offset : Reader → ℕ
  offset q = (own_slot q.client q.ring.control).read_offset

  abbrev capacity : Reader → ℕ
  capacity q = q.client.config.capacity

  abbrev timed : Element A → A × ℕ
  timed e = (e.payload, e.header.timestamp)

  abbrev oldest : Reader → Element A
  oldest q = get_or q.ring.elements (offset q % capacity q) blank

  -- What the reader has still to read.
  abbrev pub to_read : Reader → List (A × ℕ)
  to_read q = map timed (
      window blank q.ring.elements (capacity q) (offset q) (q.ring.control.write_offset - offset q))

  -- The two cases of `try_pop`.
  abbrev Popped : Reader → Type 0
  Popped q =
      ((q.ring.control.write_offset ≤ offset q)
        × (try_pop q.client q.now blank q.ring ≡ some (q.ring, none)))
      ⊎ ((offset q < q.ring.control.write_offset)
          × (try_pop q.client q.now blank q.ring
              ≡ some (consumed q.client q.now q.ring, some (read_out q.client (oldest q)))))

  -- The reader's slot and the ring after one read.
  module _ (q : Reader) (wet : offset q < q.ring.control.write_offset) where
    abbrev rest : Ring A
    rest = consumed q.client q.now q.ring

    rest-kept :
        (rest.control.write_offset ≡ q.ring.control.write_offset)
        × (rest.elements ≡ q.ring.elements)
    unfolding advance
    rest-kept = (refl, refl)

    rest-slot :
        ((own_slot q.client rest.control).read_offset ≡ offset q + 1)
        × ((own_slot q.client rest.control).active ≡ true)
    rest-slot = ground (
      arith,
      consumed-slot q.client q.now (index q.client.consumer_slot_id) blank q.ring q.is_consumer
          q.valid,
      q.is_consumer.1,
      q.small,
    )

    advanced : Reader
    advanced = record q {
      ring = rest;
      is_consumer = (q.is_consumer.0, rest-slot.1, q.is_consumer.2);
      valid = consumed-IsRing q.client q.now blank q.ring q.is_consumer q.valid wet q.small;
      small = omega (arith, rest-kept.0, q.small);
    }

    to_read-wet : to_read q ≡ timed (oldest q) ∷ to_read advanced
    unfolding advanced advance
    to_read-wet =
        ap (map timed) (
          window-cons blank q.ring.elements (capacity q) (offset q)
            (q.ring.control.write_offset - offset q) (omega (arith, wet)))
        ∙ ap₂ (λ o n. timed (oldest q) ∷ map timed (window blank q.ring.elements (capacity q) o n))
            (sym rest-slot.0) (omega (arith, rest-slot.0))

  to_read-dry : (q : Reader) → q.ring.control.write_offset ≤ offset q → to_read q ≡ []
  to_read-dry q dry =
      ap (λ n. map timed (window blank q.ring.elements (capacity q) (offset q) n)) {y = 0}
        (omega (arith, dry))

  -- `try_pop` with its state.
  pop_by : (q : Reader) → Popped q → Reader × Option (A × ℕ)
  unfolding advanced
  pop_by q (inl _) = (q, none)
  pop_by q (inr (wet, _)) = (advanced q wet, some (timed (oldest q)))

  pub reader_pop : Reader → Reader × Option (A × ℕ)
  reader_pop q = pop_by q (try_pop-cases q.client q.now blank q.ring q.is_consumer q.valid)

  abbrev pub reader_empty : Reader → Bool
  reader_empty q = empty q.client q.ring

  -- An item as `try_pop` gives it: with its timestamp.
  abbrev given : Option (A × ℕ) → Option (A × Option ℕ)
  given none = none
  given (some (x, t)) = some (x, some t)

  pop_by-code :
      (q : Reader) (c : Popped q)
      → try_pop q.client q.now blank q.ring ≡ some ((pop_by q c).0.ring, given (pop_by q c).1)
  unfolding pop_by advanced
  pop_by-code q (inl (dry, e)) = e
  pop_by-code q (inr (wet, e)) = e ∙ ground (arith, q.stamped)

  -- The reader's pop is `try_pop` of its queue.
  pub reader_pop-try_pop :
      (q : Reader)
      → try_pop q.client q.now blank q.ring ≡ some ((reader_pop q).0.ring, given (reader_pop q).1)
  unfolding reader_pop
  reader_pop-try_pop q =
      pop_by-code q (try_pop-cases q.client q.now blank q.ring q.is_consumer q.valid)

  pop_by-none :
      (q : Reader) (c : Popped q)
      → to_read q ≡ []
      → ((pop_by q c).1 ≡ none) × (to_read (pop_by q c).0 ≡ [])
  unfolding pop_by
  pop_by-none q (inl _) e = (refl, e)
  pop_by-none q (inr (wet, _)) e = cc (to_read-wet q wet, e)

  pop_by-some :
      (q : Reader) (c : Popped q) (x : A × ℕ) (xs : List (A × ℕ))
      → to_read q ≡ x ∷ xs
      → ((pop_by q c).1 ≡ some x) × (to_read (pop_by q c).0 ≡ xs)
  unfolding pop_by
  pop_by-some q (inl (dry, _)) x xs e = cc (to_read-dry q dry, e)
  pop_by-some q (inr (wet, _)) x xs e = (cc (to_read-wet q wet, e), cc (to_read-wet q wet, e))

  pub reader_pop-none :
      (q : Reader) → to_read q ≡ [] → ((reader_pop q).1 ≡ none) × (to_read (reader_pop q).0 ≡ [])
  unfolding reader_pop
  reader_pop-none q = pop_by-none q _

  pub reader_pop-some :
      (q : Reader) (x : A × ℕ) (xs : List (A × ℕ))
      → to_read q ≡ x ∷ xs
      → ((reader_pop q).1 ≡ some x) × (to_read (reader_pop q).0 ≡ xs)
  unfolding reader_pop
  reader_pop-some q = pop_by-some q _

  pub reader_empty_iff : (q : Reader) → (reader_empty q ≡ true) ↔ (to_read q ≡ [])
  unfolding empty size
  reader_empty_iff q = elim (try_pop-cases q.client q.now blank q.ring q.is_consumer q.valid) [
    | inl (dry, _) ↦ ((λ e. to_read-dry q dry), λ e. ground (arith, dry, q.is_consumer.0))
    | inr (wet, _) ↦ (
      (λ e. absurd (ground (arith, wet, e, q.is_consumer.0, q.valid.room))),
      λ e. cc (to_read-wet q wet, e),
    )
  ]

  -- A registered consumer of a valid ring queue is a queue for a `MergedQueueView`.
  abbrev pub ring_queues : PopQueue Reader A
  ring_queues = record {
    try_pop = reader_pop;
    empty = reader_empty;
    pending = to_read;
    pop_none = reader_pop-none;
    pop_some = reader_pop-some;
    empty_iff = reader_empty_iff;
  }
