-- ===== src/RingQueue/Open.antt =====
-- The constructor and the destructor of ring_queue.hpp, and how a consumer joins and leaves.
use mergeshare.Prelude.{
  ℕ, zero, suc, ◌+◌, Bool, true, false, not, ◌&&◌, List, [], ◌∷◌, Option, none, some, ◌==◌,
  if◌then◌else◌, add32, sub32, minus_one, is_negative,
}
use mergeshare.Config.{
  QueueConfig, QueueRole, producer, consumer, BlockingMode, blocking, non_blocking,
}
use mergeshare.Config
use mergeshare.Control.{
  QueueMetadata, initialize_metadata, metadata_is_valid, queue_magic_number, Slot, slot, Registry,
  ControlBlock, initialize_control, get_slowest_offset, Header, initialize_header, mark_valid,
  is_valid,
}
use mergeshare.Control
use mergeshare.RingQueue.State.{Element, Ring, Client, registered, with_consumers}

-- `consumer_id.empty()`
abbrev pub is_empty : List ℕ → Bool
is_empty [] = true
is_empty (c ∷ cs) = false

module _ {ℓ} {A : Type ℓ} where
  -- Opening: what each attempt finds under the name. A consumer tries `remaining` times more.
  unfoldable pub open_loop : ℕ → ℕ → (ℕ → Option (Ring A)) → Option (Ring A)
  open_loop zero n found = elim (found n) [
    | none ↦ none
    | some r ↦ if r.metadata.magic_number == queue_magic_number then some r else none
  ]
  open_loop (suc remaining) n found =
      let rest = open_loop remaining (n + 1) found in
      elim (found n) [
        | none ↦ rest
        | some r ↦ if r.metadata.magic_number == queue_magic_number then some r else none
      ]

  -- A segment that the constructor made itself: `memory` is what its elements hold.
  unfoldable pub create_ring : QueueConfig → ℕ → ℕ → List (Element A) → Ring A
  create_ring config size_of now memory = record {
    metadata = initialize_metadata config size_of now;
    control = initialize_control;
    elements = memory;
  }

  -- What an opener checks.
  unfoldable pub matches : QueueConfig → ℕ → Ring A → Bool
  matches config size_of r =
      metadata_is_valid r.metadata
      && (r.metadata.element_size == size_of)
      && (r.metadata.capacity == config.capacity)

  -- The last line of the constructor, for producers and consumers
  abbrev pub join : QueueConfig → Ring A → Client × Ring A
  join config r = (
    record { config = config; consumer_slot_id = minus_one; is_consumer = false },
    record r { control = record r.control { producer_count = add32 r.control.producer_count 1 } },
  )

  -- The constructor; `none` is an exception. `created` is the new segment's memory, if Boost makes it.
  unfoldable pub open_queue :
      QueueConfig
      → ℕ
      → ℕ
      → (ℕ → Option (Ring A))
      → Option (List (Element A))
      → Option (Client × Ring A)
  open_queue config size_of now found created =
      let fresh : Option (Client × Ring A) = elim created [
        | none ↦ none
        | some memory ↦ some (join config (create_ring config size_of now memory))
      ] in
      let checked =
        λ (r : Ring A). if matches config size_of r then some (join config r) else none in
      if not (Config.is_valid config) then none else elim config.queue_role [
        | consumer ↦ elim (open_loop config.open_retry_count 0 found) [
          | none ↦ none
          | some r ↦ checked r
        ]
        | producer ↦ elim (found 0) [
          | none ↦ fresh
          | some r ↦ if r.metadata.magic_number == queue_magic_number then checked r else fresh
        ]
      ]

  unfoldable pub close : Ring A → Ring A
  close r = record r { control = Control.close r.control }

  unfoldable pub is_closed : Ring A → Bool
  is_closed r = Control.is_closed r.control

  unfoldable pub unregister_consumer : Client → Ring A → Client × Ring A
  unregister_consumer c r =
      if registered c
      then (
        record c { consumer_slot_id = minus_one; is_consumer = false },
        with_consumers r (Control.unregister_consumer r.control.consumers c.consumer_slot_id),
      )
      else (c, r)

  -- `thread_id` is the text that an empty id is replaced by.
  unfoldable pub register_consumer :
      Client → List ℕ → List ℕ → Bool → ℕ → Ring A → (Client × Ring A) × Bool
  register_consumer c id thread_id from_beginning now r =
      let (c', r') = unregister_consumer c r in
      let final_id : List ℕ = if is_empty id then thread_id else id in
      let start_offset = if from_beginning then 0 else r'.control.write_offset in
      let (registry, slot_id) =
        Control.register_consumer r'.control.consumers final_id start_offset now in
      if is_negative slot_id then ((c', with_consumers r' registry), false) else (
        (record c' { consumer_slot_id = slot_id; is_consumer = true }, with_consumers r' registry),
        true,
      )

  -- `~RingQueue`
  unfoldable pub destroy : Client → Ring A → Ring A
  destroy c r =
      let r' =
        if registered c
        then with_consumers r (Control.unregister_consumer r.control.consumers c.consumer_slot_id)
        else r in
      record r' {
        control = record r'.control { producer_count = sub32 r'.control.producer_count 1 };
      }
