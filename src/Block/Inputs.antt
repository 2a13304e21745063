-- ===== src/Block/Inputs.antt =====
-- port.hpp and block.hpp: buffers that a block reads from its input ports and writes to its output
-- ports.
use mergeshare.Prelude.{
  ℕ, ◌<◌, ◌≡◌, inl, inr, refl, ap, ◌∙◌, Bool, true, false, ◌&&◌, List, Option, none, some, arith,
  if◌then◌else◌, length, set, get_or-set_self, length-set, Option-cases,
}
use mergeshare.Refs.{RefCounter, Reclaimer}
use mergeshare.BufferPtr.{Handle, null, handle, attached, valid, Heap, release, construct}
use mergeshare.PortQueue.{Queue, pop_with_timeout}
use mergeshare.PortQueue.Counted.{Outcome, closed_queue, push, push_with_timeout, TimedWake}
use mergeshare.Block.{Port, PortTable, get_port}
use mergeshare.Block.Queues.{Queues, queue_at, joined, read}

-- What the rounds of a wait find: the queue, and whether the deadline is past
abbrev pub Rounds : Type 0
Rounds = List (Option Queue × Bool)

-- What `InputPort::read_with_timeout` takes from the queue
unfoldable pub read_with_timeout : Queues → Bool → Port → Rounds → Queues × Option ℕ
read_with_timeout qs allocator p rounds = elim p.queue [
  | none ↦ (qs, none)
  | some n ↦
      let (q, item) = pop_with_timeout (queue_at qs n) p.consumer_id rounds in
      if allocator && joined p then (set qs n q, item) else (qs, none)
]

-- The read of `consume_input`; the rounds are given where `timeout_ms` is not 0.
unfoldable pub take_input : Queues → Bool → PortTable → ℕ → Option Rounds → Queues × Option ℕ
take_input qs allocator t index timeout = elim (get_port t index) [
  | none ↦ (qs, none)
  | some p ↦ elim timeout [
    | none ↦ read qs allocator p
    | some rounds ↦ read_with_timeout qs allocator p rounds
  ]
]

module _ (d : Reclaimer) where
  -- The handle returned is put at place `i`.
  unfoldable pub consume_input :
      Queues → Heap d → ℕ → Bool → PortTable → ℕ → Option Rounds → Queues × Heap d
  consume_input qs (s, hs) i allocator t index timeout =
      let (qs', item) = take_input qs allocator t index timeout in
      elim item [
        | none ↦ (qs', (s, set hs i null))
        | some id ↦
            let m = construct d (s, hs) i id allocator in
            (qs', (if valid (handle m.1 i) then m else release d m i))
      ]

module _ (r : RefCounter) where
  open r use {State}

  -- `OutputPort::write` and `write_with_timeout`, on a queue and what waits on it find
  unfoldable pub write :
      Queues
      → Option State
      → Port
      → Handle
      → List (Queue × Option State)
      → Outcome × Queues × Option State
  write qs a p h wakes = elim p.queue [
    | none ↦ (closed_queue, qs, a)
    | some n ↦
        let (o, q, b) = push r (queue_at qs n) a h.buffer_id wakes in
        if valid h then (o, set qs n q, b) else (closed_queue, qs, a)
  ]

  unfoldable pub write_with_timeout :
      Queues → Option State → Port → Handle → List (TimedWake r) → Outcome × Queues × Option State
  write_with_timeout qs a p h wakes = elim p.queue [
    | none ↦ (closed_queue, qs, a)
    | some n ↦
        let (o, q, b) = push_with_timeout r (queue_at qs n) a h.buffer_id wakes in
        if valid h then (o, set qs n q, b) else (closed_queue, qs, a)
  ]

  -- `produce_output`, on what a wait finds; the timed one where `timeout_ms` is not 0
  unfoldable pub produce_output :
      Queues
      → Option State
      → PortTable
      → ℕ
      → Handle
      → List (Queue × Option State)
      → Option (List (TimedWake r))
      → Outcome × Queues × Option State
  produce_output qs a t index h wakes timeout = elim (get_port t index) [
    | none ↦ (closed_queue, qs, a)
    | some p ↦ elim timeout [
      | none ↦ write qs a p h wakes
      | some timed ↦ write_with_timeout qs a p h timed
    ]
  ]

-- A handle just made, and the place of one released
construct-handle :
    (d : Reclaimer) (s : d.refs.State) (hs : List Handle) (i id : ℕ) (allocator : Bool)
    → i < length hs
    → (length (construct d (s, hs) i id allocator).1 ≡ length hs)
      × ((handle (construct d (s, hs) i id allocator).1 i).buffer_id ≡ id)
unfolding construct
construct-handle d s hs i id allocator lt =
    let h : Handle = record { buffer_id = id; allocator = allocator; address = none } in
    let p : Option (ℕ × ℕ) = (d.get_buffer_data (d.refs.add_ref s id).0 id).1 in
    (
      ground (arith, length-set hs i h, length-set hs i (record h { address = p })),
      ground (
        arith,
        get_or-set_self hs i h null lt,
        get_or-set_self hs i (record h { address = p }) null lt,
      ),
    )

pub release-handle :
    (d : Reclaimer) (m : Heap d) (i : ℕ)
    → i < length m.1
    → attached (handle (release d m i).1 i) ≡ false
unfolding release
release-handle d m i lt = ap attached (get_or-set_self m.1 i null null lt)

module _ (d : Reclaimer) (loans : ℕ → ℕ) (qs : Queues) (s : d.refs.State) (hs : List Handle) (i : ℕ)
    (allocator : Bool) (t : PortTable) (index : ℕ) (timeout : Option Rounds) where
  abbrev taken : Queues × Option ℕ
  taken = take_input qs allocator t index timeout

  consumed-none :
      taken.1 ≡ none
      → consume_input d qs (s, hs) i allocator t index timeout ≡ (taken.0, (s, set hs i null))
  unfolding consume_input
  consumed-none e = rw (e, consume_input) refl

  consumed-some :
      (id : ℕ)
      → taken.1 ≡ some id
      → let m = construct d (s, hs) i id allocator in
        consume_input d qs (s, hs) i allocator t index timeout
        ≡ (taken.0, (if valid (handle m.1 i) then m else release d m i))
  unfolding consume_input
  consumed-some id e = rw (e, consume_input) refl

  pub consume_input-length :
      i < length hs
      → length (consume_input d qs (s, hs) i allocator t index timeout).1.1 ≡ length hs
  unfolding release
  consume_input-length lt = elim (Option-cases taken.1) [
    | inl e ↦ ap (λ x. length x.1.1) (consumed-none e) ∙ length-set hs i null
    | inr (id, e) ↦
        let m = construct d (s, hs) i id allocator in
        let same = (construct-handle d s hs i id allocator lt).0 in
        ap (λ x. length x.1.1) (consumed-some id e) ∙ ground (arith, same, length-set m.1 i null)
  ]

  pub consume_input-valid :
      i < length hs
      → valid (handle (consume_input d qs (s, hs) i allocator t index timeout).1.1 i) ≡ true
      → (id : ℕ) × (taken.1 ≡ some id)
  unfolding valid
  consume_input-valid lt good = elim (Option-cases taken.1) [
    | inl e ↦
        let gone =
          ap (λ x. valid (handle x.1.1 i)) (consumed-none e)
          ∙ ap valid (get_or-set_self hs i null null lt) in
        absurd (cc (good, gone))
    | inr r ↦ r
  ]
