-- ===== src/Tests/Rings.antt =====
-- A ring of two numbers with a consumer.
use mergeshare.Prelude.{
  ℕ, ◌+◌, ◌^◌, ◌<◌, ◌≡◌, inl, inr, refl, true, false, some, arith, [], ◌∷◌, minus_one, pos,
  replicate, set,
}
use mergeshare.Config.{QueueConfig, with_capacity}
use mergeshare.Control.{
  initialize_header, Header, max_consumers, initialize_control, register_from, register_slot,
  slowest_from, get_slowest_offset, mark_valid, blank_slot,
}
use mergeshare.Control
use mergeshare.RingQueue.State.{Element, Ring, Client}
use mergeshare.RingQueue.Open.{create_ring, register_consumer, unregister_consumer}
use mergeshare.RingQueue.Push.{
  try_push, claim, write_element, write_header, write_payload, publish, count_push,
}
use mergeshare.RingQueue.Pop.{try_pop}
use mergeshare.RingQueue.Valid.{IsRing, written}
use mergeshare.RingQueue.Produce.{Pushes, try_push-Pushes}
use mergeshare.RingQueue.Consume.{IsConsumer, Pops, try_pop-Pops, consumed, read_out}
use mergeshare.RingQueue.Join.{
  Joins, create_ring-IsRing, register_consumer-Joins, register_consumer-from_beginning,
}
use mergeshare.RingQueue.Race.{claim-try_pop}

abbrev config : QueueConfig
config = with_capacity 2

-- Memory that holds no element
abbrev pub blank : Element ℕ
blank = record { header = initialize_header 0 0 0; payload = 0 }

abbrev ring : Ring ℕ
ring = create_ring config 8 0 (blank ∷ blank ∷ [])

ring-IsRing : IsRing 2 blank ring
ring-IsRing = create_ring-IsRing config 8 0 (blank ∷ blank ∷ []) blank (omega arith) refl

abbrev outside : Client
outside = record { config = config; consumer_slot_id = minus_one; is_consumer = false }

-- Joined at the write offset
abbrev client : Client
client = (register_consumer outside [] (112 ∷ []) false 0 ring).0.0

abbrev pub heard : Ring ℕ
heard = (register_consumer outside [] (112 ∷ []) false 0 ring).0.1

it_joins : (register_consumer outside [] (112 ∷ []) false 0 ring).1 ≡ true
unfolding register_consumer unregister_consumer create_ring initialize_control
    Control.register_consumer register_from register_slot
it_joins = refl

pub joins : Joins 2 blank ring client heard
joins = elim (register_consumer-Joins outside [] (112 ∷ []) 0 blank ring refl ring-IsRing) [
  | inl (out, _) ↦ absurd (ground (arith, out, it_joins))
  | inr (_, j) ↦ j
]

-- The object that joined
abbrev pub reader : Client
reader = record { config = config; consumer_slot_id = pos 0; is_consumer = true }

pub small : heard.control.write_offset + 2 < 2 ^ 64
unfolding register_consumer unregister_consumer create_ring initialize_control
    Control.register_consumer register_from register_slot
small = omega arith

-- With one element in it
abbrev loaded : Ring ℕ
loaded = (try_push reader 8 10 5 1 blank heard heard).0

loaded-Pushes :
    Pushes 2 blank
      (written 8 heard.control.write_offset 5 10)
      heard
      heard
      loaded
      (try_push reader 8 10 5 1 blank heard heard).1
loaded-Pushes =
    try_push-Pushes reader 8 10 5 1 blank heard heard joins.valid joins.valid
      (λ i on. (on, omega arith)) small

is_consumer : IsConsumer reader loaded
unfolding register_consumer unregister_consumer create_ring initialize_control
    Control.register_consumer register_from register_slot try_push claim write_element write_header
    write_payload publish count_push get_slowest_offset slowest_from
is_consumer = (refl, refl, omega arith)

small_loaded : loaded.control.write_offset + 2 < 2 ^ 64
unfolding register_consumer unregister_consumer create_ring initialize_control
    Control.register_consumer register_from register_slot try_push claim write_element write_header
    write_payload publish count_push get_slowest_offset slowest_from
small_loaded = omega arith

try_pop-Pops_example : Pops reader blank loaded (try_pop reader 2 blank loaded)
try_pop-Pops_example =
    try_pop-Pops reader 2 blank loaded is_consumer loaded-Pushes.valid small_loaded

-- Three elements went through the two places, without a consumer.
abbrev wrapped : Ring ℕ
wrapped = record ring { control = record initialize_control { write_offset = 3 } }

joins_wrapped : (register_consumer outside [] (112 ∷ []) true 0 wrapped).1 ≡ true
unfolding register_consumer unregister_consumer create_ring initialize_control
    Control.register_consumer register_from register_slot
joins_wrapped = refl

register_consumer-from_beginning_example :
    ¬ IsRing 2 blank (register_consumer outside [] (112 ∷ []) true 0 wrapped).0.1
register_consumer-from_beginning_example =
    register_consumer-from_beginning outside [] (112 ∷ []) 0 blank wrapped refl (omega arith)
      joins_wrapped

-- Two elements written, and both read by the consumer of slot 0
abbrev drained : Ring ℕ
drained = record {
  metadata = ring.metadata;
  control = record initialize_control {
    write_offset = 2;
    consumers = record {
      slots =
          set (replicate max_consumers blank_slot) 0
            (record blank_slot { read_offset = 2; active = true });
      active_count = 1;
    };
  };
  elements = written 8 0 5 10 ∷ written 8 1 6 11 ∷ [];
}

-- A producer has taken offset 2.
abbrev claimed : Ring ℕ
claimed = record drained { control = record drained.control { write_offset = 3 } }

claimed_2 : claim 2 drained ≡ some claimed
unfolding claim
claimed_2 = refl

stale : Control.is_valid (written {A = ℕ} 8 0 5 10).header ≡ true
unfolding Control.is_valid mark_valid initialize_header
stale = refl

claim-try_pop_example :
    try_pop reader 3 blank claimed
    ≡ some (consumed reader 3 claimed, some (read_out reader (written 8 0 5 10)))
claim-try_pop_example =
    claim-try_pop reader 3 blank drained claimed (refl, refl, omega arith) refl (omega arith) stale
      claimed_2
