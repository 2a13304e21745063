-- ===== src/Tests/Ports.antt =====
-- A port queue of two places with two consumers.
use mergeshare.Prelude.{
  ◌∷◌, ◌++◌, ◌≤◌, ℕ, ◌+◌, ◌-◌, ◌^◌, ◌<◌, ◌≡◌, refl, Bool, true, false, ◌&&◌, none, some, arith, [],
  ◌==◌, if◌then◌else◌,
}
use mergeshare.Refs.{allocator_refs}
use mergeshare.Allocator.{get_ref_count}
use mergeshare.Allocator.Counts.{is_live}
use mergeshare.PortQueue.{
  Queue, create, formatted, register_consumer, is_full, slowest, write_item, pop,
}
use mergeshare.PortQueue.Counted.{
  pushed, push, push_loop, push_item, push_with_timeout, unregister_consumer,
}
use mergeshare.PortQueue.Valid.{IsValid, create-IsValid}
use mergeshare.PortQueue.Methods.{joined, advanced, joined-IsValid, write_item-IsValid}
use mergeshare.PortQueue.Broadcast.{unread, view_push}
use mergeshare.PortQueue.Promise.{view, view_pop, pop-view, pop-notifies}
use mergeshare.PortQueue.Push.{Open, push-view, push-references, after_push}
use mergeshare.PortQueue.{first_idle}
use mergeshare.PortQueue.Delivery.{
  Reach, begun, registered, sent_one, no_log, joins, sends, Reach-delivered,
}
use mergeshare.PortQueue.Leave.{after_leave, unregister_consumer-references}
use mergeshare.FreeList.Partition.{count}
use mergeshare.Tests.Buffers.{filled, buffer, filled_lem, buffer_is_1, sized, live}

abbrev always : ℕ → Bool
always n = true

abbrev port : Queue
port = formatted 7 2

made : create always 512 7 2 ≡ some port
unfolding create
made = refl

port-IsValid : IsValid port
port-IsValid = create-IsValid always 512 7 2 (omega arith) made

-- Two consumers
abbrev heard : Queue
heard = joined (joined port 0) 1

heard-IsValid : IsValid heard
unfolding formatted
heard-IsValid =
    joined-IsValid 1 (omega arith) refl (joined-IsValid 0 (omega arith) refl port-IsValid)

room : heard.tail + heard.capacity < 2 ^ 64
unfolding formatted
room = omega arith

open_queue : Open heard
unfolding formatted is_full slowest
open_queue = (refl, refl)

went : (push allocator_refs (some heard) none 42 []).0 ≡ pushed
unfolding formatted is_full slowest push push_loop push_item
went = refl

push-view_example :
    Open heard
    × (view (push allocator_refs (some heard) none 42 []).1 ≡ view_push 42 (unread heard))
push-view_example = push-view allocator_refs heard none 42 [] (heard-IsValid, room) went

-- One item, then two
abbrev one : Queue
one = write_item heard 42

one-IsValid : IsValid one
one-IsValid = write_item-IsValid 42 room open_queue.1 heard-IsValid

one_room : one.tail + one.capacity < 2 ^ 64
unfolding formatted
one_room = omega arith

pop-view_example : (view (pop (some one) 1).0, (pop (some one) 1).1) ≡ view_pop 1 (unread one)
pop-view_example = pop-view one 1 one_room one-IsValid

pop_42 : (pop (some one) 1).1 ≡ some 42
unfolding formatted pop
pop_42 = refl

-- A queue of one consumer, full
abbrev full : Queue
full = write_item (write_item (joined port 0) 42) 43

half-IsValid : IsValid (write_item (joined port 0) 42)
unfolding formatted is_full slowest
half-IsValid =
    write_item-IsValid 42 (omega arith) refl (joined-IsValid 0 (omega arith) refl port-IsValid)

full-IsValid : IsValid full
unfolding formatted is_full slowest
full-IsValid = write_item-IsValid 43 (omega arith) refl half-IsValid

full_room : full.tail + full.capacity < 2 ^ 64
unfolding formatted
full_room = omega arith

full_popped : (pop (some full) 0).0 ≡ some (advanced full 0)
unfolding formatted pop
full_popped = refl

is_full_then : (is_full full ≡ true) × (is_full (advanced full 0) ≡ false)
unfolding formatted is_full slowest
is_full_then = (refl, refl)

pop-notifies_example : (pop (some full) 0).2 ≡ true
pop-notifies_example =
    pop-notifies full 0 full_room full-IsValid full_popped is_full_then.0 is_full_then.1

counted : get_ref_count filled buffer + heard.consumer_count + 1 < 2 ^ 32
unfolding formatted
counted = omega (arith, filled_lem.0.one_ref)

push-references_example :
    (get_ref_count
        (after_push allocator_refs
          (push allocator_refs (some heard) (some filled) buffer [])
          filled)
        buffer
      ≡ get_ref_count filled buffer
        + (if is_live filled buffer && (buffer == buffer) then heard.consumer_count - 1 else 0))
    × (get_ref_count
          (after_push allocator_refs
            (push_with_timeout allocator_refs (some heard) (some filled) buffer [])
            filled)
          buffer
        ≡ get_ref_count filled buffer
          + (if is_live filled buffer && (buffer == buffer) then 1 else 0))
push-references_example =
    push-references allocator_refs heard filled buffer buffer [] [] open_queue
      filled_lem.1.slots.sized counted

-- One consumer, and one id pushed to it
abbrev one_heard : Queue
one_heard = joined port 0

run : Reach allocator_refs port (write_item one_heard 42) (sends 42 (joins 0 no_log))
unfolding formatted register_consumer first_idle is_full slowest push push_loop push_item
run = sent_one none none 42 (registered 0 begun refl (omega arith)) (omega arith) refl

waits_for_it : unread (write_item one_heard 42) 0 ≡ some (42 ∷ [])
unfolding formatted
waits_for_it = refl

Reach-delivered_example : let log = sends 42 (joins 0 no_log) in log.sent 0 ≡ log.got 0 ++ 42 ∷ []
Reach-delivered_example =
    Reach-delivered allocator_refs always 512 7 2 0 (42 ∷ []) (omega arith) made run waits_for_it

-- The buffer of the table, waiting for the one consumer
abbrev holding : Queue
holding = write_item one_heard buffer

holding-IsValid : IsValid holding
unfolding formatted is_full slowest
holding-IsValid =
    write_item-IsValid buffer (omega arith) refl (joined-IsValid 0 (omega arith) refl port-IsValid)

holds_it : unread holding 0 ≡ some (buffer ∷ [])
unfolding formatted
holds_it = refl

enough : count buffer (buffer ∷ []) ≤ get_ref_count filled buffer
unfolding count
enough = ground (arith, filled_lem.0.one_ref)

unregister_consumer-references_example :
    let t =
      after_leave allocator_refs
        (unregister_consumer allocator_refs (some holding) (some filled) 0)
        filled in
    (is_live t buffer ≡ true)
    × (get_ref_count t buffer + count buffer (buffer ∷ []) ≡ get_ref_count filled buffer)
unregister_consumer-references_example =
    unregister_consumer-references allocator_refs holding 0 buffer (buffer ∷ []) filled
      holding-IsValid holds_it sized (omega (arith, buffer_is_1)) live enough
      (omega (arith, filled_lem.0.one_ref))
