-- ===== src/PortQueue.antt =====
-- multiqueue-shm/core/include/multiqueue/port_queue.hpp: the broadcast queue of buffer ids between
-- blocks. A `Queue` is the shared segment; a `PortQueue` object is `Option Queue`, `none` while its
-- `header_` is null. Calls hold the mutex, and a wait on `not_full` gives it up: the states that a
-- waiting caller finds when it wakes are an argument.
pub mod Counted
pub mod Valid
pub mod Methods
pub mod Broadcast
pub mod Promise
pub mod Push
pub mod Delivery
pub mod Leave
use mergeshare.Prelude.{
  ℕ, zero, suc, ◌+◌, ◌-◌, ◌*◌, ◌%◌, ◌^◌, Bool, true, false, not, ◌&&◌, ◌||◌, List, [], ◌∷◌, Option,
  none, some, ltb, leb, ◌==◌, if◌then◌else◌, get_or, set, replicate, add32, add64, u64_mod,
}
use mergeshare.Pool.{shm_magic_number}

-- PortQueueHeader::MAX_CONSUMERS, INVALID_CONSUMER_ID, INVALID_BUFFER_ID
abbrev pub max_consumers : ℕ
max_consumers = 16

abbrev pub invalid_consumer_id : ℕ
invalid_consumer_id = 2 ^ 32 - 1

abbrev pub invalid_buffer_id : ℕ
invalid_buffer_id = 0

-- `consumer_heads[i]` and `consumer_active[i]`
pub record Consumer : Type 0 where
  pub head : ℕ
  pub active : Bool

abbrev pub idle : Consumer
idle = record { head = 0; active = false }

-- `PortQueueHeader` and the id array behind it
pub record Queue : Type 0 where
  pub magic_number : ℕ
  pub port_id : ℕ
  pub capacity : ℕ
  pub tail : ℕ
  pub consumer_count : ℕ
  pub consumers : List Consumer
  pub initialized : Bool
  pub closed : Bool
  pub items : List ℕ

abbrev pub consumer : Queue → ℕ → Consumer
consumer q i = get_or q.consumers i idle

-- What `create` writes.
unfoldable pub formatted : ℕ → ℕ → Queue
formatted port_id capacity = record {
  magic_number = shm_magic_number;
  port_id = port_id;
  capacity = capacity;
  tail = 0;
  consumer_count = 0;
  consumers = replicate max_consumers idle;
  initialized = true;
  closed = false;
  items = replicate capacity invalid_buffer_id;
}

-- `shm_open` tells whether Boost creates a segment of a size; where it throws, `create` returns
-- false (`none`). `header_size` is `sizeof(PortQueueHeader)`.
unfoldable pub create : (ℕ → Bool) → ℕ → ℕ → ℕ → Option Queue
create shm_open header_size port_id capacity =
    if shm_open ((header_size + 8 * capacity) % u64_mod)
    then some (formatted port_id capacity)
    else none

-- The search loop of `register_consumer` from slot `i` on.
unfoldable pub first_idle : ℕ → List Consumer → Option ℕ
first_idle i [] = none
first_idle i (c ∷ cs) = if not c.active then some i else first_idle (i + 1) cs

-- The new state, and the consumer id.
unfoldable pub register_consumer : Option Queue → Option Queue × ℕ
register_consumer none = (none, invalid_consumer_id)
register_consumer (some q) = elim (first_idle 0 q.consumers) [
  | none ↦ (some q, invalid_consumer_id)
  | some i ↦ (
    some (record q {
      consumers = set q.consumers i (record { head = q.tail; active = true });
      consumer_count = add32 q.consumer_count 1;
    }),
    i,
  )
]

-- The loops that find the slowest consumer: `min_head` and `active_consumer_count` so far.
unfoldable pub slowest : List Consumer → ℕ → ℕ → ℕ × ℕ
slowest [] min_head n = (min_head, n)
slowest (c ∷ cs) min_head n =
    slowest cs (if c.active && ((n == 0) || ltb c.head min_head) then c.head else min_head)
      (if c.active then n + 1 else n)

-- `tail >= min_head + capacity`
unfoldable pub is_full : Queue → Bool
is_full q = leb (add64 (slowest q.consumers q.tail 0).0 q.capacity) q.tail

abbrev pub write_item : Queue → ℕ → Queue
write_item q id = record q { items = set q.items (q.tail % q.capacity) id; tail = add64 q.tail 1 }

-- `heads[i] <= head` for no active consumer
unfoldable pub all_passed : ℕ → List Consumer → Bool
all_passed head [] = true
all_passed head (c ∷ cs) = not (c.active && leb c.head head) && all_passed head cs

-- The item that `pop` gives, the queue, and whether it notifies `not_full`.
unfoldable pub pop : Option Queue → ℕ → Option Queue × Option ℕ × Bool
pop none i = (none, none, false)
pop (some q) i =
    if leb max_consumers i || not (consumer q i).active || leb q.tail (consumer q i).head
    then (some q, none, false)
    else let head = (consumer q i).head in
      let cs = set q.consumers i (record (consumer q i) { head = add64 head 1 }) in
      (
        some (record q { consumers = cs }),
        some (get_or q.items (head % q.capacity) invalid_buffer_id),
        all_passed head cs,
      )

-- The polling loop: the state of the queue at each round and whether its deadline check says stop.
unfoldable pub pop_rounds : Option Queue → ℕ → List (Option Queue × Bool) → Option Queue × Option ℕ
pop_rounds o i [] = (o, none)
pop_rounds o i ((found, late) ∷ rounds) =
    let (o', item, notified) = pop found i in
    let rest = pop_rounds o' i rounds in
    elim item [
      | some id ↦ (o', some id)
      | none ↦ elim o' [
        | none ↦ (none, none)
        | some q ↦ if q.closed || late then (some q, none) else rest
      ]
    ]

unfoldable pub pop_with_timeout :
    Option Queue → ℕ → List (Option Queue × Bool) → Option Queue × Option ℕ
pop_with_timeout none i rounds = (none, none)
pop_with_timeout (some q) i rounds =
    if leb max_consumers i then (some q, none) else pop_rounds (some q) i rounds

unfoldable pub size : Option Queue → ℕ → ℕ
size none i = 0
size (some q) i =
    if leb max_consumers i || not (consumer q i).active
    then 0
    else if ltb (consumer q i).head q.tail
    then q.tail - (consumer q i).head
    else 0

unfoldable pub empty : Option Queue → ℕ → Bool
unfolding size
empty o i = size o i == 0

unfoldable pub is_closed : Option Queue → Bool
is_closed none = true
is_closed (some q) = q.closed

unfoldable pub close : Option Queue → Option Queue
close none = none
close (some q) = some (record q { closed = true })
