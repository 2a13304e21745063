-- ===== src/RingQueue/Pop.antt =====
-- The readers of ring_queue.hpp.
use mergeshare.Prelude.{
  ℕ, ◌-◌, ◌%◌, Bool, not, List, [], ◌∷◌, Option, none, some, ltb, leb, ◌==◌, if◌then◌else◌, get_or,
  set, add64,
}
use mergeshare.Pool.{index}
use mergeshare.Config.{blocking, non_blocking}
use mergeshare.Control.{get_slowest_offset, is_valid}
use mergeshare.RingQueue.State.{Element, Ring, Client, no_room, registered, own_slot}

module _ {ℓ} {A : Type ℓ} where
  -- `read_element`: the data and, if the queue has timestamps, the timestamp. `none` waits on.
  unfoldable pub read_element : Client → ℕ → ℕ → Element A → Ring A → Option (Ring A × A × Option ℕ)
  read_element c idx now blank r =
      let e = get_or r.elements (idx % c.config.capacity) blank in
      if is_valid e.header
      then some (
        record r {
          control = record r.control {
            total_popped = add64 r.control.total_popped 1;
            last_read_time = now;
          };
        },
        e.payload,
        if c.config.has_timestamp then some e.header.timestamp else none,
      )
      else none

  -- `read_offset.store(...)` and `update_access_time`
  unfoldable pub advance : Client → ℕ → ℕ → Ring A → Ring A
  advance c read_offset now r = record r {
    control = record r.control {
      consumers = record r.control.consumers {
        slots =
            set r.control.consumers.slots (index c.consumer_slot_id)
              (record (own_slot c r.control) { read_offset = read_offset; last_access_time = now });
      };
    };
  }

  -- `try_pop`: `none` waits for a writer; else the state and what was read, if anything.
  unfoldable pub try_pop : Client → ℕ → Element A → Ring A → Option (Ring A × Option (A × Option ℕ))
  try_pop c now blank r =
      let my_read = (own_slot c r.control).read_offset in
      if not (registered c)
      then some (r, none)
      else if leb r.control.write_offset my_read
      then some (r, none)
      else elim (read_element c my_read now blank r) [
        | none ↦ none
        | some (r', x, ts) ↦ some (advance c (add64 my_read 1) now r', some (x, ts))
      ]

  unfoldable pub peek : Client → ℕ → Element A → Ring A → Option (Ring A × Option (A × Option ℕ))
  peek c now blank r =
      let my_read = (own_slot c r.control).read_offset in
      if not (registered c)
      then some (r, none)
      else if leb r.control.write_offset my_read
      then some (r, none)
      else elim (read_element c my_read now blank r) [
        | none ↦ none
        | some (r', x, ts) ↦ some (r', some (x, ts))
      ]

  unfoldable pub size : Client → Ring A → ℕ
  size c r =
      let from =
        if registered c
        then (own_slot c r.control).read_offset
        else get_slowest_offset r.control.consumers in
      if ltb r.control.write_offset from
      then 0
      else let sz = r.control.write_offset - from in
        if ltb c.config.capacity sz then c.config.capacity else sz

  unfoldable pub empty : Client → Ring A → Bool
  empty c r = size c r == 0

  unfoldable pub full : Client → Ring A → Bool
  full c r = no_room c.config.capacity r.control

  -- `pop_with_timeout`: the state that each round finds, and whether the time is up after it; `none`
  -- has not returned.
  unfoldable pub pop_with_timeout :
      Client → ℕ → Element A → List (Ring A × Bool) → Option (Ring A × Option (A × Option ℕ))
  pop_with_timeout c now blank [] = none
  pop_with_timeout c now blank ((r, late) ∷ rounds) =
      let rest = pop_with_timeout c now blank rounds in
      elim (try_pop c now blank r) [
        | none ↦ none
        | some (r', item) ↦ elim item [
          | some x ↦ some (r', some x)
          | none ↦ if late then some (r', none) else rest
        ]
      ]

  unfoldable pub pop :
      Client
      → ℕ
      → Element A
      → Ring A
      → List (Ring A × Bool)
      → Option (Ring A × Option (A × Option ℕ))
  pop c now blank r rounds = elim c.config.blocking_mode [
    | blocking ↦ pop_with_timeout c now blank rounds
    | non_blocking ↦ try_pop c now blank r
  ]
