-- ===== src/RingQueue/Push.antt =====
-- The pushes of ring_queue.hpp, by atomic steps.
use mergeshare.Prelude.{
  ℕ, ◌%◌, Bool, true, false, List, [], ◌∷◌, Option, none, some, ◌==◌, if◌then◌else◌, get_or, set,
  add64,
}
use mergeshare.Config.{blocking, non_blocking}
use mergeshare.Control.{initialize_header, mark_valid}
use mergeshare.RingQueue.State.{Element, Ring, Client, no_room}

module _ {ℓ} {A : Type ℓ} where
  -- `write_element` in its four steps: header, data, flag, statistics.
  unfoldable pub write_header : ℕ → ℕ → ℕ → ℕ → Element A → Ring A → Ring A
  write_header capacity size_of idx ts blank r =
      let e = get_or r.elements (idx % capacity) blank in
      record r {
        elements =
            set r.elements (idx % capacity)
              (record e { header = initialize_header idx ts size_of });
      }

  unfoldable pub write_payload : ℕ → ℕ → A → Element A → Ring A → Ring A
  write_payload capacity idx data_in blank r =
      let e = get_or r.elements (idx % capacity) blank in
      record r { elements = set r.elements (idx % capacity) (record e { payload = data_in }) }

  unfoldable pub publish : ℕ → ℕ → Element A → Ring A → Ring A
  publish capacity idx blank r =
      let e = get_or r.elements (idx % capacity) blank in
      record r {
        elements = set r.elements (idx % capacity) (record e { header = mark_valid e.header });
      }

  unfoldable pub count_push : ℕ → Ring A → Ring A
  count_push now r = record r {
    control = record r.control {
      total_pushed = add64 r.control.total_pushed 1;
      last_write_time = now;
    };
  }

  unfoldable pub write_element : ℕ → ℕ → ℕ → A → ℕ → ℕ → Element A → Ring A → Ring A
  write_element capacity size_of idx data_in ts now blank r = count_push now (
      publish capacity idx blank
        (write_payload capacity idx data_in blank (write_header capacity size_of idx ts blank r)))

  -- `compare_exchange_strong(write_idx, write_idx + 1)`
  unfoldable pub claim : ℕ → Ring A → Option (Ring A)
  claim write_idx r =
      if r.control.write_offset == write_idx
      then some (record r { control = record r.control { write_offset = add64 write_idx 1 } })
      else none

  -- `try_push`: `seen` is the state at the two loads, `r` at the exchange.
  unfoldable pub try_push : Client → ℕ → A → ℕ → ℕ → Element A → Ring A → Ring A → Ring A × Bool
  try_push c size_of data_in ts now blank seen r =
      if no_room c.config.capacity seen.control
      then (r, false)
      else elim (claim seen.control.write_offset r) [
        | none ↦ (r, false)
        | some r' ↦ (
          write_element c.config.capacity size_of seen.control.write_offset data_in ts now blank r',
          true,
        )
      ]

  -- `push_with_timeout`: each round's two states, and whether the time is up after it.
  unfoldable pub push_with_timeout :
      Client → ℕ → A → ℕ → ℕ → Element A → Ring A → List (Ring A × Ring A × Bool) → Ring A × Bool
  push_with_timeout c size_of data_in ts now blank r [] = (r, false)
  push_with_timeout c size_of data_in ts now blank r ((seen, at_claim, late) ∷ rounds) =
      let (r', ok) = try_push c size_of data_in ts now blank seen at_claim in
      let rest = push_with_timeout c size_of data_in ts now blank r' rounds in
      if ok then (r', true) else if late then (r', false) else rest

  -- `push_non_blocking`: the offset is taken whatever it overwrites.
  unfoldable pub push_non_blocking : Client → ℕ → A → ℕ → ℕ → Element A → Ring A → Ring A × Bool
  push_non_blocking c size_of data_in ts now blank r =
      let over = no_room c.config.capacity r.control in
      let b = record r.control {
        write_offset = add64 r.control.write_offset 1;
        overwrite_count =
            if over then add64 r.control.overwrite_count 1 else r.control.overwrite_count;
      } in
      (
        write_element c.config.capacity size_of r.control.write_offset data_in ts now blank
            (record r { control = b }),
        true,
      )

  unfoldable pub push :
      Client → ℕ → A → ℕ → ℕ → Element A → Ring A → List (Ring A × Ring A × Bool) → Ring A × Bool
  push c size_of data_in ts now blank r rounds = elim c.config.blocking_mode [
    | blocking ↦ push_with_timeout c size_of data_in ts now blank r rounds
    | non_blocking ↦ push_non_blocking c size_of data_in ts now blank r
  ]
