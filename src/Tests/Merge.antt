-- ===== src/Tests/Merge.antt =====
-- The merged view: over lists, and over two ring queues with one element each.
use mathlib.Core.List.{Perm}
use mergeshare.Prelude.{
  ℕ, ◌+◌, ◌^◌, ◌<◌, ◌≡◌, refl, Bool, true, false, List, [], ◌∷◌, Option, none, some, arith, length,
  ap, ap₂, sym, subst, ◌++◌,
}
use mergeshare.Control.{
  initialize_header, Header, slot, max_consumers, initialize_control, register_from, register_slot,
  slowest_from, get_slowest_offset, mark_valid, blank_slot, mark_read, is_valid,
}
use mergeshare.Control
use mergeshare.RingQueue.State.{Ring, Client}
use mergeshare.RingQueue.Open.{create_ring, register_consumer, unregister_consumer}
use mergeshare.RingQueue.Push.{
  try_push, claim, write_element, write_header, write_payload, publish, count_push,
}
use mergeshare.RingQueue.Valid.{written}
use mergeshare.RingQueue.Produce.{Pushes, try_push-Pushes}
use mergeshare.RingQueue.Consume.{IsConsumer}
use mergeshare.Tests.Rings.{heard, reader, blank, joins, small}
use mergeshare.Merge.{
  PopQueue, Lane, MergedView, next, no_stats, make_view, prefetch, try_fetch_next, fetch_at, fetch,
  note_time, store_last, find_min, better, deliver, wait,
}
use mergeshare.Merge.Select.{All, Ascending}
use mergeshare.Merge.Sorted.{IsTimed, drain}
use mergeshare.Merge.Start.{all_pending, make_view-drain}
use mergeshare.Merge.Waiting.{Serves, next-Serves}
use mergeshare.Merge.Timeout.{TimesOut, next-TimesOut, quiet_rounds}
use mergeshare.Merge.Rings.{Reader, ring_queues}

abbrev pop_list : List (ℕ × ℕ) → List (ℕ × ℕ) × Option (ℕ × ℕ)
pop_list [] = ([], none)
pop_list (x ∷ xs) = (xs, some x)

abbrev empty_list : List (ℕ × ℕ) → Bool
empty_list [] = true
empty_list (x ∷ xs) = false

list_pop_none : (q : List (ℕ × ℕ)) → q ≡ [] → ((pop_list q).1 ≡ none) × ((pop_list q).0 ≡ [])
list_pop_none [] e = (refl, refl)
list_pop_none (x ∷ xs) e = cc

list_pop_some :
    (q : List (ℕ × ℕ)) (x : ℕ × ℕ) (xs : List (ℕ × ℕ))
    → q ≡ x ∷ xs
    → ((pop_list q).1 ≡ some x) × ((pop_list q).0 ≡ xs)
list_pop_some [] x xs e = cc
list_pop_some (y ∷ ys) x xs e = (cc (e), cc (e))

list_empty :
    (q : List (ℕ × ℕ)) → ((empty_list q ≡ true) → (q ≡ [])) × ((q ≡ []) → (empty_list q ≡ true))
list_empty [] = ((λ e. refl), λ e. refl)
list_empty (x ∷ xs) = ((λ e. cc), λ e. cc)

-- Lists as queues
abbrev lists : PopQueue (List (ℕ × ℕ)) ℕ
lists = record {
  try_pop = pop_list;
  empty = empty_list;
  pending = λ q. q;
  pop_none = list_pop_none;
  pop_some = list_pop_some;
  empty_iff = list_empty;
}

merged_lists :
    drain lists 9
      (make_view lists 0 (((1, 10) ∷ (2, 40) ∷ []) ∷ [] ∷ ((3, 20) ∷ (4, 30) ∷ (5, 50) ∷ []) ∷ []))
    ≡ (1, 10) ∷ (3, 20) ∷ (4, 30) ∷ (2, 40) ∷ (5, 50) ∷ []
unfolding drain next make_view prefetch try_fetch_next fetch_at fetch note_time store_last find_min
    better deliver wait
merged_lists = refl

-- A lane with one buffered element, and one whose queue got an earlier element since.
abbrev buffered : Lane (List (ℕ × ℕ)) ℕ
buffered = record { queue = []; datum = 7; timestamp = 90; has_data = true }

abbrev waiting : Lane (List (ℕ × ℕ)) ℕ
waiting = record { queue = (8, 30) ∷ []; datum = 0; timestamp = 0; has_data = false }

abbrev uneven : MergedView (List (ℕ × ℕ)) ℕ
uneven = record { lanes = buffered ∷ waiting ∷ []; last_timestamps = []; stats = no_stats }

next-Serves_example : Serves lists uneven []
next-Serves_example = next-Serves lists uneven [] 0 buffered (refl, refl) (omega arith)

abbrev bare : MergedView (List (ℕ × ℕ)) ℕ
bare = record {
  lanes = record { queue = []; datum = 0; timestamp = 0; has_data = false } ∷ [];
  last_timestamps = [];
  stats = no_stats;
}

next-TimesOut_example : TimesOut lists bare (next lists bare (quiet_rounds lists 3))
next-TimesOut_example = next-TimesOut lists 3 bare (refl, refl, tt)

-- The consumer, with timestamps
abbrev dated : Client
dated = record reader { config = record (reader.config) { has_timestamp = true } }

-- A ring queue with one element of a timestamp
module _ (x ts : ℕ) where
  abbrev stored : Ring ℕ
  stored = (try_push dated 8 x ts 1 blank heard heard).0

  stored-Pushes :
      Pushes 2 blank
        (written 8 heard.control.write_offset ts x)
        heard
        heard
        stored
        (try_push dated 8 x ts 1 blank heard heard).1
  stored-Pushes =
      try_push-Pushes dated 8 x ts 1 blank heard heard joins.valid joins.valid
        (λ i on. (on, omega arith)) small

  stored-consumer : IsConsumer dated stored
  unfolding register_consumer unregister_consumer create_ring initialize_control
      Control.register_consumer register_from register_slot try_push claim write_element
      write_header write_payload publish count_push get_slowest_offset slowest_from
  stored-consumer = (refl, refl, omega arith)

  stored-small : stored.control.write_offset + 2 < 2 ^ 64
  unfolding register_consumer unregister_consumer create_ring initialize_control
      Control.register_consumer register_from register_slot try_push claim write_element
      write_header write_payload publish count_push get_slowest_offset slowest_from
  stored-small = omega arith

  abbrev stored_reader : Reader blank
  stored_reader = record {
    client = dated;
    now = 2;
    ring = stored;
    is_consumer = stored-consumer;
    valid = stored-Pushes.valid;
    small = stored-small;
    stamped = refl;
  }

  stored-pending : (ring_queues blank).pending stored_reader ≡ (x, ts) ∷ []
  unfolding register_consumer unregister_consumer create_ring initialize_control
      Control.register_consumer register_from register_slot try_push claim write_element
      write_header write_payload publish count_push get_slowest_offset slowest_from mark_valid
      initialize_header
  stored-pending = refl

abbrev two_rings : List (Reader blank)
two_rings = stored_reader 10 5 ∷ stored_reader 20 3 ∷ []

two_rings-pending : all_pending (ring_queues blank) two_rings ≡ (10, 5) ∷ (20, 3) ∷ []
two_rings-pending = ap₂ ◌++◌ (stored-pending 10 5) (ap₂ ◌++◌ (stored-pending 20 3) refl)

make_view-drain_example :
    Perm
      (drain (ring_queues blank) 2 (make_view (ring_queues blank) 0 two_rings))
      (all_pending (ring_queues blank) two_rings)
    × Ascending (drain (ring_queues blank) 2 (make_view (ring_queues blank) 0 two_rings))
make_view-drain_example =
    make_view-drain (ring_queues blank) 0 two_rings 2
      (
        subst (λ es. Ascending es) (sym (stored-pending 10 5)) (tt, tt),
        (subst (λ es. Ascending es) (sym (stored-pending 20 3)) (tt, tt), tt),
      )
      (subst (λ es. All IsTimed es) (sym two_rings-pending) (omega arith))
      (omega (arith, ap length two_rings-pending))
