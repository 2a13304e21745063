-- ===== src/Refs.antt =====
-- What queues and handles ask of the buffer allocator: reference counts by buffer id, with the laws
-- that they rely on. `Allocator` fills this interface.
use mergeshare.Prelude.{
  ℕ, ◌≡◌, refl, ◌≢◌, Bool, not, ◌&&◌, Option, ◌==◌, if◌then◌else◌, add32, sub32,
}
use mergeshare.Meta.Find.{IsSized}
use mergeshare.Allocator.{World, Name}
use mergeshare.Allocator
use mergeshare.Allocator.Counts.{
  is_live, add_ref_lem, remove_ref_lem, is_live-add_ref, is_live-remove_ref, add_ref-IsSized,
  remove_ref-IsSized,
}
use mergeshare.Allocator.Reclaim.{
  Good, deallocate-Reclaims, get_buffer_data-table, add_ref-Good, remove_ref-Good,
}

pub record RefCounter : Type 1 where
  pub State : Type 0
  pub Ok : State → Type 0
  pub live : State → ℕ → Bool
  pub get_ref_count : State → ℕ → ℕ
  pub add_ref : State → ℕ → State × Bool
  pub remove_ref : State → ℕ → State × Bool
  pub add_ref-count :
      (s : State) (id k : ℕ)
      → Ok s
      → get_ref_count (add_ref s id).0 k
        ≡ (if live s id && (id == k) then add32 (get_ref_count s k) 1 else get_ref_count s k)
  pub remove_ref-count :
      (s : State) (id k : ℕ)
      → Ok s
      → get_ref_count (remove_ref s id).0 k
        ≡ (if live s id && (id == k) then sub32 (get_ref_count s k) 1 else get_ref_count s k)
  pub remove_ref-zeroed :
      (s : State) (id : ℕ)
      → Ok s
      → (remove_ref s id).1 ≡ (live s id && (get_ref_count (remove_ref s id).0 id == 0))
  pub add_ref-live : (s : State) (id k : ℕ) → live (add_ref s id).0 k ≡ live s k
  pub remove_ref-live : (s : State) (id k : ℕ) → live (remove_ref s id).0 k ≡ live s k
  pub add_ref-Ok : (s : State) (id : ℕ) → Ok s → Ok (add_ref s id).0
  pub remove_ref-Ok : (s : State) (id : ℕ) → Ok s → Ok (remove_ref s id).0

-- The allocator of a process.
abbrev pub allocator_refs : RefCounter
allocator_refs = record {
  State = World;
  Ok = λ w. IsSized w.table;
  live = is_live;
  get_ref_count = Allocator.get_ref_count;
  add_ref = Allocator.add_ref;
  remove_ref = Allocator.remove_ref;
  add_ref-count = λ w id k h. (add_ref_lem w id k h).1;
  remove_ref-count = λ w id k h. (remove_ref_lem w id k h).1;
  remove_ref-zeroed = λ w id h. (remove_ref_lem w id id h).0;
  add_ref-live = is_live-add_ref;
  remove_ref-live = is_live-remove_ref;
  add_ref-Ok = add_ref-IsSized;
  remove_ref-Ok = remove_ref-IsSized;
}

-- Also the release of a buffer, and the address of its bytes in the process.
pub record Reclaimer : Type 1 where
  pub refs : RefCounter
  pub Sound : refs.State → Type 0
  pub deallocate : refs.State → ℕ → refs.State
  pub get_buffer_data : refs.State → ℕ → refs.State × Option (ℕ × ℕ)
  pub Sound-Ok : (s : refs.State) → Sound s → refs.Ok s
  pub add_ref-Sound : (s : refs.State) (id : ℕ) → Sound s → Sound (refs.add_ref s id).0
  pub remove_ref-Sound : (s : refs.State) (id : ℕ) → Sound s → Sound (refs.remove_ref s id).0
  pub deallocate-Reclaims :
      (s : refs.State) (id k : ℕ)
      → Sound s
      → refs.get_ref_count s id ≡ 0
      → (refs.live (deallocate s id) k ≡ (refs.live s k && not (id == k)))
        × (id ≢ k → refs.get_ref_count (deallocate s id) k ≡ refs.get_ref_count s k)
        × Sound (deallocate s id)
  pub get_buffer_data-Reads :
      (s : refs.State) (id k : ℕ)
      → Sound s
      → (refs.live (get_buffer_data s id).0 k ≡ refs.live s k)
        × (refs.get_ref_count (get_buffer_data s id).0 k ≡ refs.get_ref_count s k)
        × Sound (get_buffer_data s id).0

-- The allocator of a process, with what Boost opens by name.
pub get_buffer_data-Reads :
    (open_shm : Name → Option ℕ) (w : World) (id k : ℕ)
    → Good w
    → let v = (Allocator.get_buffer_data open_shm w id).0 in
      (is_live v k ≡ is_live w k)
      × (Allocator.get_ref_count v k ≡ Allocator.get_ref_count w k)
      × Good v
unfolding is_live Allocator.get_ref_count
get_buffer_data-Reads open_shm w id k good =
    rw (get_buffer_data-table open_shm w id) (refl, refl, good)

abbrev pub allocator_reclaimer : (Name → Option ℕ) → Reclaimer
allocator_reclaimer open_shm = record {
  refs = allocator_refs;
  Sound = Good;
  deallocate = Allocator.deallocate;
  get_buffer_data = Allocator.get_buffer_data open_shm;
  Sound-Ok = λ w good. good.2.slots.sized;
  add_ref-Sound = add_ref-Good;
  remove_ref-Sound = remove_ref-Good;
  deallocate-Reclaims = deallocate-Reclaims;
  get_buffer_data-Reads = get_buffer_data-Reads open_shm;
}
