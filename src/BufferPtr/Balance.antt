-- ===== src/BufferPtr/Balance.antt =====
-- Every reference count is the number of handles on the buffer, with the references that others own.
use mergeshare.Prelude.{
  ℕ, zero, suc, ◌+◌, ◌<◌, ◌≤◌, ◌≡◌, ◌≢◌, ◌⊎◌, true, false, not, ◌&&◌, List, [], ◌∷◌, arith, ◌==◌,
  if◌then◌else◌, length, set, length-set, get_or-set, u32_mod,
}
use mergeshare.Refs.{Reclaimer}
use mergeshare.BufferPtr.{Handle, null, handle, attached, Heap, drop}

-- Whether a handle owns a reference to the buffer `k`, and how many handles do.
abbrev pub owns : ℕ → Handle → ℕ
owns k h = if attached h && (h.buffer_id == k) then 1 else 0

unfoldable pub handles : ℕ → List Handle → ℕ
handles k [] = 0
handles k (h ∷ hs) = owns k h + handles k hs

pub handles-set :
    (k : ℕ) (hs : List Handle) (i : ℕ) (h : Handle)
    → i < length hs
    → handles k (set hs i h) + owns k (handle hs i) ≡ handles k hs + owns k h
unfolding handles
handles-set k [] i h lt = absurd (omega arith)
handles-set k (x ∷ hs) zero h lt = omega arith
handles-set k (x ∷ hs) (suc i) h lt = omega (arith, handles-set k hs i h (omega arith))

pub handles-owns : (k : ℕ) (hs : List Handle) (i : ℕ) → owns k (handle hs i) ≤ handles k hs
unfolding handles
handles-owns k [] i = ground arith
handles-owns k (x ∷ hs) zero = omega arith
handles-owns k (x ∷ hs) (suc i) = omega (arith, handles-owns k hs i)

pub handles-le : (k : ℕ) (hs : List Handle) → handles k hs ≤ length hs
unfolding handles
handles-le k [] = omega arith
handles-le k (x ∷ hs) = ground (arith, handles-le k hs)

module _ (d : Reclaimer) (loans : ℕ → ℕ) where
  open d use {refs, Sound}

  -- The allocator is in order, every handle is on a live buffer, and every live buffer's count is
  -- its handles with the references lent to others, which never reach 2^32 together.
  pub record Balanced (m : Heap d) : Type 0 where
    pub sound : Sound m.0
    pub alive :
        (i : ℕ) → attached (handle m.1 i) ≡ true → refs.live m.0 (handle m.1 i).buffer_id ≡ true
    pub counts :
        (k : ℕ) → refs.live m.0 k ≡ true → refs.get_ref_count m.0 k ≡ handles k m.1 + loans k
    pub bounded : (k : ℕ) → length m.1 + loans k < u32_mod

  -- A place with a null handle takes a handle, and its buffer's count goes up.
  pub take-Balanced :
      (s : refs.State) (hs : List Handle) (i : ℕ) (h : Handle)
      → i < length hs
      → attached (handle hs i) ≡ false
      → attached h ≡ true
      → refs.live s h.buffer_id ≡ true
      → Balanced (s, hs)
      → Balanced ((refs.add_ref s h.buffer_id).0, set hs i h)
  take-Balanced s hs i h lt empty_place real lives b = record {
    sound = d.add_ref-Sound s h.buffer_id b.sound;
    alive = λ j on. ground (
      arith,
      get_or-set hs i j h null,
      refs.add_ref-live s h.buffer_id (handle (set hs i h) j).buffer_id,
      b.alive j,
    );
    counts = λ k on. ground (
      arith,
      refs.add_ref-live s h.buffer_id k,
      refs.add_ref-count s h.buffer_id k (d.Sound-Ok s b.sound),
      b.counts k,
      handles-set k hs i h lt,
      handles-le k (set hs i h),
      length-set hs i h,
      b.bounded k,
    );
    bounded = λ k. omega (arith, b.bounded k, length-set hs i h);
  }

  -- The count after `remove_ref` for a handle that leaves.
  pub removed :
      (s : refs.State) (hs : List Handle) (i k : ℕ)
      → i < length hs
      → attached (handle hs i) ≡ true
      → Balanced (s, hs)
      → let t = (refs.remove_ref s (handle hs i).buffer_id).0 in
        refs.live t k ≡ true → refs.get_ref_count t k ≡ handles k (set hs i null) + loans k
  removed s hs i k lt on b lives = ground (
    arith,
    refs.remove_ref-live s (handle hs i).buffer_id k,
    refs.remove_ref-count s (handle hs i).buffer_id k (d.Sound-Ok s b.sound),
    b.alive i on,
    b.counts k,
    handles-set k hs i null lt,
    handles-owns k hs i,
    handles-le k hs,
    b.bounded k,
  )

  -- A handle that leaves its place: the last one gives the buffer back.
  pub release-kept :
      (s : refs.State) (hs : List Handle) (i : ℕ)
      → i < length hs
      → attached (handle hs i) ≡ true
      → (refs.remove_ref s (handle hs i).buffer_id).1 ≡ false
      → Balanced (s, hs)
      → Balanced ((refs.remove_ref s (handle hs i).buffer_id).0, set hs i null)
  release-kept s hs i lt on stays b = record {
    sound = d.remove_ref-Sound s (handle hs i).buffer_id b.sound;
    alive = λ j on'. ground (
      arith,
      get_or-set hs i j null null,
      refs.remove_ref-live s (handle hs i).buffer_id (handle (set hs i null) j).buffer_id,
      b.alive j,
    );
    counts = λ k. removed s hs i k lt on b;
    bounded = λ k. omega (arith, b.bounded k, length-set hs i null);
  }

  pub last-zero :
      (s : refs.State) (hs : List Handle) (i : ℕ)
      → (refs.remove_ref s (handle hs i).buffer_id).1 ≡ true
      → Balanced (s, hs)
      → refs.get_ref_count (refs.remove_ref s (handle hs i).buffer_id).0 (handle hs i).buffer_id ≡ 0
  last-zero s hs i gone b =
      ground (arith, refs.remove_ref-zeroed s (handle hs i).buffer_id (d.Sound-Ok s b.sound))

  -- The handle was the buffer's last reference.
  pub release-last :
      (s : refs.State) (hs : List Handle) (i : ℕ)
      → i < length hs
      → attached (handle hs i) ≡ true
      → (refs.remove_ref s (handle hs i).buffer_id).1 ≡ true
      → Balanced (s, hs)
      → Balanced (
        d.deallocate (refs.remove_ref s (handle hs i).buffer_id).0 (handle hs i).buffer_id,
        set hs i null,
      )
  release-last s hs i lt on gone b = record {
    sound = (freed 0).2;
    alive = λ j on'. ground (
      arith,
      freed (handle (set hs i null) j).buffer_id,
      get_or-set hs i j null null,
      refs.remove_ref-live s id (handle (set hs i null) j).buffer_id,
      b.alive j,
      b.alive i on,
      removed s hs i id lt on b,
      refs.remove_ref-live s id id,
      none_left,
      handles-owns id (set hs i null) j,
    );
    counts = λ k lives. ground (arith, freed k, removed s hs i k lt on b);
    bounded = λ k. omega (arith, b.bounded k, length-set hs i null);
  }
    where
      id : ℕ
      id = (handle hs i).buffer_id

      t : refs.State
      t = (refs.remove_ref s id).0

      none_left : refs.get_ref_count t id ≡ 0
      none_left = last-zero s hs i gone b

      freed :
          (k : ℕ)
          → (refs.live (d.deallocate t id) k ≡ (refs.live t k && not (id == k)))
            × (id ≢ k → refs.get_ref_count (d.deallocate t id) k ≡ refs.get_ref_count t k)
            × Sound (d.deallocate t id)
      freed k = d.deallocate-Reclaims t id k (d.remove_ref-Sound s id b.sound) none_left

  pub drop-cases :
      (s : refs.State) (h : Handle)
      → ((attached h ≡ false) × (drop d s h ≡ s))
        ⊎ ((attached h ≡ true)
            × ((refs.remove_ref s h.buffer_id).1 ≡ false)
            × (drop d s h ≡ (refs.remove_ref s h.buffer_id).0))
        ⊎ ((attached h ≡ true)
            × ((refs.remove_ref s h.buffer_id).1 ≡ true)
            × (drop d s h ≡ d.deallocate (refs.remove_ref s h.buffer_id).0 h.buffer_id))
  unfolding drop
  drop-cases s h = ground arith
