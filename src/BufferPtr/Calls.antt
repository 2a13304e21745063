-- ===== src/BufferPtr/Calls.antt =====
-- What a program does with its handles keeps the reference counts right.
use mergeshare.Prelude.{
  ℕ, ◌<◌, ◌≡◌, inl, inr, refl, sym, ap, subst, ◌∙◌, Bool, true, false, List, Option, none, arith,
  if◌then◌else◌, length, set, length-set, get_or-set, get_or-set_ne, get_or-set_self, Bool-cases,
  ℕ_discrete,
}
use mergeshare.Refs.{Reclaimer}
use mergeshare.BufferPtr.{
  Handle, null, handle, attached, Heap, release, construct, copy, copy_assign, move, move_assign,
  swap, Call, constructs, copies, moves, assigns_copy, assigns_move, swaps, releases, run,
}
use mergeshare.BufferPtr.Balance.{
  Balanced, take-Balanced, release-kept, release-last, drop-cases, handles-set, handles, owns,
}

module _ (d : Reclaimer) (loans : ℕ → ℕ) where
  open d use {refs, Sound}

  -- Places may be rewritten as long as no buffer gains or loses a handle.
  same_handles-Balanced :
      (s : refs.State) (hs hs' : List Handle)
      → length hs' ≡ length hs
      → ((k : ℕ) → handles k hs' ≡ handles k hs)
      → Balanced d loans (s, hs)
      → ((i : ℕ) → attached (handle hs' i) ≡ true → refs.live s (handle hs' i).buffer_id ≡ true)
      → Balanced d loans (s, hs')
  same_handles-Balanced s hs hs' len same b alive = record {
    sound = b.sound;
    alive = alive;
    counts = λ k on. omega (arith, same k, b.counts k on);
    bounded = λ k. omega (arith, len, b.bounded k);
  }

  -- A null handle overwritten by another one.
  blank-Balanced :
      (s : refs.State) (hs : List Handle) (i : ℕ) (h : Handle)
      → i < length hs
      → attached (handle hs i) ≡ false
      → attached h ≡ false
      → Balanced d loans (s, hs)
      → Balanced d loans (s, set hs i h)
  blank-Balanced s hs i h lt empty_place off b =
      same_handles-Balanced s hs (set hs i h) (length-set hs i h)
        (λ k. ground (arith, handles-set k hs i h lt)) b
        λ j on. ground (arith, get_or-set hs i j h null, b.alive j)

  pub release-Balanced :
      (s : refs.State) (hs : List Handle) (i : ℕ)
      → i < length hs
      → Balanced d loans (s, hs)
      → Balanced d loans (release d (s, hs) i)
  unfolding release
  release-Balanced s hs i lt b = elim (drop-cases d loans s (handle hs i)) [
    | inl (off, e) ↦
        subst (λ t. Balanced d loans (t, set hs i null)) (sym e)
          (blank-Balanced s hs i null lt off refl b)
    | inr (inl (on, stays, e)) ↦
        subst (λ t. Balanced d loans (t, set hs i null)) (sym e)
          (release-kept d loans s hs i lt on stays b)
    | inr (inr (on, gone, e)) ↦
        subst (λ t. Balanced d loans (t, set hs i null)) (sym e)
          (release-last d loans s hs i lt on gone b)
  ]

  released :
      (i : ℕ) (s : refs.State) (hs : List Handle)
      → i < length hs
      → Balanced d loans (s, hs)
      → Balanced d loans ((release d (s, hs) i).0, set hs i null)
  unfolding release
  released i s hs lt b = unfold release in release-Balanced s hs i lt b

  copy-Balanced :
      (s : refs.State) (hs : List Handle) (i j : ℕ)
      → i < length hs
      → attached (handle hs i) ≡ false
      → Balanced d loans (s, hs)
      → Balanced d loans (copy d (s, hs) i j)
  unfolding copy
  copy-Balanced s hs i j lt empty_place b = elim (Bool-cases (attached (handle hs j))) [
    | inl on ↦
        subst (λ t. Balanced d loans (t, set hs i (handle hs j))) (sym (counted on))
          (take-Balanced d loans s hs i (handle hs j) lt empty_place on (b.alive j on) b)
    | inr off ↦
        subst (λ t. Balanced d loans (t, set hs i (handle hs j))) (sym (untouched off))
          (blank-Balanced s hs i (handle hs j) lt empty_place off b)
  ]
    where
      kept : refs.State
      kept = if attached (handle hs j) then (refs.add_ref s (handle hs j).buffer_id).0 else s

      counted : attached (handle hs j) ≡ true → kept ≡ (refs.add_ref s (handle hs j).buffer_id).0
      counted on = ground arith

      untouched : attached (handle hs j) ≡ false → kept ≡ s
      untouched off = ground arith

  at_source : (hs : List Handle) (i j : ℕ) → handle (set hs i (handle hs j)) j ≡ handle hs j
  at_source hs i j = elim (ℕ_discrete i j) [
    | yes e ↦ ground (arith, get_or-set hs i j (handle hs j) null)
    | no ne ↦ get_or-set_ne hs i j (handle hs j) null ne
  ]

  -- The handle at `j` goes to `i`, and one that owns what the handle at `i` did takes its place.
  exchange-Balanced :
      (s : refs.State) (hs : List Handle) (i j : ℕ) (x : Handle)
      → i < length hs
      → j < length hs
      → ((k : ℕ) → owns k x ≡ owns k (handle hs i))
      → (attached x ≡ true → refs.live s x.buffer_id ≡ true)
      → Balanced d loans (s, hs)
      → Balanced d loans (s, set (set hs i (handle hs j)) j x)
  exchange-Balanced s hs i j x lt lt' same lives b =
      same_handles-Balanced s hs (set (set hs i (handle hs j)) j x)
        (length-set (set hs i (handle hs j)) j x ∙ length-set hs i (handle hs j)) (λ k. counted k) b
        λ n on. ground (
          arith,
          get_or-set (set hs i (handle hs j)) j n x null,
          get_or-set hs i n (handle hs j) null,
          lives,
          b.alive n,
          b.alive j,
        )
    where
      counted : (k : ℕ) → handles k (set (set hs i (handle hs j)) j x) ≡ handles k hs
      counted k = omega (
        arith,
        handles-set k hs i (handle hs j) lt,
        handles-set k (set hs i (handle hs j)) j x
            (omega (arith, lt', length-set hs i (handle hs j))),
        same k,
        ap (owns k) (at_source hs i j),
      )

  -- What the caller has to see to: places that exist, a constructor's place free, and a live buffer
  -- for a new handle.
  abbrev pub Allowed : Call → Heap d → Type 0
  Allowed (constructs i id allocator) (s, hs) =
      (i < length hs) × (attached (handle hs i) ≡ false) × (refs.live s id ≡ true)
  Allowed (copies i j) (s, hs) =
      (i < length hs) × (j < length hs) × (attached (handle hs i) ≡ false)
  Allowed (moves i j) (s, hs) = (i < length hs) × (j < length hs) × (attached (handle hs i) ≡ false)
  Allowed (assigns_copy i j) (s, hs) = (i < length hs) × (j < length hs)
  Allowed (assigns_move i j) (s, hs) = (i < length hs) × (j < length hs)
  Allowed (swaps i j) (s, hs) = (i < length hs) × (j < length hs)
  Allowed (releases i) (s, hs) = i < length hs

  move-Balanced :
      (s : refs.State) (hs : List Handle) (i j : ℕ)
      → i < length hs
      → j < length hs
      → attached (handle hs i) ≡ false
      → Balanced d loans (s, hs)
      → Balanced d loans (move d (s, hs) i j)
  unfolding move
  move-Balanced s hs i j lt lt' empty_place b =
      exchange-Balanced s hs i j null lt lt' (λ k. ground arith) (λ on. cc) b

  reads-Balanced :
      (s : refs.State) (hs : List Handle) (id : ℕ)
      → Balanced d loans (s, hs)
      → Balanced d loans ((d.get_buffer_data s id).0, hs)
  reads-Balanced s hs id b = record {
    sound = (d.get_buffer_data-Reads s id 0 b.sound).2;
    alive = λ i on. (d.get_buffer_data-Reads s id (handle hs i).buffer_id b.sound).0 ∙ b.alive i on;
    counts = λ k on.
        let (same_live, same_count, _) = d.get_buffer_data-Reads s id k b.sound in
        same_count ∙ b.counts k (sym same_live ∙ on);
    bounded = b.bounded;
  }

  -- The address that `get_buffer_data` gives changes no count.
  construct-Balanced :
      (s : refs.State) (hs : List Handle) (i id : ℕ) (allocator : Bool)
      → i < length hs
      → attached (handle hs i) ≡ false
      → refs.live s id ≡ true
      → Balanced d loans (s, hs)
      → Balanced d loans (construct d (s, hs) i id allocator)
  unfolding construct
  construct-Balanced s hs i id allocator lt empty_place lives b = elim (Bool-cases (attached h)) [
    | inl on ↦ subst (Balanced d loans) (sym (counted on)) (
        reads-Balanced (refs.add_ref s id).0 (set hs i (record h { address = p })) id
          (take-Balanced d loans s hs i (record h { address = p }) lt empty_place on lives b))
    | inr off ↦
        subst (Balanced d loans) (sym (untouched off))
          (blank-Balanced s hs i h lt empty_place off b)
  ]
    where
      h : Handle
      h = record { buffer_id = id; allocator = allocator; address = none }

      p : Option (ℕ × ℕ)
      p = (d.get_buffer_data (refs.add_ref s id).0 id).1

      counted :
          attached h ≡ true
          → construct d (s, hs) i id allocator
            ≡ ((d.get_buffer_data (refs.add_ref s id).0 id).0, set hs i (record h { address = p }))
      counted on = ground arith

      untouched : attached h ≡ false → construct d (s, hs) i id allocator ≡ (s, set hs i h)
      untouched off = ground arith

  -- Any call on handles that the caller is allowed to make (places that exist, a free place for a
  -- constructor, a live buffer for a new handle) keeps the reference counts right: every live
  -- buffer's count is its number of handles with the references lent to others, which together
  -- stay below 2^32, and every handle is on a live buffer.
  pub run-Balanced :
      (call : Call) (m : Heap d)
      → Allowed call m
      → Balanced d loans m
      → Balanced d loans (run d call m)
  unfolding run copy_assign move_assign swap release
  run-Balanced (constructs i id allocator) (s, hs) (lt, place, lives) b =
      construct-Balanced s hs i id allocator lt place lives b
  run-Balanced (copies i j) (s, hs) (lt, lt', place) b = copy-Balanced s hs i j lt place b
  run-Balanced (moves i j) (s, hs) (lt, lt', place) b = move-Balanced s hs i j lt lt' place b
  run-Balanced (assigns_copy i j) (s, hs) (lt, lt') b = elim (ℕ_discrete i j) [
    | yes e ↦ subst (Balanced d loans) (ground arith) b
    | no ne ↦ subst (Balanced d loans) (ground arith) (
        copy-Balanced (release d (s, hs) i).0 (set hs i null) i j
          (omega (arith, lt, length-set hs i null))
          (ap attached (get_or-set_self hs i null null lt)) (released i s hs lt b))
  ]
  run-Balanced (assigns_move i j) (s, hs) (lt, lt') b = elim (ℕ_discrete i j) [
    | yes e ↦ subst (Balanced d loans) (ground arith) b
    | no ne ↦ subst (Balanced d loans) (ground arith) (
        move-Balanced (release d (s, hs) i).0 (set hs i null) i j
          (omega (arith, lt, length-set hs i null)) (omega (arith, lt', length-set hs i null))
          (ap attached (get_or-set_self hs i null null lt)) (released i s hs lt b))
  ]
  run-Balanced (swaps i j) (s, hs) (lt, lt') b =
      exchange-Balanced s hs i j (handle hs i) lt lt' (λ k. refl) (b.alive i) b
  run-Balanced (releases i) (s, hs) lt b = release-Balanced s hs i lt b
