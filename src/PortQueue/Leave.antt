-- ===== src/PortQueue/Leave.antt =====
-- The references that a consumer gives back when it leaves (port_queue.hpp).
use mergeshare.Prelude.{
  ℕ, zero, suc, ◌+◌, ◌-◌, ◌%◌, ◌<◌, ◌≤◌, ◌≡◌, ◌≢◌, inl, inr, sym, ap, subst, true, List, Option,
  none, some, arith, ◌==◌, if◌then◌else◌, get_or, u32_mod, Bool-cases,
}
use mergeshare.FreeList.Partition.{count}
use mergeshare.Window.{window}
use mergeshare.Refs.{RefCounter}
use mergeshare.PortQueue.{Queue, consumer, invalid_buffer_id}
use mergeshare.PortQueue.Counted.{remove_refs, unregister_consumer}
use mergeshare.PortQueue.Valid.{IsValid}
use mergeshare.PortQueue.Broadcast.{unread}
use mergeshare.PortQueue.Promise.{active-in_range}

module _ (r : RefCounter) where
  open r use {
    State, Ok, live, get_ref_count, remove_ref, remove_ref-count, remove_ref-live, remove_ref-Ok,
  }

  -- One round of the loop.
  abbrev dropped : State → ℕ → State
  dropped s id = if id == invalid_buffer_id then s else (remove_ref s id).0

  dropped-lem :
      (s : State) (id k n : ℕ)
      → Ok s
      → k ≢ 0
      → live s k ≡ true
      → n + (if k == id then 1 else 0) ≤ get_ref_count s k
      → get_ref_count s k < u32_mod
      → Ok (dropped s id)
        × (live (dropped s id) k ≡ true)
        × (get_ref_count (dropped s id) k + (if k == id then 1 else 0) ≡ get_ref_count s k)
  dropped-lem s id k n ok real lives enough fits = elim (Bool-cases (id == 0)) [
    | inl e ↦ ground (arith, e)
    | inr e ↦ ground (
      arith,
      e,
      remove_ref-Ok s id ok,
      remove_ref-live s id k,
      remove_ref-count s id k ok,
      same_live,
    )
  ]
    where
      same_live : (id ≡ k) → live s id ≡ live s k
      same_live e = ap (live s) e

  remove_refs-count :
      (q : Queue) (n i k : ℕ) (s : State)
      → Ok s
      → k ≢ 0
      → live s k ≡ true
      → count k (window 0 q.items q.capacity i n) ≤ get_ref_count s k
      → get_ref_count s k < u32_mod
      → (live (remove_refs r q n i s) k ≡ true)
        × (get_ref_count (remove_refs r q n i s) k + count k (window 0 q.items q.capacity i n)
            ≡ get_ref_count s k)
  unfolding remove_refs count
  remove_refs-count q zero i k s ok real lives enough fits = (lives, omega arith)
  remove_refs-count q (suc n) i k s ok real lives enough fits =
      let id = get_or q.items (i % q.capacity) invalid_buffer_id in
      let (ok', lives', one) =
        dropped-lem s id k (count k (window 0 q.items q.capacity (i + 1) n)) ok real lives
          (omega (arith, enough)) fits in
      let (still, rest) =
        remove_refs-count q n (i + 1) k (dropped s id) ok' real lives' (omega (arith, enough, one))
          (omega (arith, one, fits)) in
      (still, omega (arith, rest, one))

  -- The state of the allocator after a consumer left.
  abbrev pub after_leave : Option Queue × Option State → State → State
  after_leave (o, none) s = s
  after_leave (o, some t) s = t

  -- On a valid queue, a consumer that leaves gives back one reference for each time that a live
  -- buffer stands in its FIFO, if so many are counted; but the buffer stays live, even when its
  -- count comes to 0: it is not deallocated.
  pub unregister_consumer-references :
      (q : Queue) (i k : ℕ) (fifo : List ℕ) (s : State)
      → IsValid q
      → unread q i ≡ some fifo
      → Ok s
      → k ≢ invalid_buffer_id
      → live s k ≡ true
      → count k fifo ≤ get_ref_count s k
      → get_ref_count s k < u32_mod
      → let t = after_leave (unregister_consumer r (some q) (some s) i) s in
        (live t k ≡ true) × (get_ref_count t k + count k fifo ≡ get_ref_count s k)
  unfolding unregister_consumer
  unregister_consumer-references q i k fifo s v has ok real lives enough fits =
      elim (Bool-cases (consumer q i).active) [
        | inr off ↦ absurd (ground (arith, has, off))
        | inl on ↦
            let same : window 0 q.items q.capacity h (q.tail - h) ≡ fifo =
              ground (arith, has, on) in
            subst (λ t. (live t k ≡ true) × (get_ref_count t k + count k fifo ≡ get_ref_count s k))
              (sym (left on))
              (subst
                (λ w.
                  (live (remove_refs r q (q.tail - h) h s) k ≡ true)
                  × (get_ref_count (remove_refs r q (q.tail - h) h s) k + count k w
                      ≡ get_ref_count s k))
                same
                (remove_refs-count q (q.tail - h) h k s ok real lives
                  (subst (λ w. count k w ≤ get_ref_count s k) (sym same) enough) fits))
      ]
    where
      h : ℕ
      h = (consumer q i).head

      left :
          (consumer q i).active ≡ true
          → after_leave (unregister_consumer r (some q) (some s) i) s
            ≡ remove_refs r q (q.tail - h) h s
      left on = ground (arith, on, active-in_range i v on)
