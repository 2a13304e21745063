-- ===== src/PortQueue/Push.antt =====
-- The two pushes of port_queue.hpp: when they write, what the consumers then see, and the
-- references that they take.
use mergeshare.Prelude.{
  ℕ, zero, suc, ◌+◌, ◌-◌, ◌<◌, ◌≡◌, ◌⊎◌, ◌≢◌, inl, inr, subst, refl, sym, ap, ◌∙◌, true, false,
  ◌&&◌, List, [], ◌∷◌, Option, none, some, arith, ◌==◌, if◌then◌else◌, u32_mod, u64_mod, Bool-cases,
}
use mergeshare.Refs.{RefCounter}
use mergeshare.PortQueue.{Queue, is_full}
use mergeshare.PortQueue.Counted.{
  Outcome, pushed, add_refs, push_item, push_loop, push, push_item_once, TimedWake, timed_loop,
  push_with_timeout,
}
use mergeshare.PortQueue.Valid.{IsValid}
use mergeshare.PortQueue.Broadcast.{unread, view_push, write_item-unread}
use mergeshare.PortQueue.Promise.{view}

-- A state with room for an item: neither closed nor full.
abbrev pub Open : Queue → Type 0
Open q = (q.closed ≡ false) × (is_full q ≡ false)

-- A valid state, with its tail below 2^64 less the capacity.
abbrev pub Sound : Queue → Type 0
Sound q = IsValid q × (q.tail + q.capacity < u64_mod)

module _ (r : RefCounter) where
  open r use {State, Ok, live, get_ref_count, add_ref, add_ref-count, add_ref-live, add_ref-Ok}

  -- Some state that the caller looks at, before its first wait or after one, has a property.
  abbrev pub Sometimes : (Queue → Type 0) → Queue → List (Queue × Option State) → Type 0
  Sometimes P q [] = P q
  Sometimes P q ((q', _) ∷ wakes) = P q ⊎ Sometimes P q' wakes

  -- All of them have it.
  abbrev pub Always : (Queue → Type 0) → Queue → List (Queue × Option State) → Type 0
  Always P q [] = P q
  Always P q ((q', _) ∷ wakes) = P q × Always P q' wakes

  -- `n` rounds of `add_ref`.
  add_refs-count :
      (n id k : ℕ) (s : State)
      → Ok s
      → get_ref_count s id + n < u32_mod
      → get_ref_count (add_refs r n id s) k
        ≡ (if live s id && (id == k) then get_ref_count s k + n else get_ref_count s k)
  unfolding add_refs
  add_refs-count zero id k s ok room = ground arith
  add_refs-count (suc n) id k s ok room = ground (
    arith,
    add_ref-count s id k ok,
    add_ref-count s id id ok,
    add_ref-live s id id,
    add_refs-count n id k (add_ref s id).0 (add_ref-Ok s id ok),
  )

  -- What `push` sees at its first look.
  push-is_loop :
      (q : Queue) (a : Option State) (id : ℕ) (wakes : List (Queue × Option State))
      → q.closed ≡ false
      → push r (some q) a id wakes
        ≡ (let (o, q', a') = push_loop r q a id wakes in (o, some q', a'))
  unfolding push
  push-is_loop q a id wakes opened = ground arith

  push_loop-open :
      (q : Queue) (a : Option State) (id : ℕ) (wakes : List (Queue × Option State))
      → Open q
      → push_loop r q a id wakes ≡ (pushed, (push_item r q a id).0, (push_item r q a id).1)
  unfolding push_loop
  push_loop-open q a id [] (opened, space) = ground arith
  push_loop-open q a id (w ∷ wakes) (opened, space) = ground arith

  -- One more wait, if the state seen is full.
  push_loop-full :
      (q : Queue) (a : Option State) (id : ℕ) (q' : Queue) (a' : Option State)
      (wakes : List (Queue × Option State))
      → q.closed ≡ false
      → is_full q ≡ true
      → push_loop r q a id ((q', a') ∷ wakes) ≡ push_loop r q' a' id wakes
  unfolding push_loop
  push_loop-full q a id q' a' wakes opened full = ground arith

  push_loop-stays :
      (q : Queue) (a : Option State) (id : ℕ) (wakes : List (Queue × Option State))
      → (push_loop r q a id wakes).0 ≡ pushed
      → (q.closed ≡ false) × ((is_full q ≡ true) → wakes ≢ [])
  unfolding push_loop
  push_loop-stays q a id [] e = elim (Bool-cases q.closed) [
    | inl shut ↦ absurd (ground arith)
    | inr opened ↦ (opened, λ full _. ground arith)
  ]
  push_loop-stays q a id (w ∷ wakes) e = (ground arith, λ full. ground arith)

  abbrev pub Broadcasts : ℕ → Queue → Queue → Type 0
  Broadcasts id after p = Open p × (view (some after) ≡ view_push id (unread p))

  push_loop-view :
      (q : Queue) (a : Option State) (id : ℕ) (wakes : List (Queue × Option State))
      → Always Sound q wakes
      → (push_loop r q a id wakes).0 ≡ pushed
      → Sometimes (Broadcasts id (push_loop r q a id wakes).1) q wakes
  unfolding view_push push_item
  push_loop-view q a id [] (v, small) e =
      let (opened, waits) = push_loop-stays q a id [] e in
      elim (Bool-cases (is_full q)) [
        | inl full ↦ absurd (waits full refl)
        | inr space ↦ (
          (opened, space),
          ap (λ x. view (some x.1)) (push_loop-open q a id [] (opened, space))
              ∙ write_item-unread id small space v,
        )
      ]
  push_loop-view q a id ((q', a') ∷ wakes) ((v, small), later) e =
      let (opened, waits) = push_loop-stays q a id ((q', a') ∷ wakes) e in
      elim (Bool-cases (is_full q)) [
        | inl full ↦
            let more = push_loop-full q a id q' a' wakes opened full in
            inr (
              subst (λ x. Sometimes (Broadcasts id x.1) q' wakes) (sym more)
                (push_loop-view q' a' id wakes later (subst (λ x. x.0 ≡ pushed) more e)))
        | inr space ↦ inl (
          (opened, space),
          ap (λ x. view (some x.1)) (push_loop-open q a id ((q', a') ∷ wakes) (opened, space))
              ∙ write_item-unread id small space v,
        )
      ]

  push-refused :
      (q : Queue) (a : Option State) (id : ℕ) (wakes : List (Queue × Option State))
      → q.closed ≡ true
      → (push r (some q) a id wakes).0 ≢ pushed
  unfolding push
  push-refused q a id wakes shut e = ground (arith, shut)

  -- If every state that `push` looks at is valid, with its tail below 2^64 less the capacity, and
  -- the item got in, then it got in at a state that was neither closed nor full, and there it went
  -- to the end of the FIFO of each active consumer.
  pub push-view :
      (q : Queue) (a : Option State) (id : ℕ) (wakes : List (Queue × Option State))
      → Always Sound q wakes
      → (push r (some q) a id wakes).0 ≡ pushed
      → Sometimes
          (λ p. Open p × (view (push r (some q) a id wakes).1 ≡ view_push id (unread p)))
          q
          wakes
  push-view q a id wakes sound e = elim (Bool-cases q.closed) [
    | inl shut ↦ absurd (push-refused q a id wakes shut e)
    | inr opened ↦
        let same = push-is_loop q a id wakes opened in
        subst (λ x. Sometimes (λ p. Open p × (view x.1 ≡ view_push id (unread p))) q wakes)
          (sym same) (push_loop-view q a id wakes sound (subst (λ x. x.0 ≡ pushed) same e))
  ]

  -- The state of the allocator after a push.
  abbrev pub after_push : Outcome × Option Queue × Option State → State → State
  after_push (o, q, none) s = s
  after_push (o, q, some t) s = t

  push-takes :
      (q : Queue) (s : State) (id : ℕ) (wakes : List (Queue × Option State))
      → Open q
      → after_push (push r (some q) (some s) id wakes) s ≡ add_refs r (q.consumer_count - 1) id s
  unfolding push_item
  push-takes q s id wakes (opened, space) =
      ap (λ x. after_push x s) (push-is_loop q (some s) id wakes opened)
      ∙ ap (λ x. after_push (x.0, some x.1, x.2) s)
          (push_loop-open q (some s) id wakes (opened, space))

  push_with_timeout-takes :
      (q : Queue) (s : State) (id : ℕ) (timed : List (TimedWake r))
      → Open q
      → after_push (push_with_timeout r (some q) (some s) id timed) s ≡ (add_ref s id).0
  unfolding push_with_timeout timed_loop push_item_once
  push_with_timeout-takes q s id [] (opened, space) = ground arith
  push_with_timeout-takes q s id (w ∷ timed) (opened, space) = ground arith

  -- On a queue that is neither closed nor full, when the id's count plus the number of consumers
  -- stays below 2^32 - 1: `push` adds one less than the number of consumers to the count of a live
  -- id, and `push_with_timeout` adds one whatever that number is. Neither changes another count.
  pub push-references :
      (q : Queue) (s : State) (id k : ℕ) (wakes : List (Queue × Option State))
      (timed : List (TimedWake r))
      → Open q
      → Ok s
      → get_ref_count s id + q.consumer_count + 1 < u32_mod
      → (get_ref_count (after_push (push r (some q) (some s) id wakes) s) k
          ≡ get_ref_count s k + (if live s id && (id == k) then q.consumer_count - 1 else 0))
        × (get_ref_count (after_push (push_with_timeout r (some q) (some s) id timed) s) k
            ≡ get_ref_count s k + (if live s id && (id == k) then 1 else 0))
  push-references q s id k wakes timed open_q ok room = (
    ap (λ t. get_ref_count t k) (push-takes q s id wakes open_q)
        ∙ ground (arith, add_refs-count (q.consumer_count - 1) id k s ok (omega arith)),
    ap (λ t. get_ref_count t k) (push_with_timeout-takes q s id timed open_q)
        ∙ ground (arith, add_ref-count s id k ok),
  )
