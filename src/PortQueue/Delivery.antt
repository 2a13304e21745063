-- ===== src/PortQueue/Delivery.antt =====
-- Runs of port_queue.hpp: any sequence of calls on a queue, by any number of processes, from
-- `create` on.
use mergeshare.Prelude.{
  ℕ, ◌+◌, ◌<◌, ◌≡◌, ◌≢◌, inl, inr, refl, sym, ap, subst, ◌∙◌, Bool, false, not, ◌||◌, List, [], ◌∷◌,
  ◌++◌, Option, none, some, arith, ◌==◌, if◌then◌else◌, u64_mod, leb, Bool-cases, ℕ_discrete,
  get_or-replicate,
}
use mergeshare.Refs.{RefCounter}
use mergeshare.PortQueue.{
  Queue, consumer, idle, formatted, create, max_consumers, invalid_consumer_id, register_consumer,
  is_full, write_item, pop, close,
}
use mergeshare.PortQueue.Counted.{pushed, push, push_loop, push_item, unregister_consumer}
use mergeshare.PortQueue.Valid.{IsValid, create-IsValid, consumer-set}
use mergeshare.PortQueue.Methods.{
  AllValid, register_consumer-IsValid, pop-IsValid, write_item-IsValid, unregister_consumer-IsValid,
  close-IsValid,
}
use mergeshare.PortQueue.Broadcast.{unread, view_push, view_put, append_one, write_item-unread}
use mergeshare.PortQueue.Promise.{view, view_pop, register_consumer-view, pop-view}

-- What was pushed since the consumer of each slot joined, and what that consumer has read.
pub record Log : Type 0 where
  pub sent : ℕ → List ℕ
  pub got : ℕ → List ℕ

abbrev pub no_log : Log
no_log = record { sent = λ i. []; got = λ i. [] }

abbrev pub joins : ℕ → Log → Log
joins j l = record {
  sent = λ i. if j == i then [] else l.sent i;
  got = λ i. if j == i then [] else l.got i;
}

abbrev pub sends : ℕ → Log → Log
sends id l = record l { sent = λ i. l.sent i ++ id ∷ [] }

abbrev pub gets : ℕ → ℕ → Log → Log
gets j id l = record l { got = λ i. if j == i then l.got i ++ id ∷ [] else l.got i }

-- The states that calls lead to, with the log. A push that waits is a push at the state it finds.
-- Positions have not come within a capacity of 2^64.
pub data Reach (r : RefCounter) (start : Queue) : Queue → Log → Type 0 where
  begun : Reach r start start no_log
  registered :
      {q q' : Queue} {l : Log} (j : ℕ)
      → Reach r start q l
      → register_consumer (some q) ≡ (some q', j)
      → j ≢ invalid_consumer_id
      → Reach r start q' (joins j l)
  sent_one :
      {q q' : Queue} {l : Log} (a a' : Option r.State) (id : ℕ)
      → Reach r start q l
      → q.tail + q.capacity < u64_mod
      → push r (some q) a id [] ≡ (pushed, some q', a')
      → Reach r start q' (sends id l)
  got_one :
      {q q' : Queue} {l : Log} (i id : ℕ) (notified : Bool)
      → Reach r start q l
      → q.tail + q.capacity < u64_mod
      → pop (some q) i ≡ (some q', some id, notified)
      → Reach r start q' (gets i id l)
  unregistered :
      {q q' : Queue} {l : Log} (a a' : Option r.State) (i : ℕ)
      → Reach r start q l
      → unregister_consumer r (some q) a i ≡ (some q', a')
      → Reach r start q' l
  shut :
      {q q' : Queue} {l : Log} → Reach r start q l → close (some q) ≡ some q' → Reach r start q' l

-- Every consumer has read, and has still to read, just what was pushed since it joined.
abbrev pub Delivers : Queue → Log → Type 0
Delivers q l = (i : ℕ) (fifo : List ℕ) → unread q i ≡ some fifo → l.sent i ≡ l.got i ++ fifo

-- Moves of the specification.
append_one-some :
    (id : ℕ) (o : Option (List ℕ)) (fifo : List ℕ)
    → append_one id o ≡ some fifo
    → (ids : List ℕ) × (o ≡ some ids) × (ids ++ id ∷ [] ≡ fifo)
append_one-some id none fifo e = cc
append_one-some id (some ids) fifo e = (ids, refl, ground (arith, e))

view_pop-some :
    (i id : ℕ) (v v' : ℕ → Option (List ℕ)) (o : Option (List ℕ))
    → v i ≡ o
    → view_pop i v ≡ (v', some id)
    → (rest : List ℕ) × (v i ≡ some (id ∷ rest)) × (view_put i (some rest) v ≡ v')
unfolding view_pop
view_pop-some i id v v' none at e =
    let c : view_pop i v ≡ (v, none) = rw (at, view_pop) refl in
    let none_left : none ≡ some id = ap (λ p. p.1) (sym c ∙ e) in cc
view_pop-some i id v v' (some []) at e =
    let c : view_pop i v ≡ (v, none) = rw (at, view_pop) refl in
    let none_left : none ≡ some id = ap (λ p. p.1) (sym c ∙ e) in cc
view_pop-some i id v v' (some (x ∷ rest)) at e =
    let c : view_pop i v ≡ (view_put i (some rest) v, some x) = rw (at, view_pop) refl in
    let same : some x ≡ some id = ap (λ p. p.1) (sym c ∙ e) in
    let head : x ≡ id = cc in (rest, at ∙ ap (λ o. some (o ∷ rest)) head, ap (λ p. p.0) (sym c ∙ e))

append_assoc : (xs ys zs : List ℕ) → (xs ++ ys) ++ zs ≡ xs ++ (ys ++ zs)
append_assoc [] ys zs = refl
append_assoc (x ∷ xs) ys zs = ap (λ l. x ∷ l) (append_assoc xs ys zs)

created-unread :
    (shm_open : ℕ → Bool) (header_size port_id capacity : ℕ) {start : Queue}
    → create shm_open header_size port_id capacity ≡ some start
    → (i : ℕ) → unread start i ≡ none
unfolding create formatted
created-unread shm_open h port_id capacity made i =
    ground (arith, made, get_or-replicate max_consumers i idle)

module _ (r : RefCounter) where
  open r use {State}

  push-writes :
      (q q' : Queue) (a a' : Option State) (id : ℕ)
      → push r (some q) a id [] ≡ (pushed, some q', a')
      → (is_full q ≡ false) × (write_item q id ≡ q')
  unfolding push push_loop push_item
  push-writes q q' a a' id e = elim (Bool-cases q.closed) [
    | inl closed ↦ absurd (ground (arith, e, closed))
    | inr opened ↦ elim (Bool-cases (is_full q)) [
      | inl full ↦ absurd (ground (arith, e, opened, full))
      | inr space ↦ (space, ground (arith, e, opened, space))
    ]
  ]

  left-unread :
      (q : Queue) (a : Option State) (i : ℕ)
      → IsValid q
      → (j : ℕ) (fifo : List ℕ) → view (unregister_consumer r (some q) a i).0 j ≡ some fifo
      → unread q j ≡ some fifo
  unfolding unregister_consumer
  left-unread q a i v j fifo e =
      elim (Bool-cases (leb max_consumers i || not (consumer q i).active)) [
        | inl skipped ↦ ground (arith, e, skipped)
        | inr leaves ↦ ground (
          arith,
          e,
          leaves,
          consumer-set i j (record (consumer q i) { active = false }) (ground (arith, leaves)) v,
        )
      ]

  -- One call, on a valid queue whose log is right.
  registered-Delivers :
      (q q' : Queue) (l : Log) (j : ℕ)
      → IsValid q
      → Delivers q l
      → register_consumer (some q) ≡ (some q', j)
      → j ≢ invalid_consumer_id
      → IsValid q' × Delivers q' (joins j l)
  unfolding view_put
  registered-Delivers q q' l j v d e real = elim (register_consumer-view q v) [
    | inl unchanged ↦ absurd (real (ap (λ p. p.1) (sym e ∙ unchanged)))
    | inr (k, at, lt, idle_slot, fifos) ↦ (
      subst (λ p. AllValid p.0) e (register_consumer-IsValid v),
      λ i fifo has.
          let same : k ≡ j = sym at ∙ ap (λ p. p.1) e in
          let now : unread q' i ≡ (if k == i then some [] else unread q i) =
            ap (λ f. f i) (sym (ap (λ p. view p.0) e) ∙ fifos) in
          ground (arith, same, now, has, d i fifo),
    )
  ]

  sent_one-Delivers :
      (q q' : Queue) (l : Log) (a a' : Option State) (id : ℕ)
      → IsValid q
      → Delivers q l
      → q.tail + q.capacity < u64_mod
      → push r (some q) a id [] ≡ (pushed, some q', a')
      → IsValid q' × Delivers q' (sends id l)
  unfolding view_push
  sent_one-Delivers q q' l a a' id v d small e =
      let (space, wrote) = push-writes q q' a a' id e in
      (
        subst IsValid wrote (write_item-IsValid id small space v),
        λ i fifo has.
            let now : append_one id (unread q i) ≡ some fifo =
              ap (λ f. f i) (sym (write_item-unread id small space v))
              ∙ ap (λ p. unread p i) wrote
              ∙ has in
            let (ids, before, all) = append_one-some id (unread q i) fifo now in
            ap (λ xs. xs ++ id ∷ []) (d i ids before)
            ∙ append_assoc (l.got i) ids (id ∷ [])
            ∙ ap (λ xs. l.got i ++ xs) all,
      )

  got_one-Delivers :
      (q q' : Queue) (l : Log) (i id : ℕ) (n : Bool)
      → IsValid q
      → Delivers q l
      → q.tail + q.capacity < u64_mod
      → pop (some q) i ≡ (some q', some id, n)
      → IsValid q' × Delivers q' (gets i id l)
  unfolding view_put
  got_one-Delivers q q' l i id n v d small e =
      let given : view_pop i (unread q) ≡ (unread q', some id) =
        sym (pop-view q i small v) ∙ ap (λ p. (view p.0, p.1)) e in
      let (rest, before, after) =
        view_pop-some i id (unread q) (unread q') (unread q i) refl given in
      (
        subst (λ p. AllValid p.0) e (pop-IsValid i small v),
        λ k fifo has.
            let now : (if i == k then some rest else unread q k) ≡ some fifo =
              ap (λ f. f k) after ∙ has in
            elim (ℕ_discrete i k) [
              | yes at ↦
                  let first : unread q k ≡ some (id ∷ rest) =
                    subst (λ j. unread q j ≡ some (id ∷ rest)) at before in
                  ground
                    (arith, at, now, d k (id ∷ rest) first, append_assoc (l.got k) (id ∷ []) rest)
              | no other ↦ ground (arith, other, now, d k fifo)
            ],
      )

  closed-unread : (q : Queue) (j : ℕ) → unread q j ≡ view (close (some q)) j
  unfolding close
  closed-unread q j = refl

  -- The invariant of a run.
  Reach-Delivers :
      (start : Queue) {q : Queue} {l : Log}
      → IsValid start
      → ((i : ℕ) → unread start i ≡ none)
      → Reach r start q l
      → IsValid q × Delivers q l
  Reach-Delivers start v fresh begun = (v, λ i fifo e. absurd (ground (arith, fresh i, e)))
  Reach-Delivers start v fresh (registered {q} {q'} {l} j run e real) =
      let (w, d) = Reach-Delivers start v fresh run in registered-Delivers q q' l j w d e real
  Reach-Delivers start v fresh (sent_one {q} {q'} {l} a a' id run small e) =
      let (w, d) = Reach-Delivers start v fresh run in sent_one-Delivers q q' l a a' id w d small e
  Reach-Delivers start v fresh (got_one {q} {q'} {l} i id n run small e) =
      let (w, d) = Reach-Delivers start v fresh run in got_one-Delivers q q' l i id n w d small e
  Reach-Delivers start v fresh (unregistered {q} {q'} {l} a a' i run e) =
      let (w, d) = Reach-Delivers start v fresh run in
      (
        subst (λ p. AllValid p.0) e (unregister_consumer-IsValid r a i w),
        λ j fifo has. d j fifo (left-unread q a i w j fifo (ap (λ p. view p.0 j) e ∙ has)),
      )
  Reach-Delivers start v fresh (shut {q} {q'} {l} run e) =
      let (w, d) = Reach-Delivers start v fresh run in
      (
        subst AllValid e (close-IsValid w),
        λ j fifo has. d j fifo (closed-unread q j ∙ ap (λ p. view p j) e ∙ has),
      )

  -- From `create` on, with a capacity above 0, in every state that joins, leaves, pushes, pops and
  -- closes lead to, while positions have not come within a capacity of 2^64: what was pushed since
  -- an active consumer joined is what it has read, in order, followed by what it has still to read.
  -- None is lost, doubled or out of order.
  pub Reach-delivered :
      (shm_open : ℕ → Bool) (header_size port_id capacity : ℕ) {start q : Queue} {l : Log} (i : ℕ)
      (fifo : List ℕ)
      → 0 < capacity
      → create shm_open header_size port_id capacity ≡ some start
      → Reach r start q l
      → unread q i ≡ some fifo
      → l.sent i ≡ l.got i ++ fifo
  Reach-delivered shm_open h port_id capacity {start} i fifo room made run =
      (Reach-Delivers start (create-IsValid shm_open h port_id capacity room made)
          (created-unread shm_open h port_id capacity made) run).1
        i fifo
