-- ===== src/PortQueue/Valid.antt =====
-- The invariant of a port queue, kept by every method.
use mergeshare.Prelude.{
  ℕ, zero, suc, ◌+◌, ◌≤◌, ◌<◌, ◌≡◌, ◌⊎◌, inl, inr, refl, sym, subst, ap, ◌∙◌, Bool, true, false,
  ◌&&◌, ◌||◌, List, [], ◌∷◌, none, some, arith, length, get_or, set, length-set, get_or-set,
  length-replicate, get_or-replicate, replicate, ltb, ◌==◌, if◌then◌else◌, u64_mod, Bool-cases,
}
use mergeshare.PortQueue.{
  Consumer, idle, Queue, consumer, max_consumers, create, formatted, first_idle, slowest, is_full,
}

-- How many consumers are active.
unfoldable pub active_count : List Consumer → ℕ
active_count [] = 0
active_count (c ∷ cs) = (if c.active then 1 else 0) + active_count cs

pub record IsValid (q : Queue) : Type 0 where
  pub room : 0 < q.capacity
  pub stored : length q.items ≡ q.capacity
  pub slots : length q.consumers ≡ max_consumers
  pub counted : q.consumer_count ≡ active_count q.consumers
  pub behind : (i : ℕ) → (consumer q i).active ≡ true → (consumer q i).head ≤ q.tail
  pub near : (i : ℕ) → (consumer q i).active ≡ true → q.tail ≤ (consumer q i).head + q.capacity

pub active_count-le : (cs : List Consumer) → active_count cs ≤ length cs
unfolding active_count
active_count-le [] = omega arith
active_count-le (c ∷ cs) = ground (arith, active_count-le cs)

pub active_count-pos :
    (cs : List Consumer) (i : ℕ) → (get_or cs i idle).active ≡ true → 0 < active_count cs
unfolding active_count
active_count-pos [] i on = cc
active_count-pos (c ∷ cs) zero on = ground arith
active_count-pos (c ∷ cs) (suc i) on = ground (arith, active_count-pos cs i on)

-- Writing a slot changes the count by what the slot changes.
pub active_count-set :
    (cs : List Consumer) (i : ℕ) (c : Consumer)
    → i < length cs
    → active_count (set cs i c) + (if (get_or cs i idle).active then 1 else 0)
      ≡ active_count cs + (if c.active then 1 else 0)
unfolding active_count
active_count-set [] i c h = absurd (omega arith)
active_count-set (x ∷ cs) zero c h = omega arith
active_count-set (x ∷ cs) (suc i) c h = omega (arith, active_count-set cs i c (omega arith))

-- `first_idle` finds an inactive slot, if there is one.
pub first_idle_lem :
    (k : ℕ) (cs : List Consumer)
    → (first_idle k cs ≡ none)
      ⊎ ((j : ℕ) × (first_idle k cs ≡ some (k + j))
          × (j < length cs)
          × ((get_or cs j idle).active ≡ false))
unfolding first_idle
first_idle_lem k [] = inl refl
first_idle_lem k (c ∷ cs) = elim (Bool-cases c.active) [
  | inl on ↦ elim (first_idle_lem (k + 1) cs) [
    | inl e ↦ inl (ground arith)
    | inr (j, e, lt, off) ↦ inr (suc j, rw on (e ∙ ap some (omega arith)), omega arith, off)
  ]
  | inr off ↦ inr (0, rw off (ap some (omega arith)), omega arith, off)
]

-- The slowest active consumer bounds all of them from below.
slowest-le_start : (cs : List Consumer) (m n : ℕ) → 0 < n → (slowest cs m n).0 ≤ m
unfolding slowest
slowest-le_start [] m n h = omega arith
slowest-le_start (c ∷ cs) m n h = ground (
  arith,
  slowest-le_start cs (if c.active && ((n == 0) || ltb c.head m) then c.head else m)
      (if c.active then n + 1 else n),
)

pub slowest-le :
    (cs : List Consumer) (m n i : ℕ)
    → (get_or cs i idle).active ≡ true
    → (slowest cs m n).0 ≤ (get_or cs i idle).head
unfolding slowest
slowest-le [] m n i on = cc
slowest-le (c ∷ cs) m n zero on = ground (
  arith,
  slowest-le_start cs (if c.active && ((n == 0) || ltb c.head m) then c.head else m)
      (if c.active then n + 1 else n),
)
slowest-le (c ∷ cs) m n (suc i) on = slowest-le cs _ _ i on

-- It is the start value, or some active consumer is there.
pub slowest-attained :
    (cs : List Consumer) (m n : ℕ)
    → ((slowest cs m n).0 ≡ m)
      ⊎ ((i : ℕ) × ((get_or cs i idle).active ≡ true)
          × ((get_or cs i idle).head ≡ (slowest cs m n).0))
unfolding slowest
slowest-attained [] m n = inl refl
slowest-attained (c ∷ cs) m n =
    elim (slowest-attained cs (if c.active && ((n == 0) || ltb c.head m) then c.head else m)
      (if c.active then n + 1 else n)) [
        | inl e ↦ elim (Bool-cases (c.active && ((n == 0) || ltb c.head m))) [
          | inl new ↦ inr (0, ground arith, ground arith)
          | inr old ↦ inl (ground arith)
        ]
        | inr (i, on, e) ↦ inr (suc i, on, e)
      ]

-- A queue that is not full has space before its every active consumer.
pub not_full-near :
    {q : Queue} (i : ℕ)
    → q.tail + q.capacity < u64_mod
    → IsValid q
    → is_full q ≡ false
    → (consumer q i).active ≡ true
    → q.tail < (consumer q i).head + q.capacity
unfolding is_full
not_full-near {q} i small v space on =
    ground (arith, slowest-le q.consumers q.tail 0 i on, v.behind i on)

pub consumer-set :
    {q : Queue} (i j : ℕ) (c : Consumer)
    → i < max_consumers
    → IsValid q
    → get_or (set q.consumers i c) j idle ≡ (if i == j then c else consumer q j)
consumer-set {q} i j c lt v = ground (arith, get_or-set q.consumers i j c idle, v.slots)

-- A slot is rewritten, and the count with it.
module _ {q : Queue} (i n : ℕ) (c : Consumer) (lt : i < max_consumers) (v : IsValid q)
    (counted : n + (if (consumer q i).active then 1 else 0)
      ≡ q.consumer_count + (if c.active then 1 else 0))
    (behind : c.active ≡ true → c.head ≤ q.tail)
    (near : c.active ≡ true → q.tail ≤ c.head + q.capacity) where
  pub rewrite-IsValid : IsValid (record q { consumers = set q.consumers i c; consumer_count = n })
  rewrite-IsValid = record {
    room = v.room;
    stored = v.stored;
    slots = omega (arith, v.slots, length-set q.consumers i c);
    counted =
        omega
          (arith, active_count-set q.consumers i c (omega (arith, v.slots)), v.counted, counted);
    behind = λ j on. ground (arith, consumer-set i j c lt v, v.behind j, behind);
    near = λ j on. ground (arith, consumer-set i j c lt v, v.near j, near);
  }

active_count-replicate : (n : ℕ) → active_count (replicate n idle) ≡ 0
unfolding active_count
active_count-replicate zero = refl
active_count-replicate (suc n) = omega (arith, active_count-replicate n)

formatted-IsValid : (port_id capacity : ℕ) → 0 < capacity → IsValid (formatted port_id capacity)
unfolding formatted
formatted-IsValid port_id capacity room = record {
  room = room;
  stored = length-replicate capacity 0;
  slots = length-replicate max_consumers idle;
  counted = sym (active_count-replicate max_consumers);
  behind = λ i on. ground (arith, get_or-replicate max_consumers i idle);
  near = λ i on. ground (arith, get_or-replicate max_consumers i idle);
}

-- A queue that `create` makes, with a capacity above 0, is valid: its consumers are counted, and
-- none is ahead of the tail or more than the capacity behind it.
pub create-IsValid :
    (shm_open : ℕ → Bool) (header_size port_id capacity : ℕ) {q : Queue}
    → 0 < capacity
    → create shm_open header_size port_id capacity ≡ some q
    → IsValid q
unfolding create
create-IsValid shm_open h port_id capacity {q} room made =
    subst IsValid (ground arith) (formatted-IsValid port_id capacity room)
