-- ===== src/PortQueue/Broadcast.antt =====
-- What the queue promises: each consumer has a FIFO of its own, and a push goes to all of them.
use mergeshare.Prelude.{
  ℕ, suc, ◌+◌, ◌-◌, ◌%◌, ◌≤◌, ◌<◌, ◌≡◌, inl, inr, ap, ◌∙◌, fun_ext, true, false, List, [], ◌∷◌,
  ◌++◌, Option, none, some, arith, get_or, ◌==◌, if◌then◌else◌, u64_mod, add64, Bool-cases,
}
use mergeshare.PortQueue.{Consumer, Queue, consumer, max_consumers, is_full, write_item}
use mergeshare.Window.{window, window-set, window-cons}
use mergeshare.PortQueue.Valid.{IsValid, consumer-set, not_full-near}
use mergeshare.PortQueue.Methods.{joined, advanced, Readable}

-- The ids that the consumer in slot `i` has still to read, oldest first; `none` for an idle slot.
abbrev pub unread_from : Queue → Consumer → Option (List ℕ)
unread_from q c =
    if c.active then some (window 0 q.items q.capacity c.head (q.tail - c.head)) else none

abbrev pub unread : Queue → ℕ → Option (List ℕ)
unread q i = unread_from q (consumer q i)

abbrev pub append_one : ℕ → Option (List ℕ) → Option (List ℕ)
append_one id none = none
append_one id (some ids) = some (ids ++ id ∷ [])

-- The specification's moves on the slots' FIFOs.
unfoldable pub view_push : ℕ → (ℕ → Option (List ℕ)) → ℕ → Option (List ℕ)
view_push id v i = append_one id (v i)

unfoldable pub view_put : ℕ → Option (List ℕ) → (ℕ → Option (List ℕ)) → ℕ → Option (List ℕ)
view_put j fifo v i = if j == i then fifo else v i

extended :
    {q : Queue} (id h : ℕ)
    → q.tail + q.capacity < u64_mod
    → q.tail < h + q.capacity
    → h ≤ q.tail
    → IsValid q
    → window 0 (write_item q id).items q.capacity h (add64 q.tail 1 - h)
      ≡ window 0 q.items q.capacity h (q.tail - h) ++ id ∷ []
extended {q} id h small near behind v =
    ap (window 0 (write_item q id).items q.capacity h) grown
    ∙ window-set 0 q.items q.capacity h (q.tail - h) id q.tail v.room (omega (arith, v.stored))
        (omega arith) (omega arith)
  where
    grown : add64 q.tail 1 - h ≡ suc (q.tail - h)
    grown = omega (arith, v.room)

write_item-unread_from :
    {q : Queue} (id : ℕ) (c : Consumer)
    → q.tail + q.capacity < u64_mod
    → (c.active ≡ true → q.tail < c.head + q.capacity)
    → (c.active ≡ true → c.head ≤ q.tail)
    → IsValid q
    → unread_from (write_item q id) c ≡ append_one id (unread_from q c)
write_item-unread_from {q} id c small near behind v = elim (Bool-cases c.active) [
  | inl on ↦ ground (arith, on, extended id c.head small (near on) (behind on) v)
  | inr off ↦ ground (arith, off)
]

-- `push` adds the id at the end of every active consumer's FIFO.
pub write_item-unread :
    {q : Queue} (id : ℕ)
    → q.tail + q.capacity < u64_mod
    → is_full q ≡ false
    → IsValid q
    → unread (write_item q id) ≡ view_push id (unread q)
unfolding view_push
write_item-unread {q} id small space v = fun_ext λ i.
    write_item-unread_from id (consumer q i) small (not_full-near i small v space) (v.behind i) v

-- `register_consumer` gives a slot that was idle, with an empty FIFO, or -1 as an unsigned number,
-- and then no slot changes.
pub joined-unread :
    {q : Queue} (j : ℕ)
    → j < max_consumers
    → IsValid q
    → unread (joined q j) ≡ view_put j (some []) (unread q)
unfolding view_put
joined-unread {q} j lt v =
    fun_ext λ i.
      ground (arith, consumer-set j i (record { head = q.tail; active = true }) lt v, no_window)
  where
    no_window : window 0 q.items q.capacity q.tail (q.tail - q.tail) ≡ []
    no_window = ap (window 0 q.items q.capacity q.tail) {y = 0} (omega arith)

-- `pop` takes the first id of its consumer's FIFO, and leaves every other FIFO as it is.
pub advanced-unread :
    {q : Queue} (i : ℕ)
    → q.tail + q.capacity < u64_mod
    → Readable q i
    → IsValid q
    → let h = (consumer q i).head in
      (unread q i
        ≡ some (
            get_or q.items (h % q.capacity) 0
            ∷ window 0 q.items q.capacity (h + 1) (q.tail - h - 1)))
      × (unread (advanced q i)
          ≡ view_put i (some (window 0 q.items q.capacity (h + 1) (q.tail - h - 1))) (unread q))
unfolding view_put
advanced-unread {q} i small (lt, on, behind) v = (
  rw on (ap some (window-cons 0 q.items q.capacity h (q.tail - h) (omega arith))),
  fun_ext others,
)
  where
    h : ℕ
    h = (consumer q i).head

    next : add64 h 1 ≡ h + 1
    next = omega arith

    left :
        window 0 q.items q.capacity (h + 1) (q.tail - (h + 1))
        ≡ window 0 q.items q.capacity (h + 1) (q.tail - h - 1)
    left = ap (window 0 q.items q.capacity (h + 1)) (omega arith)

    others :
        (k : ℕ)
        → unread (advanced q i) k ≡ (
            if i == k
            then some (window 0 q.items q.capacity (h + 1) (q.tail - h - 1))
            else unread q k)
    others k =
        ground
          (arith, consumer-set i k (record (consumer q i) { head = add64 h 1 }) lt v, next, left)
