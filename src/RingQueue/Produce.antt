-- ===== src/RingQueue/Produce.antt =====
-- `try_push` (ring_queue.hpp) against the FIFOs of the consumers.
use mergeshare.Prelude.{
  ℕ, ◌+◌, ◌<◌, ◌≡◌, refl, sym, fun_ext, Bool, true, false, not, ◌&&◌, arith, u64_mod, Bool-cases,
  inl, inr, ◌==◌,
}
use mergeshare.Control.{slot}
use mergeshare.Control
use mergeshare.RingQueue.State.{Element, Ring, Client, no_room}
use mergeshare.RingQueue.Push.{count_push, try_push, claim}
use mergeshare.RingQueue.Open.{close}
use mergeshare.RingQueue.Valid.{IsRing, Later, written, room-near}
use mergeshare.RingQueue.Broadcast.{
  unread, view_push, try_push-eq, try_push-refused, extended-IsRing, extended-unread_from,
}

module _ {A : Type 0} where
  -- What a push may do between its loads, where it saw the ring `seen`, and its exchange at `r`.
  pub record Pushes (capacity : ℕ) (blank e : Element A) (seen r r' : Ring A) (ok : Bool)
      : Type 0 where
    pub decided : ok ≡ (
        not (no_room capacity seen.control)
        && (r.control.write_offset == seen.control.write_offset))
    pub valid : IsRing capacity blank r'
    pub added : ok ≡ true → unread capacity blank r' ≡ view_push e (unread capacity blank r)
    pub unchanged : ok ≡ false → r' ≡ r

  pub try_push-Pushes :
      (c : Client) (size_of : ℕ) (x : A) (ts now : ℕ) (blank : Element A) (seen r : Ring A)
      → IsRing c.config.capacity blank seen
      → IsRing c.config.capacity blank r
      → Later seen r
      → r.control.write_offset + c.config.capacity < u64_mod
      → let (r', ok) = try_push c size_of x ts now blank seen r in
        Pushes c.config.capacity blank (written size_of r.control.write_offset ts x) seen r r' ok
  unfolding view_push count_push
  try_push-Pushes c size_of x ts now blank seen r before v later small =
      elim (Bool-cases (
        not (no_room c.config.capacity seen.control)
        && (r.control.write_offset == seen.control.write_offset))) [
          | inr refused ↦
              rw (try_push-refused c size_of x ts now blank seen r (ground (arith, refused)))
                (record {
                  decided = sym refused;
                  valid = v;
                  added = λ yes_. cc;
                  unchanged = λ _. refl;
                })
          | inl taken ↦
              rw
                (try_push-eq c size_of x ts now blank seen r (ground (arith, taken))
                  (ground (arith, taken)) (omega (arith, v.stored, v.room)))
                (record {
                  decided = sym taken;
                  valid =
                      extended-IsRing c.config.capacity size_of ts now x blank r v small
                        (close_by taken);
                  added = λ _. fun_ext λ i.
                      extended-unread_from c.config.capacity size_of ts now x blank r v small
                        (close_by taken) (slot r.control.consumers i) (v.behind i)
                        (close_by taken i);
                  unchanged = λ no_. cc;
                })
        ]
    where
      close_by :
          (not (no_room c.config.capacity seen.control)
              && (r.control.write_offset == seen.control.write_offset))
            ≡ true
          → (i : ℕ) → (slot r.control.consumers i).active ≡ true
          → r.control.write_offset < (slot r.control.consumers i).read_offset + c.config.capacity
      close_by taken i on =
          room-near c.config.capacity blank seen r before v later (ground (arith, taken)) small i
            (ground (arith, taken)) on

  -- Closing the queue does not stop a push: `try_push` says the same of a closed queue.
  pub close-try_push :
      (c : Client) (size_of : ℕ) (x : A) (ts now : ℕ) (blank : Element A) (seen r : Ring A)
      → (try_push c size_of x ts now blank (close seen) (close r)).1
        ≡ (try_push c size_of x ts now blank seen r).1
  unfolding try_push close claim Control.close
  close-try_push c size_of x ts now blank seen r = ground arith
