-- ===== src/RingQueue/Race.antt =====
-- A consumer of ring_queue.hpp between a producer's exchange and its `write_element`.
use mergeshare.Prelude.{
  ℕ, ◌+◌, ◌%◌, ◌<◌, ◌≡◌, ap, sym, subst, ◌∙◌, true, some, arith, get_or, u64_mod, add64,
}
use mergeshare.Control.{is_valid}
use mergeshare.RingQueue.State.{Element, Ring, Client, own_slot}
use mergeshare.RingQueue.Push.{claim}
use mergeshare.RingQueue.Pop.{try_pop}
use mergeshare.RingQueue.Consume.{IsConsumer, consumed, read_out, try_pop-reads}

module _ {A : Type 0} where
  -- A consumer that has read all there was, and a producer that has just taken the next offset and
  -- has written nothing yet: where the place of that offset still holds a valid element, of one
  -- lap ago, `try_pop` returns that element and moves past the offset.
  pub claim-try_pop :
      (c : Client) (now : ℕ) (blank : Element A) (r r' : Ring A)
      → IsConsumer c r
      → (own_slot c r.control).read_offset ≡ r.control.write_offset
      → r.control.write_offset + 1 < u64_mod
      → let e = get_or r.elements (r.control.write_offset % c.config.capacity) blank in
        is_valid e.header ≡ true
        → claim r.control.write_offset r ≡ some r'
        → try_pop c now blank r' ≡ some (consumed c now r', some (read_out c e))
  unfolding claim
  claim-try_pop c now blank r r' (reg, on, lt) drained small stale claimed =
      subst (λ q. try_pop c now blank q ≡ some (consumed c now q, some (read_out c e))) (sym moved)
        (try_pop-reads c now blank after reg (omega (arith, drained)) (
            subst (λ n. is_valid (get_or r.elements (n % c.config.capacity) blank).header ≡ true)
              (sym drained) stale)
          ∙ ap
              (λ n. some (
                consumed c now after,
                some (read_out c (get_or r.elements (n % c.config.capacity) blank)),
              ))
              drained)
    where
      e : Element A
      e = get_or r.elements (r.control.write_offset % c.config.capacity) blank

      after : Ring A
      after = record r {
        control = record r.control { write_offset = add64 r.control.write_offset 1 };
      }

      moved : r' ≡ after
      moved = ground (arith, claimed)
