-- ===== src/RingQueue/Broadcast.antt =====
-- What a ring queue promises: each registered consumer has a FIFO of its own, `try_push` adds to all
-- of them, and `try_pop` takes from its consumer's.
use mergeshare.Prelude.{
  ℕ, suc, ◌+◌, ◌-◌, ◌%◌, ◌≤◌, ◌<◌, ◌≡◌, ◌≢◌, ◌⊎◌, sym, ap, subst, ◌∙◌, true, false, List, [], ◌∷◌,
  ◌++◌, Option, none, some, arith, length, get_or, set, length-set, get_or-set_self, get_or-set_ne,
  u64_mod, add64, Bool-cases, inl, inr, if◌then◌else◌, ℕ_discrete,
}
use mergeshare.Window.{window, window-set, mod-ne_within}
use mergeshare.Control.{Slot, slot, initialize_header, mark_valid, is_valid}
use mergeshare.RingQueue.State.{Element, Ring, Client, no_room}
use mergeshare.RingQueue.Push.{count_push, claim, try_push}
use mergeshare.RingQueue.Valid.{IsRing, extended, written, write_element-eq}

module _ {ℓ} {A : Type ℓ} where
  -- The elements that the consumer of a slot has still to read, oldest first.
  abbrev pub unread_from : ℕ → Element A → Ring A → Slot → Option (List (Element A))
  unread_from capacity blank r s =
      if s.active
      then some
          (window blank r.elements capacity s.read_offset (r.control.write_offset - s.read_offset))
      else none

  abbrev pub unread : ℕ → Element A → Ring A → ℕ → Option (List (Element A))
  unread capacity blank r i = unread_from capacity blank r (slot r.control.consumers i)

  abbrev pub append_one : Element A → Option (List (Element A)) → Option (List (Element A))
  append_one e none = none
  append_one e (some es) = some (es ++ e ∷ [])

  -- The specification's push: an element at the end of every FIFO there is.
  unfoldable pub view_push :
      Element A → (ℕ → Option (List (Element A))) → ℕ → Option (List (Element A))
  view_push e v i = append_one e (v i)

  pub try_push-eq :
      (c : Client) (size_of : ℕ) (x : A) (ts now : ℕ) (blank : Element A) (seen r : Ring A)
      → no_room c.config.capacity seen.control ≡ false
      → r.control.write_offset ≡ seen.control.write_offset
      → r.control.write_offset % c.config.capacity < length r.elements
      → try_push c size_of x ts now blank seen r
        ≡ (extended c.config.capacity size_of x ts now r, true)
  unfolding try_push claim
  try_push-eq c size_of x ts now blank seen r space same lt =
      rw (space, try_push)
        (rw (claimed, try_push)
          (ap (λ u. (u, true))
            (write_element-eq c.config.capacity size_of seen.control.write_offset x ts now blank
                (record r {
                  control = record r.control { write_offset = add64 seen.control.write_offset 1 };
                })
                (subst (λ w. w % c.config.capacity < length r.elements) same lt)
              ∙ ap
                  (λ w. count_push now (record r {
                    control = record r.control { write_offset = add64 w 1 };
                    elements = set r.elements (w % c.config.capacity) (written size_of w ts x);
                  }))
                  (sym same))))
    where
      claimed :
          claim seen.control.write_offset r
          ≡ some (record r {
            control = record r.control { write_offset = add64 seen.control.write_offset 1 };
          })
      claimed = ground (arith, same)

  pub try_push-refused :
      (c : Client) (size_of : ℕ) (x : A) (ts now : ℕ) (blank : Element A) (seen r : Ring A)
      → (no_room c.config.capacity seen.control ≡ true)
        ⊎ (r.control.write_offset ≢ seen.control.write_offset)
      → try_push c size_of x ts now blank seen r ≡ (r, false)
  unfolding try_push claim
  try_push-refused c size_of x ts now blank seen r why = ground arith

module _ {ℓ} {A : Type ℓ} (capacity size_of ts now : ℕ) (x : A) (blank : Element A) (r : Ring A)
    (v : IsRing capacity blank r) (small : r.control.write_offset + capacity < u64_mod)
    (near : (i : ℕ)
      → (slot r.control.consumers i).active ≡ true
      → r.control.write_offset < (slot r.control.consumers i).read_offset + capacity) where
  pub extended-unread_from :
      (s : Slot)
      → (s.active ≡ true → s.read_offset ≤ r.control.write_offset)
      → (s.active ≡ true → r.control.write_offset < s.read_offset + capacity)
      → unread_from capacity blank (extended capacity size_of x ts now r) s
        ≡ append_one (written size_of r.control.write_offset ts x) (unread_from capacity blank r s)
  unfolding count_push
  extended-unread_from s behind close_by = elim (Bool-cases s.active) [
    | inr off ↦ ground (arith, off)
    | inl on ↦ ground (arith, on, wider (behind on) (close_by on))
  ]
    where
      wider :
          s.read_offset ≤ r.control.write_offset
          → r.control.write_offset < s.read_offset + capacity
          → window blank
              (set r.elements
                (r.control.write_offset % capacity)
                (written size_of r.control.write_offset ts x))
              capacity
              s.read_offset
              (add64 r.control.write_offset 1 - s.read_offset)
            ≡ window blank r.elements capacity s.read_offset
                (r.control.write_offset - s.read_offset)
              ++ written size_of r.control.write_offset ts x ∷ []
      wider le lt =
          ap
            (window blank
              (set r.elements (r.control.write_offset % capacity)
                (written size_of r.control.write_offset ts x))
              capacity s.read_offset)
            {y = suc (r.control.write_offset - s.read_offset)} (omega (arith, v.room))
          ∙ window-set blank r.elements capacity s.read_offset
              (r.control.write_offset - s.read_offset) (written size_of r.control.write_offset ts x)
              r.control.write_offset v.room (omega (arith, v.stored)) (omega (arith, lt, le))
              (omega (arith, le))

  pub extended-IsRing : IsRing capacity blank (extended capacity size_of x ts now r)
  unfolding count_push is_valid mark_valid initialize_header
  extended-IsRing = record {
    room = v.room;
    stored =
        length-set r.elements (r.control.write_offset % capacity)
          (written size_of r.control.write_offset ts x)
        ∙ v.stored;
    slots = v.slots;
    behind = λ i on. omega (arith, v.behind i on, v.room);
    near = λ i on. omega (arith, near i on, v.room);
    finished = λ i n on from upto. done i n on from (omega (arith, upto, v.room));
  }
    where
      e : Element A
      e = written size_of r.control.write_offset ts x

      done :
          (i n : ℕ)
          → (slot r.control.consumers i).active ≡ true
          → (slot r.control.consumers i).read_offset ≤ n
          → n < suc r.control.write_offset
          → is_valid
              (get_or
                (set r.elements (r.control.write_offset % capacity) e)
                (n % capacity)
                blank).header
            ≡ true
      done i n on from upto = elim (ℕ_discrete r.control.write_offset n) [
        | yes at ↦
            subst
              (λ k.
                is_valid
                  (get_or (set r.elements (r.control.write_offset % capacity) e) (k % capacity)
                    blank).header
                ≡ true)
              at
              (ap (λ y. is_valid y.header)
                (get_or-set_self r.elements (r.control.write_offset % capacity) e blank
                  (omega (arith, v.stored, v.room))))
        | no other ↦
            ap (λ y. is_valid y.header)
              (get_or-set_ne r.elements (r.control.write_offset % capacity) (n % capacity) e blank
                (λ c.
                  mod-ne_within n r.control.write_offset capacity (omega arith)
                    (omega (arith, near i on)) (sym c)))
            ∙ v.finished i n on from (omega arith)
      ]
