-- ===== src/Window.antt =====
-- What stands between a read position and the write position of a ring of `cap` places: the ids of
-- port_queue.hpp and the elements of ring_queue.hpp. `d` is what a read out of bounds gives.
use mergeshare.Prelude.{
  ℕ, zero, suc, ◌+◌, ◌-◌, ◌%◌, ◌≤◌, ◌<◌, ◌≡◌, ◌≢◌, refl, ap, ap₂, sym, List, [], ◌∷◌, ◌++◌, arith,
  length, get_or, set, get_or-set_self, get_or-set_ne,
}

-- Positions less than `cap` apart have different places.
pub mod-ne_within : (a b cap : ℕ) → a < b → b < a + cap → a % cap ≢ b % cap
mod-ne_within a b cap lt near e = grind arith

pub place-lt : (t cap n : ℕ) → 0 < cap → cap ≤ n → t % cap < n
place-lt t cap n h room = omega arith

module _ {ℓ} {A : Type ℓ} where
  -- The `n` items from position `h` on.
  abbrev pub window : A → List A → ℕ → ℕ → ℕ → List A
  window d items cap h zero = []
  window d items cap h (suc n) = get_or items (h % cap) d ∷ window d items cap (h + 1) n

  pub length-window : (d : A) (items : List A) (cap h n : ℕ) → length (window d items cap h n) ≡ n
  length-window d items cap h zero = refl
  length-window d items cap h (suc n) = ap suc (length-window d items cap (h + 1) n)

  -- Writing at the end of a window that is not full extends it.
  pub window-set :
      (d : A) (items : List A) (cap h n : ℕ) (id : A) (t : ℕ)
      → 0 < cap
      → cap ≤ length items
      → n < cap
      → h + n ≡ t
      → window d (set items (t % cap) id) cap h (suc n) ≡ window d items cap h n ++ id ∷ []
  window-set d items cap h zero id t pos_cap room lt e =
      let same : h ≡ t = omega arith in
      rw same (
        ap (λ x. x ∷ [])
          (get_or-set_self items (t % cap) id d (place-lt t cap (length items) pos_cap room)))
  window-set d items cap h (suc n) id t pos_cap room lt e =
      ap₂ ◌∷◌
        (get_or-set_ne items (t % cap) (h % cap) id d
          (λ c. mod-ne_within h t cap (omega arith) (omega arith) (sym c)))
        (window-set d items cap (h + 1) n id t pos_cap room (omega arith) (omega arith))

  -- The first item of a window and the rest.
  pub window-cons :
      (d : A) (items : List A) (cap h n : ℕ)
      → 0 < n
      → window d items cap h n ≡ get_or items (h % cap) d ∷ window d items cap (h + 1) (n - 1)
  window-cons d items cap h zero lt = absurd (omega arith)
  window-cons d items cap h (suc n) lt =
      ap (λ k. get_or items (h % cap) d ∷ window d items cap (h + 1) k) (omega arith)
