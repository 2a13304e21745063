-- ===== src/Prelude/Dict.antt =====
-- Dictionaries as association lists, and texts as lists of bytes.
use Prim.Native.Nat.{ℕ}
use mathlib.Core.Path.{◌≡◌, refl, ap₂}
use mathlib.Core.Logic.{◌↔◌}
use mathlib.Core.Bool.{Bool, true, false, ◌&&◌}
use mathlib.Core.Option.{Option, none, some}
use mathlib.Core.List.{List, [], ◌∷◌}
use native.Mathlib.Omega.{arith}
use mergeshare.Prelude.Tests.{◌==◌, if◌then◌else◌, ==_iff}

-- A test of equality and what it means.
pub record Keyed (K : Type 0) : Type 0 where
  pub same : K → K → Bool
  pub same_iff : (j k : K) → (same j k ≡ true) ↔ (j ≡ k)

abbrev pub nat_keys : Keyed ℕ
nat_keys = record { same = λ a b. a == b; same_iff = ==_iff }

abbrev pub text_eq : List ℕ → List ℕ → Bool
text_eq [] [] = true
text_eq [] (y ∷ ys) = false
text_eq (x ∷ xs) [] = false
text_eq (x ∷ xs) (y ∷ ys) = (x == y) && text_eq xs ys

pub text_eq_iff : (xs ys : List ℕ) → (text_eq xs ys ≡ true) ↔ (xs ≡ ys)
text_eq_iff [] [] = ((λ e. refl), λ e. refl)
text_eq_iff [] (y ∷ ys) = ((λ e. cc), λ e. cc)
text_eq_iff (x ∷ xs) [] = ((λ e. cc), λ e. cc)
text_eq_iff (x ∷ xs) (y ∷ ys) = (
  (λ e. ap₂ ◌∷◌ (ground (arith, e)) ((text_eq_iff xs ys).0 (ground (arith, e)))),
  λ e. ground (arith, (text_eq_iff xs ys).1 (cc (e)), e),
)

abbrev pub text_keys : Keyed (List ℕ)
text_keys = record { same = text_eq; same_iff = text_eq_iff }

module _ {K V : Type 0} (d : Keyed K) where
  abbrev pub lookup : K → List (K × V) → Option V
  lookup k [] = none
  lookup k ((j, v) ∷ m) = if d.same j k then some v else lookup k m

  -- The value of a key, put in or replaced.
  abbrev pub insert : K → V → List (K × V) → List (K × V)
  insert k v [] = (k, v) ∷ []
  insert k v ((j, w) ∷ m) = if d.same j k then (k, v) ∷ m else (j, w) ∷ insert k v m

  abbrev pub erase : K → List (K × V) → List (K × V)
  erase k [] = []
  erase k ((j, w) ∷ m) = if d.same j k then erase k m else (j, w) ∷ erase k m

  pub lookup-insert :
      (k j : K) (v : V) (m : List (K × V))
      → lookup j (insert k v m) ≡ (if d.same k j then some v else lookup j m)
  lookup-insert k j v [] = refl
  lookup-insert k j v ((i, w) ∷ m) =
      ground (arith, d.same_iff k j, d.same_iff i k, d.same_iff i j, lookup-insert k j v m)

  pub lookup-erase :
      (k j : K) (m : List (K × V))
      → lookup j (erase k m) ≡ (if d.same k j then none else lookup j m)
  lookup-erase k j [] = ground arith
  lookup-erase k j ((i, w) ∷ m) =
      ground (arith, d.same_iff k j, d.same_iff i k, d.same_iff i j, lookup-erase k j m)
