-- ===== src/Config/PowerOfTwo.antt =====
-- `is_power_of_two` and `round_up_capacity_to_power_of_two` (config.hpp) against powers of two.
use mergeshare.Prelude.{
  ℕ, zero, suc, ◌-◌, ◌*◌, ◌/◌, ◌%◌, ◌^◌, ◌≤◌, ◌<◌, ◌≡◌, ◌≢◌, ◌↔◌, ◌⊎◌, inl, inr, refl, ap, ap₂, ◌∙◌,
  true, false, none, some, arith, ltb, ◌==◌, u64_mod, Bool-cases, ℕ_discrete,
}
use mergeshare.Config.{
  QueueConfig, bit_and, is_power_of_two, round_up, round_up_capacity_to_power_of_two,
}

pow_suc : (k : ℕ) → 2 ^ suc k ≡ 2 * 2 ^ k
pow_suc k = omega arith

pow_pos : (k : ℕ) → 0 < 2 ^ k
pow_pos zero = omega arith
pow_pos (suc k) = omega (arith, pow_suc k, pow_pos k)

bit_and_self : (w n : ℕ) → n < 2 ^ w → bit_and w n n ≡ 0 → n ≡ 0
unfolding bit_and
bit_and_self zero n hi e = omega arith
bit_and_self (suc w) n hi e = ground (arith, bit_and_self w (n / 2) (omega (arith, pow_suc w)))

-- `n & (n - 1)` on `w` bits is 0 exactly for the powers of two.
clears : (w n : ℕ) → 0 < n → n < 2 ^ w → bit_and w n (n - 1) ≡ 0 → (k : ℕ) × (k < w) × (n ≡ 2 ^ k)
unfolding bit_and
clears zero n lo hi e = absurd (omega arith)
clears (suc w) n lo hi e = elim (Bool-cases (n % 2 == 1)) [
  | inl odd ↦
      (0, omega arith, ground (arith, bit_and_self w (n / 2) (omega (arith, pow_suc w)), halves))
  | inr even ↦
      let (k, lt, at) =
        clears w (n / 2) (ground (arith, even)) (omega (arith, pow_suc w))
          (ground (arith, even, halves)) in
      (suc k, omega arith, ground (arith, pow_suc k, even))
]
  where
    halves : (bit_and w (n / 2) ((n - 1) / 2) ≡ 0)
    halves = ground arith

bit_and_zero : (w : ℕ) → bit_and w 0 0 ≡ 0
unfolding bit_and
bit_and_zero zero = refl
bit_and_zero (suc w) = omega (arith, bit_and_zero w)

cleared_by : (w k : ℕ) → k < w → bit_and w (2 ^ k) (2 ^ k - 1) ≡ 0
unfolding bit_and
cleared_by zero k lt = absurd (omega arith)
cleared_by (suc w) zero lt = omega (arith, bit_and_zero w)
cleared_by (suc w) (suc k) lt =
    ground (arith, pow_suc k, ap₂ (bit_and w) half half_less, cleared_by w k (omega arith))
  where
    half : 2 ^ suc k / 2 ≡ 2 ^ k
    half = omega (arith, pow_suc k)

    half_less : (2 ^ suc k - 1) / 2 ≡ 2 ^ k - 1
    half_less = omega (arith, pow_suc k, pow_pos k)

-- For a capacity below 2^64, `is_power_of_two` holds exactly if the capacity is a power of two.
pub is_power_of_two-lem :
    (c : QueueConfig)
    → c.capacity < u64_mod
    → (is_power_of_two c ≡ true) ↔ ((k : ℕ) × (k < 64) × (c.capacity ≡ 2 ^ k))
unfolding is_power_of_two
is_power_of_two-lem c fits = (
  λ e. clears 64 c.capacity (ground (arith, e)) (omega arith) (ground (arith, e)),
  λ (k, lt, at). rw at (ground (arith, pow_pos k, cleared_by 64 k lt)),
)

times_pow : (p k : ℕ) → p * 2 ^ suc k ≡ p * 2 * 2 ^ k
times_pow p k = grind (arith, pow_suc k)

le_times_pow : (p k : ℕ) → p ≤ p * 2 ^ k
le_times_pow p k = grind (arith, pow_pos k)

-- Within `k` doublings.
round_up-lem :
    (fuel k power capacity : ℕ)
    → k < fuel
    → capacity ≤ power * 2 ^ k
    → power * 2 ^ k < u64_mod
    → (j : ℕ) × (round_up fuel power capacity ≡ some (power * 2 ^ j))
      × (capacity ≤ power * 2 ^ j)
      × (j ≢ 0 → power * 2 ^ j < 2 * capacity)
unfolding round_up
round_up-lem zero k power capacity lt enough fits = absurd (omega arith)
round_up-lem (suc fuel) zero power capacity lt enough fits =
    (0, ground (arith, enough), omega (arith, enough), λ h. absurd (h refl))
round_up-lem (suc fuel) (suc k) power capacity lt enough fits =
    elim (Bool-cases (ltb power capacity)) [
      | inr done ↦ (0, ground (arith, done), ground (arith, done), λ h. absurd (h refl))
      | inl more ↦
          let (j, e, up, near) =
            round_up-lem fuel k (power * 2) capacity (omega arith)
              (omega (arith, enough, times_pow power k)) (omega (arith, fits, times_pow power k)) in
          (
            suc j,
            ground (arith, more, doubled, e, times_pow power j),
            omega (arith, up, times_pow power j),
            λ h. shorter j near more,
          )
    ]
  where
    doubled : power * 2 % u64_mod ≡ power * 2
    doubled = omega (arith, fits, times_pow power k, le_times_pow (power * 2) k)

    shorter :
        (j : ℕ)
        → (j ≢ 0 → power * 2 * 2 ^ j < 2 * capacity)
        → ltb power capacity ≡ true
        → power * 2 ^ suc j < 2 * capacity
    shorter zero near more = ground (arith, more)
    shorter (suc j) near more = omega (arith, near (λ e. cc), times_pow power (suc j))

pow_le : (j k : ℕ) → j ≤ k → 2 ^ j ≤ 2 ^ k
pow_le zero k le = omega (arith, pow_pos k)
pow_le (suc j) zero le = absurd (omega arith)
pow_le (suc j) (suc k) le = omega (arith, pow_suc j, pow_suc k, pow_le j k (omega arith))

-- For a capacity above 0 and up to 2^63, rounding up ends within 64 tests, with the least power of
-- two that is not below the capacity: one that is less than twice the capacity.
pub round_up_capacity-least :
    (c : QueueConfig)
    → 0 < c.capacity
    → c.capacity ≤ 2 ^ 63
    → (k : ℕ) × (round_up_capacity_to_power_of_two 64 c ≡ some (record c { capacity = 2 ^ k }))
      × (c.capacity ≤ 2 ^ k)
      × (2 ^ k < 2 * c.capacity)
unfolding round_up_capacity_to_power_of_two
round_up_capacity-least c lo hi = elim (Bool-cases (is_power_of_two c)) [
  | inl exact ↦
      let (k, lt, at) = (is_power_of_two-lem c (omega arith)).0 exact in
      (
        k,
        kept exact ∙ ap (λ n. some (record c { capacity = n })) at,
        omega (arith, at),
        omega (arith, at, lo),
      )
  | inr other ↦
      let (j, e, up, near) =
        round_up-lem 64 63 1 c.capacity (omega arith) (omega arith) (omega arith) in
      (
        j,
        raised other e ∙ ap (λ n. some (record c { capacity = n })) {y = 2 ^ j} (omega arith),
        omega (arith, up),
        below_twice j near,
      )
]
  where
    kept : is_power_of_two c ≡ true → round_up_capacity_to_power_of_two 64 c ≡ some c
    kept exact = ground (arith, exact)

    raised :
        {p : ℕ}
        → is_power_of_two c ≡ false
        → round_up 64 1 c.capacity ≡ some p
        → round_up_capacity_to_power_of_two 64 c ≡ some (record c { capacity = p })
    raised other e = ground (arith, other, e)

    below_twice : (j : ℕ) → (j ≢ 0 → 1 * 2 ^ j < 2 * c.capacity) → 2 ^ j < 2 * c.capacity
    below_twice zero near = omega (arith, lo)
    below_twice (suc j) near = omega (arith, near (λ e. cc))

-- A power of two, or what is left of one shifted out.
abbrev Doubled : ℕ → Type 0
Doubled power = (power ≡ 0) ⊎ ((j : ℕ) × (j < 64) × (power ≡ 2 ^ j))

round_up-none :
    (fuel power capacity : ℕ)
    → 2 ^ 63 < capacity
    → Doubled power
    → round_up fuel power capacity ≡ none
unfolding round_up
round_up-none zero power capacity big p = refl
round_up-none (suc fuel) power capacity big (inl e) =
    ground (arith, round_up-none fuel (power * 2 % u64_mod) capacity big (inl (omega arith)))
round_up-none (suc fuel) power capacity big (inr (j, lt, e)) = ground (
  arith,
  pow_le j 63 (omega arith),
  round_up-none fuel (power * 2 % u64_mod) capacity big (shifted (ℕ_discrete j 63)),
)
  where
    shifted : Dec (j ≡ 63) → Doubled (power * 2 % u64_mod)
    shifted (yes at) = inl (ground (arith, e, at))
    shifted (no below) =
        inr (suc j, omega arith, omega (arith, e, pow_suc j, pow_le (suc j) 63 (omega arith)))

-- For a capacity above 2^63, and below 2^64, the loop that rounds up goes on for ever: no number
-- of tests is enough.
pub round_up_capacity-endless :
    (c : QueueConfig) (fuel : ℕ)
    → 2 ^ 63 < c.capacity
    → c.capacity < u64_mod
    → round_up_capacity_to_power_of_two fuel c ≡ none
unfolding round_up_capacity_to_power_of_two
round_up_capacity-endless c fuel big fits = elim (Bool-cases (is_power_of_two c)) [
  | inl exact ↦
      let (k, lt, at) = (is_power_of_two-lem c fits).0 exact in
      absurd (omega (arith, pow_le k 63 (omega arith), at, big))
  | inr other ↦
      ground (arith, other, round_up-none fuel 1 c.capacity big (inr (0, omega arith, omega arith)))
]
