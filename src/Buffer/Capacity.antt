-- ===== src/Buffer/Capacity.antt =====
-- How far a buffer grows and shrinks.
use native.Mathlib.Nat.{pow-suc, pow-le-pow_right}
use cxx_conet.Prelude.{
  ℕ, zero, suc, ◌*◌, ◌/◌, ◌^◌, ◌≤◌, ◌<◌, max, ◌≡◌, ap, ◌∙◌, inl, inr, Bool-cases, true, false, ltb,
  ◌==◌, ==_iff, arith, pos,
}
use cxx_conet.Buffer.{max_value, normalize_capacity, shrink_loop, shrink_capacity}

-- What EInteger::highestOneBit promises of a positive int: the largest power of two not above it.
pub record HighestOneBit (f : ℕ → ℕ) : Type 0 where
  pub exponent : ℕ → ℕ
  pub power : (n : ℕ) → 0 < n → n < 2 ^ 31 → f n ≡ 2 ^ exponent n
  pub below : (n : ℕ) → 0 < n → n < 2 ^ 31 → f n ≤ n
  pub above : (n : ℕ) → 0 < n → n < 2 ^ 31 → n < f n * 2

-- A power of two that is wanted: not below `n`, and with its half below `n`.
pub record LeastPower (n m : ℕ) : Type 0 where
  pub exponent : ℕ
  pub power : m ≡ 2 ^ exponent
  pub enough : n ≤ m
  pub least : m < n * 2

half_power : (k n : ℕ) → n < 2 ^ suc k → n / 2 < 2 ^ k
half_power k n lt = omega (arith, pow-suc 2 k)

two_positive : 0 < 2
two_positive = omega arith

-- the one power of two between 2 ^ 29 and 2 ^ 31
middle_power : (e : ℕ) → 2 ^ 29 < 2 ^ e → 2 ^ e < 2 ^ 31 → 2 ^ e ≡ 2 ^ 30
middle_power e low high = elim (Bool-cases (ltb e 30)) [
  | inl below ↦
      let small : e ≤ 29 = ground arith in
      let no = pow-le-pow_right two_positive small in absurd (omega (arith, no))
  | inr on ↦ elim (Bool-cases (e == 30)) [
    | inl hit ↦ ap (λ (k : ℕ). 2 ^ k) ((==_iff e 30).0 hit)
    | inr miss ↦
        let large : 31 ≤ e = ground arith in
        let no = pow-le-pow_right two_positive large in absurd (omega (arith, no))
  ]
]

less_lem : {m n : ℕ} → ltb m n ≡ true → m < n
less_lem h = ground arith

not_less_lem : {m n : ℕ} → ltb m n ≡ false → n ≤ m
not_less_lem h = ground arith

pub normalize_capacity-LeastPower :
    (f : ℕ → ℕ)
    → HighestOneBit f
    → (n : ℕ) → 0 < n
    → n < 2 ^ 31
    → (n ≤ 2 ^ 30 → LeastPower n (normalize_capacity f (pos n)))
      × (2 ^ 30 < n → normalize_capacity f (pos n) ≡ max_value)
unfolding normalize_capacity
normalize_capacity-LeastPower f high n h b = (
  λ small. elim (Bool-cases (ltb (f n) n)) [
    | inl less ↦
        let doubled : normalize_capacity f (pos n) ≡ f n * 2 = ground (arith, high.below n h b) in
        record {
          exponent = suc (high.exponent n);
          power = doubled ∙ omega (arith, high.power n h b, pow-suc 2 (high.exponent n));
          enough = omega (arith, doubled, high.above n h b);
          least = omega (arith, doubled, less_lem less);
        }
    | inr same ↦
        let kept : normalize_capacity f (pos n) ≡ f n = ground (arith, high.below n h b) in
        record {
          exponent = high.exponent n;
          power = kept ∙ high.power n h b;
          enough = omega (arith, kept, not_less_lem same);
          least = omega (arith, kept, high.below n h b);
        }
  ],
  λ large.
      let power = high.power n h b in
      let at_top : f n ≡ 2 ^ 30 =
        power
        ∙ middle_power (high.exponent n) (omega (arith, power, high.above n h b))
            (omega (arith, power, high.below n h b)) in
      rw at_top (ground arith),
)

shrink_loop-between :
    (fuel min new : ℕ)
    → 0 < min
    → min ≤ new
    → new < 2 ^ fuel
    → (min ≤ shrink_loop fuel min new)
      × (shrink_loop fuel min new ≤ new)
      × (shrink_loop fuel min new < min * 2)
unfolding shrink_loop
shrink_loop-between zero min new p le lt = absurd (omega arith)
shrink_loop-between (suc fuel) min new p le lt = elim (Bool-cases (ltb (new / 2) min)) [
  | inl stop ↦ rw stop (le, omega arith, ground arith)
  | inr on ↦
      let nonzero : (min == 0) ≡ false = ground arith in
      let rest = shrink_loop-between fuel min (new / 2) p (ground arith) (half_power fuel new lt) in
      rw (on, nonzero) (rest.0, omega (arith, rest.1), rest.2)
]

-- Shrinking with a positive minimum or limit keeps room for both, never grows the buffer, and leaves
-- less than twice what is needed, if the buffer was large enough for both.
pub shrink_capacity-bounds :
    (minimum_capacity limit capacity : ℕ)
    → 0 < max minimum_capacity limit
    → max minimum_capacity limit ≤ capacity
    → capacity < 2 ^ 31
    → let c = shrink_capacity minimum_capacity limit capacity in
      (minimum_capacity ≤ c) × (limit ≤ c) × (c ≤ capacity) × (c < max minimum_capacity limit * 2)
unfolding shrink_capacity
shrink_capacity-bounds minimum_capacity limit capacity p le lt =
    elim (Bool-cases (capacity == limit)) [
      | inl full ↦ rw full (omega arith, ground arith, omega arith, ground arith)
      | inr slack ↦
          let r = shrink_loop-between 32 (max minimum_capacity limit) capacity p le (omega arith) in
          rw slack (omega arith, omega arith, omega (arith, r.1), omega (arith, r.2))
    ]
