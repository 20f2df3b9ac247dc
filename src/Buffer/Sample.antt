-- ===== src/Buffer/Sample.antt =====
-- A function with the promise of EInteger::highestOneBit, for the examples.
use native.Mathlib.Nat.{pow-suc}
use cxx_conet.Prelude.{
  ℕ, zero, suc, ◌*◌, ◌^◌, ◌≤◌, ◌<◌, refl, Bool-cases, inl, inr, leb, arith, if◌then◌else◌,
}
use cxx_conet.Buffer.Capacity.{HighestOneBit}

-- the exponent of the highest bit at or below bit k
abbrev pub top_bit : ℕ → ℕ → ℕ
top_bit zero n = zero
top_bit (suc k) n = if leb (2 ^ suc k) n then suc k else top_bit k n

top_bit-around :
    (k n : ℕ) → 0 < n → n < 2 ^ suc k → (2 ^ top_bit k n ≤ n) × (n < 2 ^ top_bit k n * 2)
top_bit-around zero n p lt = (omega arith, omega arith)
top_bit-around (suc k) n p lt = elim (Bool-cases (leb (2 ^ suc k) n)) [
  | inl high ↦ rw high (ground arith, omega (arith, pow-suc 2 (suc k)))
  | inr low ↦ rw low (top_bit-around k n p (ground arith))
]

abbrev pub highest_one_bit : ℕ → ℕ
highest_one_bit n = 2 ^ top_bit 30 n

pub highest_one_bit-HighestOneBit : HighestOneBit highest_one_bit
highest_one_bit-HighestOneBit = record {
  exponent = top_bit 30;
  power = λ n p lt. refl;
  below = λ n p lt. (top_bit-around 30 n p lt).0;
  above = λ n p lt. (top_bit-around 30 n p lt).1;
}
