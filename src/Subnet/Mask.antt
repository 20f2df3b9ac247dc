-- ===== src/Subnet/Mask.antt =====
-- What `&` with a mask of high ones does.
use Prim.Native.Nat.{bit_and, digits, bit_and-bitwise}
use cxx_conet.Prelude.{
  ℕ, zero, suc, ◌+◌, ◌-◌, ◌*◌, ◌/◌, ◌%◌, ◌^◌, ◌≤◌, ◌<◌, ◌≡◌, refl, ◌∙◌, min, arith,
}
use native.Mathlib.Nat.{pow-suc, mul-add-mod_self_left, mod-eq_of_lt, mod-lt, div-add-mod}

-- the bitwise minimum, computed in at most `f` rounds
abbrev meet : ℕ → ℕ → ℕ → ℕ
meet f a b = digits (λ _. zero) min f a b

meet-nothing : (f g b : ℕ) → meet f zero b ≡ meet g zero b
meet-nothing zero zero b = refl
meet-nothing zero (suc g) b = refl
meet-nothing (suc f) zero b = refl
meet-nothing (suc f) (suc g) b = refl

-- Rounds beyond the size of `a` change nothing.
meet-rounds : (f g a b : ℕ) → a ≤ f → a ≤ g → meet f a b ≡ meet g a b
meet-rounds f g zero b p q = meet-nothing f g b
meet-rounds zero g (suc a) b p q = absurd (omega arith)
meet-rounds (suc f) zero (suc a) b p q = absurd (omega arith)
meet-rounds (suc f) (suc g) (suc a) b p q =
    omega (arith, meet-rounds f g (suc a / 2) (b / 2) (omega arith) (omega arith))

-- `&` digit by digit.
bit_and-halves : (a b : ℕ) → bit_and a b ≡ bit_and (a / 2) (b / 2) * 2 + min (a % 2) (b % 2)
bit_and-halves zero b = omega (arith, bit_and-bitwise 0 b, bit_and-bitwise 0 (b / 2))
bit_and-halves (suc a) b = omega (
  arith,
  meet-rounds a (suc a / 2) (suc a / 2) (b / 2) (omega arith) (omega arith),
  bit_and-bitwise (suc a) b,
  bit_and-bitwise (suc a / 2) (b / 2),
)

pub pow_pos : (n : ℕ) → 0 < 2 ^ n
pow_pos zero = omega arith
pow_pos (suc n) = omega (arith, pow_pos n, pow-suc 2 n)

bit_and-all_ones : (n a : ℕ) → a < 2 ^ n → bit_and a (2 ^ n - 1) ≡ a
bit_and-all_ones zero zero h = refl
bit_and-all_ones zero (suc a) h = absurd (omega arith)
bit_and-all_ones (suc n) a h =
    let half : (2 ^ suc n - 1) / 2 ≡ 2 ^ n - 1 = omega (arith, pow-suc 2 n, pow_pos n) in
    rw (bit_and-halves a (2 ^ suc n - 1), half)
      (omega
        (arith, pow-suc 2 n, pow_pos n, bit_and-all_ones n (a / 2) (omega (arith, pow-suc 2 n))))

-- the remainder of 2 (p c + d) + r, digit by digit
mod-sum : (p c d r : ℕ) → d < p → r < 2 → (2 * (p * c + d) + r) % (2 * p) ≡ 2 * d + r
mod-sum p c d r hd hr =
    let regroup : 2 * (p * c + d) + r ≡ 2 * p * c + (2 * d + r) = omega arith in
    rw regroup (mul-add-mod_self_left (2 * p) c (2 * d + r) ∙ mod-eq_of_lt (omega arith))

mod-double : (a p : ℕ) → 0 < p → a % (2 * p) ≡ 2 * (a / 2 % p) + a % 2
mod-double a p h =
    let whole : 2 * (p * (a / 2 / p) + a / 2 % p) + a % 2 ≡ a =
      omega (arith, div-add-mod (a / 2) p) in
    (rw whole at (mod-sum p (a / 2 / p) (a / 2 % p) (a % 2) (mod-lt (a / 2) h) (omega arith)))

-- With the `k` low bits of a word of `n` bits masked off, `a` loses its remainder.
pub bit_and-high_ones : (n k a : ℕ) → k ≤ n → a < 2 ^ n → bit_and a (2 ^ n - 2 ^ k) ≡ a - a % 2 ^ k
bit_and-high_ones n zero a le h = omega (arith, bit_and-all_ones n a h)
bit_and-high_ones zero (suc k) a le h = absurd (omega arith)
bit_and-high_ones (suc n) (suc k) a le h =
    let half : (2 ^ suc n - 2 ^ suc k) / 2 ≡ 2 ^ n - 2 ^ k =
      omega (arith, pow-suc 2 n, pow-suc 2 k) in
    let twice : 2 ^ suc k ≡ 2 * 2 ^ k = omega (arith, pow-suc 2 k) in
    rw (bit_and-halves a (2 ^ suc n - 2 ^ suc k), half, twice, mod-double a (2 ^ k) (pow_pos k))
      (omega (
        arith,
        pow-suc 2 n,
        mod-lt (a / 2) (pow_pos k),
        bit_and-high_ones n k (a / 2) (omega arith) (omega (arith, pow-suc 2 n)),
      ))
