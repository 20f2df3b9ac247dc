-- ===== src/Subnet/Members.antt =====
-- The addresses that a subnet holds, and when two subnets are equal.
use cxx_conet.Prelude.{
  refl, true, refl, ℕ, zero, suc, ◌-◌, ◌*◌, ◌/◌, ◌%◌, ◌^◌, ◌≤◌, ◌<◌, ◌≡◌, ◌∙◌, sym, ap, ==_iff,
  Bool, ◌||◌, ◌&&◌, some, ◌==◌, pos, arith, Bool-cases, inl, inr,
}
use cxx_conet.Prelude.Exec.{ok}
use native.Mathlib.Nat.{div-add-mod, mul-mod_right, mul-div_right}
use cxx_conet.Subnet.{Inet, Subnet, new_subnet, in_subnet, equals}
use cxx_conet.Subnet.Mask.{pow_pos, bit_and-high_ones}

-- `a` and `n` agree in their `m` high bits of 32, and `n` has no other bits
unfoldable pub in_cidr : ℕ → ℕ → ℕ → Bool
in_cidr n m a = (a / 2 ^ (32 - m) == n / 2 ^ (32 - m)) && (n % 2 ^ (32 - m) == 0)

clear_low-quotient : (a n p : ℕ) → 0 < p → a - a % p ≡ n → (n / p ≡ a / p) × (n % p ≡ 0)
clear_low-quotient a n p h e =
    let multiple : n ≡ p * (a / p) = omega (arith, div-add-mod a p) in
    rw multiple (mul-div_right (a / p) h, mul-mod_right p (a / p))

clear_low-multiple : (a n p : ℕ) → a / p ≡ n / p → n % p ≡ 0 → a - a % p ≡ n
clear_low-multiple a n p q r =
    omega (arith, div-add-mod a p, div-add-mod n p, ap (λ (t : ℕ). p * t) q)

-- clearing the low bits of `a` gives `n` exactly when the high bits agree
clear_low : (a n p : ℕ) → 0 < p → (a - a % p == n) ≡ ((a / p == n / p) && (n % p == 0))
clear_low a n p h = elim (Bool-cases (a - a % p == n)) [
  | inl e ↦
      let parts = clear_low-quotient a n p h ((==_iff _ _).0 e) in
      rw (e, (==_iff (a / p) (n / p)).1 (sym parts.0), parts.1)
  | inr ne ↦ ground (arith, clear_low-multiple a n p)
]

in_cidr-host : (n a m : ℕ) → m ≡ 32 → in_cidr n m a ≡ (a == n)
unfolding in_cidr
in_cidr-host n a m full = rw full (ground arith)

module _ (net : Inet) where
  open net use {Address, get_address, is_any_local_address, get_address-lt}

  -- The constructor returns for every mask from 1 to 32 and a non-null address.
  pub new_subnet-ok :
      {S : Type 0} (n : Address) (m : ℕ) (s : S)
      → 0 < m
      → m ≤ 32
      → new_subnet net (some n) (pos m) s
        ≡ ok
            (record {
              subnet = n;
              subnet_int = get_address n;
              suffix = m;
              subnet_mask = 2 ^ 32 - 2 ^ (32 - m);
            })
            s
  unfolding new_subnet
  new_subnet-ok n zero s lo hi = elim lo [ ]
  new_subnet-ok n (suc m) s lo hi = ground arith

  module _ {S : Type 0} (n : Address) (m : ℕ) (s t : S) (c : Subnet Address)
      (made : new_subnet net (some n) (pos m) s ≡ ok c t) where
    made-fields :
        (c.subnet_int ≡ get_address n)
        × (c.subnet_mask ≡ 2 ^ 32 - 2 ^ (32 - m))
        × (m ≤ 32)
        × (c.suffix ≡ m)
    unfolding new_subnet
    made-fields = elim (Bool-cases (m == 0)) [
      | inl nought ↦ ground arith
      | inr more ↦
          let shift : 31 - (m - 1) ≡ 32 - m = ground arith in
          ground (arith, ap (λ (k : ℕ). 2 ^ k) shift)
    ]

    -- A subnet n/m that was made holds exactly the wildcard addresses and those with the `m` high
    -- bits of n, and no address but the wildcards where n itself has a bit below them.
    pub in_subnet-cidr :
        (a : Address)
        → in_subnet net c (some a)
          ≡ (is_any_local_address a || in_cidr (get_address n) m (get_address a))
    unfolding in_subnet in_cidr
    in_subnet-cidr a = rw (
      made-fields.0,
      made-fields.1,
      bit_and-high_ones 32 (32 - m) (get_address a) (omega arith) (get_address-lt a),
      clear_low (get_address a) (get_address n) (2 ^ (32 - m)) (pow_pos (32 - m)),
    )

    -- a mask of 32 leaves the one address
    pub in_subnet-host :
        m ≡ 32
        → (a : Address)
        → in_subnet net c (some a) ≡ (is_any_local_address a || (get_address a == get_address n))
    in_subnet-host full a =
        in_subnet-cidr a ∙ ap (λ b. is_any_local_address a || b) (in_cidr-host _ _ m full)

  -- the subnet that the filters make of one address
  abbrev pub host : Address → Subnet Address
  host a = record {
    subnet = a;
    subnet_int = get_address a;
    suffix = 32;
    subnet_mask = 2 ^ 32 - 2 ^ 0;
  }

  pub new_subnet-host :
      {S : Type 0} (a : Address) (s : S) → new_subnet net (some a) (pos 32) s ≡ ok (host a) s
  new_subnet-host a s = new_subnet-ok a 32 s (omega arith) (omega arith)

  pub host-holds :
      (a x : Address)
      → in_subnet net (host a) (some x)
        ≡ (is_any_local_address x || (get_address x == get_address a))
  host-holds a x = in_subnet-host {S = Unit {0}} a 32 tt tt (host a) (new_subnet-host a tt) refl x

pub equals_refl : {Address : Type 0} (c : Subnet Address) → equals c c ≡ true
unfolding equals
equals_refl c = ground arith
