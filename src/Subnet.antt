-- ===== src/Subnet.antt =====
-- An IPv4 subnet in CIDR notation: src/ESubnet.cpp and inc/ESubnet.hh.
mod Mask
pub mod Members
pub mod Sample
mod Examples
use Prim.Native.Nat.{bit_and}
use cxx_conet.Prelude.{
  ℕ, ◌-◌, ◌^◌, ◌<◌, ◌≡◌, String, Bool, false, ◌||◌, ◌&&◌, Option, none, some, ltb, ◌==◌,
  if◌then◌else◌, ℤ, pos, negsuc,
}
use cxx_conet.Prelude.Exec.{Exec, illegal_argument, undefined, throw, pure}

-- EInetAddress of the Efc library. `get_address` is its int as a pattern of 32 bits.
pub record Inet : Type 1 where
  pub Address : Type 0
  pub get_address : Address → ℕ
  pub is_any_local_address : Address → Bool
  pub get_by_name : String → Address
  pub get_address-lt : (a : Address) → get_address a < 2 ^ 32

-- The fields that the IPv4 code uses. `subnet_mask` is the pattern of `(int) subnetMask`.
pub record Subnet (Address : Type 0) : Type 0 where
  pub subnet : Address
  pub subnet_int : ℕ
  pub suffix : ℕ
  pub subnet_mask : ℕ

-- `IP_MASK_V4 >> k`: INT_MIN divided by 2 ^ k, as a pattern of 32 bits.
unfoldable pub ip_mask_v4_shr : ℕ → ℕ
ip_mask_v4_shr k = 2 ^ 32 - 2 ^ (31 - k)

module _ (net : Inet) where
  open net use {Address, get_address, is_any_local_address}

  -- A shift by -1, where `mask` is 0, is undefined.
  unfoldable pub new_subnet : {S : Type 0} → Option Address → ℤ → Exec S (Subnet Address)
  unfolding ip_mask_v4_shr
  new_subnet none mask = throw illegal_argument
  new_subnet (some a) (negsuc m) = throw illegal_argument
  new_subnet (some a) (pos m) =
      if ltb 32 m
      then throw illegal_argument
      else if m == 0
      then throw undefined
      else pure (record {
        subnet = a;
        subnet_int = get_address a;
        suffix = m;
        subnet_mask = ip_mask_v4_shr (m - 1);
      })

  unfoldable pub to_subnet : Subnet Address → Address → ℕ
  to_subnet s a = bit_and (get_address a) s.subnet_mask

  unfoldable pub in_subnet : Subnet Address → Option Address → Bool
  unfolding to_subnet
  in_subnet s none = false
  in_subnet s (some a) = is_any_local_address a || (to_subnet s a == s.subnet_int)

unfoldable pub equals : {Address : Type 0} → Subnet Address → Subnet Address → Bool
equals s other = (other.subnet_int == s.subnet_int) && (other.suffix == s.suffix)
