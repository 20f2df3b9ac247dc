-- ===== src/Subnet/Examples.antt =====
-- The theorem on subnets at 192.168.1.0/24.
use cxx_conet.Prelude.{ℕ, ◌^◌, ◌-◌, ◌≡◌, refl, ◌||◌, some, pos}
use cxx_conet.Prelude.Exec.{ok, throws, undefined}
use cxx_conet.Subnet.{Subnet, new_subnet, in_subnet}
use cxx_conet.Subnet.Members.{in_cidr, in_subnet-cidr}
use cxx_conet.Subnet.Sample.{numbers, network, guest}

abbrev home : Subnet ℕ
home = record { subnet = network; subnet_int = network; suffix = 24; subnet_mask = 2 ^ 32 - 2 ^ 8 }

home-made : new_subnet numbers {S = Unit {0}} (some network) (pos 24) tt ≡ ok home tt
unfolding new_subnet
home-made = refl

in_subnet-cidr_example :
    in_subnet numbers home (some guest)
    ≡ (numbers.is_any_local_address guest || in_cidr network 24 guest)
in_subnet-cidr_example = in_subnet-cidr numbers {S = Unit {0}} network 24 tt tt home home-made guest

-- the shift by -1
new_subnet_shifts_by_less_than_nothing :
    new_subnet numbers {S = Unit {0}} (some network) (pos 0) tt ≡ throws undefined tt
unfolding new_subnet
new_subnet_shifts_by_less_than_nothing = refl
