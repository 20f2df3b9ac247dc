-- ===== src/Subnet/Sample.antt =====
-- Addresses as plain numbers, for the examples.
use cxx_conet.Prelude.{ℕ, ◌%◌, ◌^◌, ◌==◌, arith}
use cxx_conet.Subnet.{Inet}

abbrev pub numbers : Inet
numbers = record {
  Address = ℕ;
  get_address = λ a. a % 2 ^ 32;
  is_any_local_address = λ a. a % 2 ^ 32 == 0;
  get_by_name = λ name. 2130706433;
  get_address-lt = λ a. omega arith;
}

-- 192.168.1.0 and 192.168.1.77
abbrev pub network : ℕ
network = 3232235776

abbrev pub guest : ℕ
guest = 3232235853
