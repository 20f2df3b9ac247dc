-- ===== src/Whitelist/Examples.antt =====
-- The theorems on the whitelist at concrete lists.
use cxx_conet.Prelude.{ℕ, List, [], ◌∷◌}
use cxx_conet.Subnet.{Subnet}
use cxx_conet.Subnet.Members.{host}
use cxx_conet.Subnet.Sample.{numbers, network}

abbrev one_allowed : List (Subnet ℕ)
one_allowed = host numbers network ∷ []
