-- ===== src/Blacklist/Examples.antt =====
-- The theorems on the blacklist at concrete lists.
use cxx_conet.Prelude.{ℕ, true, false, ◌≡◌, refl, some, List, [], ◌∷◌, ◌||◌, ◌==◌, if◌then◌else◌}
use cxx_conet.Prelude.Exec.{ok, pure}
use cxx_conet.Prelude.Containers.{plain_list}
use cxx_conet.Subnet.{Subnet, new_subnet}
use cxx_conet.Subnet.Members.{host}
use cxx_conet.Subnet.Sample.{numbers, network}
use cxx_conet.Blacklist.{block, is_blocked, session_created}
use cxx_conet.Blacklist.Laws.{session_created-block}

abbrev one_blocked : List (Subnet ℕ)
one_blocked = host numbers network ∷ []

-- a world that is the list alone, seen from the address that has been blocked
session_created-block_example :
    session_created numbers
      (plain_list _)
      {W = List (Subnet ℕ)}
      (λ w. w)
      (λ w. some network)
      (pure true)
      one_blocked
    ≡ (if is_blocked numbers (plain_list _) (some network) []
          || (numbers.is_any_local_address network
              || (numbers.get_address network == numbers.get_address network))
        then ok false one_blocked
        else ok true one_blocked)
unfolding block new_subnet
session_created-block_example =
    session_created-block numbers (plain_list _) {W = List (Subnet ℕ)} (λ w. w) (λ w. some network)
      (pure true) network network [] one_blocked refl refl
