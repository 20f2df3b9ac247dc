-- ===== src/Blacklist.antt =====
-- The filter that turns away blocked addresses: src/EBlacklistFilter.cpp.
mod Laws
mod Examples
use cxx_conet.Prelude.{
  String, Bool, true, false, Option, none, some, List, [], ◌∷◌, if◌then◌else◌, pos,
}
use cxx_conet.Prelude.Exec.{Exec, illegal_argument, throw, pure, gets, modify, ◌>>=◌, ◌>>◌}
use cxx_conet.Prelude.Containers.{CopyOnWriteArrayList}
use cxx_conet.Filter.{Filter, adapter}
use cxx_conet.Subnet.{Inet, Subnet, new_subnet, in_subnet, equals}

-- `L` is the list type of the field `blacklist`, the only state.
module _ (net : Inet) (L : CopyOnWriteArrayList (Subnet net.Address)) where
  open net use {Address, get_by_name}
  open L use {Repr, to_list, clear, add, remove}

  unfoldable pub block_subnet : Option (Subnet Address) → Exec Repr (Unit {0})
  block_subnet none = throw illegal_argument
  block_subnet (some subnet) = modify (add subnet)

  unfoldable pub block : Option Address → Exec Repr (Unit {0})
  block none = throw illegal_argument
  block (some address) = do subnet ← new_subnet net (some address) (pos 32); modify (add subnet)

  unfoldable pub block_name : String → Exec Repr (Unit {0})
  unfolding block
  block_name hostname = block (some (get_by_name hostname))

  unfoldable pub unblock_subnet : Option (Subnet Address) → Exec Repr (Unit {0})
  unblock_subnet none = throw illegal_argument
  unblock_subnet (some subnet) = modify (remove equals subnet)

  unfoldable pub unblock : Option Address → Exec Repr (Unit {0})
  unblock none = throw illegal_argument
  unblock (some address) = do
    subnet ← new_subnet net (some address) (pos 32)
    modify (remove equals subnet)

  unfoldable pub unblock_name : String → Exec Repr (Unit {0})
  unfolding unblock
  unblock_name hostname = unblock (some (get_by_name hostname))

  -- the loops over an array or an iterator
  unfoldable pub block_all : List (Option Address) → Exec Repr (Unit {0})
  unfolding block
  block_all [] = pure tt
  block_all (address ∷ rest) = do block address; block_all rest

  unfoldable pub block_all_subnets : List (Option (Subnet Address)) → Exec Repr (Unit {0})
  unfolding block_subnet
  block_all_subnets [] = pure tt
  block_all_subnets (subnet ∷ rest) = do block_subnet subnet; block_all_subnets rest

  unfoldable pub set_blacklist : Option (List (Option Address)) → Exec Repr (Unit {0})
  unfolding block_all
  set_blacklist none = throw illegal_argument
  set_blacklist (some addresses) = do modify clear; block_all addresses

  unfoldable pub set_subnet_blacklist :
      Option (List (Option (Subnet Address))) → Exec Repr (Unit {0})
  unfolding block_all_subnets
  set_subnet_blacklist none = throw illegal_argument
  set_subnet_blacklist (some subnets) = do modify clear; block_all_subnets subnets

  -- the iterator's loop: the first subnet with the address ends it
  unfoldable pub any_holds : Option Address → List (Subnet Address) → Bool
  any_holds address [] = false
  any_holds address (subnet ∷ rest) =
      if in_subnet net subnet address then true else any_holds address rest

  unfoldable pub is_blocked : Option Address → Repr → Bool
  unfolding any_holds
  is_blocked address blacklist = any_holds address (to_list blacklist)

  -- The filter over a world `W` that shows the list and the remote address of the session.
  module _ {W : Type 0} (blacklist : W → Repr) (remote_address : W → Option Address) where
    unfoldable pub session_created : Exec W Bool → Exec W Bool
    unfolding is_blocked
    session_created next = do
      blocked ← gets (λ w. is_blocked (remote_address w) (blacklist w))
      if blocked then pure false else next

    abbrev pub filter : (Message : Type 0) → Filter W Message
    filter Message = record (adapter {W = W} {Message = Message}) {
      session_created = session_created;
    }
