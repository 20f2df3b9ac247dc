-- ===== src/Whitelist.antt =====
-- The filter that lets only allowed addresses in: src/EWhitelistFilter.cpp.
mod Laws
mod Examples
use cxx_conet.Prelude.{
  String, Bool, true, false, Option, none, some, List, [], ◌∷◌, if◌then◌else◌, pos,
}
use cxx_conet.Prelude.Exec.{Exec, illegal_argument, throw, pure, gets, modify, ◌>>=◌, ◌>>◌}
use cxx_conet.Prelude.Containers.{CopyOnWriteArrayList}
use cxx_conet.Filter.{Filter, adapter}
use cxx_conet.Subnet.{Inet, Subnet, new_subnet, in_subnet, equals}

-- `L` is the list type of the field `whitelist`, the only state.
module _ (net : Inet) (L : CopyOnWriteArrayList (Subnet net.Address)) where
  open net use {Address, get_by_name}
  open L use {Repr, to_list, clear, add, remove}

  unfoldable pub allow_subnet : Option (Subnet Address) → Exec Repr (Unit {0})
  allow_subnet none = throw illegal_argument
  allow_subnet (some subnet) = modify (add subnet)

  unfoldable pub allow : Option Address → Exec Repr (Unit {0})
  allow none = throw illegal_argument
  allow (some address) = do subnet ← new_subnet net (some address) (pos 32); modify (add subnet)

  unfoldable pub allow_name : String → Exec Repr (Unit {0})
  unfolding allow
  allow_name hostname = allow (some (get_by_name hostname))

  unfoldable pub disallow_subnet : Option (Subnet Address) → Exec Repr (Unit {0})
  disallow_subnet none = throw illegal_argument
  disallow_subnet (some subnet) = modify (remove equals subnet)

  unfoldable pub disallow : Option Address → Exec Repr (Unit {0})
  disallow none = throw illegal_argument
  disallow (some address) = do
    subnet ← new_subnet net (some address) (pos 32)
    modify (remove equals subnet)

  unfoldable pub disallow_name : String → Exec Repr (Unit {0})
  unfolding disallow
  disallow_name hostname = disallow (some (get_by_name hostname))

  -- the loops over an array or an iterator
  unfoldable pub allow_all : List (Option Address) → Exec Repr (Unit {0})
  unfolding allow
  allow_all [] = pure tt
  allow_all (address ∷ rest) = do allow address; allow_all rest

  unfoldable pub allow_all_subnets : List (Option (Subnet Address)) → Exec Repr (Unit {0})
  unfolding allow_subnet
  allow_all_subnets [] = pure tt
  allow_all_subnets (subnet ∷ rest) = do allow_subnet subnet; allow_all_subnets rest

  unfoldable pub set_whitelist : Option (List (Option Address)) → Exec Repr (Unit {0})
  unfolding allow_all
  set_whitelist none = throw illegal_argument
  set_whitelist (some addresses) = do modify clear; allow_all addresses

  unfoldable pub set_subnet_whitelist :
      Option (List (Option (Subnet Address))) → Exec Repr (Unit {0})
  unfolding allow_all_subnets
  set_subnet_whitelist none = throw illegal_argument
  set_subnet_whitelist (some subnets) = do modify clear; allow_all_subnets subnets

  -- the iterator's loop: the first subnet with the address ends it
  unfoldable pub any_holds : Option Address → List (Subnet Address) → Bool
  any_holds address [] = false
  any_holds address (subnet ∷ rest) =
      if in_subnet net subnet address then true else any_holds address rest

  unfoldable pub is_allowed : Option Address → Repr → Bool
  unfolding any_holds
  is_allowed address whitelist = any_holds address (to_list whitelist)

  -- The filter over a world `W` that shows the list and the remote address of the session.
  module _ {W : Type 0} (whitelist : W → Repr) (remote_address : W → Option Address) where
    unfoldable pub session_created : Exec W Bool → Exec W Bool
    unfolding is_allowed
    session_created next = do
      allowed ← gets (λ w. is_allowed (remote_address w) (whitelist w))
      if allowed then next else pure false

    abbrev pub filter : (Message : Type 0) → Filter W Message
    filter Message = record (adapter {W = W} {Message = Message}) {
      session_created = session_created;
    }
