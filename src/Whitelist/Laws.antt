-- ===== src/Whitelist/Laws.antt =====
-- Which addresses the list lets in after each operation, and what the filter then does.
use mathlib.Core.List.{append-nil, append_assoc}
use cxx_conet.Prelude.{
  ◌≡◌, refl, sym, ◌∙◌, Bool, false, ◌||◌, ◌==◌, Option, some, List, [], ◌∷◌, ◌++◌, map, any,
  if◌then◌else◌, arith,
}
use cxx_conet.Prelude.Exec.{Exec, ok, ◌>>◌}
use cxx_conet.Prelude.Containers.{CopyOnWriteArrayList, remove_first-append_fresh}
use cxx_conet.Subnet.{Inet, Subnet, in_subnet, equals}
use cxx_conet.Subnet.Members.{host, new_subnet-host, host-holds, equals_refl}
use cxx_conet.Whitelist.{
  allow, allow_all_subnets, disallow, set_subnet_whitelist, any_holds, is_allowed, session_created,
}

module _ (net : Inet) (L : CopyOnWriteArrayList (Subnet net.Address)) where
  open net use {Address, get_address, is_any_local_address}
  open L use {Repr, to_list, clear, add, remove, to_list-add, to_list-clear, to_list-remove}

  any_holds-any :
      (x : Option Address) (cs : List (Subnet Address))
      → any_holds net L x cs ≡ any (λ c. in_subnet net c x) cs
  unfolding any_holds
  any_holds-any x [] = refl
  any_holds-any x (c ∷ cs) = ground (arith, any_holds-any x cs)

  any_holds-append :
      (x : Option Address) (cs ds : List (Subnet Address))
      → any_holds net L x (cs ++ ds) ≡ (any_holds net L x cs || any_holds net L x ds)
  unfolding any_holds
  any_holds-append x [] ds = refl
  any_holds-append x (c ∷ cs) ds = ground (arith, any_holds-append x cs ds)

  -- Allowing an address returns, and afterwards an address is allowed exactly if it was before, is
  -- the wildcard, or has the same number.
  pub is_allowed-allow :
      (a x : Address) (l : Repr)
      → (l' : Repr) × (allow net L (some a) l ≡ ok tt l')
        × (is_allowed net L (some x) l' ≡ (
            is_allowed net L (some x) l
            || (is_any_local_address x || (get_address x == get_address a))))
  unfolding allow is_allowed
  is_allowed-allow a x l = (
    add (host net a) l,
    rw (new_subnet-host net a l),
    rw (to_list-add (host net a) l, any_holds-append (some x) (to_list l) (host net a ∷ []))
        (ground (arith, host-holds net a x)),
  )

  allow_all_subnets-append :
      (cs : List (Subnet Address)) (l : Repr)
      → (l' : Repr) × (allow_all_subnets net L (map some cs) l ≡ ok tt l')
        × (to_list l' ≡ to_list l ++ cs)
  unfolding allow_all_subnets
  allow_all_subnets-append [] l = (l, refl, sym (append-nil (to_list l)))
  allow_all_subnets-append (c ∷ cs) l =
      let (l', ran, holds) = allow_all_subnets-append cs (add c l) in
      (l', ran, holds ∙ (rw (to_list-add c l) (append_assoc (to_list l) (c ∷ []) cs)))

  -- Setting the list to subnets, none of them null, returns, and afterwards an address is allowed
  -- exactly if one of them holds it, whatever was in the list before.
  pub is_allowed-set_subnet_whitelist :
      (cs : List (Subnet Address)) (x : Option Address) (l : Repr)
      → (l' : Repr) × (set_subnet_whitelist net L (some (map some cs)) l ≡ ok tt l')
        × (is_allowed net L x l' ≡ any (λ c. in_subnet net c x) cs)
  unfolding set_subnet_whitelist is_allowed
  is_allowed-set_subnet_whitelist cs x l =
      let (l', ran, holds) = allow_all_subnets-append cs (clear l) in
      (l', ran, rw (holds, to_list-clear l) (any_holds-any x cs))

  -- Disallowing an address that was allowed once leaves the list as it was before it was allowed.
  pub disallow-allow :
      (a : Address) (l : Repr)
      → any (equals (host net a)) (to_list l) ≡ false
      → (l' : Repr) × ((allow net L (some a) >> disallow net L (some a)) l ≡ ok tt l')
        × (to_list l' ≡ to_list l)
  unfolding allow disallow
  disallow-allow a l out = (
    remove equals (host net a) (add (host net a) l),
    rw (new_subnet-host net a l) (rw (new_subnet-host net a (add (host net a) l))),
    rw (to_list-remove equals (host net a) (add (host net a) l), to_list-add (host net a) l)
        (remove_first-append_fresh equals (host net a) (to_list l) out (equals_refl (host net a))),
  )

  -- The filter hands an allowed address on unchanged, and answers false for any other.
  pub session_created-whitelist :
      {W : Type 0} (whitelist : W → Repr) (remote : W → Option Address) (next : Exec W Bool) (w : W)
      → session_created net L whitelist remote next w ≡ (
          if any (λ c. in_subnet net c (remote w)) (to_list (whitelist w))
          then next w
          else ok false w)
  unfolding session_created is_allowed
  session_created-whitelist whitelist remote next w =
      rw (← any_holds-any (remote w) (to_list (whitelist w))) (ground arith)
