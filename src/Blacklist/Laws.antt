-- ===== src/Blacklist/Laws.antt =====
-- Which addresses the list turns away after each operation, and what the filter then does.
use mathlib.Core.List.{append-nil, append_assoc}
use cxx_conet.Prelude.{
  ◌≡◌, refl, sym, ap, ◌∙◌, Bool, false, ◌||◌, ◌==◌, Option, some, List, [], ◌∷◌, ◌++◌, map, any,
  if◌then◌else◌, arith,
}
use cxx_conet.Prelude.Exec.{Exec, Run, ok, ◌>>◌}
use cxx_conet.Prelude.Containers.{CopyOnWriteArrayList, remove_first-append_fresh}
use cxx_conet.Subnet.{Inet, Subnet, in_subnet, equals}
use cxx_conet.Subnet.Members.{host, new_subnet-host, host-holds, equals_refl}
use cxx_conet.Blacklist.{
  block, block_all_subnets, unblock, set_subnet_blacklist, any_holds, is_blocked, session_created,
}

module _ (net : Inet) (L : CopyOnWriteArrayList (Subnet net.Address)) where
  open net use {Address, get_address, is_any_local_address}
  open L use {Repr, to_list, clear, add, remove, to_list-add, to_list-clear, to_list-remove}

  any_holds-any :
      (x : Option Address) (cs : List (Subnet Address))
      → any_holds net L x cs ≡ any (λ c. in_subnet net c x) cs
  unfolding any_holds
  any_holds-any x [] = refl
  any_holds-any x (c ∷ cs) = ground (arith, any_holds-any x cs)

  any_holds-append :
      (x : Option Address) (cs ds : List (Subnet Address))
      → any_holds net L x (cs ++ ds) ≡ (any_holds net L x cs || any_holds net L x ds)
  unfolding any_holds
  any_holds-append x [] ds = refl
  any_holds-append x (c ∷ cs) ds = ground (arith, any_holds-append x cs ds)

  -- Blocking an address returns, and afterwards an address is blocked exactly if it was before, is
  -- the wildcard, or has the same number.
  pub is_blocked-block :
      (a x : Address) (l : Repr)
      → (l' : Repr) × (block net L (some a) l ≡ ok tt l')
        × (is_blocked net L (some x) l' ≡ (
            is_blocked net L (some x) l
            || (is_any_local_address x || (get_address x == get_address a))))
  unfolding block is_blocked
  is_blocked-block a x l = (
    add (host net a) l,
    rw (new_subnet-host net a l),
    rw (to_list-add (host net a) l, any_holds-append (some x) (to_list l) (host net a ∷ []))
        (ground (arith, host-holds net a x)),
  )

  block_all_subnets-append :
      (cs : List (Subnet Address)) (l : Repr)
      → (l' : Repr) × (block_all_subnets net L (map some cs) l ≡ ok tt l')
        × (to_list l' ≡ to_list l ++ cs)
  unfolding block_all_subnets
  block_all_subnets-append [] l = (l, refl, sym (append-nil (to_list l)))
  block_all_subnets-append (c ∷ cs) l =
      let (l', ran, holds) = block_all_subnets-append cs (add c l) in
      (l', ran, holds ∙ (rw (to_list-add c l) (append_assoc (to_list l) (c ∷ []) cs)))

  -- Setting the list to subnets, none of them null, returns, and afterwards an address is blocked
  -- exactly if one of them holds it, whatever was in the list before.
  pub is_blocked-set_subnet_blacklist :
      (cs : List (Subnet Address)) (x : Option Address) (l : Repr)
      → (l' : Repr) × (set_subnet_blacklist net L (some (map some cs)) l ≡ ok tt l')
        × (is_blocked net L x l' ≡ any (λ c. in_subnet net c x) cs)
  unfolding set_subnet_blacklist is_blocked
  is_blocked-set_subnet_blacklist cs x l =
      let (l', ran, holds) = block_all_subnets-append cs (clear l) in
      (l', ran, rw (holds, to_list-clear l) (any_holds-any x cs))

  -- Unblocking an address that was blocked once leaves the list as it was before the block.
  pub unblock-block :
      (a : Address) (l : Repr)
      → any (equals (host net a)) (to_list l) ≡ false
      → (l' : Repr) × ((block net L (some a) >> unblock net L (some a)) l ≡ ok tt l')
        × (to_list l' ≡ to_list l)
  unfolding block unblock
  unblock-block a l out = (
    remove equals (host net a) (add (host net a) l),
    rw (new_subnet-host net a l) (rw (new_subnet-host net a (add (host net a) l))),
    rw (to_list-remove equals (host net a) (add (host net a) l), to_list-add (host net a) l)
        (remove_first-append_fresh equals (host net a) (to_list l) out (equals_refl (host net a))),
  )

  same_state : {l l' : Repr} {r : Run Repr (Unit {0})} → r ≡ ok tt l → r ≡ ok tt l' → l ≡ l'
  same_state one other = cc (one, other)

  -- Once an address has been blocked, which returns, the filter turns away a session of a world with
  -- that list whose remote address is the wildcard, has the same number, or was blocked before, and
  -- hands any other session on unchanged.
  pub session_created-block :
      {W : Type 0} (blacklist : W → Repr) (remote : W → Option Address) (next : Exec W Bool)
      (a x : Address) (l : Repr) (w : W)
      → remote w ≡ some x
      → block net L (some a) l ≡ ok tt (blacklist w)
      → session_created net L blacklist remote next w ≡ (
          if is_blocked net L (some x) l
            || (is_any_local_address x || (get_address x == get_address a))
          then ok false w
          else next w)
  unfolding session_created
  session_created-block blacklist remote next a x l w from blocked =
      let (l', ran, holds) = is_blocked-block a x l in
      let same : l' ≡ blacklist w = same_state ran blocked in
      let asked =
        ap (λ r. is_blocked net L r (blacklist w)) from
        ∙ (ap (λ l. is_blocked net L (some x) l) (sym same) ∙ holds) in
      rw asked (ground arith)
