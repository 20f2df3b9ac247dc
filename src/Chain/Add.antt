-- ===== src/Chain/Add.antt =====
-- addFirst, addLast, addBefore and addAfter: where the new filter comes to stand, and what is refused.
use mathlib.Core.List.{append_assoc, append-nil}
use mathlib.Core.Path.{subst, subst⁻¹}
use cxx_conet.Prelude.{◌≡◌, ◌∙◌, String, some, List, [], ◌∷◌, ◌++◌, arith}
use cxx_conet.Prelude.Exec.{ok, throws, illegal_argument}
use cxx_conet.Prelude.Containers.{NameMap}
use cxx_conet.Chain.{Ptr, null, Chain, register_, add_first, add_last, add_before, add_after}
use cxx_conet.Chain.Linked.{Cell, entry, first, last, last-append, Linked, Linked-back}
use cxx_conet.Chain.Represents.{find_name, find_name-at, IsChain, load-ok}
use cxx_conet.Chain.Insert.{cell, CanJoin, register_-IsChain}

module _ {N : NameMap Ptr} {c : Chain N} {front back : Cell} (fresh : Ptr) (name : String)
    (filter : Ptr) where
  -- A new filter under an unused name comes first.
  pub add_first-cons :
      (xs : List Cell)
      → IsChain c front back xs
      → CanJoin front back xs (cell fresh name filter)
      → (c' : Chain N) × (add_first fresh name filter c ≡ ok tt c')
        × IsChain c' front back (cell fresh name filter ∷ xs)
  unfolding add_first
  add_first-cons xs is can =
      let (c', ran, is') = register_-IsChain {c = c} fresh name filter [] xs is can in
      (
        c',
        simp (is.names name, can.unused)
            (subst⁻¹ (λ p. register_ fresh p name filter c ≡ ok tt c') is.head ran),
        is',
      )

  -- the entry at the back points to the last one before it
  back-entry :
      (xs : List Cell)
      → IsChain c front back xs
      → c.heap back.ptr ≡ some (entry (last front.ptr xs) null back)
  back-entry xs is = (Linked-back c.heap null null (front ∷ xs) (back ∷ []) is.linked).0

  -- A new filter under an unused name comes last.
  pub add_last-append :
      (xs : List Cell)
      → IsChain c front back xs
      → CanJoin front back xs (cell fresh name filter)
      → (c' : Chain N) × (add_last fresh name filter c ≡ ok tt c')
        × IsChain c' front back (xs ++ cell fresh name filter ∷ [])
  unfolding add_last
  add_last-append xs is can =
      let whole = append-nil xs in
      let (c', ran, is') =
        register_-IsChain {c = c} fresh name filter xs [] (subst⁻¹ (IsChain c front back) whole is)
          (subst⁻¹ (λ l. CanJoin front back l (cell fresh name filter)) whole can) in
      (c', simp (is.names name, can.unused, is.tail, load-ok c (back-entry xs is)) ran, is')

  -- the entry of a cell in the middle
  entry_at :
      (us vs : List Cell) (b : Cell)
      → IsChain c front back (us ++ b ∷ vs)
      → c.heap b.ptr ≡ some (entry (last front.ptr us) (first (vs ++ back ∷ []) null) b)
  entry_at us vs b is =
      let whole = append_assoc us (b ∷ vs) (back ∷ []) in
      let run = subst (λ l. Linked c.heap null (front ∷ l) null) whole is.linked in
      (Linked-back c.heap null null (front ∷ us) (b ∷ vs ++ back ∷ []) run).0

  -- A new filter comes right behind the one that has the base name.
  pub add_after-append :
      (us vs : List Cell) (base : Cell)
      → IsChain c front back (us ++ base ∷ vs)
      → CanJoin front back (us ++ base ∷ vs) (cell fresh name filter)
      → (c' : Chain N) × (add_after fresh base.name name filter c ≡ ok tt c')
        × IsChain c' front back (us ++ base ∷ cell fresh name filter ∷ vs)
  unfolding add_after
  add_after-append us vs base is can =
      let whole = append_assoc us (base ∷ []) vs in
      let (c', ran, is') =
        register_-IsChain {c = c} fresh name filter (us ++ base ∷ []) vs
          (subst⁻¹ (IsChain c front back) whole is)
          (subst⁻¹ (λ l. CanJoin front back l (cell fresh name filter)) whole can) in
      let at_base : last front.ptr (us ++ base ∷ []) ≡ base.ptr =
        last-append front.ptr us (base ∷ []) in
      (
        c',
        simp (is.names name, is.names base.name, find_name-at us vs base is.unique, can.unused)
            (subst (λ p. register_ fresh p name filter c ≡ ok tt c') at_base ran),
        subst (IsChain c' front back) (append_assoc us (base ∷ []) (cell fresh name filter ∷ vs))
            is',
      )

  -- A new filter comes right before the one that has the base name.
  pub add_before-append :
      (us vs : List Cell) (base : Cell)
      → IsChain c front back (us ++ base ∷ vs)
      → CanJoin front back (us ++ base ∷ vs) (cell fresh name filter)
      → (c' : Chain N) × (add_before fresh base.name name filter c ≡ ok tt c')
        × IsChain c' front back (us ++ cell fresh name filter ∷ base ∷ vs)
  unfolding add_before
  add_before-append us vs base is can =
      let (c', ran, is') = register_-IsChain {c = c} fresh name filter us (base ∷ vs) is can in
      (
        c',
        simp
            (
              is.names name,
              is.names base.name,
              find_name-at us vs base is.unique,
              can.unused,
              load-ok c (entry_at us vs base is),
            )
            ran,
        is',
      )

  -- A name that is in use is refused by all four, whatever the base name, and the chain stays as it
  -- was.
  pub add-used :
      (xs : List Cell) (base : String) (q : Ptr)
      → IsChain c front back xs
      → find_name name xs ≡ some q
      → (add_first fresh name filter c ≡ throws illegal_argument c)
        × (add_last fresh name filter c ≡ throws illegal_argument c)
        × (add_before fresh base name filter c ≡ throws illegal_argument c)
        × (add_after fresh base name filter c ≡ throws illegal_argument c)
  unfolding add_first add_last add_before add_after
  add-used xs base q is used =
      let known = is.names name ∙ used in
      (simp known, simp known, ground (arith, known), ground (arith, known))
