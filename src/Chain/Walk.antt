-- ===== src/Chain/Walk.antt =====
-- The loops over the entries: the search by filter, removal by filter, and clear(); the new chain.
use cxx_conet.Prelude.{
  ℕ, zero, suc, ◌<◌, ◌≡◌, refl, ◌∙◌, false, Option, none, some, List, [], ◌∷◌, ◌++◌, ◌==◌, arith,
  if◌then◌else◌, Bool-cases, inl, inr, length,
}
use mathlib.Core.Path.{subst, subst⁻¹}
use cxx_conet.Prelude.Exec.{
  Exec, ok, throws, illegal_argument, undefined, throw, pure, ◌>>◌, then-ok,
}
use cxx_conet.Prelude.Containers.{NameMap}
use cxx_conet.Chain.{
  Ptr, null, Chain, store, deregister, find_loop, get_entry_filter, remove_loop, remove_filter,
  clear_loop, new_chain,
}
use cxx_conet.Chain.Linked.{Cell, has, has-append_right, Distinct-apart, entry, first, Linked}
use cxx_conet.Chain.Represents.{IsChain, load-ok}
use cxx_conet.Chain.Remove.{take_out-IsChain}
use cxx_conet.Chain.Insert.{first-in}

-- the address of the first cell with the filter
abbrev pub find_filter : Ptr → List Cell → Option Ptr
find_filter f [] = none
find_filter f (x ∷ xs) = if x.filter == f then some x.ptr else find_filter f xs

abbrev discard : {N : NameMap Ptr} → Ptr → Ptr → Exec (Chain N) Ptr
discard f p = do deregister p; store p none; pure f

-- what remove(EIoFilter*) does once the search is over
abbrev remove_found : {N : NameMap Ptr} → Ptr → Option Ptr → Exec (Chain N) Ptr
remove_found f none = throw (if f == null then undefined else illegal_argument)
remove_found f (some p) = discard f p

module _ {N : NameMap Ptr} (c : Chain N) (back : Cell) (filter : Ptr)
    (at_tail : c.tail ≡ back.ptr) where
  find_loop-find_filter :
      (n : ℕ) (prev : Ptr) (xs : List Cell)
      → length xs < n
      → has back.ptr xs ≡ false
      → Linked c.heap prev (xs ++ back ∷ []) null
      → find_loop n filter (first (xs ++ back ∷ []) null) c ≡ ok (find_filter filter xs) c
  unfolding find_loop
  find_loop-find_filter zero prev xs fuel out l = absurd (omega arith)
  find_loop-find_filter (suc n) prev [] fuel out l = ground arith
  find_loop-find_filter (suc n) prev (x ∷ xs) fuel out l =
      ground
        (arith, load-ok c l.0, find_loop-find_filter n x.ptr xs (omega arith) (ground arith) l.1)

  remove_loop-find_filter :
      (n : ℕ) (prev : Ptr) (xs : List Cell)
      → length xs < n
      → has back.ptr xs ≡ false
      → Linked c.heap prev (xs ++ back ∷ []) null
      → remove_loop n filter (first (xs ++ back ∷ []) null) c
        ≡ remove_found filter (find_filter filter xs) c
  unfolding remove_loop
  remove_loop-find_filter zero prev xs fuel out l = absurd (omega arith)
  remove_loop-find_filter (suc n) prev [] fuel out l = ground arith
  remove_loop-find_filter (suc n) prev (x ∷ xs) fuel out l =
      let rest = remove_loop-find_filter n x.ptr xs (omega arith) (ground arith) l.1 in
      let inside : (x.ptr == c.tail) ≡ false = ground arith in
      rw (inside, load-ok c l.0)
        (elim (Bool-cases (x.filter == filter)) [ inl hit ↦ rw hit | inr miss ↦ rw miss rest ])

find_filter-append :
    (f : Ptr) (us vs : List Cell) (b : Cell)
    → find_filter f us ≡ none
    → b.filter ≡ f
    → find_filter f (us ++ b ∷ vs) ≡ some b.ptr
find_filter-append f [] vs b out same = ground arith
find_filter-append f (u ∷ us) vs b out same = ground (arith, find_filter-append f us vs b)

module _ {N : NameMap Ptr} {c : Chain N} {front back : Cell} {xs : List Cell}
    (is : IsChain c front back xs) (fuel : ℕ) (enough : length xs < fuel) where
  back-out : has back.ptr xs ≡ false
  back-out =
      has-append_right back.ptr (front ∷ []) xs
        (Distinct-apart back.ptr (front ∷ xs) (back ∷ []) is.distinct (first-in back []))

  front-entry : c.heap c.head ≡ some (entry null (first (xs ++ back ∷ []) null) front)
  front-entry =
      subst⁻¹ (λ p. c.heap p ≡ some (entry null (first (xs ++ back ∷ []) null) front)) is.head
        is.linked.0

  -- With more rounds than filters the search returns the first entry that has the filter, or null if
  -- none has it.
  pub get_entry_filter_lem :
      (filter : Ptr) → get_entry_filter fuel filter c ≡ ok (find_filter filter xs) c
  unfolding get_entry_filter
  get_entry_filter_lem filter =
      rw (load-ok c front-entry)
        (find_loop-find_filter c back filter is.tail fuel front.ptr xs enough back-out is.linked.1)

  remove_filter-found :
      (filter : Ptr) → remove_filter fuel filter c ≡ remove_found filter (find_filter filter xs) c
  unfolding remove_filter
  remove_filter-found filter =
      rw (load-ok c front-entry) (
        remove_loop-find_filter c back filter is.tail fuel front.ptr xs enough back-out is.linked.1)

  -- A filter that no entry has is refused, and the chain stays as it was.
  pub remove_filter-unknown :
      (filter : Ptr)
      → find_filter filter xs ≡ none
      → (filter == null) ≡ false
      → remove_filter fuel filter c ≡ throws illegal_argument c
  remove_filter-unknown filter out some_filter = remove_filter-found filter ∙ rw (out, some_filter)

-- Removal by filter takes out the first entry that has it, and returns the filter.
pub remove_filter_lem :
    {N : NameMap Ptr} {c : Chain N} {front back : Cell} (us vs : List Cell) (b : Cell) (fuel : ℕ)
    → IsChain c front back (us ++ b ∷ vs)
    → length (us ++ b ∷ vs) < fuel
    → find_filter b.filter us ≡ none
    → (c' : Chain N) × (remove_filter fuel b.filter c ≡ ok b.filter c')
      × IsChain c' front back (us ++ vs)
      × (c'.heap b.ptr ≡ none)
remove_filter_lem {N} {c} us vs b fuel is enough out =
    let (c', _, ran, is', freed) = take_out-IsChain {c = c} us vs b is in
    let search = remove_filter-found is fuel enough b.filter in
    let found = find_filter-append b.filter us vs b out refl in
    (
      c',
      search ∙ rw found (then-ok (deregister b.ptr) (store b.ptr none) (λ _. pure b.filter) c ran),
      is',
      freed,
    )

-- `ps` goes through the entries of `xs`, each once, in some order.
pub data Drains : List Ptr → List Cell → Type 0 where
  none_left : Drains [] []
  next_one :
      {ps : List Ptr} (us vs : List Cell) (b : Cell) {xs : List Cell}
      → xs ≡ us ++ b ∷ vs
      → Drains ps (us ++ vs)
      → Drains (b.ptr ∷ ps) xs

-- Whatever the order in which the map yields the entries, clear() ends with the empty chain.
pub clear_loop-empty :
    {N : NameMap Ptr} {front back : Cell} {ps : List Ptr} {xs : List Cell}
    → Drains ps xs
    → (c : Chain N) → IsChain c front back xs
    → (c' : Chain N) × (clear_loop ps c ≡ ok tt c') × IsChain c' front back []
unfolding clear_loop
clear_loop-empty none_left c is = (c, refl, is)
clear_loop-empty {N} {front} {back} (next_one {ps = others} us vs b parts rest) c is =
    let (c₁, _, ran, is₁, _) = take_out-IsChain us vs b (subst (IsChain c front back) parts is) in
    let (c₂, ran₂, is₂) = clear_loop-empty rest c₁ is₁ in
    (c₂, then-ok (deregister b.ptr) (store b.ptr none) (λ _. clear_loop others) c ran ∙ ran₂, is₂)

-- The constructor, given two distinct addresses for its ends, makes the empty chain.
pub new_chain-IsChain :
    {N : NameMap Ptr} (front back : Cell)
    → (front.ptr == back.ptr) ≡ false
    → (null == front.ptr) ≡ false
    → (null == back.ptr) ≡ false
    → front.name ≡ "head"
    → back.name ≡ "tail"
    → IsChain (new_chain {N = N} front.ptr back.ptr front.filter back.filter) front back []
unfolding new_chain
new_chain-IsChain {N} front back ne h t hn tn = record {
  head = refl;
  tail = refl;
  distinct = ground arith;
  not_null = ground arith;
  linked = (ground arith, (ground arith, tt));
  names = N.get-empty;
  unique = tt;
}
