-- ===== src/Builder.antt =====
-- The filters that every new session's chain is built from: src/EIoFilterChainBuidler.cpp (sic). The
-- method `get` is left out: it hands an entry of the list to a second shared pointer.
pub mod Unique
pub mod Build
mod Examples
use cxx_conet.Prelude.{
  ℕ, zero, suc, ◌+◌, String, Bool, Option, none, some, List, [], ◌∷◌, ◌==◌, str_eq, is_some, length,
  if◌then◌else◌,
}
use cxx_conet.Prelude.Exec.{
  Exec, illegal_argument, undefined, throw, pure, gets, modify, ◌>>=◌, ◌>>◌,
}
use cxx_conet.Prelude.Containers.{CopyOnWriteArrayList, NameMap}
use cxx_conet.Chain
use cxx_conet.Chain.{Ptr, null, Chain}

-- EntryImpl, less the owner
pub record Filling : Type 0 where
  pub name : String
  pub filter : Ptr

-- the loops of the two functions getEntry
unfoldable pub find_name : String → List Filling → Option Filling
find_name name [] = none
find_name name (e ∷ rest) = if str_eq e.name name then some e else find_name name rest

unfoldable pub find_filter : Ptr → List Filling → Option Filling
find_filter filter [] = none
find_filter filter (e ∷ rest) = if e.filter == filter then some e else find_filter filter rest

module _ (L : CopyOnWriteArrayList Filling) where
  open L use {Repr, to_list, clear as no_entries, add_at, remove_at_index}

  unfoldable pub get_entry : String → Repr → Option Filling
  unfolding find_name
  get_entry name entries = find_name name (to_list entries)

  unfoldable pub get_entry_filter : Ptr → Repr → Option Filling
  unfolding find_filter
  get_entry_filter filter entries = find_filter filter (to_list entries)

  unfoldable pub contains : String → Repr → Bool
  unfolding get_entry
  contains name entries = is_some (get_entry name entries)

  unfoldable pub contains_filter : Ptr → Repr → Bool
  unfolding get_entry_filter
  contains_filter filter entries = is_some (get_entry_filter filter entries)

  -- `new EntryImpl(name, filter, this)`
  unfoldable pub new_entry : String → Ptr → Exec Repr Filling
  new_entry name filter =
      if filter == null
      then throw illegal_argument
      else pure (record { name = name; filter = filter })

  unfoldable pub register_ : ℕ → Filling → Exec Repr (Unit {0})
  unfolding contains
  register_ index e = do
    used ← gets (contains e.name)
    if used then throw illegal_argument else modify (add_at index e)

  unfoldable pub check_base_name : String → Exec Repr (Unit {0})
  unfolding contains
  check_base_name base_name = do
    known ← gets (contains base_name)
    if known then pure tt else throw illegal_argument

  unfoldable pub add_first : String → Ptr → Exec Repr (Unit {0})
  unfolding new_entry register_
  add_first name filter = do e ← new_entry name filter; register_ 0 e

  unfoldable pub add_last : String → Ptr → Exec Repr (Unit {0})
  unfolding new_entry register_
  add_last name filter = do
    e ← new_entry name filter
    size ← gets (λ entries. length (to_list entries))
    register_ size e

  -- The loops of addBefore and addAfter over what is left of the list from index `i`: `i` is
  -- previousIndex() once the element has been taken, `suc i` is nextIndex().
  unfoldable pub before_loop : String → String → Ptr → ℕ → List Filling → Exec Repr (Unit {0})
  unfolding new_entry register_
  before_loop base_name name filter i [] = pure tt
  before_loop base_name name filter i (base ∷ rest) =
      let later = before_loop base_name name filter (suc i) rest in
      if str_eq base.name base_name then (do e ← new_entry name filter; register_ i e) else later

  unfoldable pub after_loop : String → String → Ptr → ℕ → List Filling → Exec Repr (Unit {0})
  unfolding new_entry register_
  after_loop base_name name filter i [] = pure tt
  after_loop base_name name filter i (base ∷ rest) =
      let later = after_loop base_name name filter (suc i) rest in
      if str_eq base.name base_name
      then (do e ← new_entry name filter; register_ (suc i) e)
      else later

  unfoldable pub add_before : String → String → Ptr → Exec Repr (Unit {0})
  unfolding check_base_name
  add_before base_name name filter = do
    check_base_name base_name
    all ← gets to_list
    before_loop base_name name filter 0 all

  unfoldable pub add_after : String → String → Ptr → Exec Repr (Unit {0})
  unfolding check_base_name
  add_after base_name name filter = do
    check_base_name base_name
    all ← gets to_list
    after_loop base_name name filter 0 all

  unfoldable pub remove_loop : String → ℕ → List Filling → Exec Repr Ptr
  remove_loop name i [] = throw illegal_argument
  remove_loop name i (e ∷ rest) =
      let later = remove_loop name (suc i) rest in
      if str_eq e.name name then (do modify (remove_at_index i); pure e.filter) else later

  unfoldable pub remove : String → Exec Repr Ptr
  remove name = do all ← gets to_list; remove_loop name 0 all

  unfoldable pub remove_filter_loop : Ptr → ℕ → List Filling → Exec Repr Ptr
  remove_filter_loop filter i [] = throw illegal_argument
  remove_filter_loop filter i (e ∷ rest) =
      let later = remove_filter_loop filter (suc i) rest in
      if e.filter == filter then (do modify (remove_at_index i); pure e.filter) else later

  unfoldable pub remove_filter : Ptr → Exec Repr Ptr
  remove_filter filter =
      if filter == null
      then throw illegal_argument
      else do all ← gets to_list; remove_filter_loop filter 0 all

  unfoldable pub clear : Exec Repr (Unit {0})
  clear = modify no_entries

-- The loop of buildFilterChain: `allocate n` is the address of the n-th entry that the chain makes.
module _ {N : NameMap Ptr} (allocate : ℕ → Ptr) where
  unfoldable pub build_loop : ℕ → List Filling → Exec (Chain N) (Unit {0})
  build_loop i [] = pure tt
  build_loop i (e ∷ rest) = do Chain.add_last (allocate i) e.name e.filter; build_loop (suc i) rest

  unfoldable pub build_filter_chain :
      (L : CopyOnWriteArrayList Filling) → L.Repr → Exec (Chain N) (Unit {0})
  unfolding build_loop
  build_filter_chain L entries = build_loop 0 (L.to_list entries)
