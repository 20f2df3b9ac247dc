-- ===== src/Chain/Entries.antt =====
-- The operations that an entry of a filter chain has, which go by its name, and the dispatchers of
-- entries: EntryImpl and getNextFilter of src/EIoFilterChain.cpp.
use cxx_conet.Prelude.{ℕ, String, Option, Bool, is_some}
use cxx_conet.Prelude.Exec.{Exec, pure, ◌>>=◌, ◌>>◌}
use cxx_conet.Prelude.Containers.{NameMap}
use cxx_conet.Chain.{Ptr, Chain, load, add_before, add_after, remove, get_entry, get_entry_filter}

module _ {N : NameMap Ptr} where
  -- addBefore, addAfter and remove of the entry at an address
  unfoldable pub entry_add_before : (fresh entry : Ptr) → String → Ptr → Exec (Chain N) (Unit {0})
  unfolding load add_before
  entry_add_before fresh entry name filter = do e ← load entry; add_before fresh e.name name filter

  unfoldable pub entry_add_after : (fresh entry : Ptr) → String → Ptr → Exec (Chain N) (Unit {0})
  unfolding load add_after
  entry_add_after fresh entry name filter = do e ← load entry; add_after fresh e.name name filter

  unfoldable pub entry_remove : (entry : Ptr) → Exec (Chain N) (Unit {0})
  unfolding load remove
  entry_remove entry = do e ← load entry; remove e.name; pure tt

  -- contains(EIoFilter*)
  unfoldable pub contains_filter : (fuel : ℕ) → Ptr → Exec (Chain N) Bool
  unfolding get_entry_filter
  contains_filter fuel filter = do e ← get_entry_filter fuel filter; pure (is_some e)

  -- getNextFilter by a name and by a filter: a dispatcher is known by its entry, at whose successor its
  -- calls start
  unfoldable pub get_next_filter : String → Exec (Chain N) (Option Ptr)
  unfolding get_entry
  get_next_filter name = get_entry name

  unfoldable pub get_next_filter_of : (fuel : ℕ) → Ptr → Exec (Chain N) (Option Ptr)
  unfolding get_entry_filter
  get_next_filter_of fuel filter = get_entry_filter fuel filter
