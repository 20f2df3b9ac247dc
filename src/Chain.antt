-- ===== src/Chain.antt =====
-- The filter chain of a session, a doubly linked list with an index by name:
-- src/EIoFilterChain.cpp. Entries live at addresses of an explicit heap.
pub mod Linked
pub mod Represents
pub mod Insert
pub mod Add
pub mod Remove
pub mod Walk
pub mod Entries
pub mod Fire
pub mod Sample
mod Examples
use cxx_conet.Prelude.{
  ℕ, zero, suc, String, Bool, true, false, not, Option, none, some, List, [], ◌∷◌, ◌==◌, is_some,
  if◌then◌else◌,
}
use cxx_conet.Prelude.Exec.{
  Exec, ok, throws, illegal_argument, undefined, out_of_fuel, throw, pure, gets, modify, ◌>>=◌,
  ◌>>◌,
}
use cxx_conet.Prelude.Containers.{NameMap}

abbrev pub Ptr : Type 0
Ptr = ℕ

abbrev pub null : Ptr
null = 0

-- EntryImpl. A filter is known by its address; the owner and the NextFilter that is built with the
-- entry are fixed by the entry.
pub record Entry : Type 0 where
  pub prev_entry : Ptr
  pub next_entry : Ptr
  pub name : String
  pub filter : Ptr

abbrev pub Heap : Type 0
Heap = Ptr → Option Entry

unfoldable pub write : Heap → Ptr → Option Entry → Heap
write h p e a = if a == p then e else h a

module _ (N : NameMap Ptr) where
  open N use {Map, get as get_key, put as put_key, remove as remove_key}

  -- The fields of EIoFilterChain, with the memory that its entries stand in.
  pub record Chain : Type 0 where
    pub heap : Heap
    pub head : Ptr
    pub tail : Ptr
    pub name2entry : Map

module _ {N : NameMap Ptr} where
  open N use {empty as no_keys, get as get_key, put as put_key, remove as remove_key}

  unfoldable pub load : Ptr → Exec (Chain N) Entry
  load p c = elim (c.heap p) [ none ↦ throws undefined c | some e ↦ ok e c ]

  unfoldable pub store : Ptr → Option Entry → Exec (Chain N) (Unit {0})
  unfolding write
  store p e c = ok tt (record c { heap = write c.heap p e })

  -- `delete p`, which does nothing at the null pointer
  unfoldable pub delete : Option Ptr → Exec (Chain N) (Unit {0})
  unfolding store
  delete none = pure tt
  delete (some p) = store p none

  -- The constructor: `head` and `tail` are the addresses of the two entries, `f` and `g` those of
  -- their adapters.
  unfoldable pub new_chain : (head tail f g : Ptr) → Chain N
  unfolding write
  new_chain head tail f g = record {
    heap =
        write
          (write (λ _. none) head
            (some (record { prev_entry = null; next_entry = tail; name = "head"; filter = f })))
          tail (some (record { prev_entry = head; next_entry = null; name = "tail"; filter = g }));
    head = head;
    tail = tail;
    name2entry = no_keys;
  }

  unfoldable pub get_entry : String → Exec (Chain N) (Option Ptr)
  get_entry name = gets (λ c. get_key c.name2entry name)

  unfoldable pub contains : String → Exec (Chain N) Bool
  unfolding get_entry
  contains name = do e ← get_entry name; pure (is_some e)

  -- the loop of getEntry(EIoFilter*), from the entry `e`
  unfoldable pub find_loop : ℕ → Ptr → Ptr → Exec (Chain N) (Option Ptr)
  unfolding load
  find_loop zero filter e = throw out_of_fuel
  find_loop (suc n) filter e = do
    tail ← gets (λ c. c.tail)
    if e == tail then pure none else do
      entry ← load e
      if entry.filter == filter then pure (some e) else find_loop n filter entry.next_entry

  unfoldable pub get_entry_filter : ℕ → Ptr → Exec (Chain N) (Option Ptr)
  unfolding find_loop load
  get_entry_filter fuel filter = do
    head ← gets (λ c. c.head)
    first ← load head
    find_loop fuel filter first.next_entry

  unfoldable pub get_or_null : Option Ptr → Exec (Chain N) Ptr
  unfolding load
  get_or_null none = pure null
  get_or_null (some e) = do entry ← load e; pure entry.filter

  unfoldable pub get : String → Exec (Chain N) Ptr
  unfolding get_entry get_or_null
  get name = do e ← get_entry name; get_or_null e

  unfoldable pub check_addable : String → Exec (Chain N) (Unit {0})
  check_addable name = do
    used ← gets (λ c. is_some (get_key c.name2entry name))
    if used then throw illegal_argument else pure tt

  unfoldable pub found_or_throw : Option Ptr → Exec (Chain N) Ptr
  found_or_throw none = throw illegal_argument
  found_or_throw (some e) = pure e

  unfoldable pub check_old_name : String → Exec (Chain N) Ptr
  unfolding found_or_throw
  check_old_name base_name = do e ← gets (λ c. get_key c.name2entry base_name); found_or_throw e

  -- `delete name2entry->put(new EString(name), entry)`: `put` returns what the key had
  unfoldable pub put_name : String → Ptr → Exec (Chain N) (Unit {0})
  unfolding delete
  put_name name entry = do
    old ← gets (λ c. get_key c.name2entry name)
    modify (λ c. record c { name2entry = put_key c.name2entry name entry })
    delete old

  -- `fresh` is what `new EntryImpl` returns. Its constructor refuses a null filter.
  unfoldable pub register_ : (fresh : Ptr) → Ptr → String → Ptr → Exec (Chain N) (Unit {0})
  unfolding load store put_name
  register_ fresh prev_entry name filter = do
    prev ← load prev_entry
    if filter == null then throw illegal_argument else do
      store fresh (
          some (record {
            prev_entry = prev_entry;
            next_entry = prev.next_entry;
            name = name;
            filter = filter;
          }))
      next ← load prev.next_entry
      store prev.next_entry (some (record next { prev_entry = fresh }))
      prev' ← load prev_entry
      store prev_entry (some (record prev' { next_entry = fresh }))
      put_name name fresh

  unfoldable pub deregister : Ptr → Exec (Chain N) (Unit {0})
  unfolding load store
  deregister entry = do
    e ← load entry
    prev ← load e.prev_entry
    store e.prev_entry (some (record prev { next_entry = e.next_entry }))
    next ← load e.next_entry
    store e.next_entry (some (record next { prev_entry = e.prev_entry }))
    modify (λ c. record c { name2entry = remove_key c.name2entry e.name })

  unfoldable pub add_first : (fresh : Ptr) → String → Ptr → Exec (Chain N) (Unit {0})
  unfolding check_addable
  add_first fresh name filter = do
    check_addable name
    head ← gets (λ c. c.head)
    register_ fresh head name filter

  unfoldable pub add_last : (fresh : Ptr) → String → Ptr → Exec (Chain N) (Unit {0})
  unfolding check_addable load
  add_last fresh name filter = do
    check_addable name
    tail ← gets (λ c. c.tail)
    t ← load tail
    register_ fresh t.prev_entry name filter

  unfoldable pub add_before : (fresh : Ptr) → String → String → Ptr → Exec (Chain N) (Unit {0})
  unfolding check_addable load check_old_name
  add_before fresh base_name name filter = do
    base_entry ← check_old_name base_name
    check_addable name
    base ← load base_entry
    register_ fresh base.prev_entry name filter

  unfoldable pub add_after : (fresh : Ptr) → String → String → Ptr → Exec (Chain N) (Unit {0})
  unfolding check_addable check_old_name
  add_after fresh base_name name filter = do
    base_entry ← check_old_name base_name
    check_addable name
    register_ fresh base_entry name filter

  -- deregister an entry, free it, and return its filter
  unfoldable pub take_out : Ptr → Exec (Chain N) Ptr
  unfolding load store
  take_out entry = do deregister entry; e ← load entry; store entry none; pure e.filter

  unfoldable pub remove : String → Exec (Chain N) Ptr
  unfolding check_old_name
  remove name = do entry ← check_old_name name; take_out entry

  -- the loop of remove(EIoFilter*). Without a match the message calls `filter->toString()`.
  unfoldable pub remove_loop : ℕ → Ptr → Ptr → Exec (Chain N) Ptr
  unfolding load store
  remove_loop zero filter e = throw out_of_fuel
  remove_loop (suc n) filter e = do
    tail ← gets (λ c. c.tail)
    if e == tail then throw (if filter == null then undefined else illegal_argument) else do
      entry ← load e
      if entry.filter == filter
          then (do deregister e; store e none; pure filter)
          else remove_loop n filter entry.next_entry

  unfoldable pub remove_filter : ℕ → Ptr → Exec (Chain N) Ptr
  unfolding load
  remove_filter fuel filter = do
    head ← gets (λ c. c.head)
    first ← load head
    remove_loop fuel filter first.next_entry

  -- The loop of clear(), over the entries that the map's iterator yields while deregister takes their
  -- names out of the map: which these are is the library's affair, so they are an argument.
  unfoldable pub clear_loop : List Ptr → Exec (Chain N) (Unit {0})
  unfolding store
  clear_loop [] = pure tt
  clear_loop (e ∷ rest) = do deregister e; store e none; clear_loop rest
