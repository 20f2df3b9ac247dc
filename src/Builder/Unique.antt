-- ===== src/Builder/Unique.antt =====
-- The builder never holds two filters of one name.
use cxx_conet.Prelude.{
  ℕ, zero, suc, ◌≡◌, refl, String, false, Option-cases, none, List, [], ◌∷◌, ◌==◌, arith, str_eq,
  eq_iff, length, Bool-cases, inl, inr,
}
use cxx_conet.Prelude.Exec.{state_of, ◌>>=◌}
use cxx_conet.Prelude.Containers.{CopyOnWriteArrayList, insert_at, remove_at}
use cxx_conet.Chain.{Ptr, null}
use cxx_conet.Builder.{
  Filling, find_name, get_entry, contains, new_entry, register_, check_base_name, add_first,
  add_last, before_loop, after_loop, add_before, add_after, remove_loop, remove, remove_filter_loop,
  remove_filter, clear,
}

-- no two entries of the list have one name
unfoldable pub UniqueNames : List Filling → Type 0
unfolding find_name
UniqueNames [] = Unit
UniqueNames (e ∷ rest) = (find_name e.name rest ≡ none) × UniqueNames rest

find_name-insert_at :
    (k : String) (i : ℕ) (e : Filling) (xs : List Filling)
    → str_eq e.name k ≡ false
    → find_name k xs ≡ none
    → find_name k (insert_at i e xs) ≡ none
unfolding find_name
find_name-insert_at k zero e xs ne out = ground arith
find_name-insert_at k (suc i) e [] ne out = ground arith
find_name-insert_at k (suc i) e (x ∷ xs) ne out = ground (arith, find_name-insert_at k i e xs)

insert_at-UniqueNames :
    (i : ℕ) (e : Filling) (xs : List Filling)
    → UniqueNames xs
    → find_name e.name xs ≡ none
    → UniqueNames (insert_at i e xs)
unfolding find_name UniqueNames
insert_at-UniqueNames zero e xs u out = (out, u)
insert_at-UniqueNames (suc i) e [] u out = (refl, tt)
insert_at-UniqueNames (suc i) e (x ∷ xs) u out = (
  find_name-insert_at x.name i e xs (ground (arith, eq_iff e.name x.name, eq_iff x.name e.name))
      u.0,
  insert_at-UniqueNames i e xs u.1 (ground arith),
)

find_name-remove_at :
    (k : String) (i : ℕ) (xs : List Filling)
    → find_name k xs ≡ none
    → find_name k (remove_at i xs) ≡ none
unfolding find_name
find_name-remove_at k zero [] out = refl
find_name-remove_at k (suc i) [] out = refl
find_name-remove_at k zero (x ∷ xs) out = ground arith
find_name-remove_at k (suc i) (x ∷ xs) out = ground (arith, find_name-remove_at k i xs)

remove_at-UniqueNames : (i : ℕ) (xs : List Filling) → UniqueNames xs → UniqueNames (remove_at i xs)
unfolding UniqueNames
remove_at-UniqueNames zero [] u = u
remove_at-UniqueNames (suc i) [] u = u
remove_at-UniqueNames zero (x ∷ xs) u = u.1
remove_at-UniqueNames (suc i) (x ∷ xs) u =
    (find_name-remove_at x.name i xs u.0, remove_at-UniqueNames i xs u.1)

module _ (L : CopyOnWriteArrayList Filling) where
  open L use {
    Repr, to_list, add_at, remove_at_index, to_list-add_at, to_list-remove_at, to_list-clear,
  }

  abbrev pub Unique : Repr → Type 0
  Unique l = UniqueNames (to_list l)

  register_-Unique :
      (i : ℕ) (e : Filling) (l : Repr) → Unique l → Unique (state_of (register_ L i e l))
  unfolding register_ contains get_entry
  register_-Unique i e l u = elim (Option-cases (find_name e.name (to_list l))) [
    | inl out ↦ rw (out, to_list-add_at i e l) (insert_at-UniqueNames i e (to_list l) u out)
    | inr (f, hit) ↦ rw hit u
  ]

  new-Unique :
      (i : ℕ) (name : String) (filter : Ptr) (l : Repr)
      → Unique l
      → Unique (state_of ((new_entry L name filter >>= register_ L i) l))
  unfolding new_entry
  new-Unique i name filter l u = elim (Bool-cases (filter == null)) [
    | inl null ↦ rw null u
    | inr ne ↦ rw ne (register_-Unique i (record { name = name; filter = filter }) l u)
  ]

  before_loop-Unique :
      (base name : String) (filter : Ptr) (i : ℕ) (es : List Filling) (l : Repr)
      → Unique l
      → Unique (state_of (before_loop L base name filter i es l))
  unfolding before_loop
  before_loop-Unique base name filter i [] l u = u
  before_loop-Unique base name filter i (e ∷ es) l u = elim (Bool-cases (str_eq e.name base)) [
    | inl hit ↦ rw hit (new-Unique i name filter l u)
    | inr miss ↦ rw miss (before_loop-Unique base name filter (suc i) es l u)
  ]

  after_loop-Unique :
      (base name : String) (filter : Ptr) (i : ℕ) (es : List Filling) (l : Repr)
      → Unique l
      → Unique (state_of (after_loop L base name filter i es l))
  unfolding after_loop
  after_loop-Unique base name filter i [] l u = u
  after_loop-Unique base name filter i (e ∷ es) l u = elim (Bool-cases (str_eq e.name base)) [
    | inl hit ↦ rw hit (new-Unique (suc i) name filter l u)
    | inr miss ↦ rw miss (after_loop-Unique base name filter (suc i) es l u)
  ]

  remove_at-Unique : (i : ℕ) (l : Repr) → Unique l → Unique (remove_at_index i l)
  remove_at-Unique i l u = rw (to_list-remove_at i l) (remove_at-UniqueNames i (to_list l) u)

  remove_loop-Unique :
      (name : String) (i : ℕ) (es : List Filling) (l : Repr)
      → Unique l
      → Unique (state_of (remove_loop L name i es l))
  unfolding remove_loop
  remove_loop-Unique name i [] l u = u
  remove_loop-Unique name i (e ∷ es) l u = elim (Bool-cases (str_eq e.name name)) [
    | inl hit ↦ rw hit (remove_at-Unique i l u)
    | inr miss ↦ rw miss (remove_loop-Unique name (suc i) es l u)
  ]

  remove_filter_loop-Unique :
      (filter : Ptr) (i : ℕ) (es : List Filling) (l : Repr)
      → Unique l
      → Unique (state_of (remove_filter_loop L filter i es l))
  unfolding remove_filter_loop
  remove_filter_loop-Unique filter i [] l u = u
  remove_filter_loop-Unique filter i (e ∷ es) l u = elim (Bool-cases (e.filter == filter)) [
    | inl hit ↦ rw hit (remove_at-Unique i l u)
    | inr miss ↦ rw miss (remove_filter_loop-Unique filter (suc i) es l u)
  ]

  -- the operations that change the builder
  pub data Op : Type 0 where
    op_add_first op_add_last : String → Ptr → Op
    op_add_before op_add_after : String → String → Ptr → Op
    op_remove : String → Op
    op_remove_filter : Ptr → Op
    op_clear : Op

  -- the entries after an operation, whether it returned or threw
  unfoldable pub after : Op → Repr → Repr
  after (op_add_first name filter) l = state_of (add_first L name filter l)
  after (op_add_last name filter) l = state_of (add_last L name filter l)
  after (op_add_before base name filter) l = state_of (add_before L base name filter l)
  after (op_add_after base name filter) l = state_of (add_after L base name filter l)
  after (op_remove name) l = state_of (remove L name l)
  after (op_remove_filter filter) l = state_of (remove_filter L filter l)
  after op_clear l = state_of (clear L l)

  -- No operation of the builder brings two filters of one name together, whether it returns or
  -- throws.
  pub after-Unique : (op : Op) (l : Repr) → Unique l → Unique (after op l)
  unfolding after add_first add_last add_before add_after remove remove_filter clear UniqueNames
      check_base_name
  after-Unique (op_add_first name filter) l u = new-Unique 0 name filter l u
  after-Unique (op_add_last name filter) l u = elim (Bool-cases (filter == null)) [
    | inl null ↦ rw (null, new_entry) u
    | inr ne ↦
        rw (ne, new_entry)
          (register_-Unique (length (to_list l)) (record { name = name; filter = filter }) l u)
  ]
  after-Unique (op_add_before base name filter) l u = elim (Bool-cases (contains L base l)) [
    | inl known ↦ rw known (before_loop-Unique base name filter 0 (to_list l) l u)
    | inr unknown ↦ rw unknown u
  ]
  after-Unique (op_add_after base name filter) l u = elim (Bool-cases (contains L base l)) [
    | inl known ↦ rw known (after_loop-Unique base name filter 0 (to_list l) l u)
    | inr unknown ↦ rw unknown u
  ]
  after-Unique (op_remove name) l u = remove_loop-Unique name 0 (to_list l) l u
  after-Unique (op_remove_filter filter) l u = elim (Bool-cases (filter == null)) [
    | inl null ↦ rw null u
    | inr ne ↦ rw ne (remove_filter_loop-Unique filter 0 (to_list l) l u)
  ]
  after-Unique op_clear l u = rw (to_list-clear l) tt
