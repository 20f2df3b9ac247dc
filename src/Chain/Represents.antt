-- ===== src/Chain/Represents.antt =====
-- What a chain stands for: its filters in order, each with its name and its address.
use cxx_conet.Prelude.{
  ◌≡◌, refl, String, false, Option, none, some, List, [], ◌∷◌, ◌++◌, arith, str_eq, eq_iff,
  if◌then◌else◌, Bool-cases, inl, inr,
}
use cxx_conet.Prelude.Containers.{NameMap}
use cxx_conet.Prelude.Exec.{ok}
use cxx_conet.Chain.{Ptr, null, Entry, Chain, load}
use cxx_conet.Chain.Linked.{Cell, has, Distinct, Linked}

-- the address under a name
abbrev pub find_name : String → List Cell → Option Ptr
find_name k [] = none
find_name k (c ∷ cs) = if str_eq c.name k then some c.ptr else find_name k cs

abbrev pub UniqueNames : List Cell → Type 0
UniqueNames [] = Unit
UniqueNames (c ∷ cs) = (find_name c.name cs ≡ none) × UniqueNames cs

-- the entries of the list, between those of the two ends
abbrev pub nodes : Cell → Cell → List Cell → List Cell
nodes front back xs = front ∷ (xs ++ back ∷ [])

-- The chain holds the cells `xs` between its ends `front` and `back`, no two of the same name, and
-- its index has exactly their names.
pub record IsChain {N : NameMap Ptr} (c : Chain N) (front back : Cell) (xs : List Cell)
    : Type 0 where
  pub head : c.head ≡ front.ptr
  pub tail : c.tail ≡ back.ptr
  pub distinct : Distinct (nodes front back xs)
  pub not_null : has null (nodes front back xs) ≡ false
  pub linked : Linked c.heap null (nodes front back xs) null
  pub names : (k : String) → N.get c.name2entry k ≡ find_name k xs
  pub unique : UniqueNames xs

pub find_name-insert :
    (k : String) (us vs : List Cell) (f : Cell)
    → find_name f.name (us ++ vs) ≡ none
    → find_name k (us ++ f ∷ vs) ≡ (if str_eq f.name k then some f.ptr else find_name k (us ++ vs))
find_name-insert k [] vs f out = refl
find_name-insert k (u ∷ us) vs f out =
    ground
      (arith, find_name-insert k us vs f, eq_iff u.name f.name, eq_iff u.name k, eq_iff f.name k)

-- a name that is nowhere among the cells is still nowhere after a cell of another name joins
pub UniqueNames-insert :
    (us vs : List Cell) (f : Cell)
    → UniqueNames (us ++ vs)
    → find_name f.name (us ++ vs) ≡ none
    → UniqueNames (us ++ f ∷ vs)
UniqueNames-insert [] vs f u out = (out, u)
UniqueNames-insert (x ∷ us) vs f u out = (
  ground (arith, u.0, find_name-insert x.name us vs f, eq_iff f.name x.name, eq_iff x.name f.name),
  UniqueNames-insert us vs f u.1 (ground arith),
)

pub find_name-miss :
    (k : String) (us vs : List Cell) (f : Cell)
    → find_name k (us ++ f ∷ vs) ≡ none
    → str_eq f.name k ≡ false
find_name-miss k [] vs f h = ground arith
find_name-miss k (u ∷ us) vs f h = find_name-miss k us vs f (ground arith)

pub find_name-delete :
    (k : String) (us vs : List Cell) (f : Cell)
    → UniqueNames (us ++ f ∷ vs)
    → find_name k (us ++ vs) ≡ (if str_eq f.name k then none else find_name k (us ++ f ∷ vs))
find_name-delete k [] vs f u = ground (arith, u.0, eq_iff f.name k)
find_name-delete k (x ∷ us) vs f u = ground (
  arith,
  find_name-delete k us vs f u.1,
  find_name-miss x.name us vs f u.0,
  eq_iff f.name x.name,
  eq_iff x.name k,
  eq_iff f.name k,
)

pub UniqueNames-delete :
    (us vs : List Cell) (f : Cell) → UniqueNames (us ++ f ∷ vs) → UniqueNames (us ++ vs)
UniqueNames-delete [] vs f u = u.1
UniqueNames-delete (x ∷ us) vs f u =
    (ground (arith, u.0, find_name-delete x.name us vs f u.1), UniqueNames-delete us vs f u.1)

-- a name finds the cell that has it
pub find_name-at :
    (us vs : List Cell) (f : Cell)
    → UniqueNames (us ++ f ∷ vs)
    → find_name f.name (us ++ f ∷ vs) ≡ some f.ptr
find_name-at [] vs f u = ground (arith, eq_iff f.name f.name)
find_name-at (x ∷ us) vs f u = ground (
  arith,
  find_name-at us vs f u.1,
  find_name-miss x.name us vs f u.0,
  eq_iff f.name x.name,
  eq_iff x.name f.name,
)

-- the cell that a name finds, with what stands around it
pub record Split (k : String) (p : Ptr) (xs : List Cell) : Type 0 where
  pub before : List Cell
  pub cell : Cell
  pub after : List Cell
  pub parts : xs ≡ before ++ cell ∷ after
  pub name : cell.name ≡ k
  pub ptr : cell.ptr ≡ p

pub find_name-Split :
    (k : String) (p : Ptr) (xs : List Cell) → find_name k xs ≡ some p → Split k p xs
find_name-Split k p [] h = cc
find_name-Split k p (x ∷ xs) h = elim (Bool-cases (str_eq x.name k)) [
  | inl hit ↦ record {
    before = [];
    cell = x;
    after = xs;
    parts = refl;
    name = (eq_iff x.name k).0 hit;
    ptr = ground arith;
  }
  | inr miss ↦
      (let rest = find_name-Split k p xs (ground arith) in
        record {
          before = x ∷ rest.before;
          cell = rest.cell;
          after = rest.after;
          parts = cc rest.parts;
          name = rest.name;
          ptr = rest.ptr;
        })
]

pub load-ok :
    {N : NameMap Ptr} {p : Ptr} {e : Entry} (c : Chain N) → c.heap p ≡ some e → load p c ≡ ok e c
unfolding load
load-ok c at = rw (at, load)
