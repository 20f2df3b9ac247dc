-- ===== src/Builder/Build.antt =====
-- What buildFilterChain makes of a chain.
use mathlib.Core.List.{append_assoc, append-nil}
use mathlib.Core.Path.{subst, subst⁻¹}
use cxx_conet.Prelude.{
  ℕ, suc, ◌<◌, ◌≤◌, ◌≡◌, refl, ◌∙◌, String, false, none, List, [], ◌∷◌, ◌++◌, ◌==◌, arith, str_eq,
  eq_iff,
}
use cxx_conet.Prelude.Exec.{ok}
use cxx_conet.Prelude.Containers.{CopyOnWriteArrayList, NameMap}
use cxx_conet.Chain.{Ptr, null, Chain}
use cxx_conet.Chain.Linked.{Cell, has}
use cxx_conet.Chain.Represents.{nodes, IsChain, find_name-insert}
use cxx_conet.Chain.Represents
use cxx_conet.Chain.Insert.{cell}
use cxx_conet.Chain.Add.{add_last-append}
use cxx_conet.Builder.{Filling, find_name, build_loop, build_filter_chain}

-- the cells of the entries, from the i-th allocation on
abbrev pub cells : (ℕ → Ptr) → ℕ → List Filling → List Cell
cells allocate i [] = []
cells allocate i (e ∷ rest) = cell (allocate i) e.name e.filter ∷ cells allocate (suc i) rest

-- Entries that can join a chain: the name of each is none of the chain's and of no later entry.
abbrev pub CanFill : List Cell → List Filling → Type 0
CanFill xs [] = Unit
CanFill xs (e ∷ rest) =
    (Represents.find_name e.name xs ≡ none)
    × ((e.filter == null) ≡ false)
    × (find_name e.name rest ≡ none)
    × CanFill xs rest

-- Addresses that are null, of the chain, or given out twice are not among those allocated.
pub record Fresh (allocate : ℕ → Ptr) (front back : Cell) (xs : List Cell) (i : ℕ) : Type 0 where
  pub not_null : (j : ℕ) → (null == allocate j) ≡ false
  pub new : (j : ℕ) → i ≤ j → has (allocate j) (nodes front back xs) ≡ false
  pub different : (j k : ℕ) → j < k → (allocate k == allocate j) ≡ false

has-among :
    (a p : Ptr) (name : String) (filter : Ptr) (front back : Cell) (xs : List Cell)
    → (a == p) ≡ false
    → has a (nodes front back xs) ≡ false
    → has a (nodes front back (xs ++ cell p name filter ∷ [])) ≡ false
has-among a p name filter front back [] ne out = ground arith
has-among a p name filter front back (x ∷ xs) ne out =
    ground (arith, has-among a p name filter front back xs)

CanFill-append :
    (xs : List Cell) (p : Ptr) (e : Filling) (rest : List Filling)
    → CanFill xs rest
    → Represents.find_name e.name xs ≡ none
    → find_name e.name rest ≡ none
    → CanFill (xs ++ cell p e.name e.filter ∷ []) rest
unfolding find_name
CanFill-append xs p e [] can unused out = tt
CanFill-append xs p e (r ∷ rest) can unused out =
    let grown =
      find_name-insert r.name xs [] (cell p e.name e.filter) (rw (append-nil xs) unused) in
    let known : Represents.find_name r.name (xs ++ []) ≡ none = rw (append-nil xs) can.0 in
    let miss : str_eq e.name r.name ≡ false =
      ground (arith, eq_iff r.name e.name, eq_iff e.name r.name) in
    (grown ∙ rw miss known, can.1, can.2, CanFill-append xs p e rest can.3 unused (ground arith))

Fresh-append :
    (allocate : ℕ → Ptr) (front back : Cell) (xs : List Cell) (i : ℕ) (name : String) (filter : Ptr)
    → Fresh allocate front back xs i
    → Fresh allocate front back (xs ++ cell (allocate i) name filter ∷ []) (suc i)
Fresh-append allocate front back xs i name filter f = record {
  not_null = f.not_null;
  new = λ j le.
      has-among (allocate j) (allocate i) name filter front back xs (f.different i j (omega arith))
        (f.new j (omega arith));
  different = f.different;
}

module _ {N : NameMap Ptr} {front back : Cell} (allocate : ℕ → Ptr) where
  build_loop-IsChain :
      (es : List Filling) (xs : List Cell) (i : ℕ) (c : Chain N)
      → IsChain c front back xs
      → CanFill xs es
      → Fresh allocate front back xs i
      → (c' : Chain N) × (build_loop allocate i es c ≡ ok tt c')
        × IsChain c' front back (xs ++ cells allocate i es)
  unfolding build_loop
  build_loop-IsChain [] xs i c is can fresh =
      (c, refl, subst⁻¹ (IsChain c front back) (append-nil xs) is)
  build_loop-IsChain (e ∷ rest) xs i c is can fresh =
      let (c1, ran, is1) = add_last-append {c = c} (allocate i) e.name e.filter xs is (record {
        new = fresh.new i (omega arith);
        new_not_null = fresh.not_null i;
        filter_not_null = can.1;
        unused = can.0;
      }) in
      let (c2, ran2, is2) =
        build_loop-IsChain rest (xs ++ cell (allocate i) e.name e.filter ∷ []) (suc i) c1 is1
          (CanFill-append xs (allocate i) e rest can.3 can.0 can.2)
          (Fresh-append allocate front back xs i e.name e.filter fresh) in
      (
        c2,
        simp ran ran2,
        subst (IsChain c2 front back)
            (append_assoc xs (cell (allocate i) e.name e.filter ∷ []) (cells allocate (suc i) rest))
            is2,
      )

  -- A chain with the filters `xs` gets the builder's filters behind them, in the builder's order and
  -- under their names, when no two names meet, no filter is null and the addresses are new.
  pub build_filter_chain-append :
      (L : CopyOnWriteArrayList Filling) (entries : L.Repr) (xs : List Cell) (c : Chain N)
      → IsChain c front back xs
      → CanFill xs (L.to_list entries)
      → Fresh allocate front back xs 0
      → (c' : Chain N) × (build_filter_chain allocate L entries c ≡ ok tt c')
        × IsChain c' front back (xs ++ cells allocate 0 (L.to_list entries))
  unfolding build_filter_chain
  build_filter_chain-append L entries xs c = build_loop-IsChain (L.to_list entries) xs 0 c
