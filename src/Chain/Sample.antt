-- ===== src/Chain/Sample.antt =====
-- A chain of two filters, for the examples.
use cxx_conet.Prelude.{refl, none, some, List, [], ◌∷◌, ◌==◌, str_eq, if◌then◌else◌}
use cxx_conet.Prelude.Containers.{NameMap, function_map}
use cxx_conet.Chain.{Ptr, null, Heap, Chain}
use cxx_conet.Chain.Linked.{Cell, entry}
use cxx_conet.Chain.Represents.{IsChain}
use cxx_conet.Chain.Insert.{cell}

abbrev pub names : NameMap Ptr
names = function_map Ptr

abbrev pub front : Cell
front = cell 1 "head" 101

abbrev pub back : Cell
back = cell 2 "tail" 102

abbrev pub log : Cell
log = cell 3 "log" 103

abbrev pub codec : Cell
codec = cell 4 "codec" 104

abbrev pub two_cells : List Cell
two_cells = log ∷ codec ∷ []

abbrev pub two_heap : Heap
two_heap p =
    if p == 1
    then some (entry null 3 front)
    else if p == 2
    then some (entry 4 null back)
    else if p == 3
    then some (entry 1 4 log)
    else if p == 4
    then some (entry 3 2 codec)
    else none

abbrev pub two_names : names.Map
two_names k = if str_eq "log" k then some 3 else (if str_eq "codec" k then some 4 else none)

abbrev pub two : Chain names
two = record { heap = two_heap; head = 1; tail = 2; name2entry = two_names }

pub two-IsChain : IsChain two front back two_cells
two-IsChain = record {
  head = refl;
  tail = refl;
  distinct = (refl, (refl, (refl, (refl, tt))));
  not_null = refl;
  linked = (refl, (refl, (refl, (refl, tt))));
  names = λ k. refl;
  unique = (refl, (refl, tt));
}
