-- ===== src/Chain/Examples.antt =====
-- The theorems on chains at concrete chains.
use cxx_conet.Prelude.{◌≡◌, refl, [], ◌∷◌, none}
use cxx_conet.Prelude.Exec.{ok}
use cxx_conet.Chain.{Chain, add_last, remove}
use cxx_conet.Chain.Linked.{Cell}
use cxx_conet.Chain.Represents.{IsChain}
use cxx_conet.Chain.Insert.{cell, CanJoin}
use cxx_conet.Chain.Add.{add_last-append}
use cxx_conet.Chain.Remove.{remove_lem}
use cxx_conet.Chain.Sample.{names, front, back, log, codec, two_cells, two, two-IsChain}

abbrev zip : Cell
zip = cell 5 "zip" 105

zip-CanJoin : CanJoin front back two_cells zip
zip-CanJoin = record { new = refl; new_not_null = refl; filter_not_null = refl; unused = refl }

add_last-append_example :
    (c' : Chain names) × (add_last 5 "zip" 105 two ≡ ok tt c')
    × IsChain c' front back (log ∷ codec ∷ zip ∷ [])
add_last-append_example = add_last-append {c = two} 5 "zip" 105 two_cells two-IsChain zip-CanJoin

remove_lem_example :
    (c' : Chain names) × (remove "log" two ≡ ok 103 c')
    × IsChain c' front back (codec ∷ [])
    × (c'.heap 3 ≡ none)
remove_lem_example = remove_lem {c = two} [] (codec ∷ []) log two-IsChain
