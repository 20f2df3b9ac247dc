-- ===== src/Builder/Examples.antt =====
-- The theorems on the builder at a concrete builder.
use cxx_conet.Prelude.{ℕ, ◌+◌, ◌≡◌, refl, List, [], ◌∷◌, arith}
use cxx_conet.Prelude.Exec.{ok}
use cxx_conet.Prelude.Containers.{plain_list}
use cxx_conet.Chain.{Ptr, Chain}
use cxx_conet.Chain.Represents.{IsChain}
use cxx_conet.Chain.Insert.{cell}
use cxx_conet.Chain.Sample.{names, front, back, log, codec, two_cells, two, two-IsChain}
use cxx_conet.Builder.{Filling, find_name, add_before, before_loop, build_filter_chain}
use cxx_conet.Builder.Build.{Fresh, build_filter_chain-append}
use cxx_conet.Builder.Unique.{UniqueNames, op_add_before, after, after-Unique}

abbrev zip_and_ssl : List Filling
zip_and_ssl = record { name = "zip"; filter = 105 } ∷ record { name = "ssl"; filter = 106 } ∷ []

abbrev allocate : ℕ → Ptr
allocate n = n + 5

allocate-Fresh : Fresh allocate front back two_cells 0
allocate-Fresh = record {
  not_null = λ j. ground arith;
  new = λ j le. ground arith;
  different = λ j k lt. ground arith;
}

build_filter_chain-append_example :
    (c' : Chain names) × (build_filter_chain allocate (plain_list Filling) zip_and_ssl two
      ≡ ok tt c')
    × IsChain c' front back (log ∷ codec ∷ cell 5 "zip" 105 ∷ cell 6 "ssl" 106 ∷ [])
unfolding find_name
build_filter_chain-append_example =
    build_filter_chain-append allocate (plain_list Filling) zip_and_ssl two_cells two two-IsChain
      (refl, refl, refl, (refl, refl, refl, tt)) allocate-Fresh

zip_and_ssl-UniqueNames : UniqueNames zip_and_ssl
unfolding UniqueNames find_name
zip_and_ssl-UniqueNames = (refl, (refl, tt))

after-Unique_example :
    UniqueNames (after (plain_list Filling) (op_add_before "ssl" "log" 103) zip_and_ssl)
after-Unique_example =
    after-Unique (plain_list Filling) (op_add_before "ssl" "log" 103) zip_and_ssl
      zip_and_ssl-UniqueNames

-- the filter comes before its base
add_before_runs :
    add_before (plain_list Filling) "ssl" "log" 103 zip_and_ssl
    ≡ ok tt (
        record { name = "zip"; filter = 105 }
        ∷ record { name = "log"; filter = 103 }
        ∷ record { name = "ssl"; filter = 106 }
        ∷ [])
unfolding add_before before_loop
add_before_runs = refl
