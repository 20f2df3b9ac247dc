-- ===== src/Statistics/Sample.antt =====
-- Whole numbers for doubles, and a service of two threads, for the examples.
use cxx_conet.Prelude.{ℕ, ◌*◌, ◌/◌, ltb}
use cxx_conet.Statistics.{Doubles}

abbrev pub whole_numbers : Doubles
whole_numbers = record {
  Double = ℕ;
  zero_double = 0;
  gtb = λ a b. ltb b a;
  rate = λ n interval. n * 1000 / interval;
}
