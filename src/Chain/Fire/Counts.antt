-- ===== src/Chain/Fire/Counts.antt =====
-- What the chain counts of a file that is sent.
use cxx_conet.Prelude.{ℕ, ◌%◌, ◌^◌, ◌<◌, ◌≤◌, ◌≡◌, Option, none, some, arith, pos, ltb, false}
use cxx_conet.Prelude.Exec.{ok}
use cxx_conet.Statistics.{Doubles}
use cxx_conet.Session.{World, to_int, increase_written_bytes}
use cxx_conet.Chain.Fire.{count_out}

to_int-small : (n : ℕ) → n < 2 ^ 31 → to_int n ≡ pos n
unfolding to_int
to_int-small n small = ground arith

counts_nothing :
    {F : Doubles} {U : Type 0} (n : ℕ) (w : World F U)
    → 2 ^ 31 ≤ n
    → n < 2 ^ 32
    → increase_written_bytes (to_int n) w.clock w ≡ ok tt w
unfolding to_int increase_written_bytes
counts_nothing n w large short =
    let negative : ltb (n % 2 ^ 32) (2 ^ 31) ≡ false = ground arith in rw negative

-- The bytes of a file that is sent are counted when it is shorter than 2 ^ 31 bytes. Of a file from
-- there up to 2 ^ 32 bytes nothing is counted: its length becomes a negative `int`.
pub count_out-file :
    {F : Doubles} {U Message : Type 0} (remaining file_length : Message → Option ℕ) (o : Message)
    (n : ℕ) (w : World F U)
    → remaining o ≡ none
    → file_length o ≡ some n
    → (n < 2 ^ 31
        → count_out remaining file_length (some o) w ≡ increase_written_bytes (pos n) w.clock w)
      × (2 ^ 31 ≤ n → n < 2 ^ 32 → count_out remaining file_length (some o) w ≡ ok tt w)
unfolding count_out
count_out-file remaining file_length o n w no_buffer file = (
  λ small. rw (no_buffer, file, to_int-small n small),
  λ large short. rw (no_buffer, file) (counts_nothing n w large short),
)
