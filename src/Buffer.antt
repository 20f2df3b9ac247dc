-- ===== src/Buffer.antt =====
-- The capacities of a buffer that grows and shrinks: src/EIoBuffer.cpp.
pub mod Capacity
pub mod Resize
pub mod Keeps
pub mod Growth
pub mod Expand
pub mod Slice
pub mod Sliced
pub mod Shrink
pub mod Shrunk
pub mod Access
pub mod Numbers
pub mod Indexed
pub mod Typed
pub mod Bytes
mod ByteLists
pub mod Appended
pub mod Text
pub mod Streams
pub mod Piped
pub mod Swept
pub mod Settings
pub mod Frozen
pub mod ArrayMemory
pub mod ArrayBlocks
mod BytesExamples
pub mod Search
pub mod Ordering
pub mod Sample
pub mod Arrays
mod Examples
use cxx_conet.Prelude.{
  ℕ, zero, suc, ◌+◌, ◌-◌, ◌*◌, ◌/◌, ◌%◌, ◌^◌, max, true, false, ltb, leb, ◌==◌, if◌then◌else◌, ℤ,
  pos, negsuc,
}

-- EInteger::MAX_VALUE
abbrev pub max_value : ℕ
max_value = 2 ^ 31 - 1

-- `highest_one_bit` is EInteger::highestOneBit of the Efc library. An int that is shifted keeps its low
-- 32 bits; from 2 ^ 31 on they are the pattern of a negative number.
module _ (highest_one_bit : ℕ → ℕ) where
  unfoldable pub normalize_capacity : ℤ → ℕ
  normalize_capacity (negsuc n) = max_value
  normalize_capacity (pos requested_capacity) =
      let new_capacity = highest_one_bit requested_capacity in
      let new_capacity =
        if ltb new_capacity requested_capacity then new_capacity * 2 % 2 ^ 32 else new_capacity in
      if leb (2 ^ 31) new_capacity then max_value else new_capacity

-- The loop of shrink(). `new_capacity` is unsigned, `min_capacity` not negative; a capacity below 2 ^ n
-- is halved fewer than `fuel` times where `fuel` is above n.
unfoldable pub shrink_loop : ℕ → (min_capacity new_capacity : ℕ) → ℕ
shrink_loop zero min_capacity new_capacity = new_capacity
shrink_loop (suc fuel) min_capacity new_capacity =
    let rest = shrink_loop fuel min_capacity (new_capacity / 2) in
    if ltb (new_capacity / 2) min_capacity
    then new_capacity
    else if min_capacity == 0
    then new_capacity / 2
    else rest

-- the capacity that shrink() allocates: that of the buffer if it stays
unfoldable pub shrink_capacity : (minimum_capacity limit capacity : ℕ) → ℕ
unfolding shrink_loop
shrink_capacity minimum_capacity limit capacity =
    if capacity == limit
    then capacity
    else let min_capacity = max minimum_capacity limit in
      max min_capacity (shrink_loop 32 min_capacity capacity)
