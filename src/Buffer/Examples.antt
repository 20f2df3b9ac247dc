-- ===== src/Buffer/Examples.antt =====
-- The theorems on capacities at concrete numbers.
use cxx_conet.Prelude.{
  ◌+◌, ℕ, Option, some, ◌⊎◌, true, false, none, ◌*◌, ◌≤◌, ◌<◌, max, ◌≡◌, refl, arith, pos,
}
use cxx_conet.Prelude.Exec.{ok}
use cxx_conet.Buffer.Arrays.{array_buffers}
use cxx_conet.Buffer.Resize.{Buffer, expand}
use cxx_conet.Buffer.Keeps.{Grown}
use cxx_conet.Buffer.Expand.{expand-Grown}
use cxx_conet.Buffer.{shrink_loop, shrink_capacity}
use cxx_conet.Buffer.Access.{put_number, get_number_at}
use cxx_conet.Buffer.Numbers.{put_number-get_number_at}
use cxx_conet.Buffer.ArrayMemory.{array_memory, array_slices, pair_of}
use cxx_conet.Buffer.Slice.{get_slice}
use cxx_conet.Buffer.Sliced.{get_slice-bytes}
use cxx_conet.Buffer.Shrink.{shrink}
use cxx_conet.Buffer.Shrunk.{shrink-Grown}
use cxx_conet.Buffer.Search.{index_of, compare_to}
use cxx_conet.Buffer.Ordering.{FirstAt, unread, index_of-FirstAt, compare_to-unread}
use cxx_conet.Buffer.Sample.{highest_one_bit, highest_one_bit-HighestOneBit}

-- 1000 is halved to 500, 250 and 125
shrink_capacity_of_1000 : shrink_capacity 16 100 1000 ≡ 125
unfolding shrink_capacity shrink_loop
shrink_capacity_of_1000 = refl

-- a buffer of 16 bytes that grows by itself
abbrev pub small : Buffer array_buffers
small = record {
  buf = array_buffers.allocate 16;
  derived = false;
  auto_expand = true;
  auto_shrink = false;
  recapacity_allowed = true;
  minimum_capacity = 16;
}

expand-Grown_example :
    (size : ℕ) × (c : Buffer array_buffers) × (expand array_buffers highest_one_bit
        (pos 10)
        20
        false
        small
      ≡ ok tt c)
    × (30 ≤ size)
    × (16 ≤ size)
    × (size ≡ 30)
    × Grown array_buffers small
        (record { capacity = size; limit = 30; position = 0; mark = none })
        16
        c
expand-Grown_example =
    expand-Grown array_buffers highest_one_bit highest_one_bit-HighestOneBit small 10 20 false refl
      (omega arith)

put_number-get_number_at_example :
    (b' : Buffer array_buffers) × (put_number array_memory highest_one_bit pair_of (7, 9) small
      ≡ ok tt b')
    × ((array_buffers.marks b'.buf).position ≡ 2)
    × (get_number_at array_memory highest_one_bit pair_of 0 b' ≡ ok (7, 9) b')
    × ((k : ℕ) → k < 0 → array_buffers.get_at b'.buf k ≡ array_buffers.get_at small.buf k)
put_number-get_number_at_example =
    put_number-get_number_at array_memory highest_one_bit pair_of highest_one_bit-HighestOneBit
      small (7, 9) refl refl (omega arith)

index_of-FirstAt_example :
    FirstAt (array_buffers.get_at small.buf) 0 0 16 (index_of array_buffers 0 small)
index_of-FirstAt_example = index_of-FirstAt array_buffers 0 small

compare_to-unread_example :
    (compare_to array_buffers small small ≡ pos 0
      → unread array_buffers small ≡ unread array_buffers small)
    × (unread array_buffers small ≡ unread array_buffers small
        → compare_to array_buffers small small ≡ pos 0)
compare_to-unread_example = compare_to-unread array_buffers small small

-- ten bytes of 64 are in use, and three of them have been read
abbrev pub wide : Buffer array_buffers
wide = record small {
  buf = record {
    numbers = record { capacity = 64; limit = 10; position = 3; mark = some 2 };
    bytes = λ i. i;
    position-limit = omega arith;
    limit-capacity = omega arith;
    mark-position = omega arith;
  };
}

shrink-Grown_example :
    (size : ℕ) × (m : Option ℕ) × (c : Buffer array_buffers) × (shrink array_buffers wide ≡ ok tt c)
    × (16 ≤ size)
    × (size ≤ 64)
    × (size < max 16 10 * 2)
    × ((m ≡ none) ⊎ ((m ≡ some 2) × (size ≡ 64)))
    × Grown array_buffers wide (record { capacity = size; limit = 10; position = 3; mark = m }) 10 c
shrink-Grown_example =
    shrink-Grown array_buffers wide refl (omega arith) (omega arith) (omega arith)

abbrev shared : Buffer array_buffers
shared = record wide { auto_expand = false }

get_slice-bytes_example :
    (s c : Buffer array_buffers) × (get_slice array_slices highest_one_bit (pos 4) shared ≡ ok s c)
    × ((array_buffers.marks s.buf).position ≡ 0)
    × ((array_buffers.marks s.buf).limit ≡ 4)
    × ((i : ℕ) → i < 4 → array_buffers.get_at s.buf i ≡ 3 + i)
    × ((array_buffers.marks c.buf).position ≡ 7)
    × ((array_buffers.marks c.buf).limit ≡ 10)
    × ((array_buffers.marks c.buf).capacity ≡ 64)
    × ((i : ℕ) → array_buffers.get_at c.buf i ≡ i)
    × ((s.recapacity_allowed ≡ false) × (c.recapacity_allowed ≡ false))
get_slice-bytes_example =
    get_slice-bytes array_slices highest_one_bit shared 4 refl (omega arith) (omega arith)
