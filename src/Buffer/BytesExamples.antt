-- ===== src/Buffer/BytesExamples.antt =====
-- A greeting in a buffer of 16 bytes that grows, such a buffer that is swept, and a number at an index.
use cxx_conet.Prelude.{ℕ, ◌+◌, ◌≤◌, ◌<◌, ◌≡◌, refl, false, some, List, [], ◌∷◌, arith}
use mathlib.Core.List.{flatten}
use cxx_conet.Prelude.Exec.{ok}
use cxx_conet.Buffer.Arrays.{array_buffers}
use cxx_conet.Buffer.ArrayMemory.{array_memory, array_slices, pair_of}
use cxx_conet.Buffer.ArrayBlocks.{array_blocks}
use cxx_conet.Buffer.Resize.{Buffer, on_buf}
use cxx_conet.Buffer.Sample.{highest_one_bit, highest_one_bit-HighestOneBit}
use cxx_conet.Buffer.Bytes.{sweep, put_string, get_string, flip_buffer}
use cxx_conet.Buffer.Swept.{sweep-all}
use cxx_conet.Buffer.Text.{put_string-get_string}
use cxx_conet.Buffer.Streams.{available, write_all, read_all}
use cxx_conet.Buffer.Piped.{write_all-read_all}
use cxx_conet.Buffer.Examples.{small, wide}
use cxx_conet.Buffer.Access.{put_number_at, get_number_at}
use cxx_conet.Buffer.Indexed.{put_number_at-get_number_at}

abbrev fixed_size : Buffer array_buffers
fixed_size = record small { auto_expand = false }

sweep-all_example :
    (c : Buffer array_buffers) × (sweep array_slices array_memory array_blocks highest_one_bit 7
        fixed_size
      ≡ ok tt c)
    × ((k : ℕ) → k < 16 → array_buffers.get_at c.buf k ≡ 7)
    × ((array_buffers.marks c.buf).position ≡ 0)
    × ((array_buffers.marks c.buf).limit ≡ 16)
    × ((array_buffers.marks c.buf).capacity ≡ 16)
    × ((k : ℕ) → 16 ≤ k → array_buffers.get_at c.buf k ≡ 0)
sweep-all_example =
    sweep-all array_slices array_memory array_blocks highest_one_bit fixed_size 7 refl

abbrev hi : List ℕ
hi = 104 ∷ 105 ∷ []

put_string-get_string_example :
    (c d e e' : Buffer array_buffers) × (put_string array_slices array_memory array_blocks
        highest_one_bit
        (some hi)
        small
      ≡ ok tt c)
    × ((array_buffers.marks c.buf).position ≡ 0 + 2 + 1)
    × ((k : ℕ) → k < 0 → array_buffers.get_at c.buf k ≡ array_buffers.get_at small.buf k)
    × (on_buf array_buffers (array_buffers.set_position 0) c ≡ ok tt d)
    × (get_string array_slices array_memory array_blocks highest_one_bit d ≡ ok hi e)
    × ((array_buffers.marks e.buf).position ≡ 0 + 2)
    × (get_string array_slices array_memory array_blocks highest_one_bit e ≡ ok [] e')
    × ((array_buffers.marks e'.buf).position ≡ (array_buffers.marks e.buf).position)
put_string-get_string_example =
    put_string-get_string array_slices array_memory array_blocks highest_one_bit
      highest_one_bit-HighestOneBit small hi (refl, (refl, tt)) refl refl (omega arith)

write_all-read_all_example :
    (c e : Buffer array_buffers) × (write_all array_slices array_memory array_blocks highest_one_bit
        (hi ∷ (33 ∷ []) ∷ [])
        small
      ≡ ok tt c)
    × (read_all array_slices array_memory array_blocks highest_one_bit
          (1 ∷ 1 ∷ [])
          (flip_buffer array_slices array_memory array_blocks highest_one_bit c)
        ≡ ok (104 ∷ 105 ∷ []) e)
    × (available array_slices array_memory array_blocks highest_one_bit e ≡ 1)
unfolding flatten
write_all-read_all_example =
    write_all-read_all array_slices array_memory array_blocks highest_one_bit
      highest_one_bit-HighestOneBit small (hi ∷ (33 ∷ []) ∷ []) (1 ∷ 1 ∷ []) refl refl refl
      (omega arith)

put_number_at-get_number_at_example :
    (b' : Buffer array_buffers) × (put_number_at array_memory highest_one_bit pair_of 2 (7, 9) wide
      ≡ ok tt b')
    × ((array_buffers.marks b'.buf).position ≡ 3)
    × (get_number_at array_memory highest_one_bit pair_of (3 + 2) b' ≡ ok (7, 9) b')
    × ((k : ℕ) → k < 3 + 2 → array_buffers.get_at b'.buf k ≡ k)
put_number_at-get_number_at_example =
    put_number_at-get_number_at array_memory highest_one_bit pair_of highest_one_bit-HighestOneBit
      wide 2 (7, 9) refl refl (omega arith) (omega arith)
