-- ===== src/Buffer/Slice.antt =====
-- A part of a buffer as a buffer of its own: getSlice(int), slice(), limit(int) and position(int) of
-- src/EIoBuffer.cpp. The memory that the two share is copied in the model.
use cxx_conet.Prelude.{
  ℕ, ◌+◌, ◌-◌, ◌^◌, ◌<◌, ◌≡◌, true, false, none, ltb, leb, if◌then◌else◌, ℤ, pos, negsuc,
}
use cxx_conet.Prelude.Exec.{Exec, ok, illegal_argument, undefined, throw, pure, gets, ◌>>=◌, ◌>>◌}
use cxx_conet.Prelude.ByteBuffers.{ByteBuffers}
use cxx_conet.Buffer.Resize.{Buffer, on_buf, auto_expand_at}

-- slice() of EIOByteBuffer
module _ (B : ByteBuffers) where
  open B use {Buf, marks, get_at}

  pub record Slices : Type 0 where
    pub slice_buf : Buf → Buf
    pub marks-slice_buf :
        (b : Buf)
        → marks (slice_buf b) ≡ (record {
          capacity = (marks b).limit - (marks b).position;
          limit = (marks b).limit - (marks b).position;
          position = 0;
          mark = none;
        })
    pub get_at-slice_buf :
        (b : Buf) (i : ℕ)
        → i < (marks b).limit - (marks b).position
        → get_at (slice_buf b) i ≡ get_at b ((marks b).position + i)

module _ {B : ByteBuffers} (S : Slices B) (highest_one_bit : ℕ → ℕ) where
  open B use {marks, set_limit, set_position}
  open S use {slice_buf}

  unfoldable pub limit_to : ℕ → Exec (Buffer B) (Unit {0})
  limit_to new_limit = do
    auto_expand_at B highest_one_bit (pos new_limit) 0
    on_buf B (set_limit new_limit)

  unfoldable pub position_to : ℕ → Exec (Buffer B) (Unit {0})
  position_to new_position = do
    auto_expand_at B highest_one_bit (pos new_position) 0
    on_buf B (set_position new_position)

  -- the new buffer, made by the constructor for derived buffers; neither of the two grows from here on
  unfoldable pub slice : Exec (Buffer B) (Buffer B)
  slice b =
      ok
        (record {
          buf = slice_buf b.buf;
          derived = true;
          auto_expand = false;
          auto_shrink = false;
          recapacity_allowed = false;
          minimum_capacity = (marks b.buf).capacity;
        })
        (record b { recapacity_allowed = false })

  unfoldable pub get_slice : ℤ → Exec (Buffer B) (Buffer B)
  get_slice (negsuc n) = throw illegal_argument
  get_slice (pos length) = do
    saved ← gets (λ b. marks b.buf)
    let next_pos = saved.position + length
    if leb (2 ^ 31) next_pos then throw undefined else pure tt
    if ltb saved.limit next_pos then throw illegal_argument else pure tt
    limit_to next_pos
    new_buf ← slice
    position_to next_pos
    limit_to saved.limit
    pure new_buf
