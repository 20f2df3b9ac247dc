-- ===== src/Buffer/Settings.antt =====
-- The settings of a buffer, and the buffers that share its memory: setAutoShrink, minimumCapacity,
-- duplicate, wrap and the puts with an index of src/EIoBuffer.cpp.
use cxx_conet.Prelude.{ℕ, ◌-◌, Bool, true, false, if◌then◌else◌, ℤ, pos, negsuc}
use cxx_conet.Prelude.Exec.{
  Exec, ok, illegal_argument, illegal_state, throw, gets, modify, ◌>>=◌, ◌>>◌,
}
use cxx_conet.Prelude.ByteBuffers.{ByteBuffers}
use cxx_conet.Buffer.Resize.{Buffer, on_buf, auto_expand_at}

module _ (B : ByteBuffers) where
  open B use {Buf, marks, put}

  unfoldable pub set_auto_shrink : Bool → Exec (Buffer B) (Unit {0})
  set_auto_shrink auto_shrink = do
    allowed ← gets (λ b. b.recapacity_allowed)
    if allowed then modify (λ b. record b { auto_shrink = auto_shrink }) else throw illegal_state

  unfoldable pub set_minimum_capacity : ℤ → Exec (Buffer B) (Unit {0})
  set_minimum_capacity (negsuc n) = throw illegal_argument
  set_minimum_capacity (pos minimum_capacity) =
      modify (λ b. record b { minimum_capacity = minimum_capacity })

  -- the constructor that duplicate(), slice() and wrap() call
  unfoldable pub derive : Buf → ℕ → Buffer B
  derive newbuf minimum_capacity = record {
    buf = newbuf;
    derived = true;
    auto_expand = false;
    auto_shrink = false;
    recapacity_allowed = false;
    minimum_capacity = minimum_capacity;
  }

  -- `wrap_bytes` and `duplicate_buf` are those of EIOByteBuffer
  unfoldable pub wrap :
      {Address : Type 0}
      → (Address → (capacity offset : ℕ) → Buf)
      → Address
      → (capacity offset : ℕ) → Buffer B
  unfolding derive
  wrap wrap_bytes address capacity offset = derive (wrap_bytes address capacity offset) capacity

  unfoldable pub duplicate : (Buf → Buf) → Exec (Buffer B) (Buffer B)
  unfolding derive
  duplicate duplicate_buf b =
      ok (derive (duplicate_buf b.buf) (marks b.buf).capacity)
        (record b { recapacity_allowed = false })

  module _ (highest_one_bit : ℕ → ℕ) where
    -- put(int, byte), for an index that is not negative
    unfoldable pub put_byte_at :
        (ℕ → ℕ → Exec Buf (Unit {0})) → (index byte : ℕ) → Exec (Buffer B) (Unit {0})
    put_byte_at put_at index byte = do
      auto_expand_at B highest_one_bit (pos index) 1
      on_buf B (put_at index byte)

    -- put(EIOByteBuffer*) and put(EIoBuffer*)
    unfoldable pub put_from : Buf → Exec (Buffer B) (Unit {0})
    put_from src = do
      at ← gets (λ b. (marks b.buf).position)
      auto_expand_at B highest_one_bit (pos at) ((marks src).limit - (marks src).position)
      on_buf B (put src)
