-- ===== src/Buffer/Streams.antt =====
-- The streams over a buffer: asInputStream and asOutputStream of src/EIoBuffer.cpp.
use cxx_conet.Prelude.{
  ℕ, ◌%◌, ◌^◌, min, Option, none, some, List, [], ◌∷◌, ◌++◌, leb, ◌==◌, if◌then◌else◌,
}
use cxx_conet.Prelude.Exec.{Exec, pure, gets, ◌>>=◌, ◌>>◌}
use cxx_conet.Prelude.ByteBuffers.{ByteBuffers}
use cxx_conet.Buffer.Resize.{Buffer}
use cxx_conet.Buffer.Slice.{Slices}
use cxx_conet.Buffer.Access.{Memory}
use cxx_conet.Buffer.Bytes.{Blocks, remains, get, get_block, put, put_block, skip}

module _ {B : ByteBuffers} (S : Slices B) (M : Memory B) (P : Blocks B)
    (highest_one_bit : ℕ → ℕ) where
  -- the input stream; `none` is the result -1
  unfoldable pub available : Buffer B → ℕ
  unfolding remains
  available b = remains S M P highest_one_bit b

  unfoldable pub read_one : Exec (Buffer B) (Option ℕ)
  unfolding remains get
  read_one = do
    left ← gets (remains S M P highest_one_bit)
    if left == 0 then pure none else do byte ← get S M P highest_one_bit; pure (some (byte % 256))

  unfoldable pub read_block : (len : ℕ) → Exec (Buffer B) (Option (List ℕ))
  unfolding remains get_block
  read_block len = do
    left ← gets (remains S M P highest_one_bit)
    if left == 0
        then pure none
        else do bytes ← get_block S M P highest_one_bit (min left len); pure (some bytes)

  unfoldable pub skip_bytes : (n : ℕ) → Exec (Buffer B) ℕ
  unfolding remains skip
  skip_bytes n = do
    left ← gets (remains S M P highest_one_bit)
    let bytes = if leb (2 ^ 31) n then left else min left n
    skip S M P highest_one_bit bytes
    pure bytes

  -- the output stream
  unfoldable pub write_block : List ℕ → Exec (Buffer B) (Unit {0})
  unfolding put_block
  write_block bytes = put_block S M P highest_one_bit bytes

  unfoldable pub write_one : (b : ℕ) → Exec (Buffer B) (Unit {0})
  unfolding put
  write_one b = put S M P highest_one_bit (b % 256)

  -- a caller that writes these blocks, and one that reads with these lengths until the end
  abbrev pub write_all : List (List ℕ) → Exec (Buffer B) (Unit {0})
  write_all [] = pure tt
  write_all (bytes ∷ rest) = write_block bytes >> write_all rest

  abbrev pub read_rest : Exec (Buffer B) (List ℕ) → Option (List ℕ) → Exec (Buffer B) (List ℕ)
  read_rest rest none = pure []
  read_rest rest (some bytes) = rest >>= λ more. pure (bytes ++ more)

  abbrev pub read_all : List ℕ → Exec (Buffer B) (List ℕ)
  read_all [] = pure []
  read_all (len ∷ lens) = read_block len >>= read_rest (read_all lens)
