-- ===== src/Buffer/Bytes.antt =====
-- Many bytes at once: fill, sweep, skip, the puts and gets of single bytes and of blocks, getSlice with
-- an index and the strings of src/EIoBuffer.cpp.
use mathlib.Core.Option
use cxx_conet.Prelude.{
  ℕ, zero, suc, ◌+◌, ◌-◌, ◌^◌, ◌≤◌, ◌<◌, min, ◌≡◌, ◌&&◌, Option, none, some, List, [], ◌∷◌, ◌++◌,
  length, take, replicate, ltb, leb, ◌==◌, if◌then◌else◌, ℤ, pos, negsuc,
}
use cxx_conet.Prelude.Exec.{
  Exec, Run, ok, throws, illegal_argument, undefined, throw, pure, gets, modify, state_of, ◌>>=◌,
  ◌>>◌,
}
use cxx_conet.Prelude.ByteBuffers.{ByteBuffers}
use cxx_conet.Buffer.Resize.{Buffer, on_buf}
use cxx_conet.Buffer.Slice.{Slices, slice, limit_to, position_to}
use cxx_conet.Buffer.Ordering.{bytes_from}
use cxx_conet.Buffer.Access.{Memory, byte_at, auto_expand, poke, peek_bytes}

-- More of EIOByteBuffer: the relative puts and gets, and flip().
module _ (B : ByteBuffers) where
  open B use {Buf, marks, get_at}

  pub record Blocks : Type 0 where
    pub put_bytes : List ℕ → Exec Buf (Unit {0})
    pub get_next : Exec Buf ℕ
    pub get_bytes : ℕ → Exec Buf (List ℕ)
    pub flip : Buf → Buf
    pub put_bytes-ok :
        (bs : List ℕ) (b : Buf)
        → (marks b).position + length bs ≤ (marks b).limit
        → (b' : Buf) × (put_bytes bs b ≡ ok tt b')
          × (marks b' ≡ (record (marks b) { position = (marks b).position + length bs }))
          × ((k : ℕ)
              → get_at b' k ≡ (
                  if leb (marks b).position k && ltb k ((marks b).position + length bs)
                  then byte_at bs (k - (marks b).position)
                  else get_at b k))
    pub get_next-ok :
        (b : Buf)
        → (marks b).position < (marks b).limit
        → (b' : Buf) × (get_next b ≡ ok (get_at b (marks b).position) b')
          × (marks b' ≡ record (marks b) { position = (marks b).position + 1 })
          × ((i : ℕ) → get_at b' i ≡ get_at b i)
    pub get_bytes-ok :
        (n : ℕ) (b : Buf)
        → (marks b).position + n ≤ (marks b).limit
        → (b' : Buf) × (get_bytes n b ≡ ok (bytes_from (get_at b) n (marks b).position) b')
          × (marks b' ≡ record (marks b) { position = (marks b).position + n })
          × ((i : ℕ) → get_at b' i ≡ get_at b i)
    pub marks-flip :
        (b : Buf)
        → marks (flip b)
          ≡ (record (marks b) { limit = (marks b).position; position = 0; mark = none })
    pub get_at-flip : (b : Buf) (i : ℕ) → get_at (flip b) i ≡ get_at b i

-- strlen() from an index, in memory of which so many bytes are left
unfoldable pub strlen : (ℕ → ℕ) → (from left : ℕ) → Option ℕ
strlen get from zero = none
strlen get from (suc left) =
    let longer = Option.map suc (strlen get (suc from) left) in
    if get from == 0 then some 0 else longer

module _ {B : ByteBuffers} (S : Slices B) (M : Memory B) (P : Blocks B)
    (highest_one_bit : ℕ → ℕ) where
  open B use {Buf, marks, get_at, clear, set_position}
  open P use {put_bytes, get_next, get_bytes, flip}

  unfoldable pub remains : Buffer B → ℕ
  remains b = (marks b.buf).limit - (marks b.buf).position

  unfoldable pub skip : ℕ → Exec (Buffer B) (Unit {0})
  skip size = do
    auto_expand M highest_one_bit size
    at ← gets (λ b. (marks b.buf).position)
    position_to S highest_one_bit (at + size)

  -- memset() at current()
  unfoldable pub fill : (value size : ℕ) → Exec (Buffer B) (Unit {0})
  fill value size = do
    auto_expand M highest_one_bit size
    at ← gets (λ b. (marks b.buf).position)
    poke M highest_one_bit at (replicate size value)
    position_to S highest_one_bit (at + size)

  -- the position is set back when the scope is left, and an exception of that is dropped
  unfoldable pub at_last : ℕ → Run (Buffer B) (Unit {0}) → Run (Buffer B) (Unit {0})
  at_last at (ok u b) = ok tt (state_of (position_to S highest_one_bit at b))
  at_last at (throws e b) = throws e (state_of (position_to S highest_one_bit at b))

  unfoldable pub fill_and_reset : (value size : ℕ) → Exec (Buffer B) (Unit {0})
  fill_and_reset value size = do
    auto_expand M highest_one_bit size
    at ← gets (λ b. (marks b.buf).position)
    λ b. at_last at (fill value size b)

  unfoldable pub sweep : (value : ℕ) → Exec (Buffer B) (Unit {0})
  sweep value = do
    modify (λ b. record b { buf = clear b.buf })
    size ← gets remains
    fill_and_reset value size

  -- get() and put(byte)
  unfoldable pub get : Exec (Buffer B) ℕ
  get b = elim (get_next b.buf) [
    | ok x buf ↦ ok x (record b { buf = buf })
    | throws e buf ↦ throws e (record b { buf = buf })
  ]

  unfoldable pub put_block : List ℕ → Exec (Buffer B) (Unit {0})
  put_block src = do auto_expand M highest_one_bit (length src); on_buf B (put_bytes src)

  unfoldable pub put : ℕ → Exec (Buffer B) (Unit {0})
  unfolding put_block
  put byte = put_block (byte ∷ [])

  -- get(void*, int, int) of so many bytes
  unfoldable pub get_block : ℕ → Exec (Buffer B) (List ℕ)
  get_block count b = elim (get_bytes count b.buf) [
    | ok bs buf ↦ ok bs (record b { buf = buf })
    | throws e buf ↦ throws e (record b { buf = buf })
  ]

  unfoldable pub flip_buffer : Buffer B → Buffer B
  flip_buffer b = record b { buf = flip b.buf }

  -- getSlice(int, int), for an index that is not negative
  unfoldable pub get_slice_at : (index : ℕ) (length : ℤ) → Exec (Buffer B) (Buffer B)
  get_slice_at index (negsuc n) = throw illegal_argument
  get_slice_at index (pos length) = do
    saved ← gets (λ b. marks b.buf)
    if ltb saved.limit index then throw illegal_argument else pure tt
    if leb (2 ^ 31) (index + length) then throw undefined else pure tt
    if ltb saved.limit (index + length) then throw illegal_argument else pure tt
    modify (λ b. record b { buf = clear b.buf })
    limit_to S highest_one_bit (index + length)
    position_to S highest_one_bit index
    new_buf ← slice S highest_one_bit
    limit_to S highest_one_bit saved.limit
    position_to S highest_one_bit saved.position
    pure new_buf

  -- A C string is the list of its bytes before the NUL, none of which is 0; `none` is null.
  unfoldable pub put_string : Option (List ℕ) → Exec (Buffer B) (Unit {0})
  put_string none = pure tt
  put_string (some val) = do
    auto_expand M highest_one_bit (length val + 1)
    on_buf B (put_bytes (val ++ 0 ∷ []))

  unfoldable pub put_string_in : Option (List ℕ) → (field_size : ℤ) → Exec (Buffer B) (Unit {0})
  put_string_in none field_size = pure tt
  put_string_in (some val) (negsuc n) = pure tt
  put_string_in (some val) (pos field_size) = if field_size == 0 then pure tt else do
    auto_expand M highest_one_bit (min (length val) field_size + 1)
    on_buf B (put_bytes (take field_size val))
    on_buf B (put_bytes (0 ∷ []))

  -- so many bytes at the position, which then stands behind them
  unfoldable pub take_string : ℕ → Exec (Buffer B) (List ℕ)
  take_string length = do
    at ← gets (λ b. (marks b.buf).position)
    on_buf B (set_position (at + length))
    λ b. ok (peek_bytes M highest_one_bit b at length) b

  -- The length that strlen() finds at current(); it must find a NUL within the memory.
  unfoldable pub string_length : Exec (Buffer B) ℕ
  unfolding strlen
  string_length b =
      let at = (marks b.buf).position in
      elim (strlen (get_at b.buf) at ((marks b.buf).capacity - at)) [
        | none ↦ throws undefined b
        | some n ↦ ok n b
      ]

  unfoldable pub get_string : Exec (Buffer B) (List ℕ)
  unfolding remains string_length take_string
  get_string = do
    left ← gets remains
    if left == 0 then pure [] else do length ← string_length; take_string (min length left)

  -- with a field size that is not negative
  unfoldable pub get_string_in : (field_size : ℕ) → Exec (Buffer B) (List ℕ)
  unfolding remains string_length take_string
  get_string_in field_size = if field_size == 0 then pure [] else do
    left ← gets remains
    if left == 0
        then pure []
        else do length ← string_length; take_string (min (min length left) field_size)
