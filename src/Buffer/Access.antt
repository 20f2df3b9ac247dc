-- ===== src/Buffer/Access.antt =====
-- Numbers in a buffer: the typed put and get of src/EIoBuffer.cpp.
use cxx_conet.Prelude.{
  ℕ, zero, suc, ◌+◌, ◌-◌, ◌≤◌, ◌<◌, ◌≡◌, ◌&&◌, List, [], ◌∷◌, ltb, leb, length, if◌then◌else◌, pos,
}
use cxx_conet.Prelude.Exec.{Exec, ok, throws, undefined, pure, gets, ◌>>=◌, ◌>>◌}
use cxx_conet.Prelude.ByteBuffers.{ByteBuffers, moved}
use cxx_conet.Buffer.Resize.{Buffer, on_buf, auto_expand_at}

abbrev pub byte_at : List ℕ → ℕ → ℕ
byte_at [] i = 0
byte_at (x ∷ xs) zero = x
byte_at (x ∷ xs) (suc i) = byte_at xs i

-- More of EIOByteBuffer: a write to its memory through current(), skip(int) and get(int).
module _ (B : ByteBuffers) where
  open B use {Buf, marks, get_at}

  pub record Memory : Type 0 where
    pub write_at : ℕ → List ℕ → Buf → Buf
    pub skip : ℕ → Exec Buf (Unit {0})
    pub get : ℕ → Exec Buf ℕ
    pub marks-write_at :
        (i : ℕ) (bs : List ℕ) (b : Buf)
        → i + length bs ≤ (marks b).capacity
        → marks (write_at i bs b) ≡ marks b
    pub get_at-write_at :
        (i : ℕ) (bs : List ℕ) (b : Buf)
        → i + length bs ≤ (marks b).capacity
        → (k : ℕ)
        → get_at (write_at i bs b) k
          ≡ (if leb i k && ltb k (i + length bs) then byte_at bs (k - i) else get_at b k)
    pub skip-ok :
        (n : ℕ) (b : Buf)
        → (marks b).position + n ≤ (marks b).limit
        → (b' : Buf) × (skip n b ≡ ok tt b')
          × (marks b' ≡ moved ((marks b).position + n) (marks b))
          × ((i : ℕ) → get_at b' i ≡ get_at b i)
    pub get-ok : (i : ℕ) (b : Buf) → i < (marks b).limit → get i b ≡ ok (get_at b i) b

-- Writing and reading a number of `width` bytes by EStream of the Efc library: what is read is what
-- was written.
pub record Codec (width : ℕ) (V : Type 0) : Type 0 where
  pub write : V → List ℕ
  pub read : List ℕ → V
  pub length-write : (v : V) → length (write v) ≡ width
  pub read-write : (v : V) → read (write v) ≡ v

module _ {B : ByteBuffers} (M : Memory B) (highest_one_bit : ℕ → ℕ) where
  open B use {marks, get_at}
  open M use {write_at, skip, get}

  -- autoExpand(int)
  unfoldable pub auto_expand : ℕ → Exec (Buffer B) (Unit {0})
  auto_expand expected_remaining = do
    at ← gets (λ b. (marks b.buf).position)
    auto_expand_at B highest_one_bit (pos at) expected_remaining

  -- a write to memory, which must not leave it
  unfoldable pub poke : ℕ → List ℕ → Exec (Buffer B) (Unit {0})
  poke i bytes b =
      if ltb (marks b.buf).capacity (i + length bytes)
      then throws undefined b
      else ok tt (record b { buf = write_at i bytes b.buf })

  -- a read of so many bytes from memory
  unfoldable pub peek_bytes : Buffer B → (i count : ℕ) → List ℕ
  peek_bytes b i zero = []
  peek_bytes b i (suc count) = get_at b.buf i ∷ peek_bytes b (suc i) count

  unfoldable pub peek : (i count : ℕ) → Exec (Buffer B) (List ℕ)
  unfolding peek_bytes
  peek i count b =
      if ltb (marks b.buf).capacity (i + count)
      then throws undefined b
      else ok (peek_bytes b i count) b

  -- the calls of get(int) for so many bytes
  unfoldable pub get_bytes : (i count : ℕ) → Exec (Buffer B) (List ℕ)
  get_bytes i zero b = ok [] b
  get_bytes i (suc count) b = elim (get i b.buf) [
    | throws e buf ↦ throws e (record b { buf = buf })
    | ok x buf ↦ (get_bytes (suc i) count >>= λ rest. pure (x ∷ rest)) (record b { buf = buf })
  ]

  module _ {width : ℕ} {V : Type 0} (c : Codec width V) where
    -- the puts and gets at the position
    unfoldable pub put_number : V → Exec (Buffer B) (Unit {0})
    put_number value = do
      auto_expand width
      at ← gets (λ b. (marks b.buf).position)
      poke at (c.write value)
      on_buf B (skip width)

    unfoldable pub get_number : Exec (Buffer B) V
    get_number = do
      at ← gets (λ b. (marks b.buf).position)
      bytes ← peek at width
      on_buf B (skip width)
      pure (c.read bytes)

    -- those with an index: the put writes at current() + index
    unfoldable pub put_number_at : ℕ → V → Exec (Buffer B) (Unit {0})
    put_number_at index value = do
      auto_expand_at B highest_one_bit (pos index) width
      at ← gets (λ b. (marks b.buf).position)
      poke (at + index) (c.write value)

    unfoldable pub get_number_at : ℕ → Exec (Buffer B) V
    get_number_at index = do bytes ← get_bytes index width; pure (c.read bytes)
