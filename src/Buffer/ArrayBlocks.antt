-- ===== src/Buffer/ArrayBlocks.antt =====
-- The relative puts and gets of byte buffers over arrays.
use cxx_conet.Prelude.{
  ℕ, ◌+◌, ◌-◌, ◌≤◌, ◌≡◌, refl, inl, inr, Bool-cases, ◌&&◌, none, List, length, ltb, leb, arith,
  if◌then◌else◌,
}
use cxx_conet.Prelude.Exec.{Run, ok, throws, other_error}
use cxx_conet.Buffer.Arrays.{ArrayBuffer, Tested, MarkBelow-more, array_buffers}
use cxx_conet.Buffer.Access.{byte_at}
use cxx_conet.Buffer.Ordering.{bytes_from}
use cxx_conet.Buffer.Bytes.{Blocks}

unfoldable pub put_bytes_by :
    (bs : List ℕ) (b : ArrayBuffer)
    → Tested (leb (b.numbers.position + length bs) b.numbers.limit)
    → Run ArrayBuffer (Unit {0})
put_bytes_by bs b (inl fits) = ok tt (record {
  numbers = record b.numbers { position = b.numbers.position + length bs };
  bytes = λ k.
      if leb b.numbers.position k && ltb k (b.numbers.position + length bs)
      then byte_at bs (k - b.numbers.position)
      else b.bytes k;
  position-limit = ground arith;
  limit-capacity = b.limit-capacity;
  mark-position =
      MarkBelow-more b.numbers.position (b.numbers.position + length bs) b.numbers.mark
        (omega arith) b.mark-position;
})
put_bytes_by bs b (inr out) = throws other_error b

pub put_bytes_by-ok :
    (bs : List ℕ) (b : ArrayBuffer)
    (t : Tested (leb (b.numbers.position + length bs) b.numbers.limit))
    → b.numbers.position + length bs ≤ b.numbers.limit
    → (b' : ArrayBuffer) × (put_bytes_by bs b t ≡ ok tt b')
      × (b'.numbers ≡ (record b.numbers { position = b.numbers.position + length bs }))
      × ((k : ℕ)
          → b'.bytes k ≡ (
              if leb b.numbers.position k && ltb k (b.numbers.position + length bs)
              then byte_at bs (k - b.numbers.position)
              else b.bytes k))
unfolding put_bytes_by
put_bytes_by-ok bs b (inl fits) le = (_, refl, refl, λ k. refl)
put_bytes_by-ok bs b (inr out) le = absurd (ground arith)

-- the position goes on by n, and something is returned
unfoldable pub passed_by :
    {A : Type 0} (x : A) (n : ℕ) (b : ArrayBuffer)
    → Tested (leb (b.numbers.position + n) b.numbers.limit)
    → Run ArrayBuffer A
passed_by x n b (inl fits) = ok x (record {
  numbers = record b.numbers { position = b.numbers.position + n };
  bytes = b.bytes;
  position-limit = ground arith;
  limit-capacity = b.limit-capacity;
  mark-position =
      MarkBelow-more b.numbers.position (b.numbers.position + n) b.numbers.mark (omega arith)
        b.mark-position;
})
passed_by x n b (inr out) = throws other_error b

pub passed_by-ok :
    {A : Type 0} (x : A) (n : ℕ) (b : ArrayBuffer)
    (t : Tested (leb (b.numbers.position + n) b.numbers.limit))
    → b.numbers.position + n ≤ b.numbers.limit
    → (b' : ArrayBuffer) × (passed_by x n b t ≡ ok x b')
      × (b'.numbers ≡ (record b.numbers { position = b.numbers.position + n }))
      × ((k : ℕ) → b'.bytes k ≡ b.bytes k)
unfolding passed_by
passed_by-ok x n b (inl fits) le = (_, refl, refl, λ k. refl)
passed_by-ok x n b (inr out) le = absurd (ground arith)

abbrev pub array_blocks : Blocks array_buffers
array_blocks = record {
  put_bytes =
      λ bs b. put_bytes_by bs b (Bool-cases (leb (b.numbers.position + length bs) b.numbers.limit));
  get_next = λ b.
      passed_by (b.bytes b.numbers.position) 1 b
        (Bool-cases (leb (b.numbers.position + 1) b.numbers.limit));
  get_bytes = λ n b.
      passed_by (bytes_from b.bytes n b.numbers.position) n b
        (Bool-cases (leb (b.numbers.position + n) b.numbers.limit));
  flip = λ b. record {
    numbers = record b.numbers { limit = b.numbers.position; position = 0; mark = none };
    bytes = b.bytes;
    position-limit = omega arith;
    limit-capacity = omega (arith, b.position-limit, b.limit-capacity);
    mark-position = tt;
  };
  put_bytes-ok = λ bs b fits.
      put_bytes_by-ok bs b (Bool-cases (leb (b.numbers.position + length bs) b.numbers.limit)) fits;
  get_next-ok = λ b lt.
      passed_by-ok (b.bytes b.numbers.position) 1 b
        (Bool-cases (leb (b.numbers.position + 1) b.numbers.limit)) (omega arith);
  get_bytes-ok = λ n b fits.
      passed_by-ok (bytes_from b.bytes n b.numbers.position) n b
        (Bool-cases (leb (b.numbers.position + n) b.numbers.limit)) fits;
  marks-flip = λ b. refl;
  get_at-flip = λ b i. refl;
}
