-- ===== src/Buffer/ArrayMemory.antt =====
-- The memory of byte buffers over arrays.
use cxx_conet.Prelude.{
  ℕ, ◌+◌, ◌-◌, ◌<◌, ◌≡◌, refl, Bool-cases, true, ◌&&◌, List, [], ◌∷◌, length, ltb, leb, arith,
  if◌then◌else◌, none,
}
use cxx_conet.Prelude.Exec.{Run, ok, throws, illegal_argument}
use cxx_conet.Buffer.Arrays.{ArrayBuffer, array_buffers, set_position_by, set_position_by-ok}
use cxx_conet.Buffer.Slice.{Slices}
use cxx_conet.Buffer.Access.{Memory, Codec, byte_at}

abbrev pub get_by : ℕ → ArrayBuffer → Run ArrayBuffer ℕ
get_by i b = if ltb i b.numbers.limit then ok (b.bytes i) b else throws illegal_argument b

pub get_by-ok : (i : ℕ) (b : ArrayBuffer) → i < b.numbers.limit → get_by i b ≡ ok (b.bytes i) b
get_by-ok i b lt = let inside : ltb i b.numbers.limit ≡ true = ground arith in rw inside refl

abbrev pub array_memory : Memory array_buffers
array_memory = record {
  write_at = λ i bs b. record b {
    bytes = λ k. if leb i k && ltb k (i + length bs) then byte_at bs (k - i) else b.bytes k;
  };
  skip = λ n b.
      set_position_by (b.numbers.position + n) b
        (Bool-cases (leb (b.numbers.position + n) b.numbers.limit));
  get = get_by;
  marks-write_at = λ i bs b fits. refl;
  get_at-write_at = λ i bs b fits k. refl;
  skip-ok = λ n b fits.
      set_position_by-ok (b.numbers.position + n) b
        (Bool-cases (leb (b.numbers.position + n) b.numbers.limit)) fits;
  get-ok = get_by-ok;
}

abbrev pub two_bytes : ℕ × ℕ → List ℕ
two_bytes v = v.0 ∷ v.1 ∷ []

-- two bytes, the first one first
abbrev pub pair_of : Codec 2 (ℕ × ℕ)
pair_of = record {
  write = two_bytes;
  read = λ bs. (byte_at bs 0, byte_at bs 1);
  length-write = λ v. refl;
  read-write = λ v. refl;
}

abbrev pub array_slices : Slices array_buffers
array_slices = record {
  slice_buf = λ b. record {
    numbers = record {
      capacity = b.numbers.limit - b.numbers.position;
      limit = b.numbers.limit - b.numbers.position;
      position = 0;
      mark = none;
    };
    bytes = λ i. b.bytes (b.numbers.position + i);
    position-limit = omega arith;
    limit-capacity = omega arith;
    mark-position = tt;
  };
  marks-slice_buf = λ b. refl;
  get_at-slice_buf = λ b i lt. refl;
}
