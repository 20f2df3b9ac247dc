-- ===== src/Buffer/Arrays.antt =====
-- Byte buffers over arrays, which have all that is asked of EIOByteBuffer.
use cxx_conet.Prelude.{
  ℕ, ◌+◌, ◌-◌, ◌≤◌, min, ◌≡◌, refl, ◌⊎◌, inl, inr, Bool, Bool-cases, true, false, ◌&&◌, Option,
  none, some, ltb, leb, arith, if◌then◌else◌,
}
use cxx_conet.Prelude.Exec.{Run, ok, throws, illegal_argument, other_error}
use cxx_conet.Prelude.ByteBuffers.{ByteBuffers, Marks, limited, moved, keep_mark, MarkBelow}

pub record ArrayBuffer : Type 0 where
  pub numbers : Marks
  pub bytes : ℕ → ℕ
  pub position-limit : numbers.position ≤ numbers.limit
  pub limit-capacity : numbers.limit ≤ numbers.capacity
  pub mark-position : MarkBelow numbers.position numbers.mark

pub MarkBelow-limited :
    (p n : ℕ) (m : Option ℕ) → MarkBelow p m → MarkBelow (min p n) (keep_mark n m)
MarkBelow-limited p n none h = tt
MarkBelow-limited p n (some m) h = elim (Bool-cases (ltb n m)) [
  | inl above ↦ rw above tt
  | inr kept ↦ rw kept (ground arith)
]

pub MarkBelow-moved : (n : ℕ) (m : Option ℕ) → MarkBelow n (keep_mark n m)
MarkBelow-moved n none = tt
MarkBelow-moved n (some m) = elim (Bool-cases (ltb n m)) [
  | inl above ↦ rw above tt
  | inr kept ↦ rw kept (ground arith)
]

pub MarkBelow-more : (p n : ℕ) (m : Option ℕ) → p ≤ n → MarkBelow p m → MarkBelow n m
MarkBelow-more p n none le h = tt
MarkBelow-more p n (some m) le h = omega arith

-- a test that has been made, with its outcome
abbrev pub Tested : Bool → Type 0
Tested t = (t ≡ true) ⊎ (t ≡ false)

unfoldable pub set_limit_by :
    (n : ℕ) (b : ArrayBuffer) → Tested (leb n b.numbers.capacity) → Run ArrayBuffer (Unit {0})
set_limit_by n b (inl fits) = ok tt (record {
  numbers = limited n b.numbers;
  bytes = b.bytes;
  position-limit = omega arith;
  limit-capacity = ground arith;
  mark-position = MarkBelow-limited b.numbers.position n b.numbers.mark b.mark-position;
})
set_limit_by n b (inr out) = throws illegal_argument b

unfoldable pub set_position_by :
    (n : ℕ) (b : ArrayBuffer) → Tested (leb n b.numbers.limit) → Run ArrayBuffer (Unit {0})
set_position_by n b (inl fits) = ok tt (record {
  numbers = moved n b.numbers;
  bytes = b.bytes;
  position-limit = ground arith;
  limit-capacity = b.limit-capacity;
  mark-position = MarkBelow-moved n b.numbers.mark;
})
set_position_by n b (inr out) = throws illegal_argument b

abbrev pub remaining : ArrayBuffer → ℕ
remaining b = b.numbers.limit - b.numbers.position

unfoldable pub put_by :
    (src b : ArrayBuffer) → Tested (leb (remaining src) (remaining b)) → Run ArrayBuffer (Unit {0})
put_by src b (inl fits) = ok tt (record {
  numbers = record b.numbers { position = b.numbers.position + remaining src };
  bytes = λ i.
      if leb b.numbers.position i && ltb i (b.numbers.position + remaining src)
      then src.bytes (src.numbers.position + (i - b.numbers.position))
      else b.bytes i;
  position-limit = ground (arith, b.position-limit);
  limit-capacity = b.limit-capacity;
  mark-position =
      MarkBelow-more b.numbers.position (b.numbers.position + remaining src) b.numbers.mark
        (omega arith) b.mark-position;
})
put_by src b (inr out) = throws other_error b

pub set_limit_by-ok :
    (n : ℕ) (b : ArrayBuffer) (t : Tested (leb n b.numbers.capacity))
    → n ≤ b.numbers.capacity
    → (b' : ArrayBuffer) × (set_limit_by n b t ≡ ok tt b')
      × (b'.numbers ≡ limited n b.numbers)
      × ((i : ℕ) → b'.bytes i ≡ b.bytes i)
unfolding set_limit_by
set_limit_by-ok n b (inl fits) le = (_, refl, refl, λ i. refl)
set_limit_by-ok n b (inr out) le = absurd (ground arith)

pub set_position_by-ok :
    (n : ℕ) (b : ArrayBuffer) (t : Tested (leb n b.numbers.limit))
    → n ≤ b.numbers.limit
    → (b' : ArrayBuffer) × (set_position_by n b t ≡ ok tt b')
      × (b'.numbers ≡ moved n b.numbers)
      × ((i : ℕ) → b'.bytes i ≡ b.bytes i)
unfolding set_position_by
set_position_by-ok n b (inl fits) le = (_, refl, refl, λ i. refl)
set_position_by-ok n b (inr out) le = absurd (ground arith)

pub put_by-ok :
    (src b : ArrayBuffer) (t : Tested (leb (remaining src) (remaining b)))
    → remaining src ≤ remaining b
    → (b' : ArrayBuffer) × (put_by src b t ≡ ok tt b')
      × (b'.numbers ≡ (record b.numbers { position = b.numbers.position + remaining src }))
      × ((i : ℕ)
          → b'.bytes i ≡ (
              if leb b.numbers.position i && ltb i (b.numbers.position + remaining src)
              then src.bytes (src.numbers.position + (i - b.numbers.position))
              else b.bytes i))
unfolding put_by
put_by-ok src b (inl fits) le = (_, refl, refl, λ i. refl)
put_by-ok src b (inr out) le = absurd (ground arith)

abbrev pub array_buffers : ByteBuffers
array_buffers = record {
  Buf = ArrayBuffer;
  marks = λ b. b.numbers;
  get_at = λ b. b.bytes;
  allocate = λ n. record {
    numbers = record { capacity = n; limit = n; position = 0; mark = none };
    bytes = λ i. 0;
    position-limit = omega arith;
    limit-capacity = omega arith;
    mark-position = tt;
  };
  clear = λ b. record {
    numbers = record {
      capacity = b.numbers.capacity;
      limit = b.numbers.capacity;
      position = 0;
      mark = none;
    };
    bytes = b.bytes;
    position-limit = omega arith;
    limit-capacity = omega arith;
    mark-position = tt;
  };
  mark = λ b. record b {
    numbers = record b.numbers { mark = some b.numbers.position };
    mark-position = omega arith;
  };
  set_limit = λ n b. set_limit_by n b (Bool-cases (leb n b.numbers.capacity));
  set_position = λ n b. set_position_by n b (Bool-cases (leb n b.numbers.limit));
  put = λ src b. put_by src b (Bool-cases (leb (remaining src) (remaining b)));
  position-limit = λ b. b.position-limit;
  limit-capacity = λ b. b.limit-capacity;
  mark-position = λ b. b.mark-position;
  marks-allocate = λ n. refl;
  marks-clear = λ b. refl;
  marks-mark = λ b. refl;
  get_at-clear = λ b i. refl;
  get_at-mark = λ b i. refl;
  set_limit-ok = λ n b. set_limit_by-ok n b (Bool-cases (leb n b.numbers.capacity));
  set_position-ok = λ n b. set_position_by-ok n b (Bool-cases (leb n b.numbers.limit));
  put-ok = λ src b. put_by-ok src b (Bool-cases (leb (remaining src) (remaining b)));
}
