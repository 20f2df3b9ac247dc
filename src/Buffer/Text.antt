-- ===== src/Buffer/Text.antt =====
-- A string that is put in a buffer is read back: the strings of src/EIoBuffer.cpp.
use mathlib.Core.Path.{subst}
use cxx_conet.Prelude.{
  ℕ, zero, suc, ◌+◌, ◌-◌, ◌^◌, ◌≤◌, ◌<◌, min, ◌≡◌, refl, sym, ap, ◌∙◌, true, false, some, List, [],
  ◌∷◌, ◌++◌, length, length-append, ◌==◌, arith,
}
use cxx_conet.Prelude.Exec.{ok}
use cxx_conet.Prelude.ByteBuffers.{ByteBuffers, Marks}
use cxx_conet.Buffer.Capacity.{HighestOneBit}
use cxx_conet.Buffer.Resize.{Buffer, on_buf}
use cxx_conet.Buffer.Slice.{Slices}
use cxx_conet.Buffer.Access.{Memory, byte_at, auto_expand, peek_bytes}
use cxx_conet.Buffer.Numbers.{peek_bytes-same}
use cxx_conet.Buffer.ByteLists.{byte_at-front, byte_at-end}
use cxx_conet.Buffer.Appended.{Appended, put_bytes-Appended}
use cxx_conet.Buffer.Bytes.{
  Blocks, strlen, remains, string_length, take_string, get_string, put_string,
}

-- a string without NUL
abbrev pub NoZero : List ℕ → Type 0
NoZero [] = Unit
NoZero (x ∷ xs) = ((x == 0) ≡ false) × NoZero xs

-- strlen() finds the length of a string that stands in memory with a NUL behind it
strlen-string :
    (get : ℕ → ℕ) (v : List ℕ) (from left : ℕ)
    → NoZero v
    → ((k : ℕ) → k < length v + 1 → get (from + k) ≡ byte_at (v ++ 0 ∷ []) k)
    → length v < left
    → strlen get from left ≡ some (length v)
unfolding strlen
strlen-string get v from zero all is lt = absurd (omega arith)
strlen-string get [] from (suc left) all is lt =
    let at : from + 0 ≡ from = omega arith in
    let here : get from ≡ 0 = subst (λ k. get k ≡ 0) at (is 0 (omega arith)) in rw here refl
strlen-string get (x ∷ v) from (suc left) (not_zero, all) is lt =
    let at : from + 0 ≡ from = omega arith in
    let here : get from ≡ x = subst (λ k. get k ≡ x) at (is 0 (omega arith)) in
    let rest =
      strlen-string get v (suc from) left all
        (λ k below.
          let next : from + suc k ≡ suc from + k = omega arith in
          subst (λ n. get n ≡ byte_at (v ++ 0 ∷ []) k) next (is (suc k) (omega arith)))
        (omega arith) in
    rw (rest, here, not_zero) refl

module _ {B : ByteBuffers} (S : Slices B) (M : Memory B) (P : Blocks B) (f : ℕ → ℕ) where
  open B use {Buf, marks, get_at, set_position}
  open P use {put_bytes}

  -- The string stands at index p, with its NUL behind it, below the limit.
  pub record Holds (v : List ℕ) (p : ℕ) (b : Buffer B) : Type 0 where
    pub inside : p + length v + 1 ≤ (marks b.buf).limit
    pub is_there : (k : ℕ) → k < length v + 1 → get_at b.buf (p + k) ≡ byte_at (v ++ 0 ∷ []) k

  get_string-run :
      (b c : Buffer B) (left n : ℕ) (v : List ℕ)
      → remains S M P f b ≡ left
      → (left == 0) ≡ false
      → string_length S M P f b ≡ ok n b
      → take_string S M P f (min n left) b ≡ ok v c
      → get_string S M P f b ≡ ok v c
  unfolding get_string
  get_string-run b c left n v is some_left ran1 ran2 = rw (is, some_left, ran1) ran2

  string_length-run :
      (b : Buffer B) (n p : ℕ)
      → (marks b.buf).position ≡ p
      → strlen (get_at b.buf) p ((marks b.buf).capacity - p) ≡ some n
      → string_length S M P f b ≡ ok n b
  unfolding string_length
  string_length-run b n p at found = rw (at, found, string_length) refl

  take_string-run :
      (b : Buffer B) (buf : Buf) (p n : ℕ)
      → (marks b.buf).position ≡ p
      → set_position (p + n) b.buf ≡ ok tt buf
      → take_string S M P f n b
        ≡ ok (peek_bytes M f (record b { buf = buf }) p n) (record b { buf = buf })
  unfolding take_string
  take_string-run b buf p n at ran =
      let run : on_buf B (set_position (p + n)) b ≡ ok tt (record b { buf = buf }) =
        rw (ran, on_buf) refl in
      rw (at, run) refl

  -- a string that stands at the position is read, and the position is then that of its NUL
  get_string-Holds :
      (v : List ℕ) (p : ℕ) (b : Buffer B)
      → NoZero v
      → Holds v p b
      → (marks b.buf).position ≡ p
      → (c : Buffer B) × (get_string S M P f b ≡ ok v c)
        × ((marks c.buf).position ≡ p + length v)
        × Holds [] (p + length v) c
  unfolding remains
  get_string-Holds v p b all h at =
      let in_capacity = B.limit-capacity b.buf in
      let left = remains S M P f b in
      let found =
        strlen-string (get_at b.buf) v p ((marks b.buf).capacity - p) all h.is_there
          (omega (arith, h.inside, in_capacity)) in
      let ran1 = string_length-run b (length v) p at found in
      let few : min (length v) left ≡ length v = omega (arith, h.inside, at) in
      let (buf, ran2, numbers, bytes) =
        B.set_position-ok (p + length v) b.buf (omega (arith, h.inside)) in
      let c : Buffer B = record b { buf = buf } in
      let read : peek_bytes M f c p (length v) ≡ v =
        peek_bytes-same M f v p c
          (λ k lt. bytes (p + k) ∙ h.is_there k (omega arith) ∙ byte_at-front v (0 ∷ []) k lt) in
      let some_left : (left == 0) ≡ false = ground (arith, h.inside, at) in
      (
        c,
        get_string-run b c left (length v) v refl some_left ran1 (
            ap (λ n. take_string S M P f n b) few
            ∙ take_string-run b buf p (length v) at ran2
            ∙ ap (λ l. ok l c) read),
        ap (λ (w : Marks). w.position) numbers,
        record {
          inside = omega (arith, h.inside, ap (λ (w : Marks). w.limit) numbers);
          is_there = λ k lt.
              let first : k ≡ 0 = omega arith in
              let here : p + length v + k ≡ p + length v = omega arith in
              ap (get_at buf) here
              ∙ bytes (p + length v)
              ∙ h.is_there (length v) (omega arith)
              ∙ byte_at-end v
              ∙ sym (ap (byte_at (0 ∷ [])) first);
        },
      )

  put_string-run :
      (v : List ℕ) (b c d : Buffer B)
      → auto_expand M f (length v + 1) b ≡ ok tt c
      → on_buf B (put_bytes (v ++ 0 ∷ [])) c ≡ ok tt d
      → put_string S M P f (some v) b ≡ ok tt d
  unfolding put_string
  put_string-run v b c d ran1 ran2 = rw ran1 ran2

  put_string-Holds :
      HighestOneBit f
      → (b : Buffer B) (v : List ℕ) → b.auto_expand ≡ true
      → b.recapacity_allowed ≡ true
      → (marks b.buf).position + (length v + 1) < 2 ^ 31
      → (c : Buffer B) × (put_string S M P f (some v) b ≡ ok tt c)
        × Appended M P f (v ++ 0 ∷ []) b c
        × Holds v (marks b.buf).position c
  put_string-Holds high b v auto allowed fits =
      let long = length-append {0} v (0 ∷ []) in
      let (c1, c, ran1, ran2, a) =
        put_bytes-Appended M P f high b (v ++ 0 ∷ []) auto allowed (omega (arith, fits, long)) in
      (
        c,
        put_string-run v b c1 c (sym (ap (λ n. auto_expand M f n b) long) ∙ ran1) ran2,
        a,
        record {
          inside = omega (arith, a.inside, long);
          is_there = λ k lt. a.is_there k (omega (arith, long));
        },
      )

  -- A string without NUL that is put in a buffer that grows by itself, where its end is an int: the
  -- position goes behind the NUL that is put with it, and the bytes before it stay. With the position
  -- where it was, it is read back; the position is then that of its NUL, so that the next string that is
  -- read is empty, and the position stays.
  pub put_string-get_string :
      HighestOneBit f
      → (b : Buffer B) (v : List ℕ) → NoZero v
      → b.auto_expand ≡ true
      → b.recapacity_allowed ≡ true
      → (marks b.buf).position + (length v + 1) < 2 ^ 31
      → (c d e e' : Buffer B) × (put_string S M P f (some v) b ≡ ok tt c)
        × ((marks c.buf).position ≡ (marks b.buf).position + length v + 1)
        × ((k : ℕ) → k < (marks b.buf).position → get_at c.buf k ≡ get_at b.buf k)
        × (on_buf B (set_position (marks b.buf).position) c ≡ ok tt d)
        × (get_string S M P f d ≡ ok v e)
        × ((marks e.buf).position ≡ (marks b.buf).position + length v)
        × (get_string S M P f e ≡ ok [] e')
        × ((marks e'.buf).position ≡ (marks e.buf).position)
  put_string-get_string high b v all auto allowed fits =
      let p = (marks b.buf).position in
      let (c, ran1, a, h) = put_string-Holds high b v auto allowed fits in
      let (buf, ran2, numbers, bytes) = B.set_position-ok p c.buf (omega (arith, h.inside)) in
      let d : Buffer B = record c { buf = buf } in
      let h2 : Holds v p d = record {
        inside = omega (arith, h.inside, ap (λ (w : Marks). w.limit) numbers);
        is_there = λ k lt. bytes (p + k) ∙ h.is_there k lt;
      } in
      let (e, ran3, at3, h3) =
        get_string-Holds v p d all h2 (ap (λ (w : Marks). w.position) numbers) in
      let (e', ran4, at4, h4) = get_string-Holds [] (p + length v) e tt h3 at3 in
      (
        c,
        d,
        e,
        e',
        ran1,
        omega (arith, a.behind, length-append {0} v (0 ∷ [])),
        a.before,
        rw (ran2, on_buf) refl,
        ran3,
        at3,
        ran4,
        omega (arith, at4, at3),
      )
