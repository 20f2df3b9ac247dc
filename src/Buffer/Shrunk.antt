-- ===== src/Buffer/Shrunk.antt =====
-- What a buffer keeps when it shrinks.
use cxx_conet.Prelude.{
  ℕ, ◌+◌, ◌-◌, ◌*◌, ◌^◌, ◌≤◌, ◌<◌, min, max, ◌≡◌, refl, ap, ◌∙◌, ◌⊎◌, Bool-cases, inl, inr, true,
  ◌&&◌, Option, none, ltb, leb, ◌==◌, arith, if◌then◌else◌,
}
use cxx_conet.Prelude.Exec.{ok}
use cxx_conet.Prelude.ByteBuffers.{ByteBuffers, Marks, limited, moved}
use cxx_conet.Buffer.{shrink_capacity}
use cxx_conet.Buffer.Capacity.{shrink_capacity-bounds}
use cxx_conet.Buffer.Resize.{Buffer}
use cxx_conet.Buffer.Keeps.{Grown, position-Grown, limit-Grown}
use cxx_conet.Buffer.Shrink.{copy_to, shrink_to, shrink}

module _ (B : ByteBuffers) where
  open B use {Buf, marks, get_at, allocate, put, set_position, set_limit}

  -- the marks of a new buffer of this size into which so many bytes have been put
  abbrev filled : (size count : ℕ) → Marks
  filled size count = record { capacity = size; limit = size; position = count; mark = none }

  copied_below :
      (lim i : ℕ) (src new b' : Buf)
      → (marks src).limit ≡ lim
      → (marks src).position ≡ 0
      → (marks new).position ≡ 0
      → i < lim
      → get_at b' i ≡ (
          if leb (marks new).position i
            && ltb i ((marks new).position + ((marks src).limit - (marks src).position))
          then get_at src ((marks src).position + (i - (marks new).position))
          else get_at new i)
      → get_at b' i ≡ get_at src i
  copied_below lim i src new b' end start fresh lt same =
      let test : (leb 0 i && ltb i (0 + (lim - 0))) ≡ true = ground arith in
      let index : 0 + (i - 0) ≡ i = omega arith in same ∙ rw (end, start, fresh, test, index) refl

  copy_to-Grown :
      (b c : Buffer B) (v : Marks) (n size : ℕ)
      → Grown B b v n c
      → v.position ≡ 0
      → v.limit ≤ n
      → v.limit ≤ size
      → (c' : Buffer B) × (copy_to B size c ≡ ok tt c') × Grown B b (filled size v.limit) v.limit c'
  unfolding copy_to
  copy_to-Grown b c v n size g start held fits =
      let new = allocate size in
      let fresh = B.marks-allocate size in
      let first : (marks new).position ≡ 0 = ap (λ (w : Marks). w.position) fresh in
      let room : (marks new).limit ≡ size = ap (λ (w : Marks). w.limit) fresh in
      let end : (marks c.buf).limit ≡ v.limit = ap (λ (w : Marks). w.limit) g.numbers in
      let from : (marks c.buf).position ≡ 0 = ap (λ (w : Marks). w.position) g.numbers ∙ start in
      let (b', ran, is, same) = B.put-ok c.buf new (omega (arith, first, room, end, from, fits)) in
      let sum : 0 + ((marks c.buf).limit - (marks c.buf).position) ≡ v.limit =
        omega (arith, end, from) in
      let count = (marks c.buf).limit - (marks c.buf).position in
      (
        record c { buf = b' },
        rw (ran, copy_to) refl,
        record {
          numbers =
              is
              ∙ ap (λ (w : Marks). record w { position = w.position + count }) fresh
              ∙ ap (λ (p : ℕ). filled size p) sum;
          bytes = λ i lt.
              copied_below v.limit i c.buf new b' end from first lt (same i)
              ∙ g.bytes i (omega (arith, held));
          others = ap (λ (d : Buffer B). record d { buf = b' }) g.others;
        },
      )

  shrink_to-Grown :
      (b : Buffer B) (size : ℕ)
      → (marks b.buf).limit ≤ size
      → (c : Buffer B) × (shrink_to B size b ≡ ok tt c)
        × Grown B b (record (marks b.buf) { capacity = size; mark = none }) (marks b.buf).limit c
  unfolding shrink_to
  shrink_to-Grown b size fits =
      let v : Marks = marks b.buf in
      let in_limit = B.position-limit b.buf in
      let in_capacity = B.limit-capacity b.buf in
      let g0 : Grown B b v v.capacity b = record {
        numbers = refl;
        bytes = λ i lt. refl;
        others = refl;
      } in
      let (c1, ran1, g1) = position-Grown B b b v v.capacity 0 g0 (omega arith) in
      let (c2, ran2, g2) = limit-Grown B b c1 (moved 0 v) v.capacity v.limit g1 in_capacity in
      let (c3, ran3, g3) =
        copy_to-Grown b c2 (limited v.limit (moved 0 v)) v.capacity size g2 (omega arith)
          in_capacity fits in
      let (c4, ran4, g4) =
        position-Grown B b c3 (filled size v.limit) v.limit v.position g3
          (omega (arith, in_limit, fits)) in
      let (c5, ran5, g5) =
        limit-Grown B b c4 (moved v.position (filled size v.limit)) v.limit v.limit g4 fits in
      let at : min v.position v.limit ≡ v.position = omega (arith, in_limit) in
      (
        c5,
        simp (ran1, ran2, ran3, ran4) ran5,
        record {
          numbers =
              g5.numbers
              ∙ ap (λ (p : ℕ). record v { capacity = size; position = p; mark = none }) at;
          bytes = g5.bytes;
          others = g5.others;
        },
      )

  -- Shrinking a buffer that may be resized, whose minimum capacity or limit is positive and whose
  -- capacity holds both: it returns; the capacity does not grow, still holds both, and is below twice the
  -- larger of them; limit, position, settings and every byte below the limit stay. The mark is
  -- lost, or it and the capacity stay.
  pub shrink-Grown :
      (b : Buffer B)
      → b.recapacity_allowed ≡ true
      → 0 < max b.minimum_capacity (marks b.buf).limit
      → max b.minimum_capacity (marks b.buf).limit ≤ (marks b.buf).capacity
      → (marks b.buf).capacity < 2 ^ 31
      → (size : ℕ) × (m : Option ℕ) × (c : Buffer B) × (shrink B b ≡ ok tt c)
        × (b.minimum_capacity ≤ size)
        × (size ≤ (marks b.buf).capacity)
        × (size < max b.minimum_capacity (marks b.buf).limit * 2)
        × ((m ≡ none) ⊎ ((m ≡ (marks b.buf).mark) × (size ≡ (marks b.buf).capacity)))
        × Grown B b (record (marks b.buf) { capacity = size; mark = m }) (marks b.buf).limit c
  unfolding shrink
  shrink-Grown b allowed some_left holds int =
      let v : Marks = marks b.buf in
      let size = shrink_capacity b.minimum_capacity v.limit v.capacity in
      let (minimum, limit, below, tight) =
        shrink_capacity-bounds b.minimum_capacity v.limit v.capacity some_left holds int in
      let stays : Grown B b v v.limit b = record {
        numbers = refl;
        bytes = λ i lt. refl;
        others = refl;
      } in
      elim (Bool-cases (v.capacity == v.limit)) [
        | inl full ↦ (
          v.capacity,
          v.mark,
          b,
          simp (allowed, full) refl,
          omega arith,
          omega arith,
          ground arith,
          inr (refl, refl),
          stays,
        )
        | inr slack ↦ elim (Bool-cases (size == v.capacity)) [
          | inl same ↦ (
            v.capacity,
            v.mark,
            b,
            simp (allowed, slack, same) refl,
            omega arith,
            omega arith,
            ground arith,
            inr (refl, refl),
            stays,
          )
          | inr less ↦
              let (c, ran, g) = shrink_to-Grown b size limit in
              (size, none, c, simp (allowed, slack, less) ran, minimum, below, tight, inl refl, g)
        ]
      ]
