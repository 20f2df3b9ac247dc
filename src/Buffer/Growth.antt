-- ===== src/Buffer/Growth.antt =====
-- A buffer that is given a larger capacity.
use cxx_conet.Prelude.{
  ℕ, ◌≤◌, ◌<◌, min, ◌≡◌, refl, ap, ◌∙◌, true, false, Option, none, some, ltb, arith,
}
use cxx_conet.Prelude.Exec.{ok, throws, illegal_state}
use cxx_conet.Prelude.ByteBuffers.{ByteBuffers, Marks, keep_mark, MarkBelow}
use cxx_conet.Buffer.Resize.{Buffer, restore_mark, reallocate, set_capacity}
use cxx_conet.Buffer.Keeps.{Grown, position-Grown, limit-Grown, transfer-Grown}

keep_mark_lem : (n : ℕ) (m : Option ℕ) → MarkBelow n m → keep_mark n m ≡ m
keep_mark_lem n none h = refl
keep_mark_lem n (some m) h = ground arith

module _ (B : ByteBuffers) where
  open B use {Buf, marks, get_at, mark}

  -- the mark of the new buffer, which has none at first, and then again its position
  restore_mark-Grown :
      (b c : Buffer B) (cap lim at p n : ℕ) (m : Option ℕ)
      → Grown B b (record { capacity = cap; limit = lim; position = at; mark = none }) n c
      → MarkBelow p m
      → p ≤ lim
      → (at' : ℕ) × (c' : Buffer B) × (restore_mark B m c ≡ ok tt c')
        × Grown B b (record { capacity = cap; limit = lim; position = at'; mark = m }) n c'
  unfolding restore_mark
  restore_mark-Grown b c cap lim at p n none g below le = (at, c, refl, g)
  restore_mark-Grown b c cap lim at p n (some m) g below le =
      let (c1, ran, g1) = position-Grown B b c _ n m g (omega arith) in
      (
        m,
        record c1 { buf = mark c1.buf },
        simp ran,
        record {
          numbers =
              B.marks-mark c1.buf
              ∙ ap (λ (w : Marks). record w { mark = some w.position }) g1.numbers;
          bytes = λ i lt. B.get_at-mark c1.buf i ∙ g1.bytes i lt;
          others = ap (λ (d : Buffer B). record d { buf = mark c1.buf }) g1.others;
        },
      )

  reallocate-Grown :
      (b : Buffer B) (new : ℕ)
      → (marks b.buf).capacity < new
      → (c : Buffer B) × (reallocate B new b ≡ ok tt c)
        × Grown B b (record (marks b.buf) { capacity = new }) (marks b.buf).capacity c
  unfolding reallocate
  reallocate-Grown b new lt =
      let v : Marks = marks b.buf in
      let (c1, ran1, g1) = transfer-Grown B b new lt in
      let (c2, ran2, g2) =
        limit-Grown B b c1 _ v.capacity v.limit g1 (omega (arith, B.limit-capacity b.buf)) in
      let (at, c3, ran3, g3) =
        restore_mark-Grown b c2 new v.limit (min v.capacity v.limit) v.position v.capacity v.mark g2
          (B.mark-position b.buf) (B.position-limit b.buf) in
      let (c4, ran4, g4) =
        position-Grown B b c3 _ v.capacity v.position g3 (B.position-limit b.buf) in
      let kept = keep_mark_lem v.position v.mark (B.mark-position b.buf) in
      (
        c4,
        simp (ran1, ran2, ran3) ran4,
        record {
          numbers = g4.numbers ∙ ap (λ (m : Option ℕ). record v { capacity = new; mark = m }) kept;
          bytes = g4.bytes;
          others = g4.others;
        },
      )

  -- A larger capacity for a buffer that may be resized: position, limit, mark and every byte stay, and
  -- so do the settings.
  pub set_capacity-Grown :
      (b : Buffer B) (new : ℕ)
      → b.recapacity_allowed ≡ true
      → (marks b.buf).capacity < new
      → (c : Buffer B) × (set_capacity B new b ≡ ok tt c)
        × Grown B b (record (marks b.buf) { capacity = new }) (marks b.buf).capacity c
  unfolding set_capacity
  set_capacity-Grown b new allowed lt =
      let (c, ran, g) = reallocate-Grown b new lt in
      let more : ltb (marks b.buf).capacity new ≡ true = ground arith in
      (c, simp (allowed, more) ran, g)

  -- A buffer that shares its memory with another keeps its capacity, and asking for another throws.
  pub set_capacity-derived :
      (b : Buffer B) (new : ℕ)
      → b.recapacity_allowed ≡ false
      → set_capacity B new b ≡ throws illegal_state b
  unfolding set_capacity
  set_capacity-derived b new shared = simp shared
