-- ===== src/Buffer/Swept.antt =====
-- What sweep leaves of a buffer: src/EIoBuffer.cpp.
use cxx_conet.Prelude.{
  ℕ, zero, suc, ◌+◌, ◌-◌, ◌≤◌, ◌<◌, ◌≡◌, refl, ap, ◌∙◌, true, false, ◌&&◌, List, length,
  length-replicate, replicate, ltb, leb, arith, if◌then◌else◌,
}
use cxx_conet.Prelude.Exec.{ok, state_of}
use cxx_conet.Prelude.ByteBuffers.{ByteBuffers, Marks}
use cxx_conet.Buffer.Resize.{Buffer, is_auto_expand, auto_expand_at}
use cxx_conet.Buffer.Slice.{Slices, position_to}
use cxx_conet.Buffer.Sliced.{position_to-fixed}
use cxx_conet.Buffer.Access.{Memory, byte_at, auto_expand, poke}
use cxx_conet.Buffer.Numbers.{poke-fits}
use cxx_conet.Buffer.Bytes.{Blocks, remains, fill, at_last, fill_and_reset, sweep}

byte_at-replicate : (n x k : ℕ) → k < n → byte_at (replicate n x) k ≡ x
byte_at-replicate zero x k lt = absurd (omega arith)
byte_at-replicate (suc n) x zero lt = refl
byte_at-replicate (suc n) x (suc k) lt = byte_at-replicate n x k (omega arith)

written_first :
    (bs : List ℕ) (k y : ℕ)
    → k < length bs
    → (if leb 0 k && ltb k (0 + length bs) then byte_at bs (k - 0) else y) ≡ byte_at bs k
written_first bs k y lt =
    let above : leb 0 k ≡ true = ground arith in
    let below : ltb k (0 + length bs) ≡ true = ground arith in
    let same : k - 0 ≡ k = omega arith in rw (above, below, same) refl

written_behind :
    (bs : List ℕ) (k y : ℕ)
    → length bs ≤ k
    → (if leb 0 k && ltb k (0 + length bs) then byte_at bs (k - 0) else y) ≡ y
written_behind bs k y le =
    let above : leb 0 k ≡ true = ground arith in
    let out : ltb k (0 + length bs) ≡ false = ground arith in rw (above, out) refl

module _ {B : ByteBuffers} (S : Slices B) (M : Memory B) (P : Blocks B) (f : ℕ → ℕ) where
  open B use {Buf, marks, get_at, clear}
  open M use {write_at}

  auto_expand-fixed : (b : Buffer B) (n : ℕ) → b.auto_expand ≡ false → auto_expand M f n b ≡ ok tt b
  unfolding auto_expand auto_expand_at
  auto_expand-fixed b n off =
      let stays : is_auto_expand B b ≡ false = rw (off, is_auto_expand) refl in rw stays refl

  fill-run :
      (b c d : Buffer B) (value size p : ℕ)
      → auto_expand M f size b ≡ ok tt b
      → (marks b.buf).position ≡ p
      → poke M f p (replicate size value) b ≡ ok tt c
      → position_to S f (p + size) c ≡ ok tt d
      → fill S M P f value size b ≡ ok tt d
  unfolding fill
  fill-run b c d value size p ran1 at ran2 ran3 = rw (ran1, at, ran2) ran3

  at_last-ok :
      (c d : Buffer B) (p : ℕ)
      → position_to S f p c ≡ ok tt d
      → at_last S M P f p (ok tt c) ≡ ok tt d
  unfolding at_last
  at_last-ok c d p ran = ap (λ r. ok tt (state_of r)) ran

  fill_and_reset-run :
      (b c d : Buffer B) (value size p : ℕ)
      → auto_expand M f size b ≡ ok tt b
      → (marks b.buf).position ≡ p
      → fill S M P f value size b ≡ ok tt c
      → position_to S f p c ≡ ok tt d
      → fill_and_reset S M P f value size b ≡ ok tt d
  unfolding fill_and_reset
  fill_and_reset-run b c d value size p ran1 at ran2 ran3 =
      rw (ran1, at, ran2) (at_last-ok c d p ran3)

  sweep-run :
      (b c : Buffer B) (value size : ℕ)
      → remains S M P f (record b { buf = clear b.buf }) ≡ size
      → fill_and_reset S M P f value size (record b { buf = clear b.buf }) ≡ ok tt c
      → sweep S M P f value b ≡ ok tt c
  unfolding sweep
  sweep-run b c value size is ran = rw is ran

  fill_and_reset-whole :
      (b1 : Buffer B) (value size : ℕ)
      → b1.auto_expand ≡ false
      → (marks b1.buf).position ≡ 0
      → (marks b1.buf).limit ≡ size
      → (marks b1.buf).capacity ≡ size
      → (c : Buffer B) × (fill_and_reset S M P f value size b1 ≡ ok tt c)
        × ((k : ℕ) → k < size → get_at c.buf k ≡ value)
        × ((marks c.buf).position ≡ 0)
        × ((marks c.buf).limit ≡ size)
        × ((marks c.buf).capacity ≡ size)
        × ((k : ℕ) → size ≤ k → get_at c.buf k ≡ get_at b1.buf k)
  fill_and_reset-whole b1 value size off position1 limit1 capacity1 =
      let bs = replicate size value in
      let long = length-replicate {0} size value in
      let inside : 0 + length bs ≤ (marks b1.buf).capacity = omega (arith, long, capacity1) in
      let ran2 = poke-fits M f 0 bs b1 inside in
      let buf2 = write_at 0 bs b1.buf in
      let b2 : Buffer B = record b1 { buf = buf2 } in
      let same2 = M.marks-write_at 0 bs b1.buf inside in
      let bytes2 = M.get_at-write_at 0 bs b1.buf inside in
      let limit2 : (marks buf2).limit ≡ size = ap (λ (v : Marks). v.limit) same2 ∙ limit1 in
      let (buf3, ran3, is3, bytes3) = B.set_position-ok (0 + size) buf2 (omega (arith, limit2)) in
      let b3 : Buffer B = record b1 { buf = buf3 } in
      let limit3 : (marks buf3).limit ≡ size = ap (λ (v : Marks). v.limit) is3 ∙ limit2 in
      let (buf4, ran4, is4, bytes4) = B.set_position-ok 0 buf3 (omega arith) in
      let b4 : Buffer B = record b1 { buf = buf4 } in
      let filled =
        fill-run b1 b2 b3 value size 0 (auto_expand-fixed b1 size off) position1 ran2
          (position_to-fixed S f b2 (0 + size) buf3 off ran3) in
      (
        b4,
        fill_and_reset-run b1 b3 b4 value size 0 (auto_expand-fixed b1 size off) position1 filled
            (position_to-fixed S f b3 0 buf4 off ran4),
        λ k lt.
            bytes4 k
            ∙ bytes3 k
            ∙ bytes2 k
            ∙ written_first bs k (get_at b1.buf k) (omega (arith, long))
            ∙ byte_at-replicate size value k lt,
        ap (λ (v : Marks). v.position) is4,
        ap (λ (v : Marks). v.limit) is4 ∙ limit3,
        ap (λ (v : Marks). v.capacity) is4
            ∙ ap (λ (v : Marks). v.capacity) is3
            ∙ ap (λ (v : Marks). v.capacity) same2
            ∙ capacity1,
        λ k le.
            bytes4 k
            ∙ bytes3 k
            ∙ bytes2 k
            ∙ written_behind bs k (get_at b1.buf k) (omega (arith, long, le)),
      )

  -- sweep() on a buffer that does not grow by itself: every byte up to the capacity has the value
  -- afterwards, the position is 0, the limit is the capacity, which stays, and no byte behind it has
  -- changed.
  pub sweep-all :
      (b : Buffer B) (value : ℕ)
      → b.auto_expand ≡ false
      → (c : Buffer B) × (sweep S M P f value b ≡ ok tt c)
        × ((k : ℕ) → k < (marks b.buf).capacity → get_at c.buf k ≡ value)
        × ((marks c.buf).position ≡ 0)
        × ((marks c.buf).limit ≡ (marks b.buf).capacity)
        × ((marks c.buf).capacity ≡ (marks b.buf).capacity)
        × ((k : ℕ) → (marks b.buf).capacity ≤ k → get_at c.buf k ≡ get_at b.buf k)
  unfolding remains
  sweep-all b value off =
      let size = (marks b.buf).capacity in
      let numbers = B.marks-clear b.buf in
      let b1 : Buffer B = record b { buf = clear b.buf } in
      let first : (marks b1.buf).position ≡ 0 = ap (λ (v : Marks). v.position) numbers in
      let last : (marks b1.buf).limit ≡ size = ap (λ (v : Marks). v.limit) numbers in
      let (c, ran, all, position, limit, capacity, out) =
        fill_and_reset-whole b1 value size off first last
          (ap (λ (v : Marks). v.capacity) numbers) in
      (
        c,
        sweep-run b c value size (omega (arith, first, last)) ran,
        all,
        position,
        limit,
        capacity,
        λ k le. out k le ∙ B.get_at-clear b.buf k,
      )
