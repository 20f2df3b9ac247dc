-- ===== src/Buffer/Sliced.antt =====
-- What a slice holds, and what it leaves of its buffer.
use cxx_conet.Prelude.{
  ℕ, ◌+◌, ◌^◌, ◌≤◌, ◌<◌, min, ◌≡◌, refl, ap, ◌∙◌, true, false, ltb, leb, arith, pos,
}
use cxx_conet.Prelude.Exec.{ok}
use cxx_conet.Prelude.ByteBuffers.{ByteBuffers, Marks}
use cxx_conet.Buffer.Resize.{Buffer, on_buf, is_auto_expand, auto_expand_at}
use cxx_conet.Buffer.Slice.{Slices, limit_to, position_to, slice, get_slice}

module _ {B : ByteBuffers} (S : Slices B) (f : ℕ → ℕ) where
  open B use {Buf, marks, get_at, set_limit, set_position}
  open S use {slice_buf}

  fixed : (b : Buffer B) (n : ℕ) → b.auto_expand ≡ false → auto_expand_at B f (pos n) 0 b ≡ ok tt b
  unfolding auto_expand_at
  fixed b n off =
      let stays : is_auto_expand B b ≡ false = rw (off, is_auto_expand) refl in rw stays refl

  limit_to-fixed :
      (b : Buffer B) (n : ℕ) (buf : Buf)
      → b.auto_expand ≡ false
      → set_limit n b.buf ≡ ok tt buf
      → limit_to S f n b ≡ ok tt (record b { buf = buf })
  unfolding limit_to
  limit_to-fixed b n buf off ran =
      let run : on_buf B (set_limit n) b ≡ ok tt (record b { buf = buf }) = rw (ran, on_buf) refl in
      rw (fixed b n off) run

  pub position_to-fixed :
      (b : Buffer B) (n : ℕ) (buf : Buf)
      → b.auto_expand ≡ false
      → set_position n b.buf ≡ ok tt buf
      → position_to S f n b ≡ ok tt (record b { buf = buf })
  unfolding position_to
  position_to-fixed b n buf off ran =
      let run : on_buf B (set_position n) b ≡ ok tt (record b { buf = buf }) =
        rw (ran, on_buf) refl in
      rw (fixed b n off) run

  get_slice-run :
      (b c1 c2 c3 c4 s : Buffer B) (n p lim : ℕ)
      → (marks b.buf).position ≡ p
      → (marks b.buf).limit ≡ lim
      → leb (2 ^ 31) (p + n) ≡ false
      → ltb lim (p + n) ≡ false
      → limit_to S f (p + n) b ≡ ok tt c1
      → slice S f c1 ≡ ok s c2
      → position_to S f (p + n) c2 ≡ ok tt c3
      → limit_to S f lim c3 ≡ ok tt c4
      → get_slice S f (pos n) b ≡ ok s c4
  unfolding get_slice
  get_slice-run b c1 c2 c3 c4 s n p lim at end int fits ran1 ran2 ran3 ran4 =
      rw (at, end, int, fits, ran1, ran2, ran3, ran4) refl

  -- getSlice of so many bytes that remain, on a buffer that does not grow by itself and whose limit is
  -- an int, returns: the slice holds those bytes, between a position 0 and its limit; the buffer's
  -- position goes on behind them, its limit, its capacity and its bytes stay, and neither of the two may
  -- be resized any more.
  pub get_slice-bytes :
      (b : Buffer B) (n : ℕ)
      → b.auto_expand ≡ false
      → (marks b.buf).position + n ≤ (marks b.buf).limit
      → (marks b.buf).limit < 2 ^ 31
      → (s c : Buffer B) × (get_slice S f (pos n) b ≡ ok s c)
        × ((marks s.buf).position ≡ 0)
        × ((marks s.buf).limit ≡ n)
        × ((i : ℕ) → i < n → get_at s.buf i ≡ get_at b.buf ((marks b.buf).position + i))
        × ((marks c.buf).position ≡ (marks b.buf).position + n)
        × ((marks c.buf).limit ≡ (marks b.buf).limit)
        × ((marks c.buf).capacity ≡ (marks b.buf).capacity)
        × ((i : ℕ) → get_at c.buf i ≡ get_at b.buf i)
        × ((s.recapacity_allowed ≡ false) × (c.recapacity_allowed ≡ false))
  unfolding slice
  get_slice-bytes b n off fits int =
      let v : Marks = marks b.buf in
      let p = v.position in
      let in_capacity = B.limit-capacity b.buf in
      let (buf1, ran1, is1, same1) = B.set_limit-ok (p + n) b.buf (omega arith) in
      let limit1 : (marks buf1).limit ≡ p + n = ap (λ (w : Marks). w.limit) is1 in
      let position1 : (marks buf1).position ≡ min p (p + n) = ap (λ (w : Marks). w.position) is1 in
      let capacity1 : (marks buf1).capacity ≡ v.capacity = ap (λ (w : Marks). w.capacity) is1 in
      let (buf3, ran3, is3, same3) = B.set_position-ok (p + n) buf1 (omega (arith, limit1)) in
      let position3 : (marks buf3).position ≡ p + n = ap (λ (w : Marks). w.position) is3 in
      let capacity3 : (marks buf3).capacity ≡ v.capacity =
        ap (λ (w : Marks). w.capacity) is3 ∙ capacity1 in
      let (buf4, ran4, is4, same4) = B.set_limit-ok v.limit buf3 (omega (arith, capacity3)) in
      let position4 : (marks buf4).position ≡ min (marks buf3).position v.limit =
        ap (λ (w : Marks). w.position) is4 in
      let numbers = S.marks-slice_buf buf1 in
      let bytes = S.get_at-slice_buf buf1 in
      let first : (marks buf1).position ≡ p = omega (arith, position1) in
      let c1 : Buffer B = record b { buf = buf1 } in
      let s : Buffer B = record {
        buf = slice_buf buf1;
        derived = true;
        auto_expand = false;
        auto_shrink = false;
        recapacity_allowed = false;
        minimum_capacity = (marks buf1).capacity;
      } in
      let c2 : Buffer B = record c1 { recapacity_allowed = false } in
      let c3 : Buffer B = record c2 { buf = buf3 } in
      let c4 : Buffer B = record c2 { buf = buf4 } in
      (
        s,
        c4,
        get_slice-run b c1 c2 c3 c4 s n p v.limit refl refl (ground arith) (ground arith)
            (limit_to-fixed b (p + n) buf1 off ran1) refl
            (position_to-fixed c2 (p + n) buf3 off ran3) (limit_to-fixed c3 v.limit buf4 off ran4),
        ap (λ (w : Marks). w.position) numbers,
        ap (λ (w : Marks). w.limit) numbers ∙ omega (arith, limit1, first),
        λ i lt.
            bytes i (omega (arith, limit1, first))
            ∙ same1 ((marks buf1).position + i)
            ∙ ap (λ k. get_at b.buf (k + i)) first,
        omega (arith, position4, position3),
        ap (λ (w : Marks). w.limit) is4,
        ap (λ (w : Marks). w.capacity) is4 ∙ capacity3,
        λ i. same4 i ∙ same3 i ∙ same1 i,
        (refl, refl),
      )
