-- ===== src/Buffer/Indexed.antt =====
-- A number that is put with an index: the puts with an index of src/EIoBuffer.cpp.
use cxx_conet.Prelude.{ℕ, ◌+◌, ◌-◌, ◌^◌, ◌≤◌, ◌<◌, max, ◌≡◌, sym, ap, ◌∙◌, true, length, arith, pos}
use cxx_conet.Prelude.Exec.{ok}
use cxx_conet.Prelude.ByteBuffers.{ByteBuffers, Marks}
use cxx_conet.Buffer.Capacity.{HighestOneBit}
use cxx_conet.Buffer.Resize.{Buffer, auto_expand_at}
use cxx_conet.Buffer.Keeps.{Grown}
use cxx_conet.Buffer.Expand.{expand-Grown}
use cxx_conet.Buffer.Access.{Memory, Codec, byte_at, poke, peek_bytes, put_number_at, get_number_at}
use cxx_conet.Buffer.Numbers.{
  written_there, written_elsewhere, peek_bytes-same, get_bytes-peek_bytes, grows, poke-fits,
  get_number_at-run,
}

module _ {B : ByteBuffers} (M : Memory B) (f : ℕ → ℕ) {width : ℕ} {V : Type 0}
    (c : Codec width V) where
  open B use {marks, get_at}
  open M use {write_at}

  put_number_at-run :
      (i : ℕ) (v : V) (b c1 c2 : Buffer B) (p : ℕ)
      → auto_expand_at B f (pos i) width b ≡ ok tt c1
      → (marks c1.buf).position ≡ p
      → poke M f (p + i) (c.write v) c1 ≡ ok tt c2
      → put_number_at M f c i v b ≡ ok tt c2
  unfolding put_number_at
  put_number_at-run i v b c1 c2 p ran1 at ran2 = rw (ran1, at) ran2

  room_at :
      HighestOneBit f
      → (b : Buffer B) (i n : ℕ) → b.auto_expand ≡ true
      → b.recapacity_allowed ≡ true
      → i + n < 2 ^ 31
      → (size : ℕ) × (c1 : Buffer B) × (auto_expand_at B f (pos i) n b ≡ ok tt c1)
        × ((marks b.buf).capacity ≤ size)
        × Grown B b
            (record (marks b.buf) { capacity = size; limit = max (marks b.buf).limit (i + n) })
            (marks b.buf).capacity
            c1
  unfolding auto_expand_at
  room_at high b i n auto allowed fits =
      let (size, c1, ran, enough, more, exact, g) = expand-Grown B f high b i n true allowed fits in
      (size, c1, rw (grows M f b auto allowed) ran, more, g)

  -- A put of a number with an index i, on a buffer that grows by itself and whose limit, an int, holds
  -- the number that many bytes behind the position: the number is then at i counted from the position,
  -- where the get with that sum for its index reads it; the position and the bytes before the number
  -- stay.
  pub put_number_at-get_number_at :
      HighestOneBit f
      → (b : Buffer B) (i : ℕ) (v : V) → b.auto_expand ≡ true
      → b.recapacity_allowed ≡ true
      → (marks b.buf).position + i + width ≤ (marks b.buf).limit
      → (marks b.buf).limit < 2 ^ 31
      → (b' : Buffer B) × (put_number_at M f c i v b ≡ ok tt b')
        × ((marks b'.buf).position ≡ (marks b.buf).position)
        × (get_number_at M f c ((marks b.buf).position + i) b' ≡ ok v b')
        × ((k : ℕ) → k < (marks b.buf).position + i → get_at b'.buf k ≡ get_at b.buf k)
  put_number_at-get_number_at high b i v auto allowed inside int =
      let p = (marks b.buf).position in
      let bs = c.write v in
      let long = c.length-write v in
      let below = B.limit-capacity b.buf in
      let (size, c1, ran1, more, g) = room_at high b i width auto allowed (omega arith) in
      let position1 : (marks c1.buf).position ≡ p = ap (λ (w : Marks). w.position) g.numbers in
      let capacity1 : (marks c1.buf).capacity ≡ size = ap (λ (w : Marks). w.capacity) g.numbers in
      let limit1 : (marks c1.buf).limit ≡ max (marks b.buf).limit (i + width) =
        ap (λ (w : Marks). w.limit) g.numbers in
      let fits : p + i + length bs ≤ (marks c1.buf).capacity =
        omega (arith, long, capacity1, more, below) in
      let poked = poke-fits M f (p + i) bs c1 fits in
      let buf2 = write_at (p + i) bs c1.buf in
      let c2 : Buffer B = record c1 { buf = buf2 } in
      let numbers2 = M.marks-write_at (p + i) bs c1.buf fits in
      let bytes2 = M.get_at-write_at (p + i) bs c1.buf fits in
      let limit2 : (marks buf2).limit ≡ max (marks b.buf).limit (i + width) =
        ap (λ (w : Marks). w.limit) numbers2 ∙ limit1 in
      let all =
        peek_bytes-same M f bs (p + i) c2 (λ k lt.
          bytes2 (p + i + k) ∙ written_there bs (p + i) k (get_at c1.buf (p + i + k)) lt) in
      let got = get_bytes-peek_bytes M f (p + i) width c2 (omega (arith, limit2)) in
      (
        c2,
        put_number_at-run i v b c1 c2 p ran1 position1 poked,
        ap (λ (w : Marks). w.position) numbers2 ∙ position1,
        get_number_at-run M f c v (p + i) c2 (peek_bytes M f c2 (p + i) width) got
            (ap (peek_bytes M f c2 (p + i)) (sym long) ∙ all),
        λ k lt.
            bytes2 k
            ∙ written_elsewhere (p + i) k (p + i + length bs) (byte_at bs (k - (p + i)))
                (get_at c1.buf k) lt
            ∙ g.bytes k (omega (arith, below)),
      )
