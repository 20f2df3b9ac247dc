-- ===== src/Buffer/Appended.antt =====
-- A block of bytes that is put in a buffer that grows by itself: src/EIoBuffer.cpp.
use cxx_conet.Prelude.{
  ℕ, ◌+◌, ◌-◌, ◌^◌, ◌≤◌, ◌<◌, max, ◌≡◌, refl, ap, ◌∙◌, true, ◌&&◌, List, length, ltb, leb, arith,
  if◌then◌else◌,
}
use cxx_conet.Prelude.Exec.{ok}
use cxx_conet.Prelude.ByteBuffers.{ByteBuffers, Marks}
use cxx_conet.Buffer.Capacity.{HighestOneBit}
use cxx_conet.Buffer.Resize.{Buffer, on_buf}
use cxx_conet.Buffer.Access.{Memory, byte_at, auto_expand}
use cxx_conet.Buffer.Numbers.{written_there, written_elsewhere, auto_expand-Grown}
use cxx_conet.Buffer.Bytes.{Blocks}

module _ {B : ByteBuffers} (M : Memory B) (P : Blocks B) (f : ℕ → ℕ) where
  open B use {Buf, marks, get_at}
  open P use {put_bytes}

  -- The bytes have been put in `b` at its position, behind the bytes that were there.
  pub record Appended (bs : List ℕ) (b c : Buffer B) : Type 0 where
    pub behind : (marks c.buf).position ≡ (marks b.buf).position + length bs
    pub inside : (marks b.buf).position + length bs ≤ (marks c.buf).limit
    pub is_there :
        (k : ℕ) → k < length bs → get_at c.buf ((marks b.buf).position + k) ≡ byte_at bs k
    pub before : (k : ℕ) → k < (marks b.buf).position → get_at c.buf k ≡ get_at b.buf k
    pub others : c ≡ record b { buf = c.buf }

  pub put_bytes-Appended :
      HighestOneBit f
      → (b : Buffer B) (bs : List ℕ) → b.auto_expand ≡ true
      → b.recapacity_allowed ≡ true
      → (marks b.buf).position + length bs < 2 ^ 31
      → (c1 c : Buffer B) × (auto_expand M f (length bs) b ≡ ok tt c1)
        × (on_buf B (put_bytes bs) c1 ≡ ok tt c)
        × Appended bs b c
  put_bytes-Appended high b bs auto allowed fits =
      let p = (marks b.buf).position in
      let (size, c1, ran1, enough, g) =
        auto_expand-Grown M f high b (length bs) auto allowed fits in
      let position1 : (marks c1.buf).position ≡ p = ap (λ (w : Marks). w.position) g.numbers in
      let limit1 : (marks c1.buf).limit ≡ max (marks b.buf).limit (p + length bs) =
        ap (λ (w : Marks). w.limit) g.numbers in
      let (buf, ran2, numbers, bytes) =
        P.put_bytes-ok bs c1.buf (omega (arith, position1, limit1)) in
      let same : (k : ℕ)
          → get_at buf k
            ≡ (if leb p k && ltb k (p + length bs) then byte_at bs (k - p) else get_at c1.buf k) =
        λ k.
          bytes k
          ∙ ap
              (λ q.
                if leb q k && ltb k (q + length bs) then byte_at bs (k - q) else get_at c1.buf k)
              position1 in
      (
        c1,
        record c1 { buf = buf },
        ran1,
        rw (ran2, on_buf) refl,
        record {
          behind = ap (λ (w : Marks). w.position) numbers ∙ ap (λ q. q + length bs) position1;
          inside = omega (arith, ap (λ (w : Marks). w.limit) numbers, limit1);
          is_there = λ k lt. same (p + k) ∙ written_there bs p k (get_at c1.buf (p + k)) lt;
          before = λ k lt.
              same k
              ∙ written_elsewhere p k (p + length bs) (byte_at bs (k - p)) (get_at c1.buf k) lt
              ∙ g.bytes k (omega (arith, B.position-limit b.buf, B.limit-capacity b.buf));
          others = ap (λ (d : Buffer B). record d { buf = buf }) g.others;
        },
      )
