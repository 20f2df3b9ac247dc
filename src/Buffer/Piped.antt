-- ===== src/Buffer/Piped.antt =====
-- What is written to the output stream of a buffer comes out of its input stream.
use mathlib.Core.List.{append-nil, append_assoc, flatten}
use cxx_conet.Prelude.{
  ℕ, ◌+◌, ◌-◌, ◌^◌, ◌≤◌, ◌<◌, min, ◌≡◌, refl, sym, ap, ◌∙◌, inl, inr, Bool-cases, true, false, none,
  some, List, [], ◌∷◌, ◌++◌, length, length-append, length-drop, take, drop, ltb, ◌==◌, arith,
}
use cxx_conet.Prelude.Exec.{ok}
use cxx_conet.Prelude.ByteBuffers.{ByteBuffers, Marks}
use cxx_conet.Buffer.Capacity.{HighestOneBit}
use cxx_conet.Buffer.Resize.{Buffer, on_buf}
use cxx_conet.Buffer.Slice.{Slices}
use cxx_conet.Buffer.Access.{Memory, byte_at, auto_expand}
use cxx_conet.Buffer.Appended.{put_bytes-Appended}
use cxx_conet.Buffer.Bytes.{Blocks, remains, get_block, put_block, flip_buffer}
use cxx_conet.Buffer.ByteLists.{
  byte_at-front, byte_at-back, byte_at-drop, bytes_from-take, take-nil, drop-nil, take-plus,
  drop-plus, sum,
}
use cxx_conet.Buffer.Streams.{available, read_block, write_block, write_all, read_all}

module _ {B : ByteBuffers} (S : Slices B) (M : Memory B) (P : Blocks B) (f : ℕ → ℕ) where
  open B use {Buf, marks, get_at}
  open P use {get_bytes, put_bytes}

  -- the bytes between position and limit
  record Unread (bs : List ℕ) (b : Buffer B) : Type 0 where
    end : (marks b.buf).position + length bs ≡ (marks b.buf).limit
    is_there : (k : ℕ) → k < length bs → get_at b.buf ((marks b.buf).position + k) ≡ byte_at bs k

  -- the bytes before the position of a buffer that grows by itself
  record Written (bs : List ℕ) (b : Buffer B) : Type 0 where
    end : (marks b.buf).position ≡ length bs
    is_there : (k : ℕ) → k < length bs → get_at b.buf k ≡ byte_at bs k
    auto : b.auto_expand ≡ true
    allowed : b.recapacity_allowed ≡ true

  write_block-run :
      (bs : List ℕ) (b c1 c : Buffer B)
      → auto_expand M f (length bs) b ≡ ok tt c1
      → on_buf B (put_bytes bs) c1 ≡ ok tt c
      → write_block S M P f bs b ≡ ok tt c
  unfolding write_block put_block
  write_block-run bs b c1 c ran1 ran2 = rw ran1 ran2

  write_block-Written :
      HighestOneBit f
      → (old bs : List ℕ) (b : Buffer B) → Written old b
      → length old + length bs < 2 ^ 31
      → (c : Buffer B) × (write_block S M P f bs b ≡ ok tt c) × Written (old ++ bs) c
  write_block-Written high old bs b w fits =
      let (c1, c, ran1, ran2, a) =
        put_bytes-Appended M P f high b bs w.auto w.allowed (omega (arith, fits, w.end)) in
      let long = length-append {0} old bs in
      (
        c,
        write_block-run bs b c1 c ran1 ran2,
        record {
          end = omega (arith, a.behind, w.end, long);
          is_there = λ k lt. elim (Bool-cases (ltb k (length old))) [
            | inl early ↦
                let front : k < length old = ground arith in
                a.before k (omega (arith, front, w.end))
                ∙ w.is_there k front
                ∙ sym (byte_at-front old bs k front)
            | inr late ↦
                let back : length old ≤ k = ground arith in
                let at : k ≡ (marks b.buf).position + (k - length old) =
                  omega (arith, w.end, back) in
                ap (get_at c.buf) at
                ∙ a.is_there (k - length old) (omega (arith, long, lt, back))
                ∙ sym (byte_at-back old bs k back)
          ];
          auto = ap (λ (d : Buffer B). d.auto_expand) a.others ∙ w.auto;
          allowed = ap (λ (d : Buffer B). d.recapacity_allowed) a.others ∙ w.allowed;
        },
      )

  write_all-Written :
      HighestOneBit f
      → (bss : List (List ℕ)) (old : List ℕ) (b : Buffer B) → Written old b
      → length old + length (flatten bss) < 2 ^ 31
      → (c : Buffer B) × (write_all S M P f bss b ≡ ok tt c) × Written (old ++ flatten bss) c
  unfolding flatten
  write_all-Written high [] old b w fits = (b, refl, rw (append-nil old) w)
  write_all-Written high (bs ∷ bss) old b w fits =
      let long = length-append {0} bs (flatten bss) in
      let (c, ran, w2) = write_block-Written high old bs b w (omega (arith, fits, long)) in
      let (d, ran2, w3) =
        write_all-Written high bss (old ++ bs) c w2
          (omega (arith, fits, long, length-append {0} old bs)) in
      (d, rw ran ran2, rw⁻¹ (append_assoc old bs (flatten bss)) w3)

  available-Unread : (bs : List ℕ) (b : Buffer B) → Unread bs b → available S M P f b ≡ length bs
  unfolding available remains
  available-Unread bs b u = omega (arith, u.end)

  read_block-run :
      (n left : ℕ) (bs : List ℕ) (b c : Buffer B)
      → remains S M P f b ≡ left
      → (left == 0) ≡ false
      → get_block S M P f (min left n) b ≡ ok bs c
      → read_block S M P f n b ≡ ok (some bs) c
  unfolding read_block
  read_block-run n left bs b c is some_left ran = rw (is, some_left, ran) refl

  read_block-end :
      (n : ℕ) (b : Buffer B) → remains S M P f b ≡ 0 → read_block S M P f n b ≡ ok none b
  unfolding read_block
  read_block-end n b is = rw is refl

  get_block-run :
      (n : ℕ) (bs : List ℕ) (b : Buffer B) (buf : Buf)
      → get_bytes n b.buf ≡ ok bs buf
      → get_block S M P f n b ≡ ok bs (record b { buf = buf })
  unfolding get_block
  get_block-run n bs b buf ran = rw (ran, get_block) refl

  -- a read returns the next bytes, as many as are asked for if there are so many
  read_block-Unread :
      (n x : ℕ) (xs : List ℕ) (b : Buffer B)
      → Unread (x ∷ xs) b
      → (c : Buffer B) × (read_block S M P f n b ≡ ok (some (take n (x ∷ xs))) c)
        × Unread (drop n (x ∷ xs)) c
  unfolding available
  read_block-Unread n x xs b u =
      let bs = x ∷ xs in
      let p = (marks b.buf).position in
      let left = available-Unread bs b u in
      let count = min (length bs) n in
      let (buf, ran, numbers, bytes) = P.get_bytes-ok count b.buf (omega (arith, u.end)) in
      let taken = bytes_from-take (get_at b.buf) n bs p count u.is_there refl in
      let now : (marks buf).position ≡ p + count = ap (λ (w : Marks). w.position) numbers in
      let long = length-drop {0} n bs in
      (
        record b { buf = buf },
        read_block-run n (length bs) (take n bs) b (record b { buf = buf }) left (ground arith)
            (get_block-run count (take n bs) b buf (ran ∙ ap (λ l. ok l buf) taken)),
        record {
          end = omega (arith, now, long, u.end, ap (λ (w : Marks). w.limit) numbers);
          is_there = λ k lt.
              let at : (marks buf).position + k ≡ p + (n + k) = omega (arith, now, long, lt) in
              ap (get_at buf) at
              ∙ bytes (p + (n + k))
              ∙ u.is_there (n + k) (omega (arith, long, lt))
              ∙ sym (byte_at-drop n bs k);
        },
      )

  read_all-run :
      (n : ℕ) (ns bs : List ℕ) (b c d : Buffer B) (more : List ℕ)
      → read_block S M P f n b ≡ ok (some bs) c
      → read_all S M P f ns c ≡ ok more d
      → read_all S M P f (n ∷ ns) b ≡ ok (bs ++ more) d
  read_all-run n ns bs b c d more ran1 ran2 = rw (ran1, ran2) refl

  read_all-Unread :
      (ns bs : List ℕ) (b : Buffer B)
      → Unread bs b
      → (c : Buffer B) × (read_all S M P f ns b ≡ ok (take (sum ns) bs) c)
        × Unread (drop (sum ns) bs) c
  unfolding available
  read_all-Unread [] bs b u = (b, refl, u)
  read_all-Unread (n ∷ ns) [] b u =
      let nothing = read_block-end n b (available-Unread [] b u) in
      (
        b,
        rw nothing (ap (λ l. ok l b) (sym (take-nil (sum (n ∷ ns))))),
        rw (drop-nil (sum (n ∷ ns))) u,
      )
  read_all-Unread (n ∷ ns) (x ∷ xs) b u =
      let (c, ran, u2) = read_block-Unread n x xs b u in
      let (d, ran2, u3) = read_all-Unread ns (drop n (x ∷ xs)) c u2 in
      (
        d,
        read_all-run n ns (take n (x ∷ xs)) b c d _ ran ran2
            ∙ ap (λ l. ok l d) (take-plus n (sum ns) (x ∷ xs)),
        rw⁻¹ (drop-plus n (sum ns) (x ∷ xs)) u3,
      )

  flip_buffer-Unread :
      (bs : List ℕ) (b : Buffer B) → Written bs b → Unread bs (flip_buffer S M P f b)
  unfolding flip_buffer
  flip_buffer-Unread bs b w =
      let numbers = P.marks-flip b.buf in
      let first : (marks (P.flip b.buf)).position ≡ 0 = ap (λ (v : Marks). v.position) numbers in
      let last : (marks (P.flip b.buf)).limit ≡ (marks b.buf).position =
        ap (λ (v : Marks). v.limit) numbers in
      record {
        end = omega (arith, first, last, w.end);
        is_there = λ k lt.
            let at : (marks (P.flip b.buf)).position + k ≡ k = omega (arith, first) in
            ap (get_at (P.flip b.buf)) at ∙ P.get_at-flip b.buf k ∙ w.is_there k lt;
      }

  -- On a buffer that grows by itself and whose position is 0: blocks whose bytes together are an int
  -- many are all written to the output stream, and after flip() reads of the input stream with any
  -- lengths return these bytes in order, up to the sum of the lengths; available() then is the number
  -- of those that are left.
  pub write_all-read_all :
      HighestOneBit f
      → (b : Buffer B) (bss : List (List ℕ)) (ns : List ℕ) → b.auto_expand ≡ true
      → b.recapacity_allowed ≡ true
      → (marks b.buf).position ≡ 0
      → length (flatten bss) < 2 ^ 31
      → (c e : Buffer B) × (write_all S M P f bss b ≡ ok tt c)
        × (read_all S M P f ns (flip_buffer S M P f c) ≡ ok (take (sum ns) (flatten bss)) e)
        × (available S M P f e ≡ length (flatten bss) - sum ns)
  write_all-read_all high b bss ns auto allowed at fits =
      let empty : Written [] b = record {
        end = at;
        is_there = λ k lt. absurd (omega arith);
        auto = auto;
        allowed = allowed;
      } in
      let (c, ran1, w) = write_all-Written high bss [] b empty (omega (arith, fits)) in
      let (e, ran2, u) =
        read_all-Unread ns (flatten bss) (flip_buffer S M P f c)
          (flip_buffer-Unread (flatten bss) c w) in
      (
        c,
        e,
        ran1,
        ran2,
        available-Unread (drop (sum ns) (flatten bss)) e u ∙ length-drop (sum ns) (flatten bss),
      )
