-- ===== src/Buffer/Numbers.antt =====
-- A number that is put in a buffer that grows by itself is read back.
use mathlib.Core.Path.{subst}
use cxx_conet.Prelude.{
  ℕ, zero, suc, ◌+◌, ◌-◌, ◌^◌, ◌≤◌, ◌<◌, max, ◌≡◌, refl, sym, ap, ◌∙◌, true, false, ◌&&◌, List, [],
  ◌∷◌, length, ltb, leb, arith, if◌then◌else◌,
}
use cxx_conet.Prelude.Exec.{ok, pure, and_then}
use cxx_conet.Prelude.ByteBuffers.{ByteBuffers, Marks}
use cxx_conet.Buffer.Capacity.{HighestOneBit}
use cxx_conet.Buffer.Resize.{Buffer, on_buf, is_auto_expand, auto_expand_at}
use cxx_conet.Buffer.Keeps.{Grown}
use cxx_conet.Buffer.Expand.{expand-Grown}
use cxx_conet.Buffer.Access.{
  Memory, Codec, byte_at, auto_expand, poke, peek_bytes, get_bytes, put_number, get_number_at,
}

pub written_there :
    (bs : List ℕ) (p k y : ℕ)
    → k < length bs
    → (if leb p (p + k) && ltb (p + k) (p + length bs) then byte_at bs (p + k - p) else y)
      ≡ byte_at bs k
written_there bs p k y lt =
    let above : leb p (p + k) ≡ true = ground arith in
    let below : ltb (p + k) (p + length bs) ≡ true = ground arith in
    let same : p + k - p ≡ k = omega arith in rw (above, below, same) refl

pub written_elsewhere : (p k end x y : ℕ) → k < p → (if leb p k && ltb k end then x else y) ≡ y
written_elsewhere p k end x y lt = let below : leb p k ≡ false = ground arith in rw below refl

module _ {B : ByteBuffers} (M : Memory B) (f : ℕ → ℕ) where
  open B use {marks, get_at}
  open M use {write_at, skip, get}

  pub get_bytes-peek_bytes :
      (i count : ℕ) (b : Buffer B)
      → i + count ≤ (marks b.buf).limit
      → get_bytes M f i count b ≡ ok (peek_bytes M f b i count) b
  unfolding get_bytes peek_bytes
  get_bytes-peek_bytes i zero b fits = refl
  get_bytes-peek_bytes i (suc count) b fits =
      let got = M.get-ok i b.buf (omega arith) in
      let rest = get_bytes-peek_bytes (suc i) count b (omega arith) in
      rw (got, get_bytes) (ap (λ r. and_then r (λ l. pure (get_at b.buf i ∷ l))) rest)

  pub peek_bytes-same :
      (bs : List ℕ) (i : ℕ) (b : Buffer B)
      → ((k : ℕ) → k < length bs → get_at b.buf (i + k) ≡ byte_at bs k)
      → peek_bytes M f b i (length bs) ≡ bs
  unfolding peek_bytes
  peek_bytes-same [] i b same = refl
  peek_bytes-same (x ∷ bs) i b same =
      let at : i + 0 ≡ i = omega arith in
      let here : get_at b.buf i ≡ x = subst (λ k. get_at b.buf k ≡ x) at (same 0 (omega arith)) in
      let rest = peek_bytes-same bs (suc i) b (λ k lt.
        let next : i + suc k ≡ suc i + k = omega arith in
        subst (λ n. get_at b.buf n ≡ byte_at bs k) next (same (suc k) (omega arith))) in
      cc (here, rest)

  pub grows :
      (b : Buffer B)
      → b.auto_expand ≡ true
      → b.recapacity_allowed ≡ true
      → is_auto_expand B b ≡ true
  unfolding is_auto_expand
  grows b auto allowed = rw (auto, allowed) refl

  pub poke-fits :
      (i : ℕ) (bs : List ℕ) (b : Buffer B)
      → i + length bs ≤ (marks b.buf).capacity
      → poke M f i bs b ≡ ok tt (record b { buf = write_at i bs b.buf })
  unfolding poke
  poke-fits i bs b fits =
      let test : ltb (marks b.buf).capacity (i + length bs) ≡ false = ground arith in
      rw (test, poke) refl

  skip-on_buf :
      (n : ℕ) (b : Buffer B) (buf : B.Buf)
      → skip n b.buf ≡ ok tt buf
      → on_buf B (skip n) b ≡ ok tt (record b { buf = buf })
  skip-on_buf n b buf ran = rw (ran, on_buf) refl

  -- room for a number has been made
  pub auto_expand-Grown :
      HighestOneBit f
      → (b : Buffer B) (n : ℕ) → b.auto_expand ≡ true
      → b.recapacity_allowed ≡ true
      → (marks b.buf).position + n < 2 ^ 31
      → (size : ℕ) × (c : Buffer B) × (auto_expand M f n b ≡ ok tt c)
        × ((marks b.buf).position + n ≤ size)
        × Grown B b
            (record (marks b.buf) {
              capacity = size;
              limit = max (marks b.buf).limit ((marks b.buf).position + n);
            })
            (marks b.buf).capacity
            c
  unfolding auto_expand auto_expand_at
  auto_expand-Grown high b n auto allowed fits =
      let (size, c, ran, enough, more, exact, g) =
        expand-Grown B f high b (marks b.buf).position n true allowed fits in
      (size, c, rw (grows b auto allowed) ran, enough, g)

module _ {B : ByteBuffers} (M : Memory B) (f : ℕ → ℕ) {width : ℕ} {V : Type 0}
    (c : Codec width V) where
  open B use {marks, get_at}
  open M use {write_at, skip}

  put_number-run :
      (v : V) (b c1 c2 c3 : Buffer B) (p : ℕ)
      → auto_expand M f width b ≡ ok tt c1
      → (marks c1.buf).position ≡ p
      → poke M f p (c.write v) c1 ≡ ok tt c2
      → on_buf B (skip width) c2 ≡ ok tt c3
      → put_number M f c v b ≡ ok tt c3
  unfolding put_number
  put_number-run v b c1 c2 c3 p ran1 at ran2 ran3 = rw (ran1, at, ran2) ran3

  pub get_number_at-run :
      (v : V) (i : ℕ) (b : Buffer B) (bs : List ℕ)
      → get_bytes M f i width b ≡ ok bs b
      → bs ≡ c.write v
      → get_number_at M f c i b ≡ ok v b
  unfolding get_number_at
  get_number_at-run v i b bs got is = rw (got, is, c.read-write v) refl

  -- A number that is put in a buffer that grows by itself, where its end is an int, stands at the old
  -- position and is read there by the get with that index; the position goes on behind it, and the
  -- bytes before it stay.
  pub put_number-get_number_at :
      HighestOneBit f
      → (b : Buffer B) (v : V) → b.auto_expand ≡ true
      → b.recapacity_allowed ≡ true
      → (marks b.buf).position + width < 2 ^ 31
      → (b' : Buffer B) × (put_number M f c v b ≡ ok tt b')
        × ((marks b'.buf).position ≡ (marks b.buf).position + width)
        × (get_number_at M f c (marks b.buf).position b' ≡ ok v b')
        × ((k : ℕ) → k < (marks b.buf).position → get_at b'.buf k ≡ get_at b.buf k)
  put_number-get_number_at high b v auto allowed fits =
      let p = (marks b.buf).position in
      let (size, c1, ran1, enough, g) = auto_expand-Grown M f high b width auto allowed fits in
      let long = c.length-write v in
      let position1 : (marks c1.buf).position ≡ p = ap (λ (w : Marks). w.position) g.numbers in
      let capacity1 : (marks c1.buf).capacity ≡ size = ap (λ (w : Marks). w.capacity) g.numbers in
      let limit1 : (marks c1.buf).limit ≡ max (marks b.buf).limit (p + width) =
        ap (λ (w : Marks). w.limit) g.numbers in
      let inside : p + length (c.write v) ≤ (marks c1.buf).capacity =
        omega (arith, long, enough, capacity1) in
      let poked = poke-fits M f p (c.write v) c1 inside in
      let buf2 = write_at p (c.write v) c1.buf in
      let numbers2 = M.marks-write_at p (c.write v) c1.buf inside in
      let bytes2 = M.get_at-write_at p (c.write v) c1.buf inside in
      let position2 : (marks buf2).position ≡ p =
        ap (λ (w : Marks). w.position) numbers2 ∙ position1 in
      let limit2 : (marks buf2).limit ≡ max (marks b.buf).limit (p + width) =
        ap (λ (w : Marks). w.limit) numbers2 ∙ limit1 in
      let (buf3, ran3, numbers3, bytes3) =
        M.skip-ok width buf2 (omega (arith, position2, limit2)) in
      let c3 : Buffer B = record c1 { buf = buf3 } in
      let position3 : (marks buf3).position ≡ p + width =
        ap (λ (w : Marks). w.position) numbers3 ∙ ap (λ n. n + width) position2 in
      let limit3 : (marks buf3).limit ≡ max (marks b.buf).limit (p + width) =
        ap (λ (w : Marks). w.limit) numbers3 ∙ limit2 in
      let bs = c.write v in
      let all = peek_bytes-same M f bs p c3 (λ k lt.
        bytes3 (p + k) ∙ bytes2 (p + k) ∙ written_there bs p k (get_at c1.buf (p + k)) lt) in
      let got = get_bytes-peek_bytes M f p width c3 (omega (arith, limit3)) in
      (
        c3,
        put_number-run v b c1 (record c1 { buf = buf2 }) c3 p ran1 position1 poked
            (skip-on_buf M f width (record c1 { buf = buf2 }) buf3 ran3),
        position3,
        get_number_at-run v p c3 (peek_bytes M f c3 p width) got
            (ap (peek_bytes M f c3 p) (sym long) ∙ all),
        λ k lt.
            bytes3 k
            ∙ bytes2 k
            ∙ written_elsewhere p k (p + length bs) (byte_at bs (k - p)) (get_at c1.buf k) lt
            ∙ g.bytes k (omega (arith, B.position-limit b.buf, B.limit-capacity b.buf)),
      )
