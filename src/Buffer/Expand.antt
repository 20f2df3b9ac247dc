-- ===== src/Buffer/Expand.antt =====
-- A buffer that is expanded, by its own decision or by a call of expand.
use cxx_conet.Prelude.{
  ℕ, zero, suc, ◌+◌, ◌^◌, ◌≤◌, ◌<◌, min, max, ◌≡◌, refl, ap, ◌∙◌, Bool, Bool-cases, inl, inr, true,
  false, Option, none, some, ltb, leb, arith, if◌then◌else◌, pos,
}
use cxx_conet.Prelude.Exec.{ok, pure}
use cxx_conet.Prelude.ByteBuffers.{ByteBuffers, Marks, keep_mark, MarkBelow}
use cxx_conet.Buffer.{normalize_capacity}
use cxx_conet.Buffer.Capacity.{HighestOneBit, normalize_capacity-LeastPower}
use cxx_conet.Buffer.Resize.{Buffer, on_buf, set_capacity, end_of, not_negative, expand}
use cxx_conet.Buffer.Keeps.{Grown, limit-Grown}
use cxx_conet.Buffer.Growth.{set_capacity-Grown}

-- the capacity that is chosen is enough
normalize_capacity-enough :
    (f : ℕ → ℕ) → HighestOneBit f → (n : ℕ) → n < 2 ^ 31 → n ≤ normalize_capacity f (pos n)
normalize_capacity-enough f high zero b = omega arith
normalize_capacity-enough f high (suc n) b =
    let both = normalize_capacity-LeastPower f high (suc n) (omega arith) b in
    elim (Bool-cases (leb (suc n) (2 ^ 30))) [
      | inl small ↦ (both.0 (ground arith)).enough
      | inr large ↦ omega (arith, both.1 (ground arith))
    ]

mark_below : (p n : ℕ) (m : Option ℕ) → MarkBelow p m → p ≤ n → keep_mark n m ≡ m
mark_below p n none h le = refl
mark_below p n (some m) h le = ground arith

module _ (B : ByteBuffers) where
  open B use {Buf, marks, get_at, set_limit}

  resize-Grown :
      (b : Buffer B) (new : ℕ)
      → b.recapacity_allowed ≡ true
      → (size : ℕ) × (c : Buffer B) × ((if ltb (marks b.buf).capacity new
              then set_capacity B new
              else pure tt)
            b
          ≡ ok tt c)
        × (size ≡ max (marks b.buf).capacity new)
        × Grown B b (record (marks b.buf) { capacity = size }) (marks b.buf).capacity c
  resize-Grown b new allowed = elim (Bool-cases (ltb (marks b.buf).capacity new)) [
    | inl more ↦
        let (c, ran, g) = set_capacity-Grown B b new allowed (ground arith) in
        (new, c, rw more ran, ground arith, g)
    | inr enough ↦ (
      (marks b.buf).capacity,
      b,
      rw enough refl,
      ground arith,
      record { numbers = refl; bytes = λ i lt. refl; others = refl },
    )
  ]

  extend-Grown :
      (b c : Buffer B) (v : Marks) (n k : ℕ)
      → Grown B b v n c
      → k ≤ v.capacity
      → v.position ≤ v.limit
      → MarkBelow v.position v.mark
      → (c' : Buffer B) × ((if ltb (marks c.buf).limit k then on_buf B (set_limit k) else pure tt) c
          ≡ ok tt c')
        × Grown B b (record v { limit = max v.limit k }) n c'
  extend-Grown b c v n k g fits inside below =
      let same : (marks c.buf).limit ≡ v.limit = ap (λ (w : Marks). w.limit) g.numbers in
      elim (Bool-cases (ltb v.limit k)) [
        | inl more ↦
            let (c', ran, g') = limit-Grown B b c v n k g fits in
            let at : min v.position k ≡ v.position = ground arith in
            let lim : k ≡ max v.limit k = ground arith in
            let kept = mark_below v.position k v.mark below (ground arith) in
            (
              c',
              rw (same, more) ran,
              record {
                numbers =
                    g'.numbers
                    ∙ ap
                        (λ (l : ℕ). record v {
                          limit = l;
                          position = min v.position k;
                          mark = keep_mark k v.mark;
                        })
                        lim
                    ∙ ap
                        (λ (p : ℕ). record v {
                          limit = max v.limit k;
                          position = p;
                          mark = keep_mark k v.mark;
                        })
                        at
                    ∙ ap (λ (m : Option ℕ). record v { limit = max v.limit k; mark = m }) kept;
                bytes = g'.bytes;
                others = g'.others;
              },
            )
        | inr enough ↦
            let lim : v.limit ≡ max v.limit k = ground arith in
            (
              c,
              rw (same, enough) refl,
              record {
                numbers = g.numbers ∙ ap (λ (l : ℕ). record v { limit = l }) lim;
                bytes = g.bytes;
                others = g.others;
              },
            )
      ]

  -- the capacity that expand asks for
  abbrev pub asked : (ℕ → ℕ) → Bool → ℕ → ℕ
  asked f auto end = if auto then normalize_capacity f (pos end) else end

  asked-enough :
      (f : ℕ → ℕ)
      → HighestOneBit f
      → (auto : Bool) (end : ℕ) → end < 2 ^ 31
      → end ≤ asked f auto end
  asked-enough f high true end fits = normalize_capacity-enough f high end fits
  asked-enough f high false end fits = omega arith

  -- Expanding a buffer that may be resized, by itself or by a call, for an end that is an int: afterwards
  -- the capacity holds that end, the limit is at least there, and the position, the mark, every byte and
  -- the settings are what they were; neither capacity nor limit shrinks. By a call the capacity becomes
  -- just the end if it was smaller.
  pub expand-Grown :
      (f : ℕ → ℕ)
      → HighestOneBit f
      → (b : Buffer B) (from expected : ℕ) (auto : Bool) → b.recapacity_allowed ≡ true
      → from + expected < 2 ^ 31
      → (size : ℕ) × (c : Buffer B) × (expand B f (pos from) expected auto b ≡ ok tt c)
        × (from + expected ≤ size)
        × ((marks b.buf).capacity ≤ size)
        × (size ≡ max (marks b.buf).capacity (asked f auto (from + expected)))
        × Grown B b
            (record (marks b.buf) {
              capacity = size;
              limit = max (marks b.buf).limit (from + expected);
            })
            (marks b.buf).capacity
            c
  unfolding expand end_of not_negative
  expand-Grown f high b from expected auto allowed fits =
      let (size, c1, ran1, exact, g1) = resize-Grown b (asked f auto (from + expected)) allowed in
      let holds = asked-enough f high auto (from + expected) fits in
      let (c2, ran2, g2) =
        extend-Grown b c1 _ (marks b.buf).capacity (from + expected) g1
          (omega (arith, holds, exact)) (B.position-limit b.buf) (B.mark-position b.buf) in
      let int : leb (2 ^ 31) (from + expected) ≡ false = ground arith in
      (
        size,
        c2,
        simp (allowed, int, ran1) ran2,
        omega (arith, holds, exact),
        omega (arith, exact),
        exact,
        g2,
      )
