-- ===== src/Buffer/Keeps.antt =====
-- What a buffer keeps when it grows.
use mathlib.Core.Path.{subst⁻¹}
use cxx_conet.Prelude.{
  ℕ, ◌+◌, ◌-◌, ◌≤◌, ◌<◌, ◌≡◌, refl, ap, ◌∙◌, true, ◌&&◌, none, ltb, leb, arith, if◌then◌else◌,
}
use cxx_conet.Prelude.Exec.{Exec, ok}
use cxx_conet.Prelude.ByteBuffers.{ByteBuffers, Marks, limited, moved}
use cxx_conet.Buffer.Resize.{Buffer, on_buf, transfer}

module _ (B : ByteBuffers) where
  open B use {Buf, marks, get_at, allocate, clear, mark, set_limit, set_position, put}

  -- The buffer `b'` is `b` with another underlying buffer, which has the marks `v` and the bytes of
  -- `b` below index `n`.
  pub record Grown (b : Buffer B) (v : Marks) (n : ℕ) (b' : Buffer B) : Type 0 where
    pub numbers : marks b'.buf ≡ v
    pub bytes : (i : ℕ) → i < n → get_at b'.buf i ≡ get_at b.buf i
    pub others : b' ≡ record b { buf = b'.buf }

  on_buf-Grown :
      (m : Exec Buf (Unit {0})) (b c : Buffer B) (v w : Marks) (n : ℕ) (buf' : Buf)
      → Grown b v n c
      → m c.buf ≡ ok tt buf'
      → marks buf' ≡ w
      → ((i : ℕ) → get_at buf' i ≡ get_at c.buf i)
      → (on_buf B m c ≡ ok tt (record c { buf = buf' })) × Grown b w n (record c { buf = buf' })
  on_buf-Grown m b c v w n buf' g ran is same = (
    rw (ran, on_buf),
    record {
      numbers = is;
      bytes = λ i lt. same i ∙ g.bytes i lt;
      others = ap (λ (d : Buffer B). record d { buf = buf' }) g.others;
    },
  )

  pub position-Grown :
      (b c : Buffer B) (v : Marks) (n k : ℕ)
      → Grown b v n c
      → k ≤ v.limit
      → (c' : Buffer B) × (on_buf B (set_position k) c ≡ ok tt c') × Grown b (moved k v) n c'
  position-Grown b c v n k g le =
      let (buf', ran, is, same) =
        B.set_position-ok k c.buf (subst⁻¹ (λ (w : Marks). k ≤ w.limit) g.numbers le) in
      let (run, grown) =
        on_buf-Grown (set_position k) b c v (moved k v) n buf' g ran (is ∙ ap (moved k) g.numbers)
          same in
      (record c { buf = buf' }, run, grown)

  pub limit-Grown :
      (b c : Buffer B) (v : Marks) (n k : ℕ)
      → Grown b v n c
      → k ≤ v.capacity
      → (c' : Buffer B) × (on_buf B (set_limit k) c ≡ ok tt c') × Grown b (limited k v) n c'
  limit-Grown b c v n k g le =
      let (buf', ran, is, same) =
        B.set_limit-ok k c.buf (subst⁻¹ (λ (w : Marks). k ≤ w.capacity) g.numbers le) in
      let (run, grown) =
        on_buf-Grown (set_limit k) b c v (limited k v) n buf' g ran (is ∙ ap (limited k) g.numbers)
          same in
      (record c { buf = buf' }, run, grown)

  -- the marks and the bytes after a put, by those before
  put-marks :
      (src dst b' : Buf) (v w : Marks)
      → marks src ≡ v
      → marks dst ≡ w
      → marks b' ≡ (record (marks dst) {
        position = (marks dst).position + ((marks src).limit - (marks src).position);
      })
      → marks b' ≡ (record w { position = w.position + (v.limit - v.position) })
  put-marks src dst b' v w mv mw is = is ∙ rw (mv, mw) refl

  copied :
      (b b' : Buf) (new i : ℕ)
      → marks (clear b) ≡ (record {
        capacity = (marks b).capacity;
        limit = (marks b).capacity;
        position = 0;
        mark = none;
      })
      → marks (allocate new) ≡ (record { capacity = new; limit = new; position = 0; mark = none })
      → i < (marks b).capacity
      → get_at b' i ≡ (
          if leb (marks (allocate new)).position i
            && ltb i (
                (marks (allocate new)).position
                + ((marks (clear b)).limit - (marks (clear b)).position))
          then get_at (clear b) ((marks (clear b)).position + (i - (marks (allocate new)).position))
          else get_at (allocate new) i)
      → get_at b' i ≡ get_at b i
  copied b b' new i old fresh lt same =
      let inside : (leb 0 i && ltb i (0 + ((marks b).capacity - 0))) ≡ true = ground arith in
      let index : 0 + (i - 0) ≡ i = omega arith in
      same ∙ rw (old, fresh, inside, index) (B.get_at-clear b i)

  put-fresh :
      (b : Buf) (new : ℕ)
      → (marks b).capacity < new
      → (b' : Buf) × (put (clear b) (allocate new) ≡ ok tt b')
        × (marks b'
            ≡ (record { capacity = new; limit = new; position = (marks b).capacity; mark = none }))
        × ((i : ℕ) → i < (marks b).capacity → get_at b' i ≡ get_at b i)
  put-fresh b new lt =
      let old = B.marks-clear b in
      let fresh = B.marks-allocate new in
      let (b', ran, is, same) = B.put-ok (clear b) (allocate new) (rw (old, fresh) (omega arith)) in
      let sum : 0 + ((marks b).capacity - 0) ≡ (marks b).capacity = omega arith in
      (
        b',
        ran,
        put-marks (clear b) (allocate new) b' _ _ old fresh is
            ∙ ap (λ (p : ℕ). record { capacity = new; limit = new; position = p; mark = none }) sum,
        λ i inside. copied b b' new i old fresh inside (same i),
      )

  pub transfer-Grown :
      (b : Buffer B) (new : ℕ)
      → (marks b.buf).capacity < new
      → (c : Buffer B) × (transfer B new b ≡ ok tt c)
        × Grown b
            (record { capacity = new; limit = new; position = (marks b.buf).capacity; mark = none })
            (marks b.buf).capacity
            c
  unfolding transfer
  transfer-Grown b new lt =
      let (buf', ran, is, same) = put-fresh b.buf new lt in
      (
        record b { buf = buf' },
        rw (ran, transfer),
        record { numbers = is; bytes = same; others = refl },
      )
