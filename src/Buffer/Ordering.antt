-- ===== src/Buffer/Ordering.antt =====
-- What a search finds, and when two buffers compare as equal.
use mathlib.Core.Path.{subst}
use cxx_conet.Prelude.{
  ℕ, zero, suc, ◌+◌, ◌-◌, ◌≤◌, ◌<◌, min, ◌≡◌, refl, sym, ap, ◌∙◌, Bool-cases, inl, inr, true,
  Option, none, some, List, [], ◌∷◌, length, leb, ◌==◌, arith, ℤ, pos, negsuc,
}
use cxx_conet.Prelude.ByteBuffers.{ByteBuffers}
use cxx_conet.Buffer.Resize.{Buffer}
use cxx_conet.Buffer.Search.{
  signed_less, minus, index_loop, compare_loop, remaining, index_of, compare_to,
}

-- so many bytes from an index on
abbrev pub bytes_from : (ℕ → ℕ) → (count i : ℕ) → List ℕ
bytes_from get zero i = []
bytes_from get (suc count) i = get i ∷ bytes_from get count (suc i)

-- The index is the first one from i on, below the end, with this byte; or no index there has it.
abbrev pub FirstAt : (ℕ → ℕ) → (byte i end : ℕ) → Option ℕ → Type 0
FirstAt get byte i end none = (k : ℕ) → i ≤ k → k < end → ¬ (get k ≡ byte)
FirstAt get byte i end (some m) =
    (i ≤ m) × (m < end) × (get m ≡ byte) × ((k : ℕ) → i ≤ k → k < m → ¬ (get k ≡ byte))

not_before :
    (get : ℕ → ℕ) (byte i : ℕ) (P : ℕ → Type 0)
    → ¬ (get i ≡ byte)
    → ((k : ℕ) → suc i ≤ k → P k → ¬ (get k ≡ byte))
    → (k : ℕ) → i ≤ k
    → P k
    → ¬ (get k ≡ byte)
not_before get byte i P here after k above holds is = elim (Bool-cases (k == i)) [
  | inl same ↦ let at : k ≡ i = ground arith in here (sym (ap get at) ∙ is)
  | inr other ↦ after k (ground arith) holds is
]

step-FirstAt :
    (get : ℕ → ℕ) (byte i rounds : ℕ) (r : Option ℕ)
    → ¬ (get i ≡ byte)
    → FirstAt get byte (suc i) (suc i + rounds) r
    → FirstAt get byte i (i + suc rounds) r
step-FirstAt get byte i rounds none here rest =
    not_before get byte i (λ k. k < i + suc rounds) here
      (λ k above below. rest k above (omega arith))
step-FirstAt get byte i rounds (some m) here (above, below, is, before) =
    (omega arith, omega arith, is, not_before get byte i (λ k. k < m) here before)

index_loop-FirstAt :
    (get : ℕ → ℕ) (byte rounds i : ℕ)
    → FirstAt get byte i (i + rounds) (index_loop get byte rounds i)
unfolding index_loop
index_loop-FirstAt get byte zero i = λ k above below. absurd (omega arith)
index_loop-FirstAt get byte (suc rounds) i = elim (Bool-cases (get i == byte)) [
  | inl same ↦
      let here : get i ≡ byte = ground arith in
      rw (same, index_loop) (omega arith, omega arith, here, λ k above below. absurd (omega arith))
  | inr other ↦
      let ran : index_loop get byte (suc rounds) i ≡ index_loop get byte rounds (suc i) =
        rw (other, index_loop) refl in
      let here : ¬ (get i ≡ byte) = λ is. ground arith in
      rw ran (step-FirstAt get byte i rounds _ here (index_loop-FirstAt get byte rounds (suc i)))
]

compare_loop-zero :
    (get that : ℕ → ℕ) (n i j : ℕ) (at_end : ℤ)
    → compare_loop get that n i j at_end ≡ pos 0
    → (bytes_from get n i ≡ bytes_from that n j) × (at_end ≡ pos 0)
unfolding compare_loop
compare_loop-zero get that zero i j at_end is = (refl, is)
compare_loop-zero get that (suc n) i j at_end is = elim (Bool-cases (get i == that j)) [
  | inl same ↦
      let ran : compare_loop get that (suc n) i j at_end
          ≡ compare_loop get that n (suc i) (suc j) at_end =
        rw (same, compare_loop) refl in
      let (rest, end) = compare_loop-zero get that n (suc i) (suc j) at_end (sym ran ∙ is) in
      let here : get i ≡ that j = ground arith in (cc (here, rest), end)
  | inr other ↦ elim (Bool-cases (signed_less (get i) (that j))) [
    | inl less ↦
        let ran : compare_loop get that (suc n) i j at_end ≡ negsuc 0 =
          rw (other, less, compare_loop) refl in
        let never : negsuc 0 ≡ pos 0 = sym ran ∙ is in cc never
    | inr more ↦
        let ran : compare_loop get that (suc n) i j at_end ≡ pos 1 =
          rw (other, more, compare_loop) refl in
        let never : pos 1 ≡ pos 0 = sym ran ∙ is in cc never
  ]
]

compare_loop-same :
    (get that : ℕ → ℕ) (n i j : ℕ) (at_end : ℤ)
    → bytes_from get n i ≡ bytes_from that n j
    → compare_loop get that n i j at_end ≡ at_end
unfolding compare_loop
compare_loop-same get that zero i j at_end same = refl
compare_loop-same get that (suc n) i j at_end same =
    let here : get i ≡ that j = cc same in
    let rest : bytes_from get n (suc i) ≡ bytes_from that n (suc j) = cc same in
    let test : (get i == that j) ≡ true = ground arith in
    rw (test, compare_loop) (compare_loop-same get that n (suc i) (suc j) at_end rest)

minus-zero : (m n : ℕ) → minus m n ≡ pos 0 → m ≡ n
unfolding minus
minus-zero m n is = elim (Bool-cases (leb n m)) [
  | inl le ↦
      let ran : minus m n ≡ pos (m - n) = rw (le, minus) refl in
      let none_more : m - n ≡ 0 = cc (ran, is) in ground arith
  | inr more ↦
      let ran : minus m n ≡ negsuc (n - m - 1) = rw (more, minus) refl in
      let never : negsuc (n - m - 1) ≡ pos 0 = sym ran ∙ is in cc never
]

minus_self : (n : ℕ) → minus n n ≡ pos 0
unfolding minus
minus_self n =
    let le : leb n n ≡ true = ground arith in
    let nothing : n - n ≡ 0 = omega arith in rw (le, nothing, minus) refl

length-bytes_from : (get : ℕ → ℕ) (count i : ℕ) → length (bytes_from get count i) ≡ count
length-bytes_from get zero i = refl
length-bytes_from get (suc count) i = ap suc (length-bytes_from get count (suc i))

module _ (B : ByteBuffers) where
  open B use {marks, get_at}

  -- the bytes from the position to the limit
  abbrev pub unread : Buffer B → List ℕ
  unread b = bytes_from (get_at b.buf) (remaining B b) (marks b.buf).position

  -- indexOf gives the first index from the position on, below the limit, that has the byte, and -1 if
  -- there is none.
  pub index_of-FirstAt :
      (byte : ℕ) (b : Buffer B)
      → FirstAt (get_at b.buf) byte (marks b.buf).position (marks b.buf).limit (index_of B byte b)
  unfolding index_of
  index_of-FirstAt byte b =
      let end : (marks b.buf).position + remaining B b ≡ (marks b.buf).limit =
        omega (arith, B.position-limit b.buf) in
      let at = (marks b.buf).position in
      let found = index_loop (get_at b.buf) byte (remaining B b) at in
      subst (λ e. FirstAt (get_at b.buf) byte at e found) end
        (index_loop-FirstAt (get_at b.buf) byte (remaining B b) at)

  -- compareTo is 0 exactly for two buffers with the same bytes between position and limit.
  pub compare_to-unread :
      (b that : Buffer B)
      → (compare_to B b that ≡ pos 0 → unread b ≡ unread that)
        × (unread b ≡ unread that → compare_to B b that ≡ pos 0)
  unfolding compare_to
  compare_to-unread b that =
      let n = remaining B b in
      let m = remaining B that in
      let i = (marks b.buf).position in
      let j = (marks that.buf).position in
      let get = get_at b.buf in
      let get_that = get_at that.buf in
      (
        λ is.
            let (same, end) = compare_loop-zero get get_that (min n m) i j (minus n m) is in
            let counts = minus-zero n m end in
            let mine : min n m ≡ n = omega (arith, counts) in
            let its : min n m ≡ m = omega (arith, counts) in
            ap (λ l. bytes_from get l i) (sym mine) ∙ same ∙ ap (λ l. bytes_from get_that l j) its,
        λ same.
            let counts : n ≡ m =
              sym (length-bytes_from get n i) ∙ ap length same ∙ length-bytes_from get_that m j in
            let mine : min n m ≡ n = omega (arith, counts) in
            let its : min n m ≡ m = omega (arith, counts) in
            let met : bytes_from get (min n m) i ≡ bytes_from get_that (min n m) j =
              ap (λ l. bytes_from get l i) mine
              ∙ same
              ∙ sym (ap (λ l. bytes_from get_that l j) its) in
            compare_loop-same get get_that (min n m) i j (minus n m) met
            ∙ ap (minus n) (sym counts)
            ∙ minus_self n,
      )
