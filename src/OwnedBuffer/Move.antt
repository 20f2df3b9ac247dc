-- ===== src/OwnedBuffer/Move.antt =====
-- Whole buffers that are added and moved: the bytes stay and stay in order.
use mathlib.Core.List.{append-nil, append_assoc}
use cxx_conet.Prelude.{
  ℕ, zero, suc, ◌-◌, ◌<◌, ◌≡◌, refl, sym, ap, ◌∙◌, Bool-cases, inl, inr, true, List, [], ◌∷◌, ◌++◌,
  ◌==◌, arith, length, length-append, leb,
}
use cxx_conet.Prelude.Exec.{ok}
use cxx_conet.OwnedBuffer.{IoBuffers, add, add_data, total, move_all, move}

module _ (B : IoBuffers) where
  open B use {Buf, content, content-put, flip}

  abbrev pub bytes : List Buf → List ℕ
  bytes [] = []
  bytes (b ∷ bs) = content b ++ bytes bs

  pub length-bytes : (bs : List Buf) → length (bytes bs) ≡ total B bs
  length-bytes [] = refl
  length-bytes (b ∷ bs) = omega (arith, length-append {0} (content b) (bytes bs), length-bytes bs)

  pub bytes-append : (bs cs : List Buf) → bytes (bs ++ cs) ≡ bytes bs ++ bytes cs
  bytes-append [] cs = refl
  bytes-append (b ∷ bs) cs =
      ap (λ l. content b ++ l) (bytes-append bs cs)
      ∙ sym (append_assoc (content b) (bytes bs) (bytes cs))

  bytes-add_end : (bs : List Buf) (b : Buf) → bytes (bs ++ b ∷ []) ≡ bytes bs ++ content b
  bytes-add_end bs b = bytes-append bs (b ∷ []) ∙ ap (λ l. bytes bs ++ l) (append-nil (content b))

  -- Adding data returns, and puts a copy of it behind the bytes that are there.
  pub add_data-bytes :
      (data_bytes : List ℕ) (buffer : List Buf)
      → (buffer' : List Buf) × (add_data B data_bytes buffer ≡ ok tt buffer')
        × (bytes buffer' ≡ bytes buffer ++ data_bytes)
  unfolding add_data add
  add_data-bytes data_bytes buffer =
      let (b, ran, is) = content-put data_bytes in
      (
        add B b buffer,
        rw (ran, add_data) refl,
        bytes-add_end buffer (flip b) ∙ ap (λ l. bytes buffer ++ l) is,
      )

  -- Moving another buffer empties it and puts its bytes behind those that are there.
  pub move_all-bytes :
      (buffer that : List Buf)
      → (bytes ((move_all B buffer that).0) ≡ bytes buffer ++ bytes that)
        × ((move_all B buffer that).1 ≡ [])
  unfolding move_all
  move_all-bytes buffer [] = (sym (append-nil (bytes buffer)), refl)
  move_all-bytes buffer (b ∷ that) =
      let (all, empty) = move_all-bytes (buffer ++ b ∷ []) that in
      (
        all
            ∙ ap (λ l. l ++ bytes that) (bytes-add_end buffer b)
            ∙ append_assoc (bytes buffer) (content b) (bytes that),
        empty,
      )

  nothing_left : (l : List ℕ) → length l ≡ 0 → l ≡ []
  nothing_left [] none_left = refl
  nothing_left (x ∷ l) none_left = absurd (omega arith)

  -- Moving as many bytes as the first buffers of the other list hold returns in a round for each of
  -- them and one more, and moves just these bytes, in order.
  pub move-bytes :
      (fuel : ℕ) (xs ys buffer : List Buf)
      → length xs < fuel
      → (buffer' that' : List Buf) × (move B fuel (total B xs) (buffer, xs ++ ys)
          ≡ ok tt (buffer', that'))
        × (bytes buffer' ≡ bytes buffer ++ bytes xs)
        × (bytes that' ≡ bytes ys)
  unfolding move
  move-bytes zero xs ys buffer enough = absurd (omega arith)
  move-bytes (suc fuel) [] ys buffer enough =
      (buffer, ys, refl, sym (append-nil (bytes buffer)), refl)
  move-bytes (suc fuel) (b ∷ xs) ys buffer enough = elim (Bool-cases (total B (b ∷ xs) == 0)) [
    | inl zero_left ↦
        let empty : bytes (b ∷ xs) ≡ [] =
          nothing_left (bytes (b ∷ xs)) (ground (arith, length-bytes (b ∷ xs))) in
        (
          buffer,
          b ∷ xs ++ ys,
          rw (zero_left, move) refl,
          sym (append-nil (bytes buffer)) ∙ sym (ap (λ l. bytes buffer ++ l) empty),
          ap (λ l. content b ++ l) (bytes-append xs ys)
              ∙ sym (append_assoc (content b) (bytes xs) (bytes ys))
              ∙ ap (λ l. l ++ bytes ys) empty,
        )
    | inr some_left ↦
        let fits : leb (length (content b)) (total B (b ∷ xs)) ≡ true = ground arith in
        let less : total B (b ∷ xs) - length (content b) ≡ total B xs = omega arith in
        let (buffer', that', ran, moved, left) =
          move-bytes fuel xs ys (buffer ++ b ∷ []) (omega arith) in
        (
          buffer',
          that',
          rw (some_left, fits, less, move) ran,
          moved
              ∙ ap (λ l. l ++ bytes xs) (bytes-add_end buffer b)
              ∙ append_assoc (bytes buffer) (content b) (bytes xs),
          left,
        )
  ]
