-- ===== src/Buffer/ByteLists.antt =====
-- Lists of bytes by their index, for the strings and the streams of src/EIoBuffer.cpp.
use cxx_conet.Prelude.{
  ℕ, zero, suc, ◌+◌, ◌-◌, ◌≤◌, ◌<◌, min, ◌≡◌, refl, sym, ap, ◌∙◌, List, [], ◌∷◌, ◌++◌, length, take,
  drop, arith,
}
use cxx_conet.Buffer.Access.{byte_at}
use cxx_conet.Buffer.Ordering.{bytes_from}

pub byte_at-front : (xs ys : List ℕ) (k : ℕ) → k < length xs → byte_at (xs ++ ys) k ≡ byte_at xs k
byte_at-front [] ys k lt = absurd (omega arith)
byte_at-front (x ∷ xs) ys zero lt = refl
byte_at-front (x ∷ xs) ys (suc k) lt = byte_at-front xs ys k (omega arith)

pub byte_at-end : (xs : List ℕ) → byte_at (xs ++ 0 ∷ []) (length xs) ≡ 0
byte_at-end [] = refl
byte_at-end (x ∷ xs) = byte_at-end xs

pub byte_at-back :
    (xs ys : List ℕ) (k : ℕ) → length xs ≤ k → byte_at (xs ++ ys) k ≡ byte_at ys (k - length xs)
byte_at-back [] ys k le = ap (byte_at ys) (omega arith)
byte_at-back (x ∷ xs) ys zero le = absurd (omega arith)
byte_at-back (x ∷ xs) ys (suc k) le =
    byte_at-back xs ys k (omega arith) ∙ ap (byte_at ys) (omega arith)

pub byte_at-drop : (n : ℕ) (xs : List ℕ) (k : ℕ) → byte_at (drop n xs) k ≡ byte_at xs (n + k)
byte_at-drop zero xs k = ap (byte_at xs) (omega arith)
byte_at-drop (suc n) [] k = refl
byte_at-drop (suc n) (x ∷ xs) k =
    let next : suc n + k ≡ suc (n + k) = omega arith in
    byte_at-drop n xs k ∙ sym (ap (byte_at (x ∷ xs)) next)

pub bytes_from-take :
    (get : ℕ → ℕ) (n : ℕ) (bs : List ℕ) (i count : ℕ)
    → ((k : ℕ) → k < length bs → get (i + k) ≡ byte_at bs k)
    → count ≡ min (length bs) n
    → bytes_from get count i ≡ take n bs
bytes_from-take get zero bs i count is few =
    let none_left : count ≡ 0 = omega (arith, few) in rw none_left refl
bytes_from-take get (suc n) [] i count is few =
    let none_left : count ≡ 0 = omega (arith, few) in rw none_left refl
bytes_from-take get (suc n) (x ∷ bs) i zero is few = absurd (omega (arith, few))
bytes_from-take get (suc n) (x ∷ bs) i (suc count) is few =
    let at : i ≡ i + 0 = omega arith in
    let rest =
      bytes_from-take get n bs (suc i) count
        (λ k lt.
          let next : suc i + k ≡ i + suc k = omega arith in ap get next ∙ is (suc k) (omega arith))
        (omega (arith, few)) in
    let here : get i ≡ x = ap get at ∙ is 0 (omega arith) in cc (here, rest)

pub take-nil : (n : ℕ) → take {A = ℕ} n [] ≡ []
take-nil zero = refl
take-nil (suc n) = refl

pub drop-nil : (n : ℕ) → drop {A = ℕ} n [] ≡ []
drop-nil zero = refl
drop-nil (suc n) = refl

pub take-plus : (m n : ℕ) (xs : List ℕ) → take m xs ++ take n (drop m xs) ≡ take (m + n) xs
take-plus zero n xs = ap (λ k. take k xs) (omega arith)
take-plus (suc m) n [] = take-nil n ∙ sym (take-nil (suc m + n))
take-plus (suc m) n (x ∷ xs) =
    let next : suc m + n ≡ suc (m + n) = omega arith in rw next (ap (λ l. x ∷ l) (take-plus m n xs))

pub drop-plus : (m n : ℕ) (xs : List ℕ) → drop n (drop m xs) ≡ drop (m + n) xs
drop-plus zero n xs = ap (λ k. drop k xs) (omega arith)
drop-plus (suc m) n [] = drop-nil n ∙ sym (drop-nil (suc m + n))
drop-plus (suc m) n (x ∷ xs) =
    let next : suc m + n ≡ suc (m + n) = omega arith in rw next (drop-plus m n xs)

abbrev pub sum : List ℕ → ℕ
sum [] = 0
sum (n ∷ ns) = n + sum ns
