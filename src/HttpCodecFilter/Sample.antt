-- ===== src/HttpCodecFilter/Sample.antt =====
-- Searches that keep what is asked of the Efc library, for the examples.
use cxx_conet.Prelude.{
  ℕ, suc, ◌+◌, ◌-◌, ◌*◌, ◌≤◌, ◌≡◌, refl, ap, Bool, Bool-cases, Option-cases, inl, inr, true, false,
  ◌&&◌, Option, none, some, List, [], ◌∷◌, ◌++◌, ◌==◌, arith, length, leb, if◌then◌else◌, ℤ, pos,
}
use cxx_conet.HttpCodecFilter.{ByteStrings}

-- capital letters as small ones
abbrev pub to_lower : ℕ → ℕ
to_lower c = if leb 65 c && leb c 90 then c + 32 else c

module _ (fold : ℕ → ℕ) where
  abbrev pub begins : List ℕ → List ℕ → Bool
  begins text [] = true
  begins [] (p ∷ part) = false
  begins (c ∷ text) (p ∷ part) = (fold c == fold p) && begins text part

  abbrev pub next : Option ℕ → Option ℕ
  next none = none
  next (some i) = some (suc i)

  abbrev pub find : List ℕ → List ℕ → Option ℕ
  find [] part = if begins [] part then some 0 else none
  find (c ∷ text) part = if begins (c ∷ text) part then some 0 else next (find text part)

  begins-fits : (text part : List ℕ) → begins text part ≡ true → length part ≤ length text
  begins-fits text [] h = omega arith
  begins-fits [] (p ∷ part) h = cc
  begins-fits (c ∷ text) (p ∷ part) h = ground (arith, begins-fits text part)

  begins-append :
      (text part more : List ℕ)
      → length part ≤ length text
      → begins (text ++ more) part ≡ begins text part
  begins-append text [] more h = refl
  begins-append [] (p ∷ part) more h = absurd (omega arith)
  begins-append (c ∷ text) (p ∷ part) more h =
      ap (λ (b : Bool). (fold c == fold p) && b) (begins-append text part more (omega arith))

  pub find-fits :
      (text part : List ℕ) (i : ℕ) → find text part ≡ some i → i + length part ≤ length text
  find-fits [] part i h = ground (arith, begins-fits [] part)
  find-fits (c ∷ text) part i h = elim (Bool-cases (begins (c ∷ text) part)) [
    | inl here ↦ ground (arith, begins-fits (c ∷ text) part here)
    | inr off ↦ elim (Option-cases (find text part)) [
      | inl out ↦ ground arith
      | inr (j, at) ↦ ground (arith, find-fits text part j at)
    ]
  ]

  pub find-append :
      (text part more : List ℕ) (i : ℕ)
      → find text part ≡ some i
      → find (text ++ more) part ≡ some i
  find-append [] [] [] i h = h
  find-append [] [] (m ∷ more) i h = h
  find-append [] (p ∷ part) more i h = cc
  find-append (c ∷ text) part more i h =
      let fits = find-fits (c ∷ text) part i h in
      let same = begins-append (c ∷ text) part more (omega arith) in
      elim (Bool-cases (begins (c ∷ text) part)) [
        | inl here ↦ ground (arith, same)
        | inr off ↦ elim (Option-cases (find text part)) [
          | inl out ↦ ground arith
          | inr (j, at) ↦ ground (arith, same, find-append text part more j at)
        ]
      ]

-- a decimal number after blanks
abbrev pub digits : ℕ → List ℕ → Option ℤ
digits n [] = some (pos n)
digits n (c ∷ cs) =
    let rest = digits (n * 10 + (c - 48)) cs in if leb 48 c && leb c 57 then rest else none

abbrev pub parse_int : List ℕ → Option ℤ
parse_int [] = none
parse_int (c ∷ cs) = let rest = parse_int cs in if c == 32 then rest else digits 0 (c ∷ cs)

abbrev pub searches : ByteStrings
searches = record {
  strnstr = find (λ c. c);
  strncasestr = find to_lower;
  parse_int = parse_int;
  strnstr-fits = find-fits (λ c. c);
  strnstr-append = find-append (λ c. c);
  strncasestr-fits = find-fits to_lower;
}
