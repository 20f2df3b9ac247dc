-- ===== src/OwnedBuffer/Split.antt =====
-- A number of bytes to move that ends inside a buffer of the other list.
use native.Mathlib.Nat.{suc-mul}
use cxx_conet.Prelude.{
  ℕ, zero, suc, ◌+◌, ◌*◌, ◌<◌, ◌≡◌, refl, ap, ◌∙◌, false, List, ◌∷◌, ◌==◌, arith, length, take,
  length-append, length-take, leb,
}
use cxx_conet.Prelude.Exec.{throws, out_of_fuel}
use cxx_conet.OwnedBuffer.{IoBuffers, move}
use cxx_conet.OwnedBuffer.Move.{bytes, add_data-bytes}

module _ (B : IoBuffers) where
  open B use {Buf, content, limit, set_position-ok}

  -- Where the first buffer of the other list has more bytes than are to be moved and its limit is
  -- above twice their number, the loop never ends: no number of rounds is enough, and each but the last
  -- has added as many bytes again.
  pub move-out_of_fuel :
      (fuel len : ℕ) (b : Buf) (rest buffer : List Buf)
      → 0 < len
      → len < length (content b)
      → len + len < limit b
      → (buffer' : List Buf) × (b' : Buf) × (move B fuel len (buffer, b ∷ rest)
          ≡ throws out_of_fuel (buffer', b' ∷ rest))
        × (length (bytes B buffer') ≡ length (bytes B buffer) + fuel * len)
  unfolding move
  move-out_of_fuel zero len b rest buffer some_left inside long = (buffer, b, refl, omega arith)
  move-out_of_fuel (suc fuel) len b rest buffer some_left inside long =
      let test : (len == 0) ≡ false = ground arith in
      let short : leb (length (content b)) len ≡ false = ground arith in
      let (buffer1, added, is) = add_data-bytes B (take len (content b)) buffer in
      let (b1, at, same, left) = set_position-ok len b (omega arith) in
      let (buffer', b', ran, grown) =
        move-out_of_fuel fuel len b1 rest buffer1 some_left (omega (arith, left, same))
          (omega (arith, same)) in
      let more = ap length is ∙ length-append {0} (bytes B buffer) (take len (content b)) in
      (
        buffer',
        b',
        rw (test, short, added, at, move) ran,
        omega (arith, grown, more, length-take {0} len (content b), suc-mul fuel len),
      )
