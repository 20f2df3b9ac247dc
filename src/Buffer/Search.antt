-- ===== src/Buffer/Search.antt =====
-- Looking for a byte in a buffer, and comparing two buffers: indexOf and compareTo of
-- src/EIoBuffer.cpp.
use cxx_conet.Prelude.{
  ℕ, zero, suc, ◌+◌, ◌-◌, ◌%◌, min, Bool, Option, none, some, ltb, leb, ◌==◌, if◌then◌else◌, ℤ, pos,
  negsuc,
}
use cxx_conet.Prelude.ByteBuffers.{ByteBuffers}
use cxx_conet.Buffer.Resize.{Buffer}

-- `v1 < v2` for two of the sources' bytes, which have a sign
unfoldable pub signed_less : ℕ → ℕ → Bool
signed_less v1 v2 = ltb ((v1 + 128) % 256) ((v2 + 128) % 256)

-- the difference of two ints that are not negative
unfoldable pub minus : ℕ → ℕ → ℤ
minus m n = if leb n m then pos (m - n) else negsuc (n - m - 1)

-- The loops, over the bytes as functions of their index, for at most so many rounds.
unfoldable pub index_loop : (ℕ → ℕ) → ℕ → (rounds i : ℕ) → Option ℕ
index_loop get b zero i = none
index_loop get b (suc rounds) i =
    let rest = index_loop get b rounds (suc i) in if get i == b then some i else rest

unfoldable pub compare_loop : (get get_that : ℕ → ℕ) (rounds i j : ℕ) (at_end : ℤ) → ℤ
unfolding signed_less
compare_loop get get_that zero i j at_end = at_end
compare_loop get get_that (suc rounds) i j at_end =
    let rest = compare_loop get get_that rounds (suc i) (suc j) at_end in
    if get i == get_that j
    then rest
    else if signed_less (get i) (get_that j)
    then negsuc 0
    else pos 1

module _ (B : ByteBuffers) where
  open B use {marks, get_at}

  -- remaining()
  abbrev pub remaining : Buffer B → ℕ
  remaining b = (marks b.buf).limit - (marks b.buf).position

  -- `none` is the result -1
  unfoldable pub index_of : ℕ → Buffer B → Option ℕ
  unfolding index_loop
  index_of byte b = index_loop (get_at b.buf) byte (remaining b) (marks b.buf).position

  unfoldable pub compare_to : Buffer B → Buffer B → ℤ
  unfolding compare_loop minus
  compare_to b that =
      compare_loop (get_at b.buf) (get_at that.buf) (min (remaining b) (remaining that))
        (marks b.buf).position (marks that.buf).position (minus (remaining b) (remaining that))
