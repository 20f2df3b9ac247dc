-- ===== src/OwnedBuffer.antt =====
-- The buffer of the codecs, a list of byte buffers: OwnedImpl of http/source/buffer_impl.cc and
-- http/source/buffer_impl.h.
pub mod Move
pub mod Split
mod Pieces
mod Examples
use cxx_conet.Prelude.{
  ℕ, zero, suc, ◌+◌, ◌-◌, ◌≤◌, ◌≡◌, Bool, true, false, List, [], ◌∷◌, ◌++◌, ◌==◌, length, take, leb,
  if◌then◌else◌,
}
use cxx_conet.Prelude.Exec.{Exec, ok, throws, out_of_fuel}

-- What OwnedImpl calls of the buffers in its list. `content` is the remaining() bytes from current().
-- EIoBuffer passes these calls on to EIOByteBuffer of the Efc library; they behave as in java.nio.
pub record IoBuffers : Type 1 where
  pub Buf : Type 0
  pub content : Buf → List ℕ
  pub limit : Buf → ℕ
  pub allocate : ℕ → Buf
  pub put : List ℕ → Exec Buf (Unit {0})
  pub flip : Buf → Buf
  pub set_position : ℕ → Exec Buf (Unit {0})
  pub length-content : (b : Buf) → length (content b) ≤ limit b
  pub content-put :
      (bs : List ℕ)
      → (b : Buf) × (put bs (allocate (length bs)) ≡ ok tt b) × (content (flip b) ≡ bs)
  pub set_position-ok :
      (n : ℕ) (b : Buf)
      → n ≤ limit b
      → (b' : Buf) × (set_position n b ≡ ok tt b')
        × (limit b' ≡ limit b)
        × (length (content b') ≡ limit b - n)

module _ (B : IoBuffers) where
  open B use {Buf, content, allocate, put, flip, set_position}

  unfoldable pub add : Buf → List Buf → List Buf
  add buf buffer = buffer ++ flip buf ∷ []

  -- add(const void*, uint64_t)
  unfoldable pub add_data : List ℕ → Exec (List Buf) (Unit {0})
  unfolding add
  add_data bytes buffer = elim (put bytes (allocate (length bytes))) [
    | ok a buf ↦ ok a (add buf buffer)
    | throws e buf ↦ throws e buffer
  ]

  unfoldable pub clear : List Buf → List Buf
  clear buffer = []

  -- length()
  abbrev pub total : List Buf → ℕ
  total [] = 0
  total (b ∷ bs) = length (content b) + total bs

  -- move(Instance&): this buffer's list and the other's
  unfoldable pub move_all : List Buf → List Buf → List Buf × List Buf
  move_all buffer [] = (buffer, [])
  move_all buffer (b ∷ that) = move_all (buffer ++ b ∷ []) that

  -- move(Instance&, uint64_t), for at most so many rounds of its loop
  unfoldable pub move : (fuel length : ℕ) → Exec (List Buf × List Buf) (Unit {0})
  unfolding add_data
  move zero len lists = throws out_of_fuel lists
  move (suc fuel) len (buffer, that) = if len == 0 then ok tt (buffer, that) else elim that [
    | [] ↦ ok tt (buffer, [])
    | b ∷ rest ↦ elim (leb (length (content b)) len) [
      | true ↦ move fuel (len - length (content b)) (buffer ++ b ∷ [], rest)
      | false ↦ elim (add_data (take len (content b)) buffer) [
        | throws e buffer ↦ throws e (buffer, b ∷ rest)
        | ok a buffer ↦ elim (set_position len b) [
          | throws e b ↦ throws e (buffer, b ∷ rest)
          | ok a b ↦ move fuel len (buffer, b ∷ rest)
        ]
      ]
    ]
  ]
