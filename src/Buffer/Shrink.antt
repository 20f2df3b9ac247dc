-- ===== src/Buffer/Shrink.antt =====
-- A buffer that gives up capacity: shrink() of src/EIoBuffer.cpp.
use cxx_conet.Prelude.{ℕ, ◌==◌, if◌then◌else◌}
use cxx_conet.Prelude.Exec.{Exec, ok, throws, illegal_state, throw, pure, gets, ◌>>=◌, ◌>>◌}
use cxx_conet.Prelude.ByteBuffers.{ByteBuffers}
use cxx_conet.Buffer.{shrink_capacity}
use cxx_conet.Buffer.Resize.{Buffer, on_buf}

module _ (B : ByteBuffers) where
  open B use {marks, allocate, set_limit, set_position, put}

  -- a new buffer takes over what remains in the old one
  unfoldable pub copy_to : ℕ → Exec (Buffer B) (Unit {0})
  copy_to new_capacity b = elim (put b.buf (allocate new_capacity)) [
    | ok a buf ↦ ok a (record b { buf = buf })
    | throws e buf ↦ throws e b
  ]

  unfoldable pub shrink_to : ℕ → Exec (Buffer B) (Unit {0})
  shrink_to new_capacity = do
    saved ← gets (λ b. marks b.buf)
    on_buf B (set_position 0)
    on_buf B (set_limit saved.limit)
    copy_to new_capacity
    on_buf B (set_position saved.position)
    on_buf B (set_limit saved.limit)

  unfoldable pub shrink : Exec (Buffer B) (Unit {0})
  shrink = do
    allowed ← gets (λ b. b.recapacity_allowed)
    if allowed then pure tt else throw illegal_state
    saved ← gets (λ b. marks b.buf)
    minimum ← gets (λ b. b.minimum_capacity)
    let new_capacity = shrink_capacity minimum saved.limit saved.capacity
    if saved.capacity == saved.limit
        then pure tt
        else if new_capacity == saved.capacity
        then pure tt
        else shrink_to new_capacity
