-- ===== src/Buffer/Frozen.antt =====
-- Buffers that share memory keep their capacity: src/EIoBuffer.cpp.
use cxx_conet.Prelude.{ℕ, ◌≡◌, refl, inl, inr, Bool, Bool-cases, false, ℤ}
use cxx_conet.Prelude.Exec.{ok, throws, illegal_state}
use cxx_conet.Prelude.ByteBuffers.{ByteBuffers}
use cxx_conet.Buffer.Resize.{
  Buffer, set_auto_expand, is_auto_expand, set_capacity, expand, auto_expand_at,
}
use cxx_conet.Buffer.Shrink.{shrink}
use cxx_conet.Buffer.Slice.{Slices, slice}
use cxx_conet.Buffer.Settings.{set_auto_shrink, duplicate}

module _ (B : ByteBuffers) (f : ℕ → ℕ) where
  -- Each operation that changes the capacity, or lets it be changed, throws and leaves the buffer as it
  -- is; the calls that make room do nothing.
  pub record Frozen (b : Buffer B) : Type 0 where
    pub settings :
        (on : Bool)
        → (set_auto_expand B on b ≡ throws illegal_state b)
          × (set_auto_shrink B on b ≡ throws illegal_state b)
    pub capacity : (n : ℕ) → set_capacity B n b ≡ throws illegal_state b
    pub expansion :
        (from : ℤ) (expected : ℕ) (auto : Bool)
        → expand B f from expected auto b ≡ throws illegal_state b
    pub shrinking : shrink B b ≡ throws illegal_state b
    pub room : (from : ℤ) (expected : ℕ) → auto_expand_at B f from expected b ≡ ok tt b

  is_auto_expand-fixed : (b : Buffer B) → b.recapacity_allowed ≡ false → is_auto_expand B b ≡ false
  unfolding is_auto_expand
  is_auto_expand-fixed b fixed = elim (Bool-cases b.auto_expand) [
    | inl on ↦ rw (on, fixed) refl
    | inr off ↦ rw (off) refl
  ]

  not_allowed-Frozen : (b : Buffer B) → b.recapacity_allowed ≡ false → Frozen b
  unfolding set_auto_expand set_auto_shrink set_capacity expand shrink auto_expand_at
  not_allowed-Frozen b fixed = record {
    settings = λ on. (rw fixed refl, rw fixed refl);
    capacity = λ n. rw fixed refl;
    expansion = λ from expected auto. rw fixed refl;
    shrinking = rw fixed refl;
    room = λ from expected. let off = is_auto_expand-fixed b fixed in rw off refl;
  }

  -- duplicate() and slice() return; the new buffer and the one that it shares its memory with keep their
  -- capacity from then on, whatever is asked of them.
  pub duplicate-Frozen :
      (S : Slices B) (duplicate_buf : B.Buf → B.Buf) (b : Buffer B)
      → ((s c : Buffer B) × (duplicate B duplicate_buf b ≡ ok s c) × Frozen s × Frozen c)
        × ((s c : Buffer B) × (slice S f b ≡ ok s c) × Frozen s × Frozen c)
  unfolding duplicate slice
  duplicate-Frozen S duplicate_buf b = (
    (_, _, refl, not_allowed-Frozen _ refl, not_allowed-Frozen _ refl),
    (_, _, refl, not_allowed-Frozen _ refl, not_allowed-Frozen _ refl),
  )
