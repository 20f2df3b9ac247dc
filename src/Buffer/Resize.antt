-- ===== src/Buffer/Resize.antt =====
-- The buffer itself, and the operations that change its capacity: src/EIoBuffer.cpp.
use cxx_conet.Prelude.{
  ℕ, ◌+◌, ◌-◌, ◌^◌, Bool, true, false, not, ◌&&◌, Option, none, some, ltb, leb, if◌then◌else◌, ℤ,
  pos, negsuc,
}
use cxx_conet.Prelude.Exec.{
  Exec, ok, throws, illegal_state, undefined, throw, pure, gets, modify, ◌>>=◌, ◌>>◌,
}
use cxx_conet.Prelude.ByteBuffers.{ByteBuffers}
use cxx_conet.Buffer.{normalize_capacity}

module _ (B : ByteBuffers) where
  open B use {Buf, marks, allocate, clear, mark, set_limit, set_position, put}

  pub record Buffer : Type 0 where
    pub buf : Buf
    pub derived : Bool
    pub auto_expand : Bool
    pub auto_shrink : Bool
    pub recapacity_allowed : Bool
    pub minimum_capacity : ℕ

  -- a call on the underlying buffer
  abbrev pub on_buf : Exec Buf (Unit {0}) → Exec Buffer (Unit {0})
  on_buf m b = elim (m b.buf) [
    | ok a buf ↦ ok a (record b { buf = buf })
    | throws e buf ↦ throws e (record b { buf = buf })
  ]

  -- the constructor with a capacity, which allocate() calls
  unfoldable pub new_buffer : ℕ → Buffer
  new_buffer capacity = record {
    buf = allocate capacity;
    derived = false;
    auto_expand = false;
    auto_shrink = false;
    recapacity_allowed = true;
    minimum_capacity = capacity;
  }

  unfoldable pub is_auto_expand : Buffer → Bool
  is_auto_expand b = b.auto_expand && b.recapacity_allowed

  unfoldable pub set_auto_expand : Bool → Exec Buffer (Unit {0})
  set_auto_expand auto_expand = do
    allowed ← gets (λ b. b.recapacity_allowed)
    if allowed then modify (λ b. record b { auto_expand = auto_expand }) else throw illegal_state

  -- reallocate: a new buffer takes over the bytes of the old one, which has been cleared
  unfoldable pub transfer : ℕ → Exec Buffer (Unit {0})
  transfer new_capacity b =
      let old = clear b.buf in
      elim (put old (allocate new_capacity)) [
        | ok a buf ↦ ok a (record b { buf = buf })
        | throws e buf ↦ throws e (record b { buf = old })
      ]

  unfoldable pub restore_mark : Option ℕ → Exec Buffer (Unit {0})
  restore_mark none = pure tt
  restore_mark (some m) = do on_buf (set_position m); modify (λ b. record b { buf = mark b.buf })

  -- capacity(int) where the buffer grows
  unfoldable pub reallocate : ℕ → Exec Buffer (Unit {0})
  unfolding transfer restore_mark
  reallocate new_capacity = do
    saved ← gets (λ b. marks b.buf)
    transfer new_capacity
    on_buf (set_limit saved.limit)
    restore_mark saved.mark
    on_buf (set_position saved.position)

  unfoldable pub set_capacity : ℕ → Exec Buffer (Unit {0})
  unfolding reallocate
  set_capacity new_capacity = do
    allowed ← gets (λ b. b.recapacity_allowed)
    capacity ← gets (λ b. (marks b.buf).capacity)
    if not allowed
        then throw illegal_state
        else if ltb capacity new_capacity
        then reallocate new_capacity
        else pure tt

  -- `pos + expectedRemaining`, which must be an int
  unfoldable pub end_of : ℤ → ℕ → Exec Buffer ℤ
  end_of (pos p) expected_remaining =
      if leb (2 ^ 31) (p + expected_remaining)
      then throw undefined
      else pure (pos (p + expected_remaining))
  end_of (negsuc n) expected_remaining =
      if ltb n expected_remaining
      then pure (pos (expected_remaining - n - 1))
      else pure (negsuc (n - expected_remaining))

  -- a negative number is above no capacity and no limit, like 0
  unfoldable pub not_negative : ℤ → ℕ
  not_negative (pos n) = n
  not_negative (negsuc n) = 0

  -- expand(int, int, boolean), for an expectation that is not negative
  module _ (highest_one_bit : ℕ → ℕ) where
    unfoldable pub expand : ℤ → ℕ → Bool → Exec Buffer (Unit {0})
    unfolding set_capacity end_of not_negative
    expand from expected_remaining auto = do
      allowed ← gets (λ b. b.recapacity_allowed)
      if allowed then pure tt else throw illegal_state
      end ← end_of from expected_remaining
      capacity ← gets (λ b. (marks b.buf).capacity)
      let new_capacity = if auto then normalize_capacity highest_one_bit end else not_negative end
      if ltb capacity new_capacity then set_capacity new_capacity else pure tt
      limit ← gets (λ b. (marks b.buf).limit)
      if ltb limit (not_negative end) then on_buf (set_limit (not_negative end)) else pure tt

    -- autoExpand(int, int)
    unfoldable pub auto_expand_at : ℤ → ℕ → Exec Buffer (Unit {0})
    unfolding is_auto_expand expand
    auto_expand_at from expected_remaining = do
      auto ← gets is_auto_expand
      if auto then expand from expected_remaining true else pure tt
