-- ===== src/Prelude/ByteBuffers.antt =====
-- EIOByteBuffer of the Efc library, which is not part of the repository: an interface after its
-- documentation, that of java.nio.ByteBuffer.
use mathlib.Core.Path.{◌≡◌}
use mathlib.Core.Bool.{◌&&◌}
use mathlib.Core.Option.{Option, none, some}
use Prim.Native.Nat.{ℕ, ◌+◌, ◌-◌, ◌≤◌, min}
use cxx_conet.Prelude.Tests.{ltb, leb, if◌then◌else◌}
use cxx_conet.Prelude.Exec.{Exec, ok}

-- the numbers of a buffer; `mark` is `none` where markValue() is -1
pub record Marks : Type 0 where
  pub capacity : ℕ
  pub limit : ℕ
  pub position : ℕ
  pub mark : Option ℕ

-- a mark that lies above the new position or limit is dropped
abbrev pub keep_mark : ℕ → Option ℕ → Option ℕ
keep_mark n none = none
keep_mark n (some m) = if ltb n m then none else some m

abbrev pub limited : ℕ → Marks → Marks
limited n v = record {
  capacity = v.capacity;
  limit = n;
  position = min v.position n;
  mark = keep_mark n v.mark;
}

abbrev pub moved : ℕ → Marks → Marks
moved n v = record v { position = n; mark = keep_mark n v.mark }

abbrev pub MarkBelow : ℕ → Option ℕ → Type 0
MarkBelow n none = Unit
MarkBelow n (some m) = m ≤ n

pub record ByteBuffers : Type 1 where
  pub Buf : Type 0
  pub marks : Buf → Marks
  pub get_at : Buf → ℕ → ℕ
  pub allocate : ℕ → Buf
  pub clear : Buf → Buf
  pub mark : Buf → Buf
  pub set_limit : ℕ → Exec Buf (Unit {0})
  pub set_position : ℕ → Exec Buf (Unit {0})
  pub put : Buf → Exec Buf (Unit {0})
  pub position-limit : (b : Buf) → (marks b).position ≤ (marks b).limit
  pub limit-capacity : (b : Buf) → (marks b).limit ≤ (marks b).capacity
  pub mark-position : (b : Buf) → MarkBelow (marks b).position (marks b).mark
  pub marks-allocate :
      (n : ℕ) → marks (allocate n) ≡ (record { capacity = n; limit = n; position = 0; mark = none })
  pub marks-clear :
      (b : Buf)
      → marks (clear b) ≡ (record {
        capacity = (marks b).capacity;
        limit = (marks b).capacity;
        position = 0;
        mark = none;
      })
  pub marks-mark :
      (b : Buf) → marks (mark b) ≡ (record (marks b) { mark = some (marks b).position })
  pub get_at-clear : (b : Buf) (i : ℕ) → get_at (clear b) i ≡ get_at b i
  pub get_at-mark : (b : Buf) (i : ℕ) → get_at (mark b) i ≡ get_at b i
  pub set_limit-ok :
      (n : ℕ) (b : Buf)
      → n ≤ (marks b).capacity
      → (b' : Buf) × (set_limit n b ≡ ok tt b')
        × (marks b' ≡ limited n (marks b))
        × ((i : ℕ) → get_at b' i ≡ get_at b i)
  pub set_position-ok :
      (n : ℕ) (b : Buf)
      → n ≤ (marks b).limit
      → (b' : Buf) × (set_position n b ≡ ok tt b')
        × (marks b' ≡ moved n (marks b))
        × ((i : ℕ) → get_at b' i ≡ get_at b i)
  pub put-ok :
      (src b : Buf)
      → (marks src).limit - (marks src).position ≤ (marks b).limit - (marks b).position
      → (b' : Buf) × (put src b ≡ ok tt b')
        × (marks b' ≡ (record (marks b) {
          position = (marks b).position + ((marks src).limit - (marks src).position);
        }))
        × ((i : ℕ)
            → get_at b' i ≡ (
                if leb (marks b).position i
                  && ltb i ((marks b).position + ((marks src).limit - (marks src).position))
                then get_at src ((marks src).position + (i - (marks b).position))
                else get_at b i))
