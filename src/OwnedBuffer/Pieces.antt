-- ===== src/OwnedBuffer/Pieces.antt =====
-- Buffers made of their bytes before the position, from it to the limit, and behind the limit.
use cxx_conet.Prelude.{
  ℕ, ◌-◌, ◌≤◌, ◌≡◌, refl, ap, List, [], ◌++◌, true, arith, length, length-append, length-drop,
  length-replicate, take-drop, take, drop, replicate, leb, if◌then◌else◌,
}
use cxx_conet.Prelude.Exec.{Run, ok, throws, illegal_argument, other_error}
use cxx_conet.OwnedBuffer.{IoBuffers}

pub record Pieces : Type 0 where
  pub before : List ℕ
  pub unread : List ℕ
  pub spare : List ℕ

abbrev pub put_bytes : List ℕ → Pieces → Run Pieces (Unit {0})
put_bytes bs b =
    if leb (length bs) (length b.unread)
    then ok tt (record b { before = b.before ++ bs; unread = drop (length bs) b.unread })
    else throws other_error b

abbrev pub move_position : ℕ → Pieces → Run Pieces (Unit {0})
move_position n b =
    let all = b.before ++ b.unread in
    if leb n (length all)
    then ok tt (record b { before = take n all; unread = drop n all })
    else throws illegal_argument b

pub put_bytes-fits :
    (bs : List ℕ)
    → (b : Pieces) × (put_bytes bs
          (record { before = []; unread = replicate (length bs) 0; spare = [] })
        ≡ ok tt b)
      × (b.before ≡ bs)
put_bytes-fits bs =
    let zeros : List ℕ = replicate (length bs) 0 in
    let fits : leb (length bs) (length zeros) ≡ true =
      ground (arith, length-replicate {A = ℕ} (length bs) 0) in
    (record { before = bs; unread = drop (length bs) zeros; spare = [] }, rw fits refl, refl)

pub move_position-fits :
    (n : ℕ) (b : Pieces)
    → n ≤ length (b.before ++ b.unread)
    → (b' : Pieces) × (move_position n b ≡ ok tt b')
      × (length (b'.before ++ b'.unread) ≡ length (b.before ++ b.unread))
      × (length b'.unread ≡ length (b.before ++ b.unread) - n)
move_position-fits n b le =
    let all = b.before ++ b.unread in
    let fits : leb n (length all) ≡ true = ground arith in
    (
      record b { before = take n all; unread = drop n all },
      rw fits refl,
      ap length (take-drop n all),
      length-drop n all,
    )

abbrev pub pieces : IoBuffers
pieces = record {
  Buf = Pieces;
  content = λ b. b.unread;
  limit = λ b. length (b.before ++ b.unread);
  allocate = λ n. record { before = []; unread = replicate n 0; spare = [] };
  put = put_bytes;
  flip = λ b. record { before = []; unread = b.before; spare = b.unread ++ b.spare };
  set_position = move_position;
  length-content = λ b. omega (arith, length-append {0} b.before b.unread);
  content-put = put_bytes-fits;
  set_position-ok = move_position-fits;
}
