-- ===== src/SocketSession/Reading.antt =====
-- What read() returns: the first message that the filters let through, of the bytes of the socket.
use cxx_conet.Prelude.{
  ℕ, zero, suc, ◌+◌, ◌-◌, ◌≤◌, ◌<◌, ◌≡◌, refl, ap, ◌∙◌, sym, false, Option, none, some, List, [],
  ◌∷◌, length, arith,
}
use cxx_conet.Prelude.Exec.{Error, Exec, Run, ok, throws, io_error}
use cxx_conet.Prelude.ByteBuffers.{ByteBuffers, Marks}
use cxx_conet.Buffer.Resize.{Buffer, new_buffer}
use cxx_conet.Buffer.Slice.{Slices, position_to}
use cxx_conet.Buffer.Sliced.{position_to-fixed}
use cxx_conet.Buffer.Access.{Memory, byte_at, poke}
use cxx_conet.Buffer.Numbers.{written_there, poke-fits}
use cxx_conet.Buffer.Bytes.{Blocks}
use cxx_conet.Buffer.Ordering.{bytes_from}
use cxx_conet.SocketSession.{
  Input, got, end_of_file, bad_count, Reader, on_buffer, carried, take_in, resume, at_hand, read,
}

bytes_from-byte_at :
    (get : ℕ → ℕ) (bs : List ℕ) (i : ℕ)
    → ((k : ℕ) → k < length bs → get (i + k) ≡ byte_at bs k)
    → bytes_from get (length bs) i ≡ bs
bytes_from-byte_at get [] i is = refl
bytes_from-byte_at get (b ∷ bs) i is =
    let first : get i ≡ b = ap get (omega arith) ∙ is 0 (omega arith) in
    let rest =
      bytes_from-byte_at get bs (suc i)
        (λ k lt. ap get (omega arith) ∙ is (suc k) (omega (arith, lt))) in
    rw (first, rest) refl

module _ {B : ByteBuffers} (S : Slices B) (M : Memory B) (P : Blocks B) (f : ℕ → ℕ) where
  open B use {Buf, marks, get_at, clear}
  open P use {flip}

  -- the bytes between position and limit
  abbrev pub unread : Buffer B → List ℕ
  unread b =
      bytes_from (get_at b.buf) ((marks b.buf).limit - (marks b.buf).position)
        (marks b.buf).position

  take_in-run :
      (b b2 b3 : Buffer B) (bs : List ℕ)
      → (marks b.buf).position ≡ 0
      → poke M f 0 bs b ≡ ok tt b2
      → position_to S f (length bs) b2 ≡ ok tt b3
      → take_in S M P f bs b ≡ ok tt (record b3 { buf = flip b3.buf })
  unfolding take_in
  take_in-run b b2 b3 bs start wrote moved = rw (start, wrote, moved) refl

  -- A cleared buffer takes the bytes in if they fit, and then has just them to read.
  take_in-unread :
      (b : Buffer B) (bs : List ℕ)
      → b.auto_expand ≡ false
      → (marks b.buf).position ≡ 0
      → (marks b.buf).limit ≡ (marks b.buf).capacity
      → length bs ≤ (marks b.buf).capacity
      → (b' : Buffer B) × (take_in S M P f bs b ≡ ok tt b')
        × (unread b' ≡ bs)
        × (b'.auto_expand ≡ false)
        × ((marks b'.buf).capacity ≡ (marks b.buf).capacity)
  take_in-unread b bs off start whole fits =
      let inside : 0 + length bs ≤ (marks b.buf).capacity = omega (arith, fits) in
      let buf2 = M.write_at 0 bs b.buf in
      let b2 : Buffer B = record b { buf = buf2 } in
      let same2 = M.marks-write_at 0 bs b.buf inside in
      let bytes2 = M.get_at-write_at 0 bs b.buf inside in
      let limit2 : (marks buf2).limit ≡ (marks b.buf).limit = ap (λ (v : Marks). v.limit) same2 in
      let (buf3, ran3, is3, bytes3) =
        B.set_position-ok (length bs) buf2 (omega (arith, limit2, whole, fits)) in
      let b3 : Buffer B = record b { buf = buf3 } in
      let b4 : Buffer B = record b { buf = flip buf3 } in
      let flipped = P.marks-flip buf3 in
      let at3 : (marks buf3).position ≡ length bs = ap (λ (v : Marks). v.position) is3 in
      let at4 : (marks (flip buf3)).position ≡ 0 = ap (λ (v : Marks). v.position) flipped in
      let limit4 : (marks (flip buf3)).limit ≡ length bs =
        ap (λ (v : Marks). v.limit) flipped ∙ at3 in
      let many : (marks (flip buf3)).limit - (marks (flip buf3)).position ≡ length bs =
        omega (arith, at4, limit4) in
      (
        b4,
        take_in-run b b2 b3 bs start (poke-fits M f 0 bs b inside)
            (position_to-fixed S f b2 (length bs) buf3 off ran3),
        rw (many, at4)
            (bytes_from-byte_at (get_at (flip buf3)) bs 0 (λ k lt.
              P.get_at-flip buf3 (0 + k)
              ∙ (bytes3 (0 + k)
                  ∙ (bytes2 (0 + k) ∙ written_there bs 0 k (get_at b.buf (0 + k)) lt)))),
        off,
        ap (λ (v : Marks). v.capacity) flipped
            ∙ (ap (λ (v : Marks). v.capacity) is3 ∙ ap (λ (v : Marks). v.capacity) same2),
      )

module _ {B : ByteBuffers} (S : Slices B) (M : Memory B) (P : Blocks B) (f : ℕ → ℕ)
    {W Message : Type 0} (receive : Option (Buffer B) → Exec (Reader B W) (Option Message))
    (read_socket : ℕ → Exec W Input) where
  open B use {marks, get_at, clear}

  -- What the filters make of the bytes of a buffer that does not grow, and of null. They may move the
  -- marks of the buffer, but neither change its capacity nor let it grow.
  pub record Filters (answer : List ℕ → Exec W (Option Message)) (left : Exec W (Option Message))
      : Type 0 where
    pub of_bytes :
        (b : Buffer B) (w : W)
        → b.auto_expand ≡ false
        → (b' : Buffer B) × (receive (some b) (record { io_buffer = some b; rest = w })
            ≡ carried (some b') (answer (unread S M P f b) w))
          × (b'.auto_expand ≡ false)
          × ((marks b'.buf).capacity ≡ (marks b.buf).capacity)
    pub of_null :
        (ob : Option (Buffer B)) (w : W)
        → receive none (record { io_buffer = ob; rest = w }) ≡ carried ob (left w)

  module _ (room : ℕ) (answer : List ℕ → Exec W (Option Message)) where
    -- From `w` to `w'` the socket, which is given `room` bytes each time, gives the packets one after the
    -- other, and the filters keep each back.
    pub data Holds : W → List (List ℕ) → W → Type 0 where
      holds_none : {w : W} → Holds w [] w
      holds_more :
          {w w1 w2 w' : W} {byte : ℕ} {more : List ℕ} {ps : List (List ℕ)}
          → read_socket room w ≡ ok (got byte more) w1
          → answer (byte ∷ more) w1 ≡ ok none w2
          → Holds w2 ps w'
          → Holds w ((byte ∷ more) ∷ ps) w'

    -- what a read of the socket at last leads to: a message, the end of the stream, or an exception of
    -- the filters, of the stream or of read() itself
    pub data Ends (w : W) : Run W (Option Message) → Type 0 where
      ends_message :
          {w1 w2 : W} {byte : ℕ} {more : List ℕ} {m : Message}
          → read_socket room w ≡ ok (got byte more) w1
          → answer (byte ∷ more) w1 ≡ ok (some m) w2
          → Ends w (ok (some m) w2)
      ends_filter :
          {w1 w2 : W} {byte : ℕ} {more : List ℕ} {e : Error}
          → read_socket room w ≡ ok (got byte more) w1
          → answer (byte ∷ more) w1 ≡ throws e w2
          → Ends w (throws e w2)
      ends_eof : {w1 : W} → read_socket room w ≡ ok end_of_file w1 → Ends w (ok none w1)
      ends_bad : {w1 : W} → read_socket room w ≡ ok bad_count w1 → Ends w (throws io_error w1)
      ends_socket : {w1 : W} {e : Error} → read_socket room w ≡ throws e w1 → Ends w (throws e w1)

  -- a session with a buffer
  abbrev with_buffer : Buffer B → W → Reader B W
  with_buffer b w = record { io_buffer = some b; rest = w }

  abbrev cleared : Buffer B → Buffer B
  cleared b = record b { buf = clear b.buf }

  module _ (fuel : ℕ) (b : Buffer B) (w w1 : W) where
    resume-kept :
        (b2 : Buffer B) (byte : ℕ) (more : List ℕ) (s : Reader B W)
        → read_socket (marks (clear b.buf)).limit w ≡ ok (got byte more) w1
        → take_in S M P f (byte ∷ more) (cleared b) ≡ ok tt b2
        → receive (some b2) (with_buffer b2 w1) ≡ ok none s
        → resume S M P f receive read_socket (suc fuel) (with_buffer b w)
          ≡ resume S M P f receive read_socket fuel s
    unfolding resume
    resume-kept b2 byte more s sock taken run =
        rw (sock, on_buffer) (rw (taken, on_buffer) (rw run refl))

    resume-through :
        (b2 : Buffer B) (byte : ℕ) (more : List ℕ) (m : Message) (s : Reader B W)
        → read_socket (marks (clear b.buf)).limit w ≡ ok (got byte more) w1
        → take_in S M P f (byte ∷ more) (cleared b) ≡ ok tt b2
        → receive (some b2) (with_buffer b2 w1) ≡ ok (some m) s
        → resume S M P f receive read_socket (suc fuel) (with_buffer b w) ≡ ok (some m) s
    unfolding resume
    resume-through b2 byte more m s sock taken run =
        rw (sock, on_buffer) (rw (taken, on_buffer) (rw run refl))

    resume-thrown :
        (b2 : Buffer B) (byte : ℕ) (more : List ℕ) (e : Error) (s : Reader B W)
        → read_socket (marks (clear b.buf)).limit w ≡ ok (got byte more) w1
        → take_in S M P f (byte ∷ more) (cleared b) ≡ ok tt b2
        → receive (some b2) (with_buffer b2 w1) ≡ throws e s
        → resume S M P f receive read_socket (suc fuel) (with_buffer b w) ≡ throws e s
    unfolding resume
    resume-thrown b2 byte more e s sock taken run =
        rw (sock, on_buffer) (rw (taken, on_buffer) (rw run refl))

    resume-eof :
        read_socket (marks (clear b.buf)).limit w ≡ ok end_of_file w1
        → resume S M P f receive read_socket (suc fuel) (with_buffer b w)
          ≡ ok none (with_buffer (cleared b) w1)
    unfolding resume
    resume-eof sock = rw sock refl

    resume-bad :
        read_socket (marks (clear b.buf)).limit w ≡ ok bad_count w1
        → resume S M P f receive read_socket (suc fuel) (with_buffer b w)
          ≡ throws io_error (with_buffer (cleared b) w1)
    unfolding resume
    resume-bad sock = rw sock refl

    resume-socket :
        (e : Error)
        → read_socket (marks (clear b.buf)).limit w ≡ throws e w1
        → resume S M P f receive read_socket (suc fuel) (with_buffer b w)
          ≡ throws e (with_buffer (cleared b) w1)
    unfolding resume
    resume-socket e sock = rw sock refl

  -- the stream gives no more bytes than there is room for
  abbrev pub Fits : Type 0
  Fits =
      (n : ℕ) (w w1 : W) (byte : ℕ) (more : List ℕ)
      → read_socket n w ≡ ok (got byte more) w1
      → suc (length more) ≤ n

  module _ (answer : List ℕ → Exec W (Option Message)) (left : Exec W (Option Message))
      (filters : Filters answer left) (fits : Fits) where
    open_limit : (b : Buffer B) → (marks (clear b.buf)).limit ≡ (marks b.buf).capacity
    open_limit b = ap (λ (v : Marks). v.limit) (B.marks-clear b.buf)

    given_room :
        (b : Buffer B) (w : W) {r : Run W Input}
        → read_socket (marks b.buf).capacity w ≡ r
        → read_socket (marks (clear b.buf)).limit w ≡ r
    given_room b w is = ap (λ n. read_socket n w) (open_limit b) ∙ is

    at_room :
        {room : ℕ} (b : Buffer B) (w : W) {r : Run W Input}
        → (marks b.buf).capacity ≡ room
        → read_socket room w ≡ r
        → read_socket (marks b.buf).capacity w ≡ r
    at_room b w is gives = ap (λ n. read_socket n w) is ∙ gives

    -- the buffer that a packet comes in
    packet :
        (b : Buffer B) (w w1 : W) (byte : ℕ) (more : List ℕ)
        → b.auto_expand ≡ false
        → read_socket (marks b.buf).capacity w ≡ ok (got byte more) w1
        → (b2 b3 : Buffer B) × (take_in S M P f (byte ∷ more) (cleared b) ≡ ok tt b2)
          × (receive (some b2) (with_buffer b2 w1) ≡ carried (some b3) (answer (byte ∷ more) w1))
          × (b3.auto_expand ≡ false)
          × ((marks b3.buf).capacity ≡ (marks b.buf).capacity)
    packet b w w1 byte more off sock =
        let empty = B.marks-clear b.buf in
        let same : (marks (clear b.buf)).capacity ≡ (marks b.buf).capacity =
          ap (λ (v : Marks). v.capacity) empty in
        let (b2, taken, bytes, off2, same2) =
          take_in-unread S M P f (cleared b) (byte ∷ more) off
            (ap (λ (v : Marks). v.position) empty) (open_limit b ∙ sym same)
            (omega (arith, fits _ w w1 byte more sock, same)) in
        let (b3, run, off3, same3) = filters.of_bytes b2 w1 off2 in
        (
          b2,
          b3,
          taken,
          run ∙ ap (λ bs. carried (some b3) (answer bs w1)) bytes,
          off3,
          same3 ∙ (same2 ∙ same),
        )

    resume-Ends :
        (fuel room : ℕ) (b : Buffer B) {w w' : W} {ps : List (List ℕ)} {r : Run W (Option Message)}
        → b.auto_expand ≡ false
        → (marks b.buf).capacity ≡ room
        → Holds room answer w ps w'
        → Ends room answer w' r
        → length ps < fuel
        → (b' : Buffer B) × (resume S M P f receive read_socket fuel (with_buffer b w)
            ≡ carried (some b') r)
    resume-Ends zero room b off is h e lt = absurd (omega (arith, lt))
    resume-Ends (suc fuel) room b {w} off is holds_none
          (ends_message {w1} {byte} {more} {m} got_it out) lt =
        let sock = at_room b w is got_it in
        let (b2, b3, taken, run, off3, same) = packet b w w1 byte more off sock in
        (
          b3,
          resume-through fuel b w w1 b2 byte more m _ (given_room b w sock) taken
              (run ∙ ap (carried (some b3)) out),
        )
    resume-Ends (suc fuel) room b {w} off is holds_none
          (ends_filter {w1} {byte} {more} {e} got_it out) lt =
        let sock = at_room b w is got_it in
        let (b2, b3, taken, run, off3, same) = packet b w w1 byte more off sock in
        (
          b3,
          resume-thrown fuel b w w1 b2 byte more e _ (given_room b w sock) taken
              (run ∙ ap (carried (some b3)) out),
        )
    resume-Ends (suc fuel) room b {w} off is holds_none (ends_eof {w1} eof) lt =
        (cleared b, resume-eof fuel b w w1 (given_room b w (at_room b w is eof)))
    resume-Ends (suc fuel) room b {w} off is holds_none (ends_bad {w1} bad) lt =
        (cleared b, resume-bad fuel b w w1 (given_room b w (at_room b w is bad)))
    resume-Ends (suc fuel) room b {w} off is holds_none (ends_socket {w1} {e} bad) lt =
        (cleared b, resume-socket fuel b w w1 e (given_room b w (at_room b w is bad)))
    resume-Ends (suc fuel) room b {w} off is (holds_more {w1} {byte} {more} got_it kept rest) e lt =
        let sock = at_room b w is got_it in
        let (b2, b3, taken, run, off3, same) = packet b w w1 byte more off sock in
        let (b4, ran) = resume-Ends fuel room b3 off3 (same ∙ is) rest e (omega (arith, lt)) in
        (
          b4,
          resume-kept fuel b w w1 b2 byte more _ (given_room b w sock) taken
                (run ∙ ap (carried (some b3)) kept)
              ∙ ran,
        )

    -- the room in the buffer that there is, or in the one that is made
    abbrev pub room_of : ℕ → Option (Buffer B) → ℕ
    room_of io_buffer_limit none = io_buffer_limit
    room_of io_buffer_limit (some b) = (marks b.buf).capacity

    abbrev pub IsPlain : Option (Buffer B) → Type 0
    IsPlain none = Unit
    IsPlain (some b) = b.auto_expand ≡ false

    at_hand-plain :
        (limit : ℕ) (ob : Option (Buffer B))
        → IsPlain ob
        → ((at_hand S M P f receive read_socket limit ob).auto_expand ≡ false)
          × ((marks (at_hand S M P f receive read_socket limit ob).buf).capacity ≡ room_of limit ob)
    unfolding at_hand new_buffer
    at_hand-plain limit none plain = (refl, ap (λ (v : Marks). v.capacity) (B.marks-allocate limit))
    at_hand-plain limit (some b) plain = (plain, refl)

    read-resume :
        (limit fuel : ℕ) (s : Reader B W) (w0 : W)
        → left s.rest ≡ ok none w0
        → read S M P f receive read_socket limit fuel s
          ≡ resume S M P f receive read_socket fuel
              (with_buffer (at_hand S M P f receive read_socket limit s.io_buffer) w0)
    unfolding read
    read-resume limit fuel s w0 nothing =
        rw
          (
            filters.of_null (some (at_hand S M P f receive read_socket limit s.io_buffer)) s.rest,
            nothing,
          )
          refl

    -- The socket gives a byte and more of them, no more than it is given room for, and the filters make
    -- of a buffer what they make of the bytes it has to read, and neither let it grow nor change its
    -- capacity. When they have no message left over, read() hands each packet of the socket to them as
    -- a buffer with just its bytes to read, goes on over the packets that they keep back, in the order
    -- of the socket, and returns the first message that they let through, or null at the end of the
    -- stream; it throws what the filters or the socket throw, and for any other count an exception of its
    -- own. Fuel above the number of packets kept back is enough.
    pub read-Ends :
        (limit fuel : ℕ) (s : Reader B W) {w0 w' : W} {ps : List (List ℕ)}
        {r : Run W (Option Message)}
        → IsPlain s.io_buffer
        → left s.rest ≡ ok none w0
        → Holds (room_of limit s.io_buffer) answer w0 ps w'
        → Ends (room_of limit s.io_buffer) answer w' r
        → length ps < fuel
        → (b : Buffer B) × (read S M P f receive read_socket limit fuel s ≡ carried (some b) r)
    read-Ends limit fuel s {w0} plain nothing h e lt =
        let (off, is) = at_hand-plain limit s.io_buffer plain in
        let (b, ran) = resume-Ends fuel _ _ off is h e lt in
        (b, read-resume limit fuel s w0 nothing ∙ ran)
