-- ===== src/SocketSession.antt =====
-- Reading, writing and closing a session on a socket: src/ESocketSession.cpp. The socket is a parameter.
pub mod Reading
pub mod Closing
mod Examples
use cxx_conet.Prelude.{
  ℕ, zero, suc, Bool, true, false, Option, none, some, List, ◌∷◌, length, if◌then◌else◌,
}
use cxx_conet.Prelude.Exec.{
  Exec, Run, ok, throws, io_error, null_pointer, out_of_fuel, throw, pure, gets, modify, ◌>>=◌,
  ◌>>◌,
}
use cxx_conet.Prelude.ByteBuffers.{ByteBuffers}
use cxx_conet.Buffer.Resize.{Buffer, new_buffer}
use cxx_conet.Buffer.Slice.{Slices, position_to}
use cxx_conet.Buffer.Access.{Memory, poke}
use cxx_conet.Buffer.Bytes.{Blocks}

-- What a read of the socket's input stream gives: a byte and more of them, -1 at the end of the stream,
-- or any other number.
pub data Input : Type 0 where
  got : (first : ℕ) → List ℕ → Input
  end_of_file : Input
  bad_count : Input

module _ (B : ByteBuffers) (W : Type 0) where
  -- The session's field ioBuffer, null before the first read, and the rest of the world. The filters are
  -- handed the buffer itself, and may move its marks.
  pub record Reader : Type 0 where
    pub io_buffer : Option (Buffer B)
    pub rest : W

module _ {B : ByteBuffers} {W A : Type 0} where
  abbrev pub on_buffer : Exec (Buffer B) A → Exec (Reader B W) A
  on_buffer m r = elim r.io_buffer [
    | none ↦ throws null_pointer r
    | some b ↦ elim (m b) [
      | ok a b ↦ ok a (record r { io_buffer = some b })
      | throws e b ↦ throws e (record r { io_buffer = some b })
    ]
  ]

  -- a run in the world, with the buffer as it then is
  abbrev pub carried : Option (Buffer B) → Run W A → Run (Reader B W) A
  carried ob (ok a w) = ok a (record { io_buffer = ob; rest = w })
  carried ob (throws e w) = throws e (record { io_buffer = ob; rest = w })

  abbrev pub on_rest : Exec W A → Exec (Reader B W) A
  on_rest m r = carried r.io_buffer (m r.rest)

module _ {B : ByteBuffers} (S : Slices B) (M : Memory B) (P : Blocks B)
    (highest_one_bit : ℕ → ℕ) where
  open B use {marks}
  open P use {flip}

  -- The stream writes the bytes at current(); the code sets the position and flips the buffer.
  unfoldable pub take_in : List ℕ → Exec (Buffer B) (Unit {0})
  take_in bytes = do
    at ← gets (λ b. (marks b.buf).position)
    poke M highest_one_bit at bytes
    position_to S highest_one_bit (length bytes)
    modify (λ b. record b { buf = flip b.buf })

-- `receive` is fireMessageReceived of the session's chain, `read_socket` the read of the stream, which
-- is given the number of bytes that there is room for.
module _ {B : ByteBuffers} (S : Slices B) (M : Memory B) (P : Blocks B) (highest_one_bit : ℕ → ℕ)
    {W Message : Type 0} (receive : Option (Buffer B) → Exec (Reader B W) (Option Message))
    (read_socket : ℕ → Exec W Input) where
  open B use {marks, clear}

  -- from the label RESUME
  unfoldable pub resume : ℕ → Exec (Reader B W) (Option Message)
  resume zero = throw out_of_fuel
  resume (suc fuel) = do
    on_buffer (modify (λ b. record b { buf = clear b.buf }))
    room ← on_buffer (gets (λ b. (marks b.buf).limit))
    n ← on_rest (read_socket room)
    elim n [
      | got byte more ↦ do
        on_buffer (take_in S M P highest_one_bit (byte ∷ more))
        io_buffer ← gets (λ r. r.io_buffer)
        out ← receive io_buffer
        elim out [ none ↦ resume fuel | some m ↦ pure (some m) ]
      | end_of_file ↦ pure none
      | bad_count ↦ throw io_error
    ]

  -- the buffer that there is, or a new one
  unfoldable pub at_hand : ℕ → Option (Buffer B) → Buffer B
  at_hand io_buffer_limit none = new_buffer B io_buffer_limit
  at_hand io_buffer_limit (some b) = b

  unfoldable pub read : (io_buffer_limit fuel : ℕ) → Exec (Reader B W) (Option Message)
  unfolding at_hand resume
  read io_buffer_limit fuel = do
    modify (λ r. record r { io_buffer = some (at_hand io_buffer_limit r.io_buffer) })
    out ← receive none
    elim out [ some m ↦ pure (some m) | none ↦ resume fuel ]

-- `fire_closed` is fireSessionClosed of the chain. The field closed_ is a part of the state.
module _ {W : Type 0} (closed : W → Bool) (set_closed : W → W)
    (fire_closed close_socket : Exec W (Unit {0})) where
  unfoldable pub close : Exec W (Unit {0})
  close = do
    done ← gets closed
    if done then pure tt else (do fire_closed; close_socket; modify set_closed)

-- What the chain makes of a message to send: the remaining bytes of a buffer, a file, or another
-- object.
pub data Output (File : Type 0) : Type 0 where
  io_buffer : List ℕ → Output File
  file : File → Output File
  other : Output File

-- `fire_send` is fireMessageSend of the chain, `write_socket` and `send_file` the calls of the socket.
module _ {W Message File : Type 0} (fire_send : Option Message → Exec W (Option (Output File)))
    (write_socket : List ℕ → Exec W (Unit {0})) (send_file : File → Exec W (Unit {0})) where
  unfoldable pub write : Option Message → Exec W Bool
  write message = do
    out ← fire_send message
    elim out [
      | none ↦ pure false
      | some (io_buffer bytes) ↦ do write_socket bytes; pure true
      | some (file f) ↦ do send_file f; pure true
      | some other ↦ pure false
    ]
