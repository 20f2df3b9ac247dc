-- ===== src/SocketSession/Examples.antt =====
-- The theorem on reading at a socket of two packets, of which a filter keeps the short ones back.
use cxx_conet.Prelude.{
  ℕ, zero, suc, ◌≡◌, refl, Bool, true, false, Option, none, some, List, [], ◌∷◌, arith, take,
  length, length-take, ap,
}
use cxx_conet.Prelude.Exec.{Exec, ok}
use cxx_conet.Buffer.Resize.{Buffer}
use cxx_conet.Buffer.Arrays.{array_buffers}
use cxx_conet.Buffer.ArrayMemory.{array_memory, array_slices}
use cxx_conet.Buffer.ArrayBlocks.{array_blocks}
use cxx_conet.Buffer.Sample.{highest_one_bit}
use cxx_conet.SocketSession.{Input, got, end_of_file, bad_count, Reader, carried, read, close}
use cxx_conet.SocketSession.Reading.{
  unread, Filters, Fits, holds_none, holds_more, ends_message, read-Ends,
}

-- The socket is the list of the packets to come, each a byte and more of them; what there is no room for
-- is lost.
abbrev Socket : Type 0
Socket = List (ℕ × List ℕ)

abbrev read_socket : ℕ → Exec Socket Input
read_socket zero w = ok bad_count w
read_socket (suc n) [] = ok end_of_file []
read_socket (suc n) (p ∷ w) = ok (got (p.0) (take n (p.1))) w

-- a filter that keeps the packets of one byte back
abbrev answer : List ℕ → Exec Socket (Option (List ℕ))
answer [] w = ok none w
answer (b ∷ []) w = ok none w
answer (b ∷ c ∷ bs) w = ok (some (b ∷ c ∷ bs)) w

abbrev left : Exec Socket (Option (List ℕ))
left w = ok none w

abbrev Session : Type 0
Session = Reader array_buffers Socket

abbrev receive : Option (Buffer array_buffers) → Exec Session (Option (List ℕ))
receive none r = carried r.io_buffer (left r.rest)
receive (some b) r =
    carried (some b)
      (answer (unread array_slices array_memory array_blocks highest_one_bit b) r.rest)

kept_bytes :
    {b1 b2 : ℕ} {l more : List ℕ} {w w1 : Socket}
    → (ok (got b1 l) w) ≡ ok (got b2 more) w1
    → l ≡ more
kept_bytes e = cc e

read_socket-Fits : Fits array_slices array_memory array_blocks highest_one_bit receive read_socket
read_socket-Fits zero w w1 byte more e = cc e
read_socket-Fits (suc n) [] w1 byte more e = cc e
read_socket-Fits (suc n) (p ∷ w) w1 byte more e =
    omega (arith, length-take {0} n (p.1), ap length (kept_bytes e))

receive-Filters :
    Filters array_slices array_memory array_blocks highest_one_bit receive read_socket answer left
receive-Filters = record { of_bytes = λ b w off. (b, refl, off, refl); of_null = λ ob w. refl }

abbrev packets : Socket
packets = (7, []) ∷ (5, 6 ∷ []) ∷ (8, []) ∷ []

abbrev fresh : Session
fresh = record { io_buffer = none; rest = packets }

read-Ends_example :
    (b : Buffer array_buffers) × (read array_slices array_memory array_blocks highest_one_bit
        receive read_socket 512 2 fresh
      ≡ carried (some b) (ok (some (5 ∷ 6 ∷ [])) ((8, []) ∷ [])))
read-Ends_example =
    read-Ends array_slices array_memory array_blocks highest_one_bit receive read_socket answer left
      receive-Filters read_socket-Fits 512 2 fresh tt refl (holds_more refl refl holds_none)
      (ends_message refl refl) (omega arith)

-- whether the session is closed, and how often its socket and its filters were told
abbrev count_once : Exec (Bool × ℕ) (Unit {0})
count_once w = ok tt (w.0, suc (w.1))

abbrev close_it : Exec (Bool × ℕ) (Unit {0})
close_it = close (λ w. w.0) (λ w. (true, w.1)) count_once count_once

told-twice : close_it (false, 0) ≡ ok tt (true, 2)
unfolding close
told-twice = refl
