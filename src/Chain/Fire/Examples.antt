-- ===== src/Chain/Fire/Examples.antt =====
-- The theorems on events at a chain of two filters.
use cxx_conet.Prelude.{ℕ, ◌+◌, ◌≡◌, refl, true, Option, none, some, ◌==◌, if◌then◌else◌, arith}
use cxx_conet.Prelude.Exec.{pure, ◌>>=◌}
use cxx_conet.Filter.{Filter, adapter}
use cxx_conet.Statistics.{new_statistics}
use cxx_conet.Statistics.Sample.{whole_numbers}
use cxx_conet.Session.{World, new_session}
use cxx_conet.Chain.{Ptr}
use cxx_conet.Chain.Sample.{two_cells, two, two-IsChain}
use cxx_conet.Chain.Fire.{fire_message_received}
use cxx_conet.Chain.Fire.Order.{through}
use cxx_conet.Chain.Fire.Received.{bytes_of, Counted, fire_message_received-Counted}

-- a message is a buffer of so many bytes or a file of so many
data Message : Type 0 where
  buffer file : ℕ → Message

abbrev remaining : Message → Option ℕ
remaining (buffer n) = some n
remaining (file n) = none

abbrev file_length : Message → Option ℕ
file_length (buffer n) = none
file_length (file n) = some n

abbrev W : Type 0
W = World whole_numbers (Unit {0})

-- a filter that lets every session in and makes a buffer one byte longer
abbrev longer : Option Message → Option Message
longer none = none
longer (some (buffer n)) = some (buffer (n + 1))
longer (some (file n)) = some (file n)

abbrev growing : Filter W Message
growing = record {
  session_created = λ next. next >>= λ b. pure true;
  session_closed = λ next. next;
  message_received = λ next message. next (longer message);
  message_send = λ next message. next (longer message);
}

abbrev filters : Ptr → Filter W Message
filters p = if p == 103 then growing else adapter

abbrev world : W
world = record {
  session = new_session 7 100 0;
  statistics = new_statistics whole_numbers 2;
  thread = some 1;
  clock = 200;
  user = tt;
}

fire_message_received-Counted_example :
    (w' : W) × (fire_message_received filters remaining file_length 5 two (some (buffer 3)) world
      ≡ through filters
          (λ m. pure m)
          (λ f next. f.message_received next)
          two_cells
          (some (buffer 3))
          w')
    × Counted (bytes_of (remaining (buffer 3))) 1 world w'
    × (w'.session.last_read_time ≡ 200)
    × (fire_message_received filters remaining file_length 5 two none world
        ≡ through filters (λ m. pure m) (λ f next. f.message_received next) two_cells none world)
unfolding new_statistics
fire_message_received-Counted_example =
    fire_message_received-Counted remaining file_length filters {c = two} 5 1 (buffer 3) world
      two-IsChain (omega arith) refl refl refl (omega arith)
