-- ===== src/Session.antt =====
-- A session's counters and how they reach the service's: src/EIoSession.cpp.
pub mod Counting
pub mod Attachment
mod Examples
use cxx_conet.Prelude.{ℕ, zero, suc, ◌+◌, ◌-◌, ◌%◌, ◌^◌, Option, ltb, if◌then◌else◌, ℤ, pos, negsuc}
use cxx_conet.Prelude.Exec.{Run, ok, throws, Exec, pure, modify, ◌>>=◌, ◌>>◌}
use cxx_conet.Statistics
use cxx_conet.Statistics.{Doubles, Statistics, add64}

-- The fields that the code below writes. The four counters have no initial value in the source.
pub record Session : Type 0 where
  pub session_id : ℕ
  pub creation_time : ℕ
  pub last_read_time : ℕ
  pub last_write_time : ℕ
  pub read_bytes : ℕ
  pub written_bytes : ℕ
  pub read_messages : ℕ
  pub written_messages : ℕ

-- What a fiber sees while it handles a session: the session, the statistics of its service, the index
-- of its own thread (`none` outside a fiber), the clock, and the rest, which filters may use.
pub record World (F : Doubles) (U : Type 0) : Type 0 where
  pub session : Session
  pub statistics : Statistics F
  pub thread : Option ℕ
  pub clock : ℕ
  pub user : U

-- the constructor, with the counters as they happen to be in memory
unfoldable pub new_session : ℕ → ℕ → (garbage : ℕ) → Session
new_session id_generator current_time garbage = record {
  session_id = id_generator;
  creation_time = current_time;
  last_read_time = current_time;
  last_write_time = current_time;
  read_bytes = garbage;
  written_bytes = garbage;
  read_messages = garbage;
  written_messages = garbage;
}

unfoldable pub get_last_io_time : Session → ℕ
get_last_io_time s =
    if ltb s.last_write_time s.last_read_time then s.last_read_time else s.last_write_time

-- the conversion to `int` of a number that is not negative
unfoldable pub to_int : ℕ → ℤ
to_int n = let w = n % 2 ^ 32 in if ltb w (2 ^ 31) then pos w else negsuc (2 ^ 32 - w - 1)

module _ {F : Doubles} {U : Type 0} where
  -- a call on the service's statistics
  abbrev pub on_statistics : Exec (Statistics F) (Unit {0}) → Exec (World F U) (Unit {0})
  on_statistics m w = elim (m w.statistics) [
    | ok a s ↦ ok a (record w { statistics = s })
    | throws e s ↦ throws e (record w { statistics = s })
  ]

  -- the changes for an increment that is positive
  unfoldable pub read_more : ℕ → ℕ → Exec (World F U) (Unit {0})
  unfolding add64
  read_more increment current_time w =
      on_statistics (Statistics.increase_read_bytes w.thread increment current_time) (record w {
        session = record w.session {
          read_bytes = add64 w.session.read_bytes increment;
          last_read_time = current_time;
        };
      })

  unfoldable pub increase_read_bytes : ℤ → ℕ → Exec (World F U) (Unit {0})
  unfolding read_more
  increase_read_bytes (negsuc n) current_time = pure tt
  increase_read_bytes (pos zero) current_time = pure tt
  increase_read_bytes (pos (suc n)) current_time = read_more (suc n) current_time

  unfoldable pub increase_read_messages : ℕ → Exec (World F U) (Unit {0})
  unfolding add64
  increase_read_messages current_time w =
      on_statistics (Statistics.increase_read_messages w.thread current_time) (record w {
        session = record w.session {
          read_messages = add64 w.session.read_messages 1;
          last_read_time = current_time;
        };
      })

  unfoldable pub write_more : ℕ → ℕ → Exec (World F U) (Unit {0})
  unfolding add64
  write_more increment current_time w =
      on_statistics (Statistics.increase_written_bytes w.thread increment current_time) (record w {
        session = record w.session {
          written_bytes = add64 w.session.written_bytes increment;
          last_write_time = current_time;
        };
      })

  -- the parameter of the source is an `int`
  unfoldable pub increase_written_bytes : ℤ → ℕ → Exec (World F U) (Unit {0})
  unfolding write_more
  increase_written_bytes (negsuc n) current_time = pure tt
  increase_written_bytes (pos zero) current_time = pure tt
  increase_written_bytes (pos (suc n)) current_time = write_more (suc n) current_time

  unfoldable pub increase_written_messages : ℕ → Exec (World F U) (Unit {0})
  unfolding add64
  increase_written_messages current_time w =
      on_statistics (Statistics.increase_written_messages w.thread current_time) (record w {
        session = record w.session {
          written_messages = add64 w.session.written_messages 1;
          last_write_time = current_time;
        };
      })
