-- ===== src/Statistics.antt =====
-- The counters of a service: src/EIoServiceStatistics.cpp. Each worker thread has counters of its own,
-- which one fiber adds up from time to time. A 64-bit counter is its pattern, a number below 2 ^ 64.
pub mod Totals
pub mod Sample
mod Examples
use cxx_conet.Prelude.{
  ℕ, ◌+◌, ◌-◌, ◌%◌, ◌^◌, Bool, Option, none, some, List, [], ◌∷◌, ltb, if◌then◌else◌, get_elem?,
  set, replicate, ℤ, pos, negsuc,
}
use cxx_conet.Prelude.Exec.{
  Exec, ok, throws, null_pointer, undefined, illegal_argument, throw, pure, gets, modify, ◌>>=◌,
  ◌>>◌,
}

unfoldable pub add64 : ℕ → ℕ → ℕ
add64 a b = (a + b) % 2 ^ 64

unfoldable pub sub64 : ℕ → ℕ → ℕ
sub64 a b = (a + 2 ^ 64 - b % 2 ^ 64) % 2 ^ 64

-- Floating-point numbers are a parameter: the comparison `>`, and a difference of counters times
-- 1000.0 by an interval (as the pattern of an int).
pub record Doubles : Type 1 where
  pub Double : Type 0
  pub zero_double : Double
  pub gtb : Double → Double → Bool
  pub rate : ℕ → ℕ → Double

-- ThreadThroughput: the counters of one thread
pub record ThreadThroughput : Type 0 where
  pub read_bytes : ℕ
  pub written_bytes : ℕ
  pub read_messages : ℕ
  pub written_messages : ℕ
  pub last_read_time : ℕ
  pub last_write_time : ℕ

abbrev pub idle_thread : ThreadThroughput
idle_thread = record {
  read_bytes = 0;
  written_bytes = 0;
  read_messages = 0;
  written_messages = 0;
  last_read_time = 0;
  last_write_time = 0;
}

-- One kind of throughput: the counter, its value at the last calculation, the rate since then and
-- the largest rate so far.
pub record Gauge (Double : Type 0) : Type 0 where
  pub count : ℕ
  pub last_count : ℕ
  pub throughput : Double
  pub largest : Double

-- the local variables of the loop in updateThroughput
abbrev pub Sums : Type 0
Sums = ThreadThroughput

unfoldable pub later : ℕ → ℕ → ℕ
later t last = if ltb last t then t else last

unfoldable pub sum_threads : Sums → List ThreadThroughput → Sums
unfolding add64 later
sum_threads s [] = s
sum_threads s (t ∷ rest) =
    sum_threads
      (record {
        read_bytes = add64 s.read_bytes t.read_bytes;
        written_bytes = add64 s.written_bytes t.written_bytes;
        read_messages = add64 s.read_messages t.read_messages;
        written_messages = add64 s.written_messages t.written_messages;
        last_read_time = later t.last_read_time s.last_read_time;
        last_write_time = later t.last_write_time s.last_write_time;
      })
      rest

module _ (F : Doubles) where
  open F use {Double, zero_double, gtb, rate}

  pub record Statistics : Type 0 where
    pub threads : List ThreadThroughput
    pub read_bytes : Gauge Double
    pub written_bytes : Gauge Double
    pub read_messages : Gauge Double
    pub written_messages : Gauge Double
    pub last_read_time : ℕ
    pub last_write_time : ℕ
    pub throughput_calculation_interval : ℕ
    pub largest_managed_session_count : ℕ
    pub cumulative_managed_session_count : ℕ
    pub last_throughput_calculation_time : ℕ

  abbrev pub no_gauge : Gauge Double
  no_gauge = record { count = 0; last_count = 0; throughput = zero_double; largest = zero_double }

  -- set the counter, its rate, and the largest rate if the new one is larger
  unfoldable pub update_gauge : ℕ → ℕ → Gauge Double → Gauge Double
  unfolding sub64
  update_gauge total interval g =
      let r = rate (sub64 total g.last_count) interval in
      record {
        count = total;
        last_count = total;
        throughput = r;
        largest = if gtb r g.largest then r else g.largest;
      }

  -- the constructor
  unfoldable pub new_statistics : ℕ → Statistics
  new_statistics work_threads = record {
    threads = replicate work_threads idle_thread;
    read_bytes = no_gauge;
    written_bytes = no_gauge;
    read_messages = no_gauge;
    written_messages = no_gauge;
    last_read_time = 0;
    last_write_time = 0;
    throughput_calculation_interval = 3;
    largest_managed_session_count = 0;
    cumulative_managed_session_count = 0;
    last_throughput_calculation_time = 0;
  }

module _ {F : Doubles} where
  open F use {Double, zero_double, gtb, rate}

  unfoldable pub set_throughput_calculation_interval : ℤ → Exec (Statistics F) (Unit {0})
  set_throughput_calculation_interval (negsuc n) = throw illegal_argument
  set_throughput_calculation_interval (pos n) =
      modify (λ s. record s { throughput_calculation_interval = n })

  -- The counters of the calling fiber's thread, `none` outside a fiber.
  unfoldable pub at_thread :
      Option ℕ → (ThreadThroughput → ThreadThroughput) → Exec (Statistics F) (Unit {0})
  at_thread none f s = throws null_pointer s
  at_thread (some i) f s = elim (get_elem? s.threads i) [
    | none ↦ throws undefined s
    | some t ↦ ok tt (record s { threads = set s.threads i (f t) })
  ]

  module _ (thread : Option ℕ) where
    unfoldable pub increase_read_bytes : ℕ → ℕ → Exec (Statistics F) (Unit {0})
    unfolding at_thread add64
    increase_read_bytes increment current_time =
        at_thread thread (λ t. record t {
          read_bytes = add64 t.read_bytes increment;
          last_read_time = current_time;
        })

    unfoldable pub increase_read_messages : ℕ → Exec (Statistics F) (Unit {0})
    unfolding at_thread add64
    increase_read_messages current_time =
        at_thread thread
          (λ t. record t { read_messages = add64 t.read_messages 1; last_read_time = current_time })

    unfoldable pub increase_written_bytes : ℕ → ℕ → Exec (Statistics F) (Unit {0})
    unfolding at_thread add64
    increase_written_bytes increment current_time = at_thread thread (λ t. record t {
      written_bytes = add64 t.written_bytes increment;
      last_write_time = current_time;
    })

    unfoldable pub increase_written_messages : ℕ → Exec (Statistics F) (Unit {0})
    unfolding at_thread add64
    increase_written_messages current_time = at_thread thread (λ t. record t {
      written_messages = add64 t.written_messages 1;
      last_write_time = current_time;
    })

  -- A counter of C++ that overflows has no defined value; here it goes on modulo 2 ^ 64.
  unfoldable pub update_throughput : ℕ → Statistics F → Statistics F
  unfolding sum_threads update_gauge later sub64
  update_throughput current_time s =
      let t =
        sum_threads
          (record idle_thread {
            last_read_time = s.last_read_time;
            last_write_time = s.last_write_time;
          })
          s.threads in
      let interval = sub64 current_time s.last_throughput_calculation_time % 2 ^ 32 in
      record s {
        read_bytes = update_gauge F t.read_bytes interval s.read_bytes;
        written_bytes = update_gauge F t.written_bytes interval s.written_bytes;
        read_messages = update_gauge F t.read_messages interval s.read_messages;
        written_messages = update_gauge F t.written_messages interval s.written_messages;
        last_read_time = later t.last_read_time s.last_read_time;
        last_write_time = later t.last_write_time s.last_write_time;
        last_throughput_calculation_time = current_time;
      }

  unfoldable pub get_last_io_time : Statistics F → ℕ
  get_last_io_time s =
      if ltb s.last_write_time s.last_read_time then s.last_read_time else s.last_write_time
