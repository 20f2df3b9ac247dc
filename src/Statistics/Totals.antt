-- ===== src/Statistics/Totals.antt =====
-- What the sums over the threads are after counting and after a calculation.
use cxx_conet.Prelude.{
  ℕ, zero, suc, ◌+◌, ◌%◌, ◌^◌, ◌≤◌, ◌<◌, max, ◌≡◌, refl, ◌∙◌, ap, false, some, List, [], ◌∷◌,
  get_elem?, set, arith, length, Bool-cases, inl, inr, ◌⊎◌,
}
use cxx_conet.Prelude.Exec.{ok}
use cxx_conet.Statistics.{
  add64, sub64, Doubles, ThreadThroughput, Gauge, Statistics, later, sum_threads, update_gauge,
  update_throughput, increase_read_bytes, idle_thread, at_thread,
}

-- the sum of a counter over the threads, and the largest of a time, as plain numbers
abbrev pub total : (ThreadThroughput → ℕ) → List ThreadThroughput → ℕ
total f [] = 0
total f (t ∷ ts) = f t + total f ts

abbrev pub latest : (ThreadThroughput → ℕ) → List ThreadThroughput → ℕ → ℕ
latest f [] n = n
latest f (t ∷ ts) n = max (f t) (latest f ts n)

later-max : (t n : ℕ) → later t n ≡ max t n
unfolding later
later-max t n = ground arith

abbrev word : ℕ
word = 2 ^ 64

-- the counters are patterns of 64 bits
pub record InRange (t : ThreadThroughput) : Type 0 where
  pub read_bytes : t.read_bytes < 2 ^ 64
  pub written_bytes : t.written_bytes < 2 ^ 64
  pub read_messages : t.read_messages < 2 ^ 64
  pub written_messages : t.written_messages < 2 ^ 64

-- `r` holds the sums of the counters over the threads, from those of `s` on, modulo 2 ^ 64, and the
-- latest times
pub record AreTotals (s : ThreadThroughput) (ts : List ThreadThroughput) (r : ThreadThroughput)
    : Type 0 where
  pub read_bytes : r.read_bytes ≡ (s.read_bytes + total (λ t. t.read_bytes) ts) % 2 ^ 64
  pub written_bytes : r.written_bytes ≡ (s.written_bytes + total (λ t. t.written_bytes) ts) % 2 ^ 64
  pub read_messages : r.read_messages ≡ (s.read_messages + total (λ t. t.read_messages) ts) % 2 ^ 64
  pub written_messages :
      r.written_messages ≡ (s.written_messages + total (λ t. t.written_messages) ts) % 2 ^ 64
  pub last_read_time : r.last_read_time ≡ latest (λ t. t.last_read_time) ts s.last_read_time
  pub last_write_time : r.last_write_time ≡ latest (λ t. t.last_write_time) ts s.last_write_time

latest-max :
    (f : ThreadThroughput → ℕ) (ts : List ThreadThroughput) (a b : ℕ)
    → latest f ts (max a b) ≡ max a (latest f ts b)
latest-max f [] a b = refl
latest-max f (t ∷ ts) a b = omega (arith, latest-max f ts a b)

abbrev added : ThreadThroughput → ThreadThroughput → ThreadThroughput
added s t = record {
  read_bytes = add64 s.read_bytes t.read_bytes;
  written_bytes = add64 s.written_bytes t.written_bytes;
  read_messages = add64 s.read_messages t.read_messages;
  written_messages = add64 s.written_messages t.written_messages;
  last_read_time = later t.last_read_time s.last_read_time;
  last_write_time = later t.last_write_time s.last_write_time;
}

added-InRange : (s t : ThreadThroughput) → InRange (added s t)
unfolding add64
added-InRange s t = omega arith

sum_step : (a b c r : ℕ) → r ≡ (add64 a b + c) % 2 ^ 64 → r ≡ (a + (b + c)) % 2 ^ 64
unfolding add64
sum_step a b c r h = omega arith

pub sum_threads-AreTotals :
    (s : ThreadThroughput) (ts : List ThreadThroughput)
    → InRange s
    → AreTotals s ts (sum_threads s ts)
unfolding sum_threads
sum_threads-AreTotals s [] fits = omega arith
sum_threads-AreTotals s (t ∷ ts) fits =
    let rest = sum_threads-AreTotals (added s t) ts (added-InRange s t) in
    record {
      read_bytes = sum_step s.read_bytes t.read_bytes _ _ rest.read_bytes;
      written_bytes = sum_step s.written_bytes t.written_bytes _ _ rest.written_bytes;
      read_messages = sum_step s.read_messages t.read_messages _ _ rest.read_messages;
      written_messages = sum_step s.written_messages t.written_messages _ _ rest.written_messages;
      last_read_time =
          rest.last_read_time
          ∙ (ap (latest (λ t. t.last_read_time) ts) (later-max t.last_read_time s.last_read_time)
              ∙ latest-max (λ t. t.last_read_time) ts t.last_read_time s.last_read_time);
      last_write_time =
          rest.last_write_time
          ∙ (ap (latest (λ t. t.last_write_time) ts) (later-max t.last_write_time s.last_write_time)
              ∙ latest-max (λ t. t.last_write_time) ts t.last_write_time s.last_write_time);
    }

latest-ge : (f : ThreadThroughput → ℕ) (ts : List ThreadThroughput) (n : ℕ) → n ≤ latest f ts n
latest-ge f [] n = omega arith
latest-ge f (t ∷ ts) n = omega (arith, latest-ge f ts n)

-- the local variables before the loop
abbrev start : {F : Doubles} → Statistics F → ThreadThroughput
start s = record idle_thread {
  last_read_time = s.last_read_time;
  last_write_time = s.last_write_time;
}

later-latest :
    (f : ThreadThroughput → ℕ) (ts : List ThreadThroughput) (n t : ℕ)
    → t ≡ latest f ts n
    → later t n ≡ latest f ts n
later-latest f ts n t h = omega (arith, later-max t n, latest-ge f ts n)

-- A calculation sets each counter of the service to the sum over its threads, modulo 2 ^ 64, and
-- each time to the latest of the threads' and its own.
pub update_throughput-totals :
    {F : Doubles} (now : ℕ) (s : Statistics F)
    → let u = update_throughput now s in
      (u.read_bytes.count ≡ total (λ t. t.read_bytes) s.threads % 2 ^ 64)
      × (u.written_bytes.count ≡ total (λ t. t.written_bytes) s.threads % 2 ^ 64)
      × (u.read_messages.count ≡ total (λ t. t.read_messages) s.threads % 2 ^ 64)
      × (u.written_messages.count ≡ total (λ t. t.written_messages) s.threads % 2 ^ 64)
      × (u.last_read_time ≡ latest (λ t. t.last_read_time) s.threads s.last_read_time)
      × (u.last_write_time ≡ latest (λ t. t.last_write_time) s.threads s.last_write_time)
unfolding update_throughput
update_throughput-totals now s =
    let sums = sum_threads-AreTotals (start s) s.threads (omega arith) in
    (
      omega (arith, sums.read_bytes),
      omega (arith, sums.written_bytes),
      omega (arith, sums.read_messages),
      omega (arith, sums.written_messages),
      later-latest (λ t. t.last_read_time) s.threads s.last_read_time _ sums.last_read_time,
      later-latest (λ t. t.last_write_time) s.threads s.last_write_time _ sums.last_write_time,
    )

-- what an update of one thread adds to a total
pub total-set :
    (f : ThreadThroughput → ℕ) (ts : List ThreadThroughput) (i : ℕ) (t u : ThreadThroughput)
    → get_elem? ts i ≡ some t
    → total f (set ts i u) + f t ≡ total f ts + f u
total-set f [] i t u h = cc
total-set f (x ∷ ts) zero t u h = ground arith
total-set f (x ∷ ts) (suc i) t u h = omega (arith, total-set f ts i t u h)

bump_mod :
    (c x y a increment : ℕ)
    → c ≡ y % 2 ^ 64
    → y + a ≡ x + add64 a increment
    → c ≡ (x + increment) % 2 ^ 64
unfolding add64
bump_mod c x y a increment h e = omega arith

pub get_elem?-some :
    (ts : List ThreadThroughput) (i : ℕ)
    → i < length ts
    → (t : ThreadThroughput) × (get_elem? ts i ≡ some t)
get_elem?-some [] i h = elim h [ ]
get_elem?-some (t ∷ ts) zero h = (t, refl)
get_elem?-some (t ∷ ts) (suc i) h = get_elem?-some ts i (omega arith)

-- Counting read bytes on any thread and calculating gives the earlier sum plus those bytes, modulo
-- 2 ^ 64; a thread that the service has is never refused.
pub update-increase_read_bytes :
    {F : Doubles} (i increment now later_now : ℕ) (s : Statistics F)
    → i < length s.threads
    → (s' : Statistics F) × (increase_read_bytes (some i) increment now s ≡ ok tt s')
      × ((update_throughput later_now s').read_bytes.count
          ≡ (total (λ t. t.read_bytes) s.threads + increment) % 2 ^ 64)
unfolding increase_read_bytes
update-increase_read_bytes {F} i increment now later_now s h =
    let (t, at) = get_elem?-some s.threads i h in
    let t' : ThreadThroughput = record t {
      read_bytes = add64 t.read_bytes increment;
      last_read_time = now;
    } in
    let s' : Statistics F = record s { threads = set s.threads i t' } in
    (
      s',
      rw (at, at_thread),
      bump_mod _ (total (λ t. t.read_bytes) s.threads) (total (λ t. t.read_bytes) s'.threads)
          t.read_bytes increment (update_throughput-totals later_now s').0
          (total-set (λ t. t.read_bytes) s.threads i t t' at),
    )

-- A calculation never lowers a largest rate below the rate it found, and a largest rate is that rate
-- or the one before. The comparison of doubles is false between equal numbers.
pub update_gauge-largest :
    (F : Doubles) (count interval : ℕ) (g : Gauge F.Double)
    → ((d : F.Double) → F.gtb d d ≡ false)
    → let g' = update_gauge F count interval g in
      (F.gtb g'.throughput g'.largest ≡ false)
      × ((g'.largest ≡ g.largest) ⊎ (g'.largest ≡ g'.throughput))
unfolding update_gauge
update_gauge-largest F count interval g irrefl =
    let r = F.rate (sub64 count g.last_count) interval in
    elim (Bool-cases (F.gtb r g.largest)) [
      | inl more ↦ rw more (irrefl r, inr refl)
      | inr less ↦ rw less (less, inl refl)
    ]
