-- ===== src/Session/Counting.antt =====
-- What a session counts reaches the counters of its service.
use cxx_conet.Prelude.{ℕ, zero, suc, ◌+◌, ◌%◌, ◌^◌, ◌<◌, ◌≡◌, refl, some, arith, length, pos}
use cxx_conet.Prelude.Exec.{Exec, ok}
use cxx_conet.Statistics
use cxx_conet.Statistics.{Doubles, Statistics, add64, update_throughput}
use cxx_conet.Statistics.Totals.{total, update-increase_read_bytes}
use cxx_conet.Session.{Session, World, on_statistics, read_more, increase_read_bytes}

pub on_statistics-ok :
    {F : Doubles} {U : Type 0} (m : Exec (Statistics F) (Unit {0})) (w : World F U)
    (s : Statistics F)
    → m w.statistics ≡ ok tt s
    → on_statistics m w ≡ ok tt (record w { statistics = s })
on_statistics-ok m w s ran = rw (ran, on_statistics)

-- Bytes that a fiber of the service reads on a session are added to the session's own counter and to
-- what the next calculation finds over all threads, both modulo 2 ^ 64; the session's time of the last
-- read becomes the time given.
pub increase_read_bytes-both :
    {F : Doubles} {U : Type 0} (i n now later_now : ℕ) (w : World F U)
    → w.thread ≡ some i
    → i < length w.statistics.threads
    → 0 < n
    → (w' : World F U) × (increase_read_bytes (pos n) now w ≡ ok tt w')
      × (w'.session.read_bytes ≡ (w.session.read_bytes + n) % 2 ^ 64)
      × (w'.session.last_read_time ≡ now)
      × ((update_throughput later_now w'.statistics).read_bytes.count
          ≡ (total (λ t. t.read_bytes) w.statistics.threads + n) % 2 ^ 64)
unfolding increase_read_bytes read_more add64
increase_read_bytes-both i zero now later_now w on h positive = absurd (omega arith)
increase_read_bytes-both {F} {U} i (suc n) now later_now w on h positive =
    let (s', ran, counted) = update-increase_read_bytes i (suc n) now later_now w.statistics h in
    let session' : Session = record w.session {
      read_bytes = (w.session.read_bytes + suc n) % 2 ^ 64;
      last_read_time = now;
    } in
    let w' : World F U = record w { session = session'; statistics = s' } in
    (
      w',
      on_statistics-ok (Statistics.increase_read_bytes w.thread (suc n) now)
          (record w { session = session' }) s' (rw on ran),
      refl,
      refl,
      counted,
    )
