-- ===== src/Acceptor/Idle.antt =====
-- When the clean fiber shuts a session down.
use cxx_conet.Prelude.{
  ℕ, ◌+◌, ◌*◌, ◌≤◌, ◌<◌, ◌^◌, ◌≡◌, Bool, ◌&&◌, ◌||◌, some, List, [], ◌∷◌, arith, ltb, if◌then◌else◌,
}
use cxx_conet.Acceptor.{Acceptor, clean_seconds, idle_seconds, last_io_time, is_idle}
use cxx_conet.Acceptor.Loops.{Seen}

-- An idle time that is set and has passed since `last`, in milliseconds.
abbrev pub overdue : Acceptor → (now last : ℕ) → Bool
overdue a now last =
    (ltb 0 a.idle_time_for_read && ltb (last + a.idle_time_for_read * 1000) now)
    || (ltb 0 a.idle_time_for_write && ltb (last + a.idle_time_for_write * 1000) now)

-- Since the session's last read, if reads are watched, or its last write, if writes are, one of the
-- idle times has passed.
abbrev pub quiet : Acceptor → (now : ℕ) → Seen → Bool
quiet a now s =
    (ltb 0 a.idle_time_for_read && overdue a now s.last_read_time)
    || (ltb 0 a.idle_time_for_write && overdue a now s.last_write_time)

abbrev pub quiet_sockets : Acceptor → (now : ℕ) → List Seen → List ℕ
quiet_sockets a now [] = []
quiet_sockets a now (s ∷ ss) =
    if quiet a now s then s.socket_of ∷ quiet_sockets a now ss else quiet_sockets a now ss

-- With only the idle time for reading set, only the last read counts.
pub is_idle-reader :
    (a : Acceptor) (now read write : ℕ)
    → 0 < a.idle_time_for_read
    → a.idle_time_for_write ≡ 0
    → a.idle_time_for_read < 2147484
    → read < 2 ^ 63
    → is_idle a now read write ≡ some (ltb (read + a.idle_time_for_read * 1000) now)
unfolding is_idle idle_seconds last_io_time
is_idle-reader a now read write r none small r' = ground arith

-- The clean fiber sleeps one to three seconds, and no longer than an idle time that is set.
pub clean_seconds-bounds :
    (a : Acceptor)
    → (1 ≤ clean_seconds a)
      × (clean_seconds a ≤ 3)
      × (0 < a.idle_time_for_read → clean_seconds a ≤ a.idle_time_for_read)
      × (0 < a.idle_time_for_write → clean_seconds a ≤ a.idle_time_for_write)
unfolding clean_seconds
clean_seconds-bounds a = (ground arith, ground arith, λ r. ground arith, λ w. ground arith)
