-- ===== src/Acceptor.antt =====
-- The service that accepts sockets: src/ESocketAcceptor.cpp. Atomic counters are integers; fibers
-- switch only where the code sleeps, yields, or does I/O, so a step below runs undivided.
pub mod Limit
pub mod Loops
pub mod Ending
pub mod Drift
pub mod Fiber
pub mod Release
mod FiberExamples
mod ServicesExamples
pub mod Idle
pub mod Services
pub mod Threads
pub mod Bind
pub mod Balance
pub mod Waking
mod Examples
use cxx_conet.Prelude.{
  ℕ, zero, suc, ◌+◌, ◌-◌, ◌*◌, ◌%◌, ◌^◌, min, max, Bool, true, false, ◌&&◌, ◌||◌, not, Option, none,
  some, List, [], ◌∷◌, ◌==◌, ltb, leb, if◌then◌else◌, ℤ, pos, negsuc,
}
use cxx_conet.Prelude.Exec.{
  Exec, ok, throws, illegal_argument, undefined, throw, pure, gets, modify, ◌>>=◌, ◌>>◌,
}

-- the states in their order
pub data Status : Type 0 where
  inited running disposing disposed : Status

-- EIdleStatus, by its two bits
pub data IdleStatus : Type 0 where
  reader_idle writer_idle both_idle : IdleStatus

unfoldable pub reads : IdleStatus → Bool
reads reader_idle = true
reads writer_idle = false
reads both_idle = true

unfoldable pub writes : IdleStatus → Bool
writes reader_idle = false
writes writer_idle = true
writes both_idle = true

-- The fields that the code below reads or writes, with two counters of the statistics. `max_conns` is
-- negative or zero where there is no limit.
pub record Acceptor : Type 0 where
  pub status : Status
  pub backlog : ℕ
  pub max_conns : ℤ
  pub connections : ℕ
  pub idle_time_for_read : ℕ
  pub idle_time_for_write : ℕ
  pub cumulative_managed_session_count : ℕ
  pub largest_managed_session_count : ℕ

-- the constructor
unfoldable pub new_acceptor : (backlog_min : ℕ) → Acceptor
new_acceptor backlog_min = record {
  status = inited;
  backlog = backlog_min;
  max_conns = negsuc 0;
  connections = 0;
  idle_time_for_read = 0;
  idle_time_for_write = 0;
  cumulative_managed_session_count = 0;
  largest_managed_session_count = 0;
}

unfoldable pub set_backlog : ℤ → Acceptor → Acceptor
set_backlog (pos n) a = record a { backlog = if ltb a.backlog n then n else a.backlog }
set_backlog (negsuc n) a = a

unfoldable pub set_max_connections : ℤ → Acceptor → Acceptor
set_max_connections connections a = record a { max_conns = connections }

unfoldable pub set_session_idle_time : IdleStatus → ℤ → Exec Acceptor (Unit {0})
set_session_idle_time status (negsuc n) = throw illegal_argument
set_session_idle_time status (pos seconds) = do
  modify (λ a. if reads status then record a { idle_time_for_read = seconds } else a)
  modify (λ a. if writes status then record a { idle_time_for_write = seconds } else a)

-- every status has one of the two bits, so the last line, which throws, is not reached
unfoldable pub get_session_idle_time : IdleStatus → Acceptor → ℕ
get_session_idle_time status a =
    if reads status then a.idle_time_for_read else a.idle_time_for_write

-- dispose() and shutdown() as far as the service's own fields go; both then wake the accept loops
unfoldable pub dispose : Acceptor → Acceptor
dispose a = record a { status = disposed }

unfoldable pub shutdown : Acceptor → Acceptor
shutdown a = record a { status = disposing }

-- the assignment of listen()
unfoldable pub set_running : Acceptor → Acceptor
set_running a = record a { status = running }

unfoldable pub is_disposed : Acceptor → Bool
is_disposed a = elim a.status [
  | inited ↦ false
  | running ↦ false
  | disposing ↦ true
  | disposed ↦ true
]

-- The counters are ints, as their patterns of 32 bits: one more, one less, and `<`.
abbrev pub more32 : ℕ → ℕ
more32 n = (n + 1) % 2 ^ 32

abbrev pub less32 : ℕ → ℕ
less32 n = (n + (2 ^ 32 - 1)) % 2 ^ 32

abbrev pub below32 : ℕ → ℕ → Bool
below32 m n = ltb ((m + 2 ^ 31) % 2 ^ 32) ((n + 2 ^ 31) % 2 ^ 32)

-- `maxconns > 0 && connections_.value() >= maxconns`
unfoldable pub at_limit : ℤ → ℕ → Bool
at_limit (negsuc n) connections = false
at_limit (pos maxconns) connections = ltb 0 maxconns && not (below32 connections maxconns)

-- What the accept loop does with a socket that has been accepted: true if a fiber is started for it,
-- false if the socket is closed.
unfoldable pub on_accepted : Acceptor → Bool × Acceptor
unfolding is_disposed at_limit
on_accepted a = if is_disposed a || at_limit a.max_conns a.connections then (false, a) else (
  true,
  record a {
    connections = more32 a.connections;
    cumulative_managed_session_count = more32 a.cumulative_managed_session_count;
    largest_managed_session_count =
        if below32 a.largest_managed_session_count (more32 a.connections)
        then more32 a.connections
        else a.largest_managed_session_count;
  },
)

-- the fiber of a session leaves its scope
unfoldable pub on_scope_exit : Acceptor → Acceptor
on_scope_exit a = record a { connections = less32 a.connections }

-- the condition of the loop that accepts, and that of the clean and the statistics fibers
unfoldable pub accepts : Acceptor → Bool
accepts a = elim a.status [ inited ↦ false | running ↦ true | disposing ↦ false | disposed ↦ false ]

unfoldable pub keeps_running : Acceptor → Bool
unfolding accepts
keeps_running a = accepts a || below32 0 a.connections

-- How long the clean fiber sleeps, in seconds.
unfoldable pub clean_seconds : Acceptor → ℕ
clean_seconds a =
    let maxsecs = if ltb 0 a.idle_time_for_read then min a.idle_time_for_read 3 else 3 in
    let maxsecs =
      if ltb 0 a.idle_time_for_write then min a.idle_time_for_write maxsecs else maxsecs in
    max maxsecs 1

-- After how many idle seconds a session is shut down; EInteger::MAX_VALUE without a limit.
unfoldable pub idle_seconds : Acceptor → ℕ
idle_seconds a =
    let idlesecs = 2 ^ 31 - 1 in
    let idlesecs =
      if ltb 0 a.idle_time_for_read then min idlesecs a.idle_time_for_read else idlesecs in
    if ltb 0 a.idle_time_for_write then min idlesecs a.idle_time_for_write else idlesecs

-- the earliest of the two times that are watched; ELLong::MAX_VALUE if none is
unfoldable pub last_io_time : Acceptor → (last_read_time last_write_time : ℕ) → ℕ
last_io_time a last_read_time last_write_time =
    let t = 2 ^ 63 - 1 in
    let t = if ltb 0 a.idle_time_for_read then min last_read_time t else t in
    if ltb 0 a.idle_time_for_write then min last_write_time t else t

-- `currTime - lastIoTime > (idlesecs * 1000)`: the product is of two numbers of type `int`
unfoldable pub is_idle : Acceptor → (now last_read_time last_write_time : ℕ) → Option Bool
unfolding idle_seconds last_io_time
is_idle a now last_read_time last_write_time =
    let limit = idle_seconds a * 1000 in
    if leb (2 ^ 31) limit
    then none
    else some (ltb (last_io_time a last_read_time last_write_time + limit) now)
