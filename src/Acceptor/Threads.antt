-- ===== src/Acceptor/Threads.antt =====
-- listen() and the threads on which its fibers run, and what wakes the accept loops: listen,
-- signalAccept, dispose and shutdown of src/ESocketAcceptor.cpp.
use cxx_conet.Prelude.{
  ℕ, zero, suc, ◌+◌, ◌-◌, ◌%◌, ◌||◌, Option, none, some, List, [], ◌∷◌, ◌++◌, map, ltb, leb,
  if◌then◌else◌, ℤ, pos, negsuc,
}
use cxx_conet.Prelude.Exec.{
  Exec, Run, ok, throws, out_of_memory, undefined, out_of_fuel, pure, gets, modify, ◌>>=◌, ◌>>◌,
}
use cxx_conet.Session.{to_int}
use cxx_conet.Acceptor.{Acceptor, set_running}
use cxx_conet.Acceptor as Fields
use cxx_conet.Acceptor.Services.{
  Service, Fiber, accept_fiber, clean_fiber, statistics_fiber, listening_fiber, Server,
}

-- `fid % m + 1` of an `int`: the remainder has the sign of fid, so the result is 1 at most for a fid below 0
unfoldable pub rem_and_one : ℤ → ℕ → ℤ
rem_and_one (pos fid) m = pos (fid % m + 1)
rem_and_one (negsuc n) m = let r = (n + 1) % m in if leb r 1 then pos (1 - r) else negsuc (r - 2)

-- The balance callback: the thread of a fiber, an `int` as the source has it. The id and the tag are
-- longs that it converts to `int`. `none` is the division by zero for a scheduler with one thread; it
-- never has fewer.
unfoldable pub balance : (thread_nums id : ℕ) → (tag : ℤ) → Option ℤ
unfolding rem_and_one
balance thread_nums id (pos tag) = some (to_int tag)
balance thread_nums id (negsuc n) =
    if leb thread_nums 1 then none else some (rem_and_one (to_int id) (thread_nums - 1))

-- the clean fibers with the tags from i, so many
unfoldable pub clean_fibers : {Name Address : Type 0} → (i count : ℕ) → List (Fiber Name Address)
clean_fibers i zero = []
clean_fibers i (suc count) = clean_fiber i ∷ clean_fibers (suc i) count

module _ {Name Address : Type 0} where
  abbrev pub schedule : List (Fiber Name Address) → Server Name Address → Server Name Address
  schedule fibers s = record s { scheduled = s.scheduled ++ fibers }

  -- `tag_of` is the tag that a fiber has: that of startClean is the loop's index
  unfoldable pub tag_of : (unset : ℤ) → Fiber Name Address → ℤ
  tag_of unset (accept_fiber svc) = pos 0
  tag_of unset (clean_fiber i) = pos i
  tag_of unset statistics_fiber = pos 0
  tag_of unset listening_fiber = unset

  -- What listen() does before it waits; `order` is that of the iterator over the set.
  unfoldable pub start :
      (List (Service Name Address) → List (Service Name Address))
      → Server Name Address
      → Server Name Address
  unfolding set_running clean_fibers
  start order s =
      let a = set_running s.acceptor in
      let s = record s { acceptor = a } in
      let s =
        if ltb 0 a.idle_time_for_read || ltb 0 a.idle_time_for_write
        then schedule (clean_fibers 1 (s.work_threads - 1)) s
        else s in
      let s = schedule (map accept_fiber (order s.services)) s in
      let s = schedule (statistics_fiber ∷ []) s in
      if s.listening_callback then schedule (listening_fiber ∷ []) s else s

  -- EInterruptedException and EException are logged; EOutOfMemoryError is neither.
  unfoldable pub logged :
      Run (Server Name Address) (Unit {0}) → Run (Server Name Address) (Unit {0})
  logged (ok u s) = ok tt s
  logged (throws out_of_memory s) = throws out_of_memory s
  logged (throws undefined s) = throws undefined s
  logged (throws out_of_fuel s) = throws out_of_fuel s
  logged (throws e s) = ok tt s

  unfoldable pub listen :
      (List (Service Name Address) → List (Service Name Address))
      → Exec (Server Name Address) (Unit {0})
      → Exec (Server Name Address) (Unit {0})
  unfolding start logged
  listen order join s = logged (join (start order s))

module _ {Name Address : Type 0}
    (connect : Service Name Address → Exec (Server Name Address) (Unit {0})) where
  -- A connection to the local port of each service that has a socket: connect may throw.
  unfoldable pub signal_loop : List (Service Name Address) → Exec (Server Name Address) (Unit {0})
  signal_loop [] = pure tt
  signal_loop (svc ∷ services) = elim svc.ss [
    | none ↦ signal_loop services
    | some ss ↦ connect svc >> signal_loop services
  ]

  unfoldable pub signal_accept :
      (List (Service Name Address) → List (Service Name Address))
      → Exec (Server Name Address) (Unit {0})
  unfolding signal_loop
  signal_accept order = do services ← gets (λ s. order s.services); signal_loop services

  -- `interrupt` is that of the scheduler
  unfoldable pub dispose :
      (List (Service Name Address) → List (Service Name Address))
      → Exec (Server Name Address) (Unit {0})
      → Exec (Server Name Address) (Unit {0})
  unfolding signal_accept
  dispose order interrupt = do
    modify (λ s. record s { acceptor = Fields.dispose s.acceptor })
    interrupt
    signal_accept order

  unfoldable pub shutdown :
      (List (Service Name Address) → List (Service Name Address))
      → Exec (Server Name Address) (Unit {0})
  unfolding signal_accept
  shutdown order = do
    modify (λ s. record s { acceptor = Fields.shutdown s.acceptor })
    signal_accept order
