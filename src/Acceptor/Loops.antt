-- ===== src/Acceptor/Loops.antt =====
-- The loops of the fibers that accept sockets and that look for idle sessions and compute the
-- statistics: startAccept and
-- startClean and startStatistics of src/ESocketAcceptor.cpp.
use cxx_conet.Prelude.{
  ℕ, ◌+◌, ◌*◌, ltb, Bool, true, false, Option, none, some, List, [], ◌∷◌, if◌then◌else◌,
}
use cxx_conet.Acceptor.{
  Acceptor, inited, running, disposing, disposed, accepts, keeps_running, on_accepted, is_idle,
}

-- how a call of accept() comes back
pub data Accepted : Type 0 where
  socket no_socket interrupted timed_out failed : Accepted

-- A call of accept(), with what the other fibers do to the service while it waits.
pub record Wait : Type 0 where
  pub outcome : Accepted
  pub meanwhile : Acceptor → Acceptor

-- A loop waits in its next call, or it has ended; the accept fiber then closes its listening socket.
pub data Loop : Type 0 where
  waiting : Acceptor → Loop
  ended : Acceptor → Loop

-- the body of the loop behind accept(): a socket is let in or closed, and two exceptions leave the loop
unfoldable pub after_accept : Accepted → Acceptor → Loop
after_accept socket a = waiting ((on_accepted a).1)
after_accept no_socket a = waiting a
after_accept timed_out a = waiting a
after_accept interrupted a = ended a
after_accept failed a = ended a

unfoldable pub accept_loop : List Wait → Acceptor → Loop
unfolding after_accept
accept_loop [] a = if accepts a then waiting a else ended a
accept_loop (w ∷ ws) a =
    if accepts a
    then elim (after_accept w.outcome (w.meanwhile a)) [
      | waiting b ↦ accept_loop ws b
      | ended b ↦ ended b
    ]
    else ended a

-- a session as the clean fiber sees it: its socket and the times of its last read and write
pub record Seen : Type 0 where
  pub socket_of : ℕ
  pub last_read_time : ℕ
  pub last_write_time : ℕ

-- One sleep of the clean fiber, with what happens meanwhile, and the clock and the sessions after it.
pub record Sleep : Type 0 where
  pub meanwhile : Acceptor → Acceptor
  pub now : ℕ
  pub sessions : List Seen

-- what the round does with a session, put before what it does with those behind
unfoldable pub shut_idle : Seen → Option Bool → Option (List ℕ) → Option (List ℕ)
shut_idle s none rest = none
shut_idle s (some idle) none = none
shut_idle s (some idle) (some out) = some (if idle then s.socket_of ∷ out else out)

-- The sockets that one round shuts down, by the idle times that it read before it slept; `none` is
-- undefined behaviour.
unfoldable pub clean_round : Acceptor → (now : ℕ) → List Seen → Option (List ℕ)
unfolding shut_idle
clean_round a now [] = some []
clean_round a now (s ∷ ss) =
    shut_idle s (is_idle a now s.last_read_time s.last_write_time) (clean_round a now ss)

unfoldable pub is_over : Acceptor → Bool
is_over a = elim a.status [ inited ↦ false | running ↦ false | disposing ↦ false | disposed ↦ true ]

unfoldable pub clean_loop : List Sleep → Acceptor → Option Loop
unfolding clean_round is_over
clean_loop [] a = if keeps_running a then some (waiting a) else some (ended a)
clean_loop (s ∷ ss) a =
    let rest = clean_loop ss (s.meanwhile a) in
    if keeps_running a
    then elim (clean_round a s.now s.sessions) [
      | none ↦ none
      | some out ↦ if is_over (s.meanwhile a) then some (ended (s.meanwhile a)) else rest
    ]
    else some (ended a)

-- One sleep of the statistics fiber: its length and what the clock shows behind it.
pub record Tick : Type 0 where
  pub seconds : ℕ
  pub clock : ℕ

-- The times that the loop of startStatistics gives to updateThroughput, for lengths whose milliseconds
-- are an int. The counter is set back to 0 in the loop, and nothing there adds to it.
unfoldable pub statistics_times : List Tick → (count current_time : ℕ) → List ℕ
statistics_times [] count current_time = []
statistics_times (t ∷ ts) count current_time =
    let moved_on = current_time + t.seconds * 1000 in
    let rectified = t.clock ∷ statistics_times ts 0 t.clock in
    let kept = moved_on ∷ statistics_times ts count moved_on in
    if ltb 100 count then rectified else kept
