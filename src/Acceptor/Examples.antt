-- ===== src/Acceptor/Examples.antt =====
-- The theorems on the service at concrete settings.
use cxx_conet.Prelude.{◌≡◌, refl, List, [], ◌∷◌, arith, pos}
use cxx_conet.Acceptor.{
  Acceptor, running, set_running, on_accepted, new_acceptor, set_max_connections, is_disposed,
  at_limit, on_scope_exit,
}
use cxx_conet.Acceptor.{shutdown, accepts}
use cxx_conet.Acceptor.Loops.{Wait, socket, ended, accept_loop, Seen}
use cxx_conet.Acceptor.Ending.{accept_loop-ended}
use cxx_conet.Acceptor.Limit.{
  Life, Steps, steps_none, steps_more, step_running, step_accepted, step_refused, step_limit,
  step_ended, Counted, fresh_life, Steps-fresh,
}

abbrev both_watched : Acceptor
both_watched = record {
  status = running;
  backlog = 50;
  max_conns = pos 1;
  connections = 1;
  idle_time_for_read = 2;
  idle_time_for_write = 5;
  cumulative_managed_session_count = 1;
  largest_managed_session_count = 1;
}

abbrev reads_watched : Acceptor
reads_watched = record both_watched { idle_time_for_write = 0 }

-- two sessions run when the limit is lowered to one; one of them ends, and the next socket is closed
abbrev full : Life
full = record {
  acceptor = record {
    status = running;
    backlog = 50;
    max_conns = pos 1;
    connections = 1;
    idle_time_for_read = 0;
    idle_time_for_write = 0;
    cumulative_managed_session_count = 2;
    largest_managed_session_count = 2;
  };
  alive = 1;
  ended = 1;
  fewest = 1;
}

full-reached : Steps (fresh_life 50 (pos 2)) full
unfolding fresh_life new_acceptor set_max_connections set_running on_accepted is_disposed at_limit
    on_scope_exit
full-reached =
    steps_more
      (steps_more
        (steps_more
          (steps_more (steps_more (steps_more steps_none step_running) (step_accepted refl))
            (step_accepted refl))
          (step_limit (pos 1)))
        step_ended)
      (step_refused refl)

Steps-fresh_example : Counted full
Steps-fresh_example = Steps-fresh 50 (pos 2) full-reached (omega arith)

-- the first has not written for the idle time, the second has read and written just now
abbrev two_seen : List Seen
two_seen =
    record { socket_of = 11; last_read_time = 8000; last_write_time = 3000 }
    ∷ record { socket_of = 12; last_read_time = 8000; last_write_time = 8500 }
    ∷ []

abbrev stopped_wait : Wait
stopped_wait = record { outcome = socket; meanwhile = shutdown }

abbrev accepted_wait : Wait
accepted_wait = record { outcome = socket; meanwhile = λ a. a }

accept_loop-ended_example :
    (a' : Acceptor) × (accept_loop (accepted_wait ∷ stopped_wait ∷ accepted_wait ∷ []) both_watched
      ≡ ended a')
    × (accept_loop (accepted_wait ∷ stopped_wait ∷ []) both_watched ≡ ended a')
unfolding shutdown accepts
accept_loop-ended_example =
    accept_loop-ended (accepted_wait ∷ []) (accepted_wait ∷ []) stopped_wait both_watched
      (λ b. refl)
