-- ===== src/Acceptor/FiberExamples.antt =====
-- A session whose handler throws.
use cxx_conet.Prelude.{◌-◌, ◌≡◌, refl, ◌⊎◌, Bool, true, negsuc}
use cxx_conet.Prelude.Exec.{Exec, ok, throws, other_error, undefined, pure, throw, state_of}
use cxx_conet.Acceptor.{Acceptor, running, on_scope_exit}
use cxx_conet.Acceptor.Fiber.{serve, leave_scope, finish, session_fiber}
use cxx_conet.Acceptor.Release.{session_fiber-connections}

abbrev two_connected : Acceptor
two_connected = record {
  status = running;
  backlog = 512;
  max_conns = negsuc 0;
  connections = 2;
  idle_time_for_read = 0;
  idle_time_for_write = 0;
  cumulative_managed_session_count = 5;
  largest_managed_session_count = 3;
}

abbrev nothing : Exec Acceptor (Unit {0})
nothing = pure tt

abbrev fails : Exec Acceptor (Unit {0})
fails = throw other_error

abbrev is_created : Exec Acceptor Bool
is_created = pure true

session_fiber-connections_example :
    ((v : Acceptor) × (session_fiber
          (λ f w. f w)
          nothing
          nothing
          nothing
          nothing
          fails
          is_created
          30
          two_connected
        ≡ throws undefined v))
    ⊎ ((state_of (
          session_fiber
            (λ f w. f w)
            nothing
            nothing
            nothing
            nothing
            fails
            is_created
            30
            two_connected)).connections
        ≡ 2 - 1)
session_fiber-connections_example =
    session_fiber-connections (λ w. w) (λ f w. f w) nothing nothing nothing nothing fails is_created
      (λ f w. refl) (λ w. refl) (λ w. refl) (λ w. refl) (λ w. refl) (λ w. refl) (λ w. refl) 30
      two_connected

one-left :
    session_fiber (λ f w. f w) nothing nothing nothing nothing fails is_created 30 two_connected
    ≡ ok tt (record two_connected { connections = 1 })
unfolding session_fiber finish serve leave_scope on_scope_exit
one-left = refl
