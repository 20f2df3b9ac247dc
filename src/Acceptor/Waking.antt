-- ===== src/Acceptor/Waking.antt =====
-- The end of a service by dispose() or shutdown(), which also wake the fibers that wait in accept():
-- src/ESocketAcceptor.cpp.
use cxx_conet.Prelude.{◌≡◌, refl, ◌∙◌, true, false, Option, none, some, List, [], ◌∷◌}
use cxx_conet.Prelude.Exec.{Exec, Run, ok, throws, state_of, and_then}
use cxx_conet.Acceptor.{Acceptor, is_disposed, accepts}
use cxx_conet.Acceptor.Loops.{Wait, ended, accept_loop}
use cxx_conet.Acceptor as Fields
use cxx_conet.Acceptor.Services.{ServerSocket, Service, Server}
use cxx_conet.Acceptor.Threads.{signal_loop, signal_accept, dispose, shutdown}

-- a call that leaves the fields of the service alone, whether it returns or throws
abbrev pub Leaves : {Name Address : Type 0} → Exec (Server Name Address) (Unit {0}) → Type 0
Leaves {Name} {Address} m = (s : Server Name Address) → (state_of (m s)).acceptor ≡ s.acceptor

not_accepting : (ws : List Wait) (a : Acceptor) → accepts a ≡ false → accept_loop ws a ≡ ended a
unfolding accept_loop
not_accepting [] a off = rw (off, accept_loop) refl
not_accepting (w ∷ ws) a off = rw (off, accept_loop) refl

module _ {Name Address : Type 0} where
  then-Leaves :
      (r : Run (Server Name Address) (Unit {0})) (n : Exec (Server Name Address) (Unit {0}))
      (a : Acceptor)
      → (state_of r).acceptor ≡ a
      → Leaves n
      → (state_of (and_then r (λ _. n))).acceptor ≡ a
  then-Leaves (ok u t) n a kept also = also t ∙ kept
  then-Leaves (throws e t) n a kept also = kept

module _ {Name Address : Type 0}
    (connect : Service Name Address → Exec (Server Name Address) (Unit {0}))
    (connect-Leaves : (svc : Service Name Address) → Leaves (connect svc)) where
  woken :
      (svc : Service Name Address) (svcs : List (Service Name Address)) (ss : Option ServerSocket)
      → svc.ss ≡ ss
      → Leaves (signal_loop connect svcs)
      → Leaves (signal_loop connect (svc ∷ svcs))
  unfolding signal_loop
  woken svc svcs none at rest s = rw (at, signal_loop) (rest s)
  woken svc svcs (some ss) at rest s =
      rw (at, signal_loop)
        (then-Leaves (connect svc s) (signal_loop connect svcs) s.acceptor (connect-Leaves svc s)
          rest)

  signal_loop-Leaves : (svcs : List (Service Name Address)) → Leaves (signal_loop connect svcs)
  unfolding signal_loop
  signal_loop-Leaves [] s = refl
  signal_loop-Leaves (svc ∷ svcs) s = woken svc svcs svc.ss refl (signal_loop-Leaves svcs) s

  signal_accept-Leaves :
      (order : List (Service Name Address) → List (Service Name Address))
      → Leaves (signal_accept connect order)
  unfolding signal_accept
  signal_accept-Leaves order s = signal_loop-Leaves (order s.services) s

  dispose-Leaves :
      (order : List (Service Name Address) → List (Service Name Address))
      (interrupt : Exec (Server Name Address) (Unit {0})) (s : Server Name Address)
      → Leaves interrupt
      → (state_of (dispose connect order interrupt s)).acceptor ≡ Fields.dispose s.acceptor
  unfolding dispose
  dispose-Leaves order interrupt s also =
      let disposed = record s { acceptor = Fields.dispose s.acceptor } in
      then-Leaves (interrupt disposed) (signal_accept connect order) disposed.acceptor
        (also disposed) (signal_accept-Leaves order)

  shutdown-Leaves :
      (order : List (Service Name Address) → List (Service Name Address)) (s : Server Name Address)
      → (state_of (shutdown connect order s)).acceptor ≡ Fields.shutdown s.acceptor
  unfolding shutdown
  shutdown-Leaves order s =
      signal_accept-Leaves order (record s { acceptor = Fields.shutdown s.acceptor })

  -- After dispose() and after shutdown(), whether they return or throw, isDisposed() answers true, each
  -- accept loop ends at its next test, however its calls of accept() come back, and the counters are as
  -- before, where the interrupt of the scheduler and the connections leave the service's fields alone.
  pub dispose-ended :
      (order : List (Service Name Address) → List (Service Name Address))
      (interrupt : Exec (Server Name Address) (Unit {0})) (s : Server Name Address) (ws : List Wait)
      → Leaves interrupt
      → (a b : Acceptor) × ((state_of (dispose connect order interrupt s)).acceptor ≡ a)
        × ((state_of (shutdown connect order s)).acceptor ≡ b)
        × ((is_disposed a ≡ true) × (is_disposed b ≡ true))
        × ((accept_loop ws a ≡ ended a) × (accept_loop ws b ≡ ended b))
        × ((a.connections ≡ s.acceptor.connections) × (b.connections ≡ s.acceptor.connections))
  unfolding is_disposed Fields.dispose Fields.shutdown accepts
  dispose-ended order interrupt s ws also = (
    Fields.dispose s.acceptor,
    Fields.shutdown s.acceptor,
    dispose-Leaves order interrupt s also,
    shutdown-Leaves order s,
    (refl, refl),
    (
      not_accepting ws (Fields.dispose s.acceptor) refl,
      not_accepting ws (Fields.shutdown s.acceptor) refl,
    ),
    (refl, refl),
  )
