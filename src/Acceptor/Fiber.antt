-- ===== src/Acceptor/Fiber.antt =====
-- The fiber of a session, from its start to the end of its scope: the inner fiber of startAccept in
-- src/ESocketAcceptor.cpp.
use cxx_conet.Prelude.{ℕ, Bool, ltb, if◌then◌else◌}
use cxx_conet.Prelude.Exec.{Exec, Run, ok, throws, undefined, pure, modify, ◌>>=◌, ◌>>◌}
use cxx_conet.Acceptor.{Acceptor, on_scope_exit}

-- `on_service` changes the service in the world. The calls are those of the managed sessions, of the
-- socket, of the session's chain and of the service's onConnectionHandle.
module _ {W : Type 0} (on_service : (Acceptor → Acceptor) → W → W)
    (add_session remove_session set_so_timeout close on_connection : Exec W (Unit {0}))
    (fire_session_created : Exec W Bool) where
  -- the block that is tried
  unfoldable pub serve : (timeout : ℕ) → Exec W (Unit {0})
  serve timeout = do
    add_session
    if ltb 0 timeout then set_so_timeout else pure tt
    created ← fire_session_created
    if created then on_connection else pure tt

  unfoldable pub leave_scope : Exec W (Unit {0})
  leave_scope = do modify (on_service on_scope_exit); remove_session; close

  -- an exception is logged, and the scope is left on every path; undefined behaviour is not an exception
  unfoldable pub finish : Run W (Unit {0}) → Run W (Unit {0})
  finish (ok a v) = leave_scope v
  finish (throws undefined v) = throws undefined v
  finish (throws e v) = leave_scope v

  unfoldable pub session_fiber : (timeout : ℕ) → Exec W (Unit {0})
  unfolding finish
  session_fiber timeout w = finish (serve timeout w)
