-- ===== src/Acceptor/Release.antt =====
-- The connection that the fiber of a session gives back.
use cxx_conet.Prelude.{ℕ, ◌≡◌, refl, ap, ◌∙◌, ◌⊎◌, Bool, inl, inr, true, false, ltb, if◌then◌else◌}
use cxx_conet.Prelude.Exec.{
  Exec, Run, ok, throws, illegal_argument, illegal_state, null_pointer, io_error, socket_timeout,
  interrupted, out_of_memory, other_error, undefined, out_of_fuel, pure, state_of, and_then, ◌>>=◌,
}
use cxx_conet.Acceptor.{Acceptor, less32, on_scope_exit}
use cxx_conet.Acceptor.Fiber.{serve, leave_scope, finish, session_fiber}

module _ {W : Type 0} (service : W → Acceptor) where
  -- The number of connections is the same after a run, whether it returned or threw.
  abbrev pub Keeps : {A : Type 0} → Exec W A → Type 0
  Keeps m = (w : W) → (service (state_of (m w))).connections ≡ (service w).connections

  and_then-Keeps :
      {A C : Type 0} (r : Run W A) (k : A → Exec W C)
      → ((a : A) → Keeps (k a))
      → (service (state_of (and_then r k))).connections ≡ (service (state_of r)).connections
  and_then-Keeps (ok a v) k next = next a v
  and_then-Keeps (throws e v) k next = refl

  then-Keeps :
      {A C : Type 0} (m : Exec W A) (k : A → Exec W C)
      → Keeps m
      → ((a : A) → Keeps (k a))
      → Keeps (m >>= k)
  then-Keeps m k first next w = and_then-Keeps (m w) k next ∙ first w

  if-Keeps : (t : Bool) (m : Exec W (Unit {0})) → Keeps m → Keeps (if t then m else pure tt)
  if-Keeps true m keeps = keeps
  if-Keeps false m keeps = λ w. refl

module _ {W : Type 0} (service : W → Acceptor) (on_service : (Acceptor → Acceptor) → W → W)
    (add_session remove_session set_so_timeout close on_connection : Exec W (Unit {0}))
    (fire_session_created : Exec W Bool) where
  serve-Keeps :
      (timeout : ℕ)
      → Keeps service add_session
      → Keeps service set_so_timeout
      → Keeps service fire_session_created
      → Keeps service on_connection
      → Keeps service (
          serve on_service add_session remove_session set_so_timeout close on_connection
            fire_session_created timeout)
  unfolding serve
  serve-Keeps timeout adds sets fires connects = then-Keeps service add_session _ adds (λ a.
      then-Keeps service (if ltb 0 timeout then set_so_timeout else pure tt) _
        (if-Keeps service (ltb 0 timeout) set_so_timeout sets)
        (λ b.
          then-Keeps service fire_session_created _ fires
            (λ created. if-Keeps service created on_connection connects)))

  leave_scope-connections :
      ((f : Acceptor → Acceptor) (w : W) → service (on_service f w) ≡ f (service w))
      → Keeps service remove_session
      → Keeps service close
      → (v : W)
      → (service (
          state_of (
            leave_scope on_service add_session remove_session set_so_timeout close on_connection
              fire_session_created v))).connections
        ≡ less32 (service v).connections
  unfolding leave_scope on_scope_exit
  leave_scope-connections lens removes closes v =
      then-Keeps service remove_session (λ _. close) removes (λ _. closes)
        (on_service on_scope_exit v)
      ∙ ap (λ (a : Acceptor). a.connections) (lens on_scope_exit v)

  finish-connections :
      ((f : Acceptor → Acceptor) (w : W) → service (on_service f w) ≡ f (service w))
      → Keeps service remove_session
      → Keeps service close
      → (r : Run W (Unit {0}))
      → ((v : W) × (finish on_service add_session remove_session set_so_timeout close on_connection
              fire_session_created r
            ≡ throws undefined v))
        ⊎ ((service (
              state_of (
                finish on_service add_session remove_session set_so_timeout close on_connection
                  fire_session_created r))).connections
            ≡ less32 (service (state_of r)).connections)
  unfolding finish
  finish-connections lens removes closes (ok a v) =
      inr (leave_scope-connections lens removes closes v)
  finish-connections lens removes closes (throws undefined v) = inl (v, refl)
  finish-connections lens removes closes (throws illegal_argument v) =
      inr (leave_scope-connections lens removes closes v)
  finish-connections lens removes closes (throws illegal_state v) =
      inr (leave_scope-connections lens removes closes v)
  finish-connections lens removes closes (throws null_pointer v) =
      inr (leave_scope-connections lens removes closes v)
  finish-connections lens removes closes (throws io_error v) =
      inr (leave_scope-connections lens removes closes v)
  finish-connections lens removes closes (throws socket_timeout v) =
      inr (leave_scope-connections lens removes closes v)
  finish-connections lens removes closes (throws interrupted v) =
      inr (leave_scope-connections lens removes closes v)
  finish-connections lens removes closes (throws out_of_memory v) =
      inr (leave_scope-connections lens removes closes v)
  finish-connections lens removes closes (throws other_error v) =
      inr (leave_scope-connections lens removes closes v)
  finish-connections lens removes closes (throws out_of_fuel v) =
      inr (leave_scope-connections lens removes closes v)

  -- However the fiber of a session runs, whether a filter refuses the session, the service's handler
  -- returns, or any of its calls throws, it gives its connection back once, where none of those calls
  -- changes the number of connections; the one exception is undefined behaviour.
  pub session_fiber-connections :
      ((f : Acceptor → Acceptor) (w : W) → service (on_service f w) ≡ f (service w))
      → Keeps service add_session
      → Keeps service remove_session
      → Keeps service set_so_timeout
      → Keeps service close
      → Keeps service on_connection
      → Keeps service fire_session_created
      → (timeout : ℕ) (w : W)
      → ((v : W) × (session_fiber on_service add_session remove_session set_so_timeout close
              on_connection fire_session_created timeout w
            ≡ throws undefined v))
        ⊎ ((service (
              state_of (
                session_fiber on_service add_session remove_session set_so_timeout close
                  on_connection fire_session_created timeout w))).connections
            ≡ less32 (service w).connections)
  unfolding session_fiber
  session_fiber-connections lens adds removes sets closes connects fires timeout w =
      let kept = serve-Keeps timeout adds sets fires connects w in
      let all = finish-connections lens removes closes (
        serve on_service add_session remove_session set_so_timeout close on_connection
          fire_session_created timeout w) in
      elim all [
        | inl undefined_there ↦ inl undefined_there
        | inr given_back ↦ inr (given_back ∙ ap less32 kept)
      ]
