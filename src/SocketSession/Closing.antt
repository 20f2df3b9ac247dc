-- ===== src/SocketSession/Closing.antt =====
-- A session that is closed more than once.
use cxx_conet.Prelude.{◌≡◌, refl, sym, ap, ◌∙◌, Bool, Bool-cases, inl, inr, true}
use cxx_conet.Prelude.Exec.{Exec, Run, ok, throws, and_then, modify, ◌>>◌}
use cxx_conet.SocketSession.{close}

module _ {W : Type 0} (closed : W → Bool) (set_closed : W → W)
    (fire_closed close_socket : Exec W (Unit {0})) where
  closed_again :
      (w : W) → closed w ≡ true → close closed set_closed fire_closed close_socket w ≡ ok tt w
  unfolding close
  closed_again w is = rw (is, close) refl

  marked :
      ((w : W) → closed (set_closed w) ≡ true)
      → (r : Run W (Unit {0})) (w' : W) → and_then r (λ _. modify set_closed) ≡ ok tt w'
      → closed w' ≡ true
  marked sets (ok u s) w' is = let same : set_closed s ≡ w' = cc is in sym (ap closed same) ∙ sets s
  marked sets (throws e s) w' is = cc is

  marked_behind :
      ((w : W) → closed (set_closed w) ≡ true)
      → (r : Run W (Unit {0})) (w' : W)
      → and_then r (λ _. close_socket >> modify set_closed) ≡ ok tt w'
      → closed w' ≡ true
  marked_behind sets (ok u s) w' is = marked sets (close_socket s) w' is
  marked_behind sets (throws e s) w' is = cc is

  close-closed :
      ((w : W) → closed (set_closed w) ≡ true)
      → (w w' : W) → close closed set_closed fire_closed close_socket w ≡ ok tt w'
      → closed w' ≡ true
  unfolding close
  close-closed sets w w' is = elim (Bool-cases (closed w)) [
    | inl shut ↦ let same : w ≡ w' = cc (closed_again w shut, is) in sym (ap closed same) ∙ shut
    | inr open_still ↦
        let ran : close closed set_closed fire_closed close_socket w
            ≡ and_then (fire_closed w) (λ _. close_socket >> modify set_closed) =
          rw (open_still, close) refl in
        marked_behind sets (fire_closed w) w' (sym ran ∙ is)
  ]

  close_after :
      (r : Run W (Unit {0}))
      → ((w' : W) → r ≡ ok tt w' → closed w' ≡ true)
      → and_then r (λ _. close closed set_closed fire_closed close_socket) ≡ r
  close_after (ok u s) all = closed_again s (all s refl)
  close_after (throws e s) all = refl

  -- Closing a session twice is closing it once: after a first call that returns, the second fires no
  -- event and leaves the socket alone.
  pub close-close :
      ((w : W) → closed (set_closed w) ≡ true)
      → (w : W)
      → (close closed set_closed fire_closed close_socket
            >> close closed set_closed fire_closed close_socket)
          w
        ≡ close closed set_closed fire_closed close_socket w
  close-close sets w =
      close_after (close closed set_closed fire_closed close_socket w) (close-closed sets w)
