-- ===== src/HttpAcceptor/Reads.antt =====
-- The fiber of a connection: which of the handler's methods on a session run.
use cxx_conet.Prelude.{ℕ, zero, suc, ◌<◌, ◌≡◌, refl, true, Option, none, some, arith, if◌then◌else◌}
use cxx_conet.Prelude.Exec.{Exec, ok, throws, Error, pure}
use cxx_conet.HttpAcceptor.{Acceptor, read_to_end, on_connection_handle}

module _ {W Message : Type 0} (read : Exec W (Option Message)) where
  -- So many reads give a message, then one gives null.
  pub data ReadsAll : ℕ → W → W → Type 0 where
    at_end : {w w' : W} → read w ≡ ok none w' → ReadsAll 0 w w'
    one_more :
        {n : ℕ} {w v w' : W} {m : Message}
        → read w ≡ ok (some m) v
        → ReadsAll n v w'
        → ReadsAll (suc n) w w'

  -- So many reads give a message, then one throws.
  pub data ReadsThrow : ℕ → Error → W → W → Type 0 where
    now : {e : Error} {w w' : W} → read w ≡ throws e w' → ReadsThrow 0 e w w'
    later :
        {n : ℕ} {e : Error} {w v w' : W} {m : Message}
        → read w ≡ ok (some m) v
        → ReadsThrow n e v w'
        → ReadsThrow (suc n) e w w'

  read_to_end-all :
      (fuel : ℕ) {n : ℕ} {w w' : W}
      → n < fuel
      → ReadsAll n w w'
      → read_to_end read fuel w ≡ ok tt w'
  unfolding read_to_end
  read_to_end-all zero enough all = absurd (omega arith)
  read_to_end-all (suc fuel) enough (at_end ran) = rw ran refl
  read_to_end-all (suc fuel) enough (one_more ran rest) =
      rw ran (read_to_end-all fuel (omega arith) rest)

  read_to_end-throws :
      (fuel : ℕ) {n : ℕ} {e : Error} {w w' : W}
      → n < fuel
      → ReadsThrow n e w w'
      → read_to_end read fuel w ≡ throws e w'
  unfolding read_to_end
  read_to_end-throws zero enough all = absurd (omega arith)
  read_to_end-throws (suc fuel) enough (now ran) = rw ran refl
  read_to_end-throws (suc fuel) enough (later ran rest) =
      rw ran (read_to_end-throws fuel (omega arith) rest)

module _ {W Message : Type 0} (attach start_writer opened on_closed : Exec W (Unit {0}))
    (read : Exec W (Option Message)) where
  -- Where a connection with a handler is attached, its write routine started if it has one, and
  -- sessionOpened returns: if the reads end with null, the handler's sessionClosed runs once, at the
  -- end; if one of them throws, the fiber ends with that exception and sessionClosed does not run.
  pub on_connection_handle-reads :
      (a : Acceptor) (fuel : ℕ) {n : ℕ} {e : Error} {v v1 v2 w w' : W}
      → attach v ≡ ok tt v1
      → (if a.rw_io_detached then start_writer else pure tt) v1 ≡ ok tt v2
      → opened v2 ≡ ok tt w
      → n < fuel
      → (ReadsAll read n w w'
          → on_connection_handle attach start_writer opened on_closed read a true fuel v
            ≡ on_closed w')
        × (ReadsThrow read n e w w'
            → on_connection_handle attach start_writer opened on_closed read a true fuel v
              ≡ throws e w')
  unfolding on_connection_handle
  on_connection_handle-reads a fuel attached writer begun enough = (
    λ all. rw (attached, writer, begun, read_to_end-all read fuel enough all) refl,
    λ all. rw (attached, writer, begun, read_to_end-throws read fuel enough all) refl,
  )
