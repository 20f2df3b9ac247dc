-- ===== src/Prelude/Exec.antt =====
-- Methods that change an object and may throw. What was written before a throw stays written, so
-- a run that throws carries the state too.

use mathlib.Core.Path.{◌≡◌, refl, sym, ap, ◌∙◌}

-- The exceptions of the sources. `undefined` is no exception: it marks a step whose behaviour C++
-- leaves undefined (a signed overflow, a shift by a negative count, a read through a dangling pointer),
-- and `out_of_fuel` a loop of the model that was given too few rounds.
pub data Error : Type 0 where
  illegal_argument illegal_state null_pointer io_error socket_timeout interrupted : Error
  out_of_memory other_error undefined out_of_fuel : Error

pub data Run (S A : Type 0) : Type 0 where
  ok : A → S → Run S A
  throws : Error → S → Run S A

abbrev pub Exec : Type 0 → Type 0 → Type 0
Exec S A = S → Run S A

module _ {S A : Type 0} where
  abbrev pub pure : A → Exec S A
  pure a s = ok a s

  abbrev pub throw : Error → Exec S A
  throw e s = throws e s

  abbrev pub gets : (S → A) → Exec S A
  gets f s = ok (f s) s

  -- the state after a run, whether it returned or threw
  abbrev pub state_of : Run S A → S
  state_of (ok a s) = s
  state_of (throws e s) = s

module _ {S : Type 0} where
  abbrev pub modify : (S → S) → Exec S (Unit {0})
  modify f s = ok tt (f s)

module _ {S A B : Type 0} where
  abbrev pub and_then : Run S A → (A → Exec S B) → Run S B
  and_then (ok a s) k = k a s
  and_then (throws e s) k = throws e s

  infixl 5 ◌>>=◌ ◌>>◌
  abbrev pub ◌>>=◌ : Exec S A → (A → Exec S B) → Exec S B
  m >>= k = λ s. and_then (m s) k

  abbrev pub ◌>>◌ : Exec S A → Exec S B → Exec S B
  m >> n = m >>= λ _. n

module _ {S A B C : Type 0} where
  and_then_assoc :
      (r : Run S A) (f : A → Exec S B) (g : B → Exec S C)
      → and_then (and_then r f) g ≡ and_then r (λ a s. and_then (f a s) g)
  and_then_assoc (ok a s) f g = refl
  and_then_assoc (throws e s) f g = refl

  -- a run of two steps that returned goes on with the third
  pub then-ok :
      (m : Exec S A) (n : Exec S B) (k : B → Exec S C) (s : S) {t : S} {b : B}
      → (m >> n) s ≡ ok b t
      → (m >> (n >>= k)) s ≡ k b t
  then-ok m n k s ran = sym (and_then_assoc (m s) (λ _. n) k) ∙ ap (λ r. and_then r k) ran
