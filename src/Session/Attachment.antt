-- ===== src/Session/Attachment.antt =====
-- The object that is attached to a session: attach() and attachment() of src/EIoSession.cpp.
use cxx_conet.Prelude.{◌≡◌, refl, List, [], ◌∷◌, ◌++◌, Option}
use cxx_conet.Prelude.Exec.{Exec, ok, pure, gets, ◌>>=◌}

-- attachment_, an atomic reference that may be null
module _ {Object : Type 0} where
  -- getAndSet
  unfoldable pub attach : Option Object → Exec (Option Object) (Option Object)
  attach ob attachment = ok attachment ob

  unfoldable pub attachment : Exec (Option Object) (Option Object)
  attachment = gets (λ ob. ob)

  -- the objects that a series of calls of attach gives back
  unfoldable pub attach_all : List (Option Object) → Exec (Option Object) (List (Option Object))
  unfolding attach
  attach_all [] = pure []
  attach_all (ob ∷ obs) = do old ← attach ob; olds ← attach_all obs; pure (old ∷ olds)

  abbrev pub last_of : Option Object → List (Option Object) → Option Object
  last_of ob [] = ob
  last_of ob (next ∷ obs) = last_of next obs

  -- No object is lost: what a series of calls of attach gives back, and then the attachment, are the
  -- first attachment and all the objects attached, in order.
  pub attach_all-attachment :
      (ob : Option Object) (obs : List (Option Object))
      → (olds : List (Option Object)) × (attach_all obs ob ≡ ok olds (last_of ob obs))
        × (olds ++ last_of ob obs ∷ [] ≡ ob ∷ obs)
  unfolding attach_all
  attach_all-attachment ob [] = ([], refl, refl)
  attach_all-attachment ob (next ∷ obs) =
      let (olds, ran, same) = attach_all-attachment next obs in
      (ob ∷ olds, rw ran refl, rw same refl)
