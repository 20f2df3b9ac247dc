-- ===== src/Acceptor/Bind.antt =====
-- What a bind with several addresses leaves, whether it returns or throws: src/ESocketAcceptor.cpp.
use mathlib.Core.List.{append_assoc, append-nil}
use cxx_conet.Prelude.{◌≡◌, refl, sym, ap, ◌∙◌, Bool, Option, none, some, List, [], ◌∷◌, ◌++◌, map}
use cxx_conet.Prelude.Exec.{ok, throws, Error, undefined, and_then}
use cxx_conet.Acceptor.Services.{
  Service, Server, Listener, new_service, listened, add_service, bind_loop, bind_addresses,
}

module _ {Name Address : Type 0} (ssl : Bool) (name : Name) (l : Listener Name Address) where
  -- The listener returns for each of these addresses, and leaves these services.
  pub data Bound : List Address → List (Service Name Address) → Type 0 where
    none_bound : Bound [] []
    one_bound :
        {a : Address} {svc : Service Name Address} {xs : List Address}
        {svcs : List (Service Name Address)}
        → listened l (new_service name ssl a) ≡ ok tt svc
        → Bound xs svcs
        → Bound (a ∷ xs) (svc ∷ svcs)

  abbrev pub with_services : Server Name Address → List (Service Name Address) → Server Name Address
  with_services s svcs = record s { services = s.services ++ svcs }

  add_service-ok :
      (s : Server Name Address) (a : Address) {svc : Service Name Address}
      → listened l (new_service name ssl a) ≡ ok tt svc
      → add_service name ssl l a s ≡ ok tt (with_services s (svc ∷ []))
  unfolding add_service
  add_service-ok s a ran = rw (ran, add_service) refl

  add_service-throws :
      (s : Server Name Address) (a : Address) {e : Error} {svc : Service Name Address}
      → listened l (new_service name ssl a) ≡ throws e svc
      → add_service name ssl l a s ≡ throws e (with_services s (svc ∷ []))
  unfolding add_service
  add_service-throws s a ran = rw (ran, add_service) refl

  -- the loop goes on behind the addresses that it has bound
  bind_loop-Bound :
      (s : Server Name Address) (rest : List (Option Address)) {xs : List Address}
      {svcs : List (Service Name Address)}
      → Bound xs svcs
      → bind_loop ssl name l (map some xs ++ rest) s
        ≡ bind_loop ssl name l rest (with_services s svcs)
  unfolding bind_loop
  bind_loop-Bound s rest none_bound =
      ap (λ k. bind_loop ssl name l rest (record s { services = k })) (sym (append-nil s.services))
  bind_loop-Bound s rest (one_bound {a} {svc} {xs} {svcs} ran more) =
      ap (λ r. and_then r (λ _. bind_loop ssl name l (map some xs ++ rest)))
        (add_service-ok s a ran)
      ∙ bind_loop-Bound (with_services s (svc ∷ [])) rest more
      ∙ ap (λ k. bind_loop ssl name l rest (record s { services = k }))
          (append_assoc s.services (svc ∷ []) svcs)

  -- A bind with addresses for which the listener returns adds their services, in order, and returns; a
  -- null behind them is undefined behaviour after that.
  pub bind_addresses-Bound :
      (s : Server Name Address) (rest : List (Option Address)) {xs : List Address}
      {svcs : List (Service Name Address)}
      → Bound xs svcs
      → (bind_addresses (some (map some xs)) ssl name l s ≡ ok tt (with_services s svcs))
        × (bind_addresses (some (map some xs ++ none ∷ rest)) ssl name l s
            ≡ throws undefined (with_services s svcs))
  unfolding bind_addresses bind_loop
  bind_addresses-Bound s rest {xs} bound = (
    ap (λ k. bind_loop ssl name l k s) (sym (append-nil (map some xs)))
        ∙ bind_loop-Bound s [] bound,
    bind_loop-Bound s (none ∷ rest) bound,
  )

  -- Where the listener returns for the first addresses and throws for the next one, a bind adds the
  -- services of them all, in order, that of the one it throws for included, hands the exception on, and
  -- binds none of the addresses behind it.
  pub bind_addresses-throws :
      (s : Server Name Address) (a : Address) (rest : List (Option Address)) {e : Error}
      {failed : Service Name Address} {xs : List Address} {svcs : List (Service Name Address)}
      → Bound xs svcs
      → listened l (new_service name ssl a) ≡ throws e failed
      → bind_addresses (some (map some xs ++ some a ∷ rest)) ssl name l s
        ≡ throws e (with_services s (svcs ++ failed ∷ []))
  unfolding bind_addresses bind_loop
  bind_addresses-throws s a rest {e} {failed} {xs} {svcs} bound ran =
      bind_loop-Bound s (some a ∷ rest) bound
      ∙ ap (λ r. and_then r (λ _. bind_loop ssl name l rest))
          (add_service-throws (with_services s svcs) a ran)
      ∙ ap (λ k. throws e (record s { services = k })) (append_assoc s.services svcs (failed ∷ []))
