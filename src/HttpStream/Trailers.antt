-- ===== src/HttpStream/Trailers.antt =====
-- Trailers and informational headers of a stream: ActiveStream of src/EHttpSession.cpp.
use mathlib.Core.List.{append-nil, append_assoc}
use cxx_conet.Prelude.{ℕ, ◌≡◌, refl, sym, ap, ◌∙◌, false, none, List, [], ◌∷◌, ◌++◌}
use cxx_conet.Prelude.Exec.{Exec, ok, throws, undefined, throw, pure, ◌>>◌}
use cxx_conet.HttpStream.{Headers, World, accept_request, decode_headers, decode_data}
use cxx_conet.HttpStream.Decode.{refusal, request_with, with_request, joined, accepted}

-- both assert false
unfoldable pub decode_trailers : Exec World (Unit {0})
decode_trailers = throw undefined

unfoldable pub decode_100_continue_headers : Exec World (Unit {0})
decode_100_continue_headers = throw undefined

-- These hand on what they are given to the encoder of the response.
unfoldable pub encode_trailers :
    {Encoder Map : Type 0} → (Map → Exec Encoder (Unit {0})) → Map → Exec Encoder (Unit {0})
encode_trailers to_encoder trailers = to_encoder trailers

unfoldable pub encode_100_continue_headers :
    {Encoder Map : Type 0} → (Map → Exec Encoder (Unit {0})) → Map → Exec Encoder (Unit {0})
encode_100_continue_headers to_encoder headers = to_encoder headers

-- What a client sends that ends its request by trailers: no piece of the body ends the stream.
unfoldable pub decode_open : List (List (List ℕ)) → Exec World (Unit {0})
unfolding decode_data
decode_open [] = pure tt
decode_open (p ∷ ps) = decode_data p false >> decode_open ps

unfoldable pub decode_with_trailers : Headers → List (List (List ℕ)) → Exec World (Unit {0})
unfolding decode_headers decode_open decode_trailers
decode_with_trailers h ps = do decode_headers h false; decode_open ps; decode_trailers

decode_open-pieces :
    (h : Headers) (b : List (List ℕ)) (ps : List (List (List ℕ))) (w : World)
    → decode_open ps (with_request w (request_with h b))
      ≡ ok tt (with_request w (request_with h (b ++ joined ps)))
unfolding decode_open decode_data
decode_open-pieces h b [] w =
    ap (λ l. ok tt (with_request w (request_with h l))) (sym (append-nil b))
decode_open-pieces h b (p ∷ ps) w =
    decode_open-pieces h (b ++ p) ps w
    ∙ ap (λ l. ok tt (with_request w (request_with h l))) (append_assoc b p (joined ps))

-- A request whose headers are not refused and which ends by trailers runs into an assertion that fails,
-- with all of its body read; the channel of requests is as it was, and nothing is answered.
pub decode_with_trailers-undefined :
    (h : Headers) (ps : List (List (List ℕ))) (w : World)
    → refusal h ≡ none
    → decode_with_trailers h ps w ≡ throws undefined (with_request w (request_with h (joined ps)))
unfolding decode_with_trailers decode_trailers accept_request
decode_with_trailers-undefined h ps w fine =
    rw (accepted h false w fine, decode_open-pieces h [] ps w) refl
