-- ===== src/HttpStream/Examples.antt =====
-- A request with a body in two pieces, one that is refused, and responses.
use cxx_conet.Prelude.{
  ℕ, ◌+◌, ◌≤◌, ◌<◌, ◌≡◌, refl, none, some, List, [], ◌∷◌, ◌++◌, Bool, arith, length, replicate,
}
use cxx_conet.Prelude.Exec.{ok, throws, undefined, other_error}
use cxx_conet.HttpStream.{
  Headers, Frame, headers, World, starts_with_slash, too_large, not_found, decode_request, Response,
  new_response, frames_of,
}
use cxx_conet.HttpStream.Decode.{
  refusal, joined, answered, request_with, with_request, EndsOnce, bytes_of_frames, written,
  write_all, flat, decode_request-refused, decode_request-queued, queued, frames_of-EndsOnce,
  write_all-written,
}
use cxx_conet.HttpStream.Trailers.{decode_with_trailers, decode_with_trailers-undefined}

abbrev get_index : Headers
get_index = record { byte_size = 40; method = some "GET"; path = some (47 ∷ 105 ∷ []) }

abbrev connect : Headers
connect = record { byte_size = 40; method = some "CONNECT"; path = none }

abbrev large : Headers
large = record { byte_size = 61441; method = some "GET"; path = some (47 ∷ []) }

abbrev pieces : List (List (List ℕ))
pieces = ((1 ∷ 2 ∷ []) ∷ []) ∷ ((3 ∷ []) ∷ (4 ∷ []) ∷ []) ∷ []

abbrev fresh : World
fresh = record { stream = record { request = none; encoded = [] }; request_channel = [] }

get_index-accepted : refusal get_index ≡ none
unfolding refusal starts_with_slash
get_index-accepted = refl

connect-refused : refusal connect ≡ some not_found
unfolding refusal starts_with_slash
connect-refused = refl

large-refused : refusal large ≡ some too_large
unfolding refusal
large-refused = refl

decode_request-refused_example :
    (decode_request connect [] fresh ≡ ok tt (answered fresh not_found))
    × ((p : List (List ℕ)) (ps : List (List (List ℕ)))
        → decode_request connect (p ∷ ps) fresh ≡ throws undefined (answered fresh not_found))
decode_request-refused_example = decode_request-refused connect fresh not_found connect-refused refl

abbrev greeting : Response
greeting = record { status = 200; body_data = some (104 ∷ 105 ∷ []) }

frames_of-EndsOnce_example :
    (rest : List Frame) × (e : Bool) × (frames_of greeting ≡ headers 200 e ∷ rest)
    × EndsOnce (frames_of greeting)
    × (bytes_of_frames rest ≡ written greeting)
frames_of-EndsOnce_example = frames_of-EndsOnce greeting

abbrev texts : List (List ℕ)
texts = (104 ∷ []) ∷ (105 ∷ 33 ∷ []) ∷ []

abbrev long_texts : List (List ℕ)
long_texts = replicate 200 1 ∷ replicate 57 2 ∷ []

write_all-written_example :
    (length (written new_response) + length (flat texts) ≤ 256
      → (r' : Response) × (write_all texts new_response ≡ ok tt r')
        × (written r' ≡ written new_response ++ flat texts)
        × (r'.status ≡ 200))
    × (256 < length (written new_response) + length (flat texts)
        → (r' : Response) × (write_all texts new_response ≡ throws other_error r')
          × (r'.status ≡ 200))
write_all-written_example = write_all-written texts new_response (omega arith)

written-texts :
    (r' : Response) × (write_all texts new_response ≡ ok tt r')
    × (written r' ≡ 104 ∷ 105 ∷ 33 ∷ [])
    × (r'.status ≡ 200)
written-texts = (write_all-written texts new_response (omega arith)).0 (omega arith)

decode_with_trailers-undefined_example :
    decode_with_trailers get_index pieces fresh
    ≡ throws undefined (with_request fresh (request_with get_index (joined pieces)))
decode_with_trailers-undefined_example =
    decode_with_trailers-undefined get_index pieces fresh get_index-accepted

decode_request-queued_example :
    decode_request get_index pieces fresh
    ≡ ok tt (queued fresh (request_with get_index (joined pieces)))
decode_request-queued_example = decode_request-queued get_index pieces fresh get_index-accepted
