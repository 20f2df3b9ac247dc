-- ===== src/HttpStream.antt =====
-- One HTTP stream of a session, and the response to it: ActiveStream of src/EHttpSession.cpp,
-- inc/EHttpSession.hh, src/EHttpRequest.cpp and src/EHttpResponse.cpp.
pub mod Decode
pub mod Trailers
mod Examples
use cxx_conet.Prelude.{
  ℕ, ◌+◌, ◌*◌, Bool, true, false, not, ◌||◌, Option, none, some, List, [], ◌∷◌, ◌++◌, ◌==◌, String,
  length, ltb, if◌then◌else◌,
}
use cxx_conet.Prelude.Exec.{
  Exec, Run, ok, throws, undefined, other_error, throw, pure, gets, modify, ◌>>=◌, ◌>>◌,
}

-- What the code asks of a map of headers that came in: its size, and the values of two headers, each of
-- which may be missing.
pub record Headers : Type 0 where
  pub byte_size : ℕ
  pub method : Option String
  pub path : Option (List ℕ)

-- EHttpRequest, less the stream
pub record Request : Type 0 where
  pub header_map : Headers
  pub body_data : List (List ℕ)

-- What is given to the encoder of a response: the headers of a response by their status, or bytes of
-- its body, each with end_stream.
pub data Frame : Type 0 where
  headers : ℕ → Bool → Frame
  body : List ℕ → Bool → Frame

pub record ActiveStream : Type 0 where
  pub request : Option Request
  pub encoded : List Frame

-- A stream together with the channel of requests that its acceptor has.
pub record World : Type 0 where
  pub stream : ActiveStream
  pub request_channel : List Request

unfoldable pub encode : Frame → Exec World (Unit {0})
encode f =
    modify (λ w. record w { stream = record w.stream { encoded = w.stream.encoded ++ f ∷ [] } })

unfoldable pub write_request : Option Request → Exec World (Unit {0})
write_request none = throw undefined
write_request (some r) = modify (λ w. record w { request_channel = w.request_channel ++ r ∷ [] })

-- `!headers->Path() || path[0] != '/'`: the first character of an empty text is not '/'
unfoldable pub starts_with_slash : Option (List ℕ) → Bool
starts_with_slash none = false
starts_with_slash (some []) = false
starts_with_slash (some (c ∷ cs)) = c == 47

abbrev pub too_large : ℕ
too_large = 431

abbrev pub not_found : ℕ
not_found = 404

-- `new EHttpRequest(this, headers)` and what follows it
unfoldable pub accept_request : Headers → Bool → Exec World (Unit {0})
unfolding write_request
accept_request h end_stream = do
  let r : Request = record { header_map = h; body_data = [] }
  modify (λ w. record w { stream = record w.stream { request = some r } })
  if end_stream then write_request (some r) else pure tt

unfoldable pub decode_headers : Headers → Bool → Exec World (Unit {0})
unfolding encode starts_with_slash accept_request
decode_headers h end_stream =
    if ltb (60 * 1024) h.byte_size
    then encode (headers too_large true)
    else if not (starts_with_slash h.path)
    then encode (headers not_found true)
    else accept_request h end_stream

-- The data come as a list of buffers. The assertion ends the program where there is no request; its
-- second part, that the request is of this stream, holds of each request that the stream has made, since
-- EHttpRequest keeps the stream it was made with.
unfoldable pub decode_data : List (List ℕ) → Bool → Exec World (Unit {0})
unfolding write_request
decode_data buffers end_stream w = elim w.stream.request [
  | none ↦ throws undefined w
  | some r ↦
      let r' : Request = record r { body_data = r.body_data ++ buffers } in
      (modify (λ v. record v { stream = record v.stream { request = some r' } })
          >> (if end_stream then write_request (some r') else pure tt))
        w
]

-- What a client sends on a stream: headers, and pieces of a body of which the last ends the stream.
unfoldable pub decode_pieces : List (List (List ℕ)) → Exec World (Unit {0})
unfolding decode_data
decode_pieces [] = pure tt
decode_pieces (p ∷ []) = decode_data p true
decode_pieces (p ∷ q ∷ ps) = decode_data p false >> decode_pieces (q ∷ ps)

unfoldable pub decode_request : Headers → List (List (List ℕ)) → Exec World (Unit {0})
unfolding decode_headers decode_pieces
decode_request h [] = decode_headers h true
decode_request h (p ∷ ps) = decode_headers h false >> decode_pieces (p ∷ ps)

-- EHttpResponse, less the stream. Of its headers only the status is written by the sources.
pub record Response : Type 0 where
  pub status : ℕ
  pub body_data : Option (List ℕ)

abbrev pub new_response : Response
new_response = record { status = 200; body_data = none }

-- The buffer of a body has 256 bytes and does not grow; `put` throws where they do not fit.
unfoldable pub write : List ℕ → Exec Response (Unit {0})
write bytes r =
    let before : List ℕ = elim r.body_data [ none ↦ [] | some b ↦ b ] in
    if ltb 256 (length before + length bytes)
    then throws other_error (record r { body_data = some before })
    else ok tt (record r { body_data = some (before ++ bytes) })

-- The calls of encodeHeaders and encodeData for a response.
unfoldable pub frames_of : Response → List Frame
frames_of r = elim r.body_data [
  | none ↦ headers r.status true ∷ []
  | some b ↦ headers r.status false ∷ body b false ∷ body [] true ∷ []
]
