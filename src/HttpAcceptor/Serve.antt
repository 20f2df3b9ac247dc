-- ===== src/HttpAcceptor/Serve.antt =====
-- The answers to requests that workers take from the channel, with and without a write routine.
use mathlib.Core.List.{append-nil, append_assoc}
use cxx_conet.Prelude.{
  ℕ, ◌≡◌, refl, sym, ap, Bool, false, Option, none, List, [], ◌∷◌, ◌++◌, String,
}
use cxx_conet.Prelude.Exec.{
  ok, throws, Error, illegal_argument, illegal_state, null_pointer, io_error, socket_timeout,
  interrupted, out_of_memory, other_error, undefined, out_of_fuel,
}
use cxx_conet.HttpStream.{
  Request, Frame, Response, new_response, frames_of, Headers, World, decode_request,
}
use cxx_conet.HttpStream.Decode.{
  refusal, queued, request_with, joined, EndsOnce, frames_of-EndsOnce, decode_request-queued,
}
use cxx_conet.HttpAcceptor.{
  Acceptor, Handler, Reply, response, Connection, on_stream, handle, send_response, process_request,
  caught, work,
}

abbrev pub all_frames : List (ℕ × Response) → List (ℕ × Frame)
all_frames [] = []
all_frames ((id, r) ∷ rs) = on_stream id (frames_of r) ++ all_frames rs

abbrev pub replies : List (ℕ × Response) → List Reply
replies [] = []
replies ((id, r) ∷ rs) = response id r ∷ replies rs

abbrev pub open_connection : {S : Type 0} → S → List Reply → List (ℕ × Frame) → Connection S
open_connection s channel sent = record {
  state = s;
  closed = false;
  response_channel = channel;
  sent = sent;
}

goes_on :
    {S : Type 0} (e : Error) (c : Connection S) → ¬ (e ≡ undefined) → caught (throws e c) ≡ ok tt c
unfolding caught
goes_on undefined c defined = absurd (defined refl)
goes_on illegal_argument c defined = refl
goes_on illegal_state c defined = refl
goes_on null_pointer c defined = refl
goes_on io_error c defined = refl
goes_on socket_timeout c defined = refl
goes_on interrupted c defined = refl
goes_on out_of_memory c defined = refl
goes_on other_error c defined = refl
goes_on out_of_fuel c defined = refl

module _ {S : Type 0} (equals_ignore_case : String → String → Bool) (h : Option (Handler S)) where
  -- The handler takes these requests one after the other; each that it returns on has a response, and
  -- each that it throws on has none.
  pub data Handled : S → List (ℕ × Request) → List (ℕ × Response) → S → Type 0 where
    none_left : {s : S} → Handled s [] [] s
    returned :
        {s s1 s2 : S} {id : ℕ} {q : Request} {r : Response} {qs : List (ℕ × Request)}
        {rs : List (ℕ × Response)}
        → handle equals_ignore_case h q (s, new_response) ≡ ok tt (s1, r)
        → Handled s1 qs rs s2
        → Handled s ((id, q) ∷ qs) ((id, r) ∷ rs) s2
    thrown :
        {s s1 s2 : S} {id : ℕ} {q : Request} {r : Response} {e : Error} {qs : List (ℕ × Request)}
        {rs : List (ℕ × Response)}
        → handle equals_ignore_case h q (s, new_response) ≡ throws e (s1, r)
        → ¬ (e ≡ undefined)
        → Handled s1 qs rs s2
        → Handled s ((id, q) ∷ qs) rs s2

  pub process-thrown :
      (a : Acceptor) (id : ℕ) (q : Request) (c : Connection S) {e : Error} {s1 : S} {r : Response}
      → handle equals_ignore_case h q (c.state, new_response) ≡ throws e (s1, r)
      → ¬ (e ≡ undefined)
      → caught (process_request equals_ignore_case a h id q c) ≡ ok tt (record c { state = s1 })
  unfolding process_request
  process-thrown a id q c {e} {s1} ran defined =
      rw (process_request, ran) (goes_on e (record c { state = s1 }) defined)

  pub process-returned :
      (a : Acceptor) (id : ℕ) (q : Request) (c : Connection S) {s1 : S} {r : Response}
      → handle equals_ignore_case h q (c.state, new_response) ≡ ok tt (s1, r)
      → process_request equals_ignore_case a h id q c
        ≡ send_response a id r (record c { state = s1 })
  unfolding process_request
  process-returned a id q c ran = rw (process_request, ran) refl

  pub work-direct :
      (a : Acceptor) {s s' : S} {qs : List (ℕ × Request)} {rs : List (ℕ × Response)}
      (channel : List Reply) (sent : List (ℕ × Frame))
      → a.rw_io_detached ≡ false
      → Handled s qs rs s'
      → work equals_ignore_case a h qs (open_connection s channel sent)
        ≡ ok tt (open_connection s' channel (sent ++ all_frames rs))
  unfolding work send_response caught
  work-direct a {s} channel sent direct none_left =
      ap (λ l. ok tt (open_connection s channel l)) (sym (append-nil sent))
  work-direct a {s} {s'} channel sent direct
        (returned {id = id} {q = q} {r = r} {rs = rs} ran rest) =
      let frames = on_stream id (frames_of r) in
      let one = process-returned a id q (open_connection s channel sent) ran in
      rw (one, direct, work-direct a channel (sent ++ frames) direct rest)
        (ap (λ l. ok tt (open_connection s' channel l)) (append_assoc sent frames (all_frames rs)))
  work-direct a {s} channel sent direct (thrown {id = id} {q = q} ran defined rest) =
      rw (process-thrown a id q (open_connection s channel sent) ran defined)
        (work-direct a channel sent direct rest)

abbrev pub from_stream : ℕ → List Request → List (ℕ × Request)
from_stream id [] = []
from_stream id (q ∷ qs) = (id, q) ∷ from_stream id qs

-- A client's request that is not refused, on a stream of an acceptor whose request channel is empty,
-- is answered once by a worker that sends itself, where the handler returns on it: the frames of the
-- handler's response go to the request's stream, and exactly the last of them ends it.
pub work-decode_request :
    {S : Type 0} (equals_ignore_case : String → String → Bool) (h : Option (Handler S))
    (a : Acceptor) (id : ℕ) (hd : Headers) (ps : List (List (List ℕ))) (w : World) (s s1 : S)
    {r : Response} (sent : List (ℕ × Frame))
    → a.rw_io_detached ≡ false
    → w.request_channel ≡ []
    → refusal hd ≡ none
    → handle equals_ignore_case h (request_with hd (joined ps)) (s, new_response) ≡ ok tt (s1, r)
    → (w' : World) × (decode_request hd ps w ≡ ok tt w')
      × (work equals_ignore_case a h (from_stream id w'.request_channel) (open_connection s [] sent)
          ≡ ok tt (open_connection s1 [] (sent ++ on_stream id (frames_of r))))
      × EndsOnce (frames_of r)
work-decode_request eq h a id hd ps w s s1 {r} sent direct empty fine ran =
    let q = request_with hd (joined ps) in
    let (rest, e, shape, once, bytes) = frames_of-EndsOnce r in
    let all : Handled eq h s ((id, q) ∷ []) ((id, r) ∷ []) s1 = returned ran none_left in
    let done = work-direct eq h a [] sent direct all in
    let last = append-nil (on_stream id (frames_of r)) in
    (
      queued w q,
      decode_request-queued hd ps w fine,
      rw (empty, done) (ap (λ l. ok tt (open_connection s1 [] (sent ++ l))) last),
      once,
    )
