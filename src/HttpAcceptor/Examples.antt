-- ===== src/HttpAcceptor/Examples.antt =====
-- Three requests: one that the handler answers, one that it throws on and one with no known method.
use Prim.Native.Char.{code}
use Prim.Native.String.{String}
use cxx_conet.Prelude.{
  ℕ, zero, suc, ◌+◌, ◌==◌, ◌≡◌, refl, Bool, true, false, ◌&&◌, if◌then◌else◌, Option, none, some,
  List, [], ◌∷◌, arith, leb,
}
use cxx_conet.Prelude.Exec.{Exec, ok, other_error, io_error, pure, throw, modify}
use cxx_conet.HttpStream.{
  Headers, Request, World, Response, frames_of, starts_with_slash, decode_request,
}
use cxx_conet.HttpStream.Decode.{refusal, request_with, EndsOnce}
use cxx_conet.HttpAcceptor.{
  new_acceptor, Handler, empty_handler, on_stream, do_method, handle, work, on_connection_handle,
}
use cxx_conet.HttpAcceptor.Serve.{open_connection, from_stream, work-decode_request}
use cxx_conet.HttpAcceptor.Reads.{ReadsAll, at_end, one_more, on_connection_handle-reads}

abbrev lower : ℕ → ℕ
lower c = if leb 65 c && leb c 90 then c + 32 else c

abbrev pub same_text : String → String → Bool
same_text String.[] String.[] = true
same_text String.[] (String.◌∷◌ d t) = false
same_text (String.◌∷◌ c s) String.[] = false
same_text (String.◌∷◌ c s) (String.◌∷◌ d t) = lower (code c) == lower (code d) && same_text s t

-- the state counts the calls of service
abbrev pub handler : Handler ℕ
handler = record (empty_handler {S = ℕ}) {
  service = λ q. modify (λ o. (suc (o.0), o.1));
  do_get = λ q o. ok tt (o.0, record (o.1) { body_data = some (104 ∷ 105 ∷ []) });
  do_post = λ q. throw other_error;
}

abbrev pub asks : String → Headers
asks m = record { byte_size = 40; method = some m; path = some (47 ∷ []) }

abbrev pub requests : List (ℕ × Request)
requests =
    (1, request_with (asks "get") [])
    ∷ (2, request_with (asks "POST") [])
    ∷ (3, request_with (asks "FETCH") [])
    ∷ []

abbrev pub greeting : Response
greeting = record { status = 200; body_data = some (104 ∷ 105 ∷ []) }

abbrev fresh : World
fresh = record { stream = record { request = none; encoded = [] }; request_channel = [] }

work-decode_request_example :
    (w' : World) × (decode_request (asks "GET") [] fresh ≡ ok tt w')
    × (work same_text
          (new_acceptor false false)
          (some handler)
          (from_stream 7 w'.request_channel)
          (open_connection 0 [] [])
        ≡ ok tt (open_connection 1 [] (on_stream 7 (frames_of greeting))))
    × EndsOnce (frames_of greeting)
unfolding new_acceptor refusal starts_with_slash handle do_method
work-decode_request_example =
    work-decode_request same_text (some handler) (new_acceptor false false) 7 (asks "GET") [] fresh
      0 1 [] refl refl refl refl

-- The state is the number of packets that still come, and whether the handler saw the end.
abbrev read_packet : Exec (ℕ × Bool) (Option ℕ)
read_packet (zero, b) = ok none (zero, b)
read_packet (suc n, b) = ok (some n) (n, b)

abbrev nothing : Exec (ℕ × Bool) (Unit {0})
nothing = pure tt

abbrev see_end : Exec (ℕ × Bool) (Unit {0})
see_end = modify (λ w. (w.0, true))

two_packets : ReadsAll read_packet 2 (2, false) (0, false)
two_packets = one_more refl (one_more refl (at_end refl))

sees_end :
    on_connection_handle nothing nothing nothing see_end read_packet
      (new_acceptor true false)
      true
      3
      (2, false)
    ≡ ok tt (0, true)
unfolding new_acceptor
sees_end =
    (on_connection_handle-reads nothing nothing nothing see_end read_packet
        (new_acceptor true false) 3 {e = io_error} refl refl refl (omega arith)).0
      two_packets
