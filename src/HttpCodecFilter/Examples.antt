-- ===== src/HttpCodecFilter/Examples.antt =====
-- The filter at a request that comes in two packets, with the beginning of the next.
use Prim.Native.Char.{code}
use Prim.Native.String.{String}
use cxx_conet.Prelude.{ℕ, ◌≡◌, refl, none, some, List, [], ◌∷◌, ◌++◌, arith, take, replicate, pos}
use cxx_conet.Prelude.Exec.{state_of}
use cxx_conet.HttpCodecFilter.{
  HttpRequest, waiting, complete, crlf, cut_at, body_length, cut, take_out, receive,
}
use cxx_conet.HttpCodecFilter.Stream.{
  Messages, no_more, next_one, Calls, calls_none, call_null, call_request, Calls-Messages,
  Messages-Calls, IsSmall, receive-IsSmall,
}
use cxx_conet.HttpCodecFilter.Sample.{searches}

abbrev codes : String → List ℕ
codes String.[] = []
codes (String.◌∷◌ c s) = code c ∷ codes s

-- a head of 27 bytes, a body of 3, and two bytes more
abbrev first_packet : List ℕ
first_packet = codes "P" ++ crlf ++ codes "Content-length: 3" ++ crlf ++ crlf ++ codes "a"

abbrev second_packet : List ℕ
second_packet = codes "bcG"

abbrev whole : List ℕ
whole = first_packet ++ second_packet

abbrev request : HttpRequest
request = record { http_data = take 27 whole; head_len = 24; body_len = pos 3 }

cut-whole : cut searches whole ≡ complete request (codes "G")
unfolding cut body_length cut_at
cut-whole = refl

cut-tail : cut searches (codes "G") ≡ waiting
unfolding cut
cut-tail = refl

whole-Messages : Messages searches whole (request ∷ []) (codes "G")
whole-Messages = next_one cut-whole (no_more cut-tail)

two-Calls :
    Calls searches none
      (some first_packet ∷ none ∷ some second_packet ∷ [])
      (request ∷ [])
      (some (codes "G"))
unfolding receive take_out cut body_length cut_at
two-Calls = call_null refl (call_null refl (call_request refl calls_none))

Calls-Messages_example :
    (later : List HttpRequest) × (request ∷ [] ≡ (request ∷ []) ++ later)
    × Messages searches (codes "G" ++ []) later (codes "G")
Calls-Messages_example = Calls-Messages searches [] two-Calls whole-Messages

Messages-Calls_example :
    Calls searches (some whole) (replicate 1 none) (request ∷ []) (some (codes "G"))
Messages-Calls_example = Messages-Calls searches whole-Messages

IsSmall-before : IsSmall searches (some first_packet)
unfolding IsSmall
IsSmall-before = omega arith

receive-IsSmall_example :
    IsSmall searches (state_of (receive searches (some second_packet) (some first_packet)))
receive-IsSmall_example =
    receive-IsSmall searches (some second_packet) (some first_packet) IsSmall-before
