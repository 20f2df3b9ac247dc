-- ===== src/HttpCodecFilter.antt =====
-- The filter that cuts a stream of bytes into HTTP messages: filter/http/EHttpCodecFilter.cpp, with
-- filter/http/EHttpRequest.hh and EHttpResponse.hh.
pub mod Framing
pub mod Stream
mod Sample
mod Examples
use cxx_conet.Prelude.{
  ℕ, zero, suc, ◌+◌, ◌-◌, ◌≤◌, ◌^◌, ◌≡◌, Bool, true, false, Option, none, some, List, [], ◌∷◌, ◌++◌,
  length, take, drop, ltb, leb, ◌==◌, if◌then◌else◌, ℤ, pos, negsuc,
}
use cxx_conet.Prelude.Exec.{
  Error, Exec, Run, ok, throws, out_of_memory, other_error, undefined, throw, pure, gets, modify,
  ◌>>=◌, ◌>>◌,
}
use cxx_conet.Filter.{Filter, adapter}

-- What the filter calls of the Efc library. A search returns the index of the first occurrence of the
-- second text in the first; `parse_int` is EInteger::parseInt of the trimmed text, `none` where it throws.
pub record ByteStrings : Type 0 where
  pub strnstr : List ℕ → List ℕ → Option ℕ
  pub strncasestr : List ℕ → List ℕ → Option ℕ
  pub parse_int : List ℕ → Option ℤ
  pub strnstr-fits :
      (text part : List ℕ) (i : ℕ) → strnstr text part ≡ some i → i + length part ≤ length text
  pub strnstr-append :
      (text part more : List ℕ) (i : ℕ)
      → strnstr text part ≡ some i
      → strnstr (text ++ more) part ≡ some i
  pub strncasestr-fits :
      (text part : List ℕ) (i : ℕ) → strncasestr text part ≡ some i → i + length part ≤ length text

abbrev pub max_http_size : ℕ
max_http_size = 4096

abbrev pub crlf : List ℕ
crlf = 13 ∷ 10 ∷ []

abbrev pub blank_line : List ℕ
blank_line = 13 ∷ 10 ∷ 13 ∷ 10 ∷ []

-- "Content-Length:"
abbrev pub content_length : List ℕ
content_length =
    67 ∷ 111 ∷ 110 ∷ 116 ∷ 101 ∷ 110 ∷ 116 ∷ 45 ∷ 76 ∷ 101 ∷ 110 ∷ 103 ∷ 116 ∷ 104 ∷ 58 ∷ []

-- EHttpRequest: its bytes and the two lengths
pub record HttpRequest : Type 0 where
  pub http_data : List ℕ
  pub head_len : ℕ
  pub body_len : ℤ

-- EHttpResponse, less its two lengths
pub record HttpResponse : Type 0 where
  pub http_data : List ℕ

-- What the bytes in the cache hold: not yet a message, a message and the bytes behind it, or a head
-- that throws.
pub data Cut : Type 0 where
  waiting : Cut
  complete : HttpRequest → List ℕ → Cut
  broken : Error → Cut

-- The last part of messageReceived, once the lengths are known. With a negative body length the
-- message ends within its head; an end before the first byte is undefined.
unfoldable pub cut_at : List ℕ → ℕ → ℤ → Cut
cut_at cache hlen (pos blen) =
    let httplen = hlen + blen in
    if leb (2 ^ 31) httplen
    then broken undefined
    else if leb httplen (length cache)
    then complete (record { http_data = take httplen cache; head_len = hlen; body_len = pos blen })
        (drop httplen cache)
    else waiting
cut_at cache hlen (negsuc n) =
    let httplen = hlen - n - 1 in
    if leb hlen n
    then broken undefined
    else complete (record { http_data = take httplen cache; head_len = hlen; body_len = negsuc n })
        (drop httplen cache)

-- the text that a search without a length looks through: the bytes before the first NUL
unfoldable pub c_text : List ℕ → List ℕ
c_text [] = []
c_text (b ∷ bs) = if b == 0 then [] else b ∷ c_text bs

module _ (T : ByteStrings) where
  open T use {strnstr, strncasestr, parse_int}

  -- The number behind "Content-Length:", whose text begins at index `plen`. The search for the end of its
  -- line is one in a text that ends by NUL. A NUL that comes before it makes the result null and the
  -- length of the text that is made of it meaningless; a line that does not end within the cache is read
  -- on behind it: both are undefined.
  unfoldable pub body_length : List ℕ → ℕ → (ℤ → Cut) → Cut
  unfolding c_text
  body_length cache plen k = elim (strnstr (c_text (drop plen cache)) crlf) [
    | none ↦ broken undefined
    | some n ↦ elim (parse_int (take n (drop plen cache))) [
      | none ↦ broken other_error
      | some blen ↦ k blen
    ]
  ]

  -- the search for a message in the cache
  unfoldable pub cut : List ℕ → Cut
  cut cache = elim (strnstr cache blank_line) [
    | none ↦ waiting
    | some prnrn ↦ elim (strncasestr (take (prnrn + 4) cache) content_length) [
      | none ↦ cut_at cache (prnrn + 4) (pos 0)
      | some plen ↦ body_length cache (plen + 15) (cut_at cache (prnrn + 4))
    ]
  ]

  -- the rest of messageReceived after the bytes have been added
  unfoldable pub take_out : Exec (Option (List ℕ)) (Option HttpRequest)
  take_out none = ok none none
  take_out (some cache) = elim (cut cache) [
    | waiting ↦ ok none (some cache)
    | complete request rest ↦ ok (some request) (some rest)
    | broken e ↦ throws e (some cache)
  ]

  -- The filter's own part of messageReceived, on the cache that the session keeps as an attribute. A
  -- buffer is given as the limit() bytes from current() on.
  unfoldable pub receive : Option (List ℕ) → Exec (Option (List ℕ)) (Option HttpRequest)
  receive none none = ok none none
  receive none (some []) = ok none (some [])
  receive none (some (b ∷ bs)) = take_out (some (b ∷ bs))
  receive (some buf) none =
      if ltb max_http_size (length buf) then throws out_of_memory (some []) else take_out (some buf)
  receive (some buf) (some cache) =
      if ltb max_http_size (length cache + length buf)
      then throws out_of_memory (some cache)
      else take_out (some (cache ++ buf))

-- An EObject that passes the filter.
pub data Object : Type 0 where
  io_buffer : List ℕ → Object
  http_request : HttpRequest → Object
  http_response : HttpResponse → Object
  other : Object

abbrev pub buffer_of : Option Object → Option (List ℕ)
buffer_of none = none
buffer_of (some (io_buffer b)) = some b
buffer_of (some (http_request r)) = none
buffer_of (some (http_response r)) = none
buffer_of (some other) = none

abbrev pub request_object : Option HttpRequest → Option Object
request_object none = none
request_object (some r) = some (http_request r)

-- messageSend: a response becomes the buffer of its bytes, anything else goes on as it is
unfoldable pub encode : Option Object → Option Object
encode none = none
encode (some (io_buffer b)) = some (io_buffer b)
encode (some (http_request r)) = some (http_request r)
encode (some (http_response r)) = some (io_buffer r.http_data)
encode (some other) = some other

-- The filter over a world that shows the session's attribute.
module _ (T : ByteStrings) {W : Type 0} (cache : W → Option (List ℕ))
    (put_cache : Option (List ℕ) → W → W) where
  unfoldable pub message_received :
      (Option Object → Exec W (Option Object)) → Option Object → Exec W (Option Object)
  unfolding receive
  message_received next message w = elim (receive T (buffer_of message) (cache w)) [
    | ok out c ↦ next (request_object out) (put_cache c w)
    | throws e c ↦ throws e (put_cache c w)
  ]

  unfoldable pub message_send :
      (Option Object → Exec W (Option Object)) → Option Object → Exec W (Option Object)
  unfolding encode
  message_send next message = next (encode message)

  abbrev pub filter : Filter W Object
  filter = record adapter { message_received = message_received; message_send = message_send }
