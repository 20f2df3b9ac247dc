-- ===== src/HttpSession.antt =====
-- How an HTTP session finds out which protocol its client speaks: EHttpSession::read of
-- src/EHttpSession.cpp. The two codecs are a parameter.
pub mod Detect
pub mod Streams
mod Examples
use cxx_conet.Prelude.{
  ℕ, Bool, true, false, ◌&&◌, Option, none, some, List, [], ◌∷◌, ◌++◌, ◌==◌, length, take, ltb,
  if◌then◌else◌,
}
use cxx_conet.Prelude.Exec.{Exec, Run, ok, throws, undefined, throw, pure, modify, ◌>>=◌, ◌>>◌}

-- NGHTTP2_CLIENT_MAGIC: "PRI * HTTP/2.0", two line ends, "SM", two line ends
abbrev pub client_magic : List ℕ
client_magic =
    80 ∷ 82 ∷ 73 ∷ 32 ∷ 42 ∷ 32 ∷ 72 ∷ 84 ∷ 84 ∷ 80 ∷ 47 ∷ 50 ∷ 46 ∷ 48 ∷ 13 ∷ 10 ∷ 13 ∷ 10 ∷ 83
    ∷ 77 ∷ 13 ∷ 10 ∷ 13 ∷ 10 ∷ []

abbrev pub magic_len : ℕ
magic_len = 24

-- memcmp gives 0
unfoldable pub same_bytes : List ℕ → List ℕ → Bool
same_bytes [] [] = true
same_bytes [] (b ∷ bs) = false
same_bytes (a ∷ as') [] = false
same_bytes (a ∷ as') (b ∷ bs) = (a == b) && same_bytes as' bs

pub record HttpSession (K : Type 0) : Type 0 where
  pub is_first_request : Bool
  pub first_request_buffer : Option (List ℕ)
  pub codec : Option K

unfoldable pub new_http_session : (K : Type 0) → HttpSession K
new_http_session K = record { is_first_request = true; first_request_buffer = none; codec = none }

-- `http1` and `http2` are codecs that have just been made, `dispatch` hands one the next bytes.
module _ {K : Type 0} (http1 http2 : K) (dispatch : List ℕ → Exec K (Unit {0})) where
  -- codec_->dispatch(buf)
  unfoldable pub to_codec : List ℕ → Exec (HttpSession K) (Unit {0})
  to_codec buf s = elim s.codec [
    | none ↦ throws undefined s
    | some k ↦ elim (dispatch buf k) [
      | ok a k' ↦ ok a (record s { codec = some k' })
      | throws e k' ↦ throws e (record s { codec = some k' })
    ]
  ]

  unfoldable pub choose : List ℕ → K
  unfolding same_bytes
  choose buf = if same_bytes (take magic_len buf) client_magic then http2 else http1

  -- the block that is entered once enough bytes are there
  unfoldable pub begin_dispatch : List ℕ → Exec (HttpSession K) (Unit {0})
  unfolding to_codec
  begin_dispatch buf = do
    modify (λ s. record s { codec = some (choose buf) })
    to_codec buf
    modify (λ s. record s { is_first_request = false; first_request_buffer = none })

  unfoldable pub if_enough : List ℕ → Exec (HttpSession K) (Unit {0})
  unfolding begin_dispatch
  if_enough buf = if ltb (length buf) magic_len then pure tt else begin_dispatch buf

  -- a buffer of the first request; `pending` is what came before
  unfoldable pub first_read : Option (List ℕ) → List ℕ → Exec (HttpSession K) (Unit {0})
  unfolding if_enough
  first_read none bytes =
      if ltb (length bytes) magic_len
      then modify (λ s. record s { first_request_buffer = some bytes }) >> if_enough bytes
      else if_enough bytes
  first_read (some pending) bytes =
      modify (λ s. record s { first_request_buffer = some (pending ++ bytes) })
      >> if_enough (pending ++ bytes)

  -- read() with what ESocketSession::read returned, the remaining bytes of a buffer or null
  unfoldable pub read : Option (List ℕ) → Exec (HttpSession K) (Unit {0})
  unfolding first_read to_codec
  read none s = ok tt s
  read (some bytes) s =
      if s.is_first_request then first_read s.first_request_buffer bytes s else to_codec bytes s

  -- the loop of EHttpAcceptor::onConnectionHandle
  unfoldable pub read_all : List (List ℕ) → Exec (HttpSession K) (Unit {0})
  unfolding read
  read_all [] = pure tt
  read_all (p ∷ ps) = do read (some p); read_all ps
