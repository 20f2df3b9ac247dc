-- ===== src/HttpSession/Examples.antt =====
-- The theorems on the protocol at concrete packets. A codec is what it has been given.
use cxx_conet.Prelude.{ℕ, ◌≡◌, refl, inl, List, [], ◌∷◌, ◌++◌, arith, take, drop}
use cxx_conet.Prelude.Exec.{Exec, ok}
use cxx_conet.HttpSession.{client_magic, new_http_session, read_all}
use cxx_conet.HttpSession.Detect.{established, read_all-dispatch_all}

abbrev Codec : Type 0
Codec = ℕ × List ℕ

abbrev http1 : Codec
http1 = (1, [])

abbrev http2 : Codec
http2 = (2, [])

abbrev dispatch : List ℕ → Exec Codec (Unit {0})
dispatch buf (v, seen) = ok tt (v, seen ++ buf)

-- the magic in two packets, with one byte more, and another packet
abbrev begin : List ℕ
begin = take 10 client_magic

abbrev middle : List ℕ
middle = drop 10 client_magic ++ 9 ∷ []

read_all-dispatch_all_example :
    read_all http1 http2 dispatch (begin ∷ middle ∷ (7 ∷ []) ∷ []) (new_http_session Codec)
    ≡ ok tt (established http1 http2 dispatch (2, client_magic ++ 9 ∷ 7 ∷ []))
read_all-dispatch_all_example =
    read_all-dispatch_all http1 http2 dispatch (begin ∷ []) middle ((7 ∷ []) ∷ []) http2
      (2, client_magic ++ 9 ∷ 7 ∷ []) (omega arith) (omega arith) (inl (refl, refl)) refl

-- a whole request of HTTP/1, "G /" with two line ends, which is kept
abbrev short_request : List ℕ
short_request = 71 ∷ 32 ∷ 47 ∷ 13 ∷ 10 ∷ 13 ∷ 10 ∷ []
