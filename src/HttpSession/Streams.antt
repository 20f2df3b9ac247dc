-- ===== src/HttpSession/Streams.antt =====
-- The streams of a session: newStream and onGoAway of src/EHttpSession.cpp.
use cxx_conet.Prelude.{
  ℕ, zero, suc, ◌+◌, ◌≡◌, refl, none, List, [], ◌∷◌, ◌++◌, length, length-append, arith,
}
use cxx_conet.Prelude.Exec.{Exec, ok, pure, ◌>>◌}
use cxx_conet.HttpStream.{ActiveStream}

-- streams_; a stream is known by its place in the list
pub record SessionStreams : Type 0 where
  pub streams : List ActiveStream

unfoldable pub new_stream : Exec SessionStreams ℕ
new_stream s =
    ok (length s.streams)
      (record s { streams = s.streams ++ record { request = none; encoded = [] } ∷ [] })

unfoldable pub on_go_away : Exec SessionStreams (Unit {0})
on_go_away = pure tt

-- as many requests, one after the other
abbrev pub new_streams : ℕ → Exec SessionStreams (Unit {0})
new_streams zero = pure tt
new_streams (suc n) = new_stream >> new_streams n

-- A session has a stream for each request that it ever got: none of them goes.
pub new_streams-length :
    (n : ℕ) (s : SessionStreams)
    → (s' : SessionStreams) × (new_streams n s ≡ ok tt s')
      × (length s'.streams ≡ length s.streams + n)
unfolding new_stream
new_streams-length zero s = (s, refl, omega arith)
new_streams-length (suc n) s =
    let fresh : ActiveStream = record { request = none; encoded = [] } in
    let (s', ran, long) = new_streams-length n (record s { streams = s.streams ++ fresh ∷ [] }) in
    (s', ran, omega (arith, long, length-append {0} s.streams (fresh ∷ [])))
