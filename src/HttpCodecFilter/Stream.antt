-- ===== src/HttpCodecFilter/Stream.antt =====
-- The messages that come out of the filter do not depend on how the stream was cut into packets.
use mathlib.Core.List.{append-nil, append_assoc}
use mathlib.Core.Path.{subst}
use cxx_conet.Prelude.{
  ℕ, ◌+◌, ◌≤◌, ◌≡◌, refl, sym, ap, ◌∙◌, Bool-cases, Option-cases, inl, inr, Option, none, some,
  List, [], ◌∷◌, ◌++◌, arith, length, length-append, replicate, ltb,
}
use cxx_conet.Prelude.Exec.{Run, ok, throws, out_of_memory, state_of}
use cxx_conet.HttpCodecFilter.{
  ByteStrings, HttpRequest, Cut, waiting, complete, broken, blank_line, cut, take_out, receive,
  max_http_size,
}
use cxx_conet.HttpCodecFilter.Framing.{cut-append, cut-keeps, request_of, rest_of}

-- the bytes of a cache, and those that come with a call
abbrev pub bytes_of : Option (List ℕ) → List ℕ
bytes_of none = []
bytes_of (some b) = b

abbrev pub joined : List (Option (List ℕ)) → List ℕ
joined [] = []
joined (m ∷ ms) = bytes_of m ++ joined ms

module _ (T : ByteStrings) where
  -- all messages of a stream that is there as a whole, and the bytes behind the last
  pub data Messages : List ℕ → List HttpRequest → List ℕ → Type 0 where
    no_more : {b : List ℕ} → cut T b ≡ waiting → Messages b [] b
    next_one :
        {b rest end : List ℕ} {r : HttpRequest} {rs : List HttpRequest}
        → cut T b ≡ complete r rest
        → Messages rest rs end
        → Messages b (r ∷ rs) end

  -- Calls of messageReceived, each with a packet or with null, that return, and what they handed on.
  pub data Calls
      : Option (List ℕ) → List (Option (List ℕ)) → List HttpRequest → Option (List ℕ) → Type 0 where
    calls_none : {c : Option (List ℕ)} → Calls c [] [] c
    call_null :
        {c c' d m : Option (List ℕ)} {ms : List (Option (List ℕ))} {rs : List HttpRequest}
        → receive T m c ≡ ok none c'
        → Calls c' ms rs d
        → Calls c (m ∷ ms) rs d
    call_request :
        {c c' d m : Option (List ℕ)} {ms : List (Option (List ℕ))} {rs : List HttpRequest}
        {r : HttpRequest}
        → receive T m c ≡ ok (some r) c'
        → Calls c' ms rs d
        → Calls c (m ∷ ms) (r ∷ rs) d

  empty-waiting : cut T [] ≡ waiting
  unfolding cut
  empty-waiting = elim (Option-cases (T.strnstr [] blank_line)) [
    | inl out ↦ rw (out, cut) refl
    | inr (i, hit) ↦ absurd (omega (arith, T.strnstr-fits [] blank_line i hit))
  ]

  -- what a call that returned did to the cache
  abbrev After : List ℕ → Option HttpRequest → Option (List ℕ) → Type 0
  After b none c' = (bytes_of c' ≡ b) × (cut T b ≡ waiting)
  After b (some r) c' = cut T b ≡ complete r (bytes_of c')

  found_nothing :
      {c c' : Option (List ℕ)}
      → ◌≡◌ {A = Run (Option (List ℕ)) (Option HttpRequest)} (ok none c) (ok none c')
      → c ≡ c'
  found_nothing e = cc

  of_cut :
      (b : List ℕ) (x : Cut) (out : Option HttpRequest) (c' : Option (List ℕ))
      → cut T b ≡ x
      → take_out T (some b) ≡ ok out c'
      → After b out c'
  unfolding take_out
  of_cut b waiting none c' is e =
      let ran : take_out T (some b) ≡ ok none (some b) = rw (is, take_out) refl in
      (ap bytes_of (sym (found_nothing (sym ran ∙ e))), is)
  of_cut b waiting (some r) c' is e =
      let ran : take_out T (some b) ≡ ok none (some b) = rw (is, take_out) refl in cc (ran, e)
  of_cut b (complete q rest) none c' is e =
      let ran : take_out T (some b) ≡ ok (some q) (some rest) = rw (is, take_out) refl in
      cc (ran, e)
  of_cut b (complete q rest) (some r) c' is e =
      let ran : take_out T (some b) ≡ ok (some q) (some rest) = rw (is, take_out) refl in
      let same : ok (some q) (some rest) ≡ ok (some r) c' = sym ran ∙ e in
      let request : q ≡ r = cc same in
      let behind : some rest ≡ c' = cc same in
      is ∙ rw request (ap (λ l. complete r (bytes_of l)) behind)
  of_cut b (broken x) out c' is e =
      let ran : take_out T (some b) ≡ throws x (some b) = rw (is, take_out) refl in cc (ran, e)

  take_out-After :
      (b : List ℕ) (out : Option HttpRequest) (c' : Option (List ℕ))
      → take_out T (some b) ≡ ok out c'
      → After b out c'
  take_out-After b out c' = of_cut b (cut T b) out c' refl

  kept_empty :
      (c : Option (List ℕ)) (out : Option HttpRequest) (c' : Option (List ℕ))
      → bytes_of c ≡ []
      → ok none c ≡ ok out c'
      → After [] out c'
  kept_empty c none c' is e = (ap bytes_of (sym (found_nothing e)) ∙ is, empty-waiting)
  kept_empty c (some r) c' is e = cc

  receive-After :
      (m c : Option (List ℕ)) (out : Option HttpRequest) (c' : Option (List ℕ))
      → receive T m c ≡ ok out c'
      → After (bytes_of c ++ bytes_of m) out c'
  unfolding receive
  receive-After none none out c' e = kept_empty none out c' refl e
  receive-After none (some []) out c' e = kept_empty (some []) out c' refl e
  receive-After none (some (b ∷ bs)) out c' e =
      rw (append-nil (b ∷ bs)) (take_out-After (b ∷ bs) out c' e)
  receive-After (some buf) none out c' e = elim (Bool-cases (ltb max_http_size (length buf))) [
    | inl large ↦
        let ran : receive T (some buf) none ≡ throws out_of_memory (some []) =
          rw (large, receive) refl in
        cc (ran, e)
    | inr fits ↦
        let ran : receive T (some buf) none ≡ take_out T (some buf) = rw (fits, receive) refl in
        take_out-After buf out c' (sym ran ∙ e)
  ]
  receive-After (some buf) (some cache) out c' e =
      elim (Bool-cases (ltb max_http_size (length cache + length buf))) [
        | inl large ↦
            let ran : receive T (some buf) (some cache) ≡ throws out_of_memory (some cache) =
              rw (large, receive) refl in
            cc (ran, e)
        | inr fits ↦
            let ran : receive T (some buf) (some cache) ≡ take_out T (some (cache ++ buf)) =
              rw (fits, receive) refl in
            take_out-After (cache ++ buf) out c' (sym ran ∙ e)
      ]

  same_bytes :
      {b b' : List ℕ} {all : List HttpRequest} {end : List ℕ}
      → b ≡ b'
      → Messages b all end
      → Messages b' all end
  same_bytes {all = all} {end = end} is = subst (λ (l : List ℕ). Messages l all end) is

  -- the first message of a stream
  Messages-first :
      {b end : List ℕ} {all : List HttpRequest} (r : HttpRequest) (rest : List ℕ)
      → Messages b all end
      → cut T b ≡ complete r rest
      → (later : List HttpRequest) × (all ≡ r ∷ later) × Messages rest later end
  Messages-first r rest (no_more waits) is =
      let never : waiting ≡ complete r rest = sym waits ∙ is in cc never
  Messages-first r rest (next_one {end = end} {r = q} {rs = rs} at ms) is =
      let both = sym is ∙ at in
      (
        rs,
        ap (λ (x : HttpRequest). x ∷ rs) (request_of both),
        subst (λ (l : List ℕ). Messages l rs end) (rest_of both) ms,
      )

  -- For calls, with packets or with null, that all return, and a stream that these packets begin and
  -- whose messages all have heads that the filter takes: what the calls hand on, wherever the packets
  -- cut the stream, are the first messages of the whole stream, in order; the others are still to come
  -- from the cache that they leave and the bytes that follow.
  pub Calls-Messages :
      {c d : Option (List ℕ)} {ms : List (Option (List ℕ))} {rs all : List HttpRequest}
      {end : List ℕ} (more : List ℕ)
      → Calls c ms rs d
      → Messages (bytes_of c ++ (joined ms ++ more)) all end
      → (later : List HttpRequest) × (all ≡ rs ++ later) × Messages (bytes_of d ++ more) later end
  Calls-Messages more calls_none whole = (_, refl, whole)
  Calls-Messages more (call_null {c = c} {c' = c'} {m = m} {ms = ms} ran rest) whole =
      let after = receive-After m c none c' ran in
      let moved : bytes_of c ++ ((bytes_of m ++ joined ms) ++ more)
          ≡ bytes_of c' ++ (joined ms ++ more) =
        rw (after.0, append_assoc (bytes_of m) (joined ms) more)
          (sym (append_assoc (bytes_of c) (bytes_of m) (joined ms ++ more))) in
      Calls-Messages more rest (same_bytes moved whole)
  Calls-Messages more (call_request {c = c} {c' = c'} {m = m} {ms = ms} {r = r} ran rest) whole =
      let found = receive-After m c (some r) c' ran in
      let moved : bytes_of c ++ ((bytes_of m ++ joined ms) ++ more)
          ≡ (bytes_of c ++ bytes_of m) ++ (joined ms ++ more) =
        rw (append_assoc (bytes_of m) (joined ms) more)
          (sym (append_assoc (bytes_of c) (bytes_of m) (joined ms ++ more))) in
      let longer =
        cut-append T (bytes_of c ++ bytes_of m) (joined ms ++ more) r (bytes_of c') found in
      let (others, is, ms') =
        Messages-first r (bytes_of c' ++ (joined ms ++ more)) (same_bytes moved whole) longer in
      let (later, rest_is, behind) = Calls-Messages more rest ms' in
      (later, is ∙ ap (λ (l : List HttpRequest). r ∷ l) rest_is, behind)

  -- a call with null, on a cache that holds a message
  receive_null :
      (b rest : List ℕ) (r : HttpRequest)
      → cut T b ≡ complete r rest
      → receive T none (some b) ≡ ok (some r) (some rest)
  unfolding receive take_out
  receive_null [] rest r is =
      let never : waiting ≡ complete r rest = sym empty-waiting ∙ is in cc never
  receive_null (x ∷ b) rest r is = rw (is, take_out) refl

  -- Every message whose bytes are all in the cache is handed on by as many calls with null, and what is
  -- left are the bytes behind the last.
  pub Messages-Calls :
      {b end : List ℕ} {rs : List HttpRequest}
      → Messages b rs end
      → Calls (some b) (replicate (length rs) none) rs (some end)
  Messages-Calls (no_more waits) = calls_none
  Messages-Calls (next_one {b = b} {rest = rest} {r = r} at ms) =
      call_request (receive_null b rest r at) (Messages-Calls ms)

  unfoldable pub IsSmall : Option (List ℕ) → Type 0
  IsSmall c = length (bytes_of c) ≤ max_http_size

  take_out-IsSmall :
      (b : List ℕ) → length b ≤ max_http_size → IsSmall (state_of (take_out T (some b)))
  unfolding IsSmall take_out
  take_out-IsSmall b small = small_by (cut T b) refl
    where
      small_by : (x : Cut) → cut T b ≡ x → IsSmall (state_of (take_out T (some b)))
      small_by waiting is = rw (is, take_out) small
      small_by (complete r rest) is =
          let parts = ap length (cut-keeps T b r rest is) in
          rw (is, take_out) (omega (arith, parts, length-append {0} r.http_data rest))
      small_by (broken e) is = rw (is, take_out) small

  -- Whatever comes in, and whether the call returns or throws, the cache never holds more than 4096
  -- bytes afterwards if it did not before.
  pub receive-IsSmall : (m c : Option (List ℕ)) → IsSmall c → IsSmall (state_of (receive T m c))
  unfolding IsSmall receive
  receive-IsSmall none none small = small
  receive-IsSmall none (some []) small = small
  receive-IsSmall none (some (b ∷ bs)) small = take_out-IsSmall (b ∷ bs) small
  receive-IsSmall (some buf) none small = elim (Bool-cases (ltb max_http_size (length buf))) [
    | inl large ↦ rw (large, receive) (omega arith)
    | inr fits ↦ rw (fits, receive) (take_out-IsSmall buf (ground arith))
  ]
  receive-IsSmall (some buf) (some cache) small =
      elim (Bool-cases (ltb max_http_size (length cache + length buf))) [
        | inl large ↦ rw (large, receive) small
        | inr fits ↦
            rw (fits, receive)
              (take_out-IsSmall (cache ++ buf) (ground (arith, length-append {0} cache buf)))
      ]
