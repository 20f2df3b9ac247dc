-- ===== src/HttpSession/Detect.antt =====
-- The protocol and the bytes that reach the codec do not depend on how the first bytes were cut.
use mathlib.Core.List.{append-nil, append_assoc}
use mathlib.Core.Path.{subst⁻¹}
use cxx_conet.Prelude.{
  ℕ, ◌≤◌, ◌<◌, ◌≡◌, refl, sym, ap, ◌∙◌, Bool-cases, ◌⊎◌, inl, inr, true, false, take, ◌==◌, Option,
  none, some, List, [], ◌∷◌, ◌++◌, arith, length, length-append, ltb, ◌&&◌,
}
use cxx_conet.Prelude.Exec.{Exec, Run, ok, throws, pure, ◌>>◌}
use cxx_conet.HttpSession.{
  HttpSession, magic_len, same_bytes, client_magic, new_http_session, to_codec, choose,
  begin_dispatch, if_enough, first_read, read, read_all,
}

abbrev pub joined : List (List ℕ) → List ℕ
joined [] = []
joined (p ∷ ps) = p ++ joined ps

abbrev pub pending_bytes : Option (List ℕ) → List ℕ
pending_bytes none = []
pending_bytes (some b) = b

same_bytes_refl : (bs : List ℕ) → same_bytes bs bs ≡ true
unfolding same_bytes
same_bytes_refl [] = refl
same_bytes_refl (b ∷ bs) =
    let here : (b == b) ≡ true = ground arith in rw (here, same_bytes_refl bs) refl

same_bytes_eq : (xs ys : List ℕ) → same_bytes xs ys ≡ true → xs ≡ ys
unfolding same_bytes
same_bytes_eq [] [] same = refl
same_bytes_eq [] (y ∷ ys) same = cc same
same_bytes_eq (x ∷ xs) [] same = cc same
same_bytes_eq (x ∷ xs) (y ∷ ys) same = elim (Bool-cases (x == y)) [
  | inl here ↦
      let rest : same_bytes xs ys ≡ true = ap (λ b. b && same_bytes xs ys) (sym here) ∙ same in
      let first : x ≡ y = ground arith in cc (first, same_bytes_eq xs ys rest)
  | inr other ↦
      let never : false ≡ true = ap (λ b. b && same_bytes xs ys) (sym other) ∙ same in cc never
]

module _ {K : Type 0} (http1 http2 : K) (dispatch : List ℕ → Exec K (Unit {0})) where
  -- a session that has not seen enough yet, and one that has its codec
  abbrev pub waiting_with : Option (List ℕ) → HttpSession K
  waiting_with b = record { is_first_request = true; first_request_buffer = b; codec = none }

  abbrev pub established : K → HttpSession K
  established k = record { is_first_request = false; first_request_buffer = none; codec = some k }

  -- the codec is given these pieces
  abbrev pub dispatch_all : List (List ℕ) → Exec K (Unit {0})
  dispatch_all [] = pure tt
  dispatch_all (p ∷ ps) = dispatch p >> dispatch_all ps

  read-short :
      (b : Option (List ℕ)) (p : List ℕ)
      → length (pending_bytes b ++ p) < magic_len
      → read http1 http2 dispatch (some p) (waiting_with b)
        ≡ ok tt (waiting_with (some (pending_bytes b ++ p)))
  unfolding read first_read if_enough
  read-short none p short = let few : ltb (length p) magic_len ≡ true = ground arith in rw few refl
  read-short (some b) p short =
      let few : ltb (length (b ++ p)) magic_len ≡ true = ground arith in rw few refl

  begin_dispatch-established :
      (b : Option (List ℕ)) (buf : List ℕ) (k : K)
      → dispatch buf (choose http1 http2 dispatch buf) ≡ ok tt k
      → begin_dispatch http1 http2 dispatch buf (waiting_with b) ≡ ok tt (established k)
  unfolding begin_dispatch to_codec
  begin_dispatch-established b buf k ran = rw (ran, to_codec, begin_dispatch) refl

  read-enough :
      (b : Option (List ℕ)) (p : List ℕ) (k : K)
      → magic_len ≤ length (pending_bytes b ++ p)
      → dispatch (pending_bytes b ++ p) (choose http1 http2 dispatch (pending_bytes b ++ p))
        ≡ ok tt k
      → read http1 http2 dispatch (some p) (waiting_with b) ≡ ok tt (established k)
  unfolding read first_read if_enough
  read-enough none p k enough ran =
      let many : ltb (length p) magic_len ≡ false = ground arith in
      rw many (begin_dispatch-established none p k ran)
  read-enough (some b) p k enough ran =
      let many : ltb (length (b ++ p)) magic_len ≡ false = ground arith in
      rw many (begin_dispatch-established (some (b ++ p)) (b ++ p) k ran)

  read-established :
      (p : List ℕ) (k k' : K)
      → dispatch p k ≡ ok tt k'
      → read http1 http2 dispatch (some p) (established k) ≡ ok tt (established k')
  unfolding read to_codec
  read-established p k k' ran = rw ran refl

  first-ok :
      (p : List ℕ) (ps : List (List ℕ)) (k k' : K)
      → dispatch_all (p ∷ ps) k ≡ ok tt k'
      → (m : K) × (dispatch p k ≡ ok tt m) × (dispatch_all ps m ≡ ok tt k')
  first-ok p ps k k' ran = of_run (dispatch p k) refl
    where
      of_run :
          (r : Run K (Unit {0}))
          → dispatch p k ≡ r
          → (m : K) × (dispatch p k ≡ ok tt m) × (dispatch_all ps m ≡ ok tt k')
      of_run (ok tt m) is =
          let all : dispatch_all (p ∷ ps) k ≡ dispatch_all ps m = rw is refl in
          (m, is, sym all ∙ ran)
      of_run (throws e m) is =
          let all : dispatch_all (p ∷ ps) k ≡ throws e m = rw is refl in cc (all, ran)

  read_all-established :
      (ps : List (List ℕ)) (k k' : K)
      → dispatch_all ps k ≡ ok tt k'
      → read_all http1 http2 dispatch ps (established k) ≡ ok tt (established k')
  unfolding read_all
  read_all-established [] k k' ran = ap (λ r. on_ok r) ran
    where
      on_ok : Run K (Unit {0}) → Run (HttpSession K) (Unit {0})
      on_ok (ok a k) = ok a (established k)
      on_ok (throws e k) = throws e (established k)
  read_all-established (p ∷ ps) k k' ran =
      let (m, one, rest) = first-ok p ps k k' ran in
      rw (read-established p k m one) (read_all-established ps m k' rest)

  read_all-short :
      (ps : List (List ℕ)) (b : Option (List ℕ)) (more : List (List ℕ))
      → length (pending_bytes b ++ joined ps) < magic_len
      → (c : Option (List ℕ)) × (pending_bytes c ≡ pending_bytes b ++ joined ps)
        × (read_all http1 http2 dispatch (ps ++ more) (waiting_with b)
            ≡ read_all http1 http2 dispatch more (waiting_with c))
  unfolding read_all
  read_all-short [] b more short = (b, sym (append-nil (pending_bytes b)), refl)
  read_all-short (p ∷ ps) b more short =
      let parts = append_assoc (pending_bytes b) p (joined ps) in
      let lengths = length-append {0} (pending_bytes b ++ p) (joined ps) in
      let total = ap length parts in
      let (c, is, rest) =
        read_all-short ps (some (pending_bytes b ++ p)) more (omega (arith, total)) in
      (c, is ∙ parts, rw (read-short b p (omega (arith, total, lengths))) rest)

  -- As long as fewer than 24 bytes have come, in whatever packets, no codec is made and none of them
  -- is dispatched: the session keeps them all.
  pub read_all-waiting :
      (ps : List (List ℕ))
      → length (joined ps) < magic_len
      → (c : Option (List ℕ)) × (read_all http1 http2 dispatch ps (new_http_session K)
          ≡ ok tt (waiting_with c))
        × (pending_bytes c ≡ joined ps)
  unfolding new_http_session read_all
  read_all-waiting ps short =
      let (c, is, ran) = read_all-short ps none [] short in
      (
        c,
        ap (λ l. read_all http1 http2 dispatch l (waiting_with none)) (sym (append-nil ps)) ∙ ran,
        is,
      )

  -- The codec of these bytes: that of HTTP/2 if they begin by its magic, else that of HTTP/1.
  abbrev pub Speaks : List ℕ → K → Type 0
  Speaks buf k =
      ((take magic_len buf ≡ client_magic) × (k ≡ http2))
      ⊎ (¬ (take magic_len buf ≡ client_magic) × (k ≡ http1))

  choose-Speaks : (buf : List ℕ) (k : K) → Speaks buf k → choose http1 http2 dispatch buf ≡ k
  unfolding choose
  choose-Speaks buf k (inl (magic, is)) =
      let same : same_bytes (take magic_len buf) client_magic ≡ true =
        ap (λ l. same_bytes l client_magic) magic ∙ same_bytes_refl client_magic in
      rw same (sym is)
  choose-Speaks buf k (inr (other, is)) =
      elim (Bool-cases (same_bytes (take magic_len buf) client_magic)) [
        | inl same ↦ absurd (other (same_bytes_eq (take magic_len buf) client_magic same))
        | inr differ ↦ rw differ (sym is)
      ]

  -- Once the packets `early` and `p` bring the 24th byte, the codec is that of HTTP/2 if the first 24
  -- bytes are its magic and that of HTTP/1 if they are not, all bytes so far are dispatched to it in one
  -- piece, and then each further packet; if the codec takes them all, the session reads them all.
  pub read_all-dispatch_all :
      (early : List (List ℕ)) (p : List ℕ) (later : List (List ℕ)) (start k : K)
      → length (joined early) < magic_len
      → magic_len ≤ length (joined early ++ p)
      → Speaks (joined early ++ p) start
      → dispatch_all ((joined early ++ p) ∷ later) start ≡ ok tt k
      → read_all http1 http2 dispatch (early ++ p ∷ later) (new_http_session K)
        ≡ ok tt (established k)
  unfolding new_http_session read_all
  read_all-dispatch_all early p later begun k short enough speaks taken =
      let is_begun = choose-Speaks (joined early ++ p) begun speaks in
      let ran = ap (dispatch_all ((joined early ++ p) ∷ later)) is_begun ∙ taken in
      let (c, is, start) = read_all-short early none (p ∷ later) short in
      let whole : pending_bytes c ++ p ≡ joined early ++ p = ap (λ l. l ++ p) is in
      let (m, one, rest) = first-ok (joined early ++ p) later _ k ran in
      let first = read-enough c p m (subst⁻¹ (λ (l : List ℕ). magic_len ≤ length l) whole enough) (
        subst⁻¹ (λ (l : List ℕ). dispatch l (choose http1 http2 dispatch l) ≡ ok tt m) whole one) in
      start ∙ rw first (read_all-established later m k rest)
