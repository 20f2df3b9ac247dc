-- ===== src/HttpStream/Decode.antt =====
-- What becomes of a request that a client sends, and what a response is sent as.
use mathlib.Core.List.{append-nil, append_assoc}
use cxx_conet.Prelude.{
  ℕ, ◌+◌, ◌*◌, ◌≤◌, ◌<◌, ◌≡◌, refl, sym, ap, ◌∙◌, Bool, Bool-cases, inl, inr, true, false, not,
  Option, none, some, List, [], ◌∷◌, ◌++◌, arith, length, length-append, ltb, if◌then◌else◌,
}
use cxx_conet.Prelude.Exec.{Exec, Run, ok, throws, undefined, other_error, pure, ◌>>◌, and_then}
use cxx_conet.HttpStream.{
  Headers, Request, Frame, headers, body, World, encode, write_request, starts_with_slash,
  too_large, not_found, accept_request, decode_headers, decode_data, decode_pieces, decode_request,
  Response, write, frames_of,
}

abbrev pub joined : List (List (List ℕ)) → List (List ℕ)
joined [] = []
joined (p ∷ ps) = p ++ joined ps

-- the answer to headers that are refused
unfoldable pub refusal : Headers → Option ℕ
unfolding starts_with_slash
refusal h =
    if ltb (60 * 1024) h.byte_size
    then some too_large
    else if not (starts_with_slash h.path)
    then some not_found
    else none

abbrev pub with_request : World → Request → World
with_request w r = record w { stream = record w.stream { request = some r } }

abbrev pub queued : World → Request → World
queued w r = record (with_request w r) { request_channel = w.request_channel ++ r ∷ [] }

abbrev pub request_with : Headers → List (List ℕ) → Request
request_with h b = record { header_map = h; body_data = b }

decode_pieces-queued :
    (h : Headers) (b : List (List ℕ)) (p : List (List ℕ)) (ps : List (List (List ℕ))) (w : World)
    → decode_pieces (p ∷ ps) (with_request w (request_with h b))
      ≡ ok tt (queued w (request_with h (b ++ joined (p ∷ ps))))
unfolding decode_pieces decode_data write_request
decode_pieces-queued h b p [] w =
    ap (λ l. ok tt (queued w (request_with h (b ++ l)))) (sym (append-nil p))
decode_pieces-queued h b p (q ∷ qs) w =
    decode_pieces-queued h (b ++ p) q qs w
    ∙ ap (λ l. ok tt (queued w (request_with h l))) (append_assoc b p (joined (q ∷ qs)))

pub accepted :
    (h : Headers) (e : Bool) (w : World)
    → refusal h ≡ none
    → decode_headers h e w ≡ accept_request h e w
unfolding decode_headers refusal
accepted h e w fine = elim (Bool-cases (ltb (60 * 1024) h.byte_size)) [
  | inl large ↦ let out : refusal h ≡ some too_large = rw (large, refusal) refl in cc (out, fine)
  | inr small ↦ elim (Bool-cases (starts_with_slash h.path)) [
    | inl slash ↦ rw (small, slash, decode_headers) refl
    | inr other ↦
        let out : refusal h ≡ some not_found = rw (small, other, refusal) refl in cc (out, fine)
  ]
]

abbrev pub answered : World → ℕ → World
answered w code = record w {
  stream = record w.stream { encoded = w.stream.encoded ++ headers code true ∷ [] };
}

refused :
    (h : Headers) (e : Bool) (w : World) (code : ℕ)
    → refusal h ≡ some code
    → decode_headers h e w ≡ ok tt (answered w code)
unfolding decode_headers refusal encode
refused h e w code is = elim (Bool-cases (ltb (60 * 1024) h.byte_size)) [
  | inl large ↦
      let out : refusal h ≡ some too_large = rw (large, refusal) refl in
      let same : too_large ≡ code = cc (out, is) in
      rw (large, decode_headers) (ap (λ (c : ℕ). ok tt (answered w c)) same)
  | inr small ↦ elim (Bool-cases (starts_with_slash h.path)) [
    | inl slash ↦ let out : refusal h ≡ none = rw (small, slash, refusal) refl in cc (out, is)
    | inr other ↦
        let out : refusal h ≡ some not_found = rw (small, other, refusal) refl in
        let same : not_found ≡ code = cc (out, is) in
        rw (small, other, decode_headers) (ap (λ (c : ℕ). ok tt (answered w c)) same)
  ]
]

-- A request whose headers are not refused is put in the channel once, when its last piece has come,
-- with its headers and all pieces of its body in order; nothing is answered yet.
pub decode_request-queued :
    (h : Headers) (ps : List (List (List ℕ))) (w : World)
    → refusal h ≡ none
    → decode_request h ps w ≡ ok tt (queued w (request_with h (joined ps)))
unfolding decode_request accept_request write_request
decode_request-queued h [] w fine = rw (accepted h true w fine) refl
decode_request-queued h (p ∷ ps) w fine =
    rw (accepted h false w fine) (decode_pieces-queued h [] p ps w)

decode_data-undefined :
    (p : List (List ℕ)) (e : Bool) (w : World)
    → w.stream.request ≡ none
    → decode_data p e w ≡ throws undefined w
unfolding decode_data
decode_data-undefined p e w empty =
    let without : Option Request → Run World (Unit {0}) =
      λ o. throws undefined (record w { stream = record w.stream { request = o } }) in
    rw (empty, decode_data) (ap without empty)

decode_pieces-undefined :
    (p : List (List ℕ)) (ps : List (List (List ℕ))) (w : World)
    → w.stream.request ≡ none
    → decode_pieces (p ∷ ps) w ≡ throws undefined w
unfolding decode_pieces
decode_pieces-undefined p [] w empty = decode_data-undefined p true w empty
decode_pieces-undefined p (q ∷ qs) w empty =
    let stopped = decode_data-undefined p false w empty in
    ap (λ r. and_then r (λ _. decode_pieces (q ∷ qs))) stopped

-- A refused request on a fresh stream is answered by headers alone and never reaches the channel. If
-- it has no body that is all; the first piece of a body runs into an assertion that fails.
pub decode_request-refused :
    (h : Headers) (w : World) (code : ℕ)
    → refusal h ≡ some code
    → w.stream.request ≡ none
    → (decode_request h [] w ≡ ok tt (answered w code))
      × ((p : List (List ℕ)) (ps : List (List (List ℕ)))
          → decode_request h (p ∷ ps) w ≡ throws undefined (answered w code))
unfolding decode_request
decode_request-refused h w code is empty = (
  refused h true w code is,
  λ p ps. rw (refused h false w code is) (decode_pieces-undefined p ps (answered w code) empty),
)

abbrev ends : Frame → Bool
ends (headers s e) = e
ends (body b e) = e

abbrev pub bytes_of_frames : List Frame → List ℕ
bytes_of_frames [] = []
bytes_of_frames (headers s e ∷ fs) = bytes_of_frames fs
bytes_of_frames (body b e ∷ fs) = b ++ bytes_of_frames fs

-- The stream is ended by the last frame and by no other.
abbrev pub EndsOnce : List Frame → Type 0
EndsOnce [] = ⊥
EndsOnce (f ∷ []) = ends f ≡ true
EndsOnce (f ∷ g ∷ fs) = (ends f ≡ false) × EndsOnce (g ∷ fs)

abbrev pub written : Response → List ℕ
written r = elim r.body_data [ none ↦ [] | some b ↦ b ]

-- handlers write these texts one after the other
unfoldable pub write_all : List (List ℕ) → Exec Response (Unit {0})
write_all [] = pure tt
write_all (b ∷ bs) = write b >> write_all bs

frames_of_body :
    (s : ℕ) (b : Option (List ℕ))
    → let r : Response = record { status = s; body_data = b } in
      (rest : List Frame) × (e : Bool) × (frames_of r ≡ headers s e ∷ rest)
      × EndsOnce (frames_of r)
      × (bytes_of_frames rest ≡ written r)
unfolding frames_of
frames_of_body s none = ([], true, refl, refl, refl)
frames_of_body s (some b) =
    (body b false ∷ body [] true ∷ [], false, refl, (refl, (refl, refl)), append-nil b)

-- A response is sent as headers with its status first and its body in the order it was written, and
-- exactly the last frame ends the stream.
pub frames_of-EndsOnce :
    (r : Response)
    → (rest : List Frame) × (e : Bool) × (frames_of r ≡ headers r.status e ∷ rest)
      × EndsOnce (frames_of r)
      × (bytes_of_frames rest ≡ written r)
frames_of-EndsOnce r = frames_of_body r.status r.body_data

abbrev pub flat : List (List ℕ) → List ℕ
flat [] = []
flat (b ∷ bs) = b ++ flat bs

write-fits :
    (b : List ℕ) (r : Response)
    → length (written r) + length b ≤ 256
    → write b r ≡ ok tt (record r { body_data = some (written r ++ b) })
unfolding write
write-fits b r fits =
    let few : ltb 256 (length (written r) + length b) ≡ false = ground arith in rw (few, write) refl

write-full :
    (b : List ℕ) (r : Response)
    → 256 < length (written r) + length b
    → write b r ≡ throws other_error (record r { body_data = some (written r) })
unfolding write
write-full b r over =
    let many : ltb 256 (length (written r) + length b) ≡ true = ground arith in
    rw (many, write) refl

-- Writing a body in pieces keeps them in order and returns when they have 256 bytes together at most;
-- with more the write that passes 256 throws.
pub write_all-written :
    (bs : List (List ℕ)) (r : Response)
    → length (written r) ≤ 256
    → (length (written r) + length (flat bs) ≤ 256
        → (r' : Response) × (write_all bs r ≡ ok tt r')
          × (written r' ≡ written r ++ flat bs)
          × (r'.status ≡ r.status))
      × (256 < length (written r) + length (flat bs)
          → (r' : Response) × (write_all bs r ≡ throws other_error r') × (r'.status ≡ r.status))
unfolding write_all
write_all-written [] r small =
    (λ fits. (r, refl, sym (append-nil (written r)), refl), λ over. absurd (omega arith))
write_all-written (b ∷ bs) r small =
    let total = length-append {0} b (flat bs) in
    let r1 : Response = record r { body_data = some (written r ++ b) } in
    let grown = length-append {0} (written r) b in
    (
      λ fits.
          let ran = write-fits b r (omega (arith, total)) in
          let (r', all, is, same) =
            (write_all-written bs r1 (omega (arith, total, grown))).0
              (omega (arith, total, grown)) in
          (r', rw ran all, is ∙ append_assoc (written r) b (flat bs), same),
      λ over. elim (Bool-cases (ltb 256 (length (written r) + length b))) [
        | inl many ↦ (
          record r { body_data = some (written r) },
          rw (write-full b r (ground arith)) refl,
          refl,
        )
        | inr few ↦
            let ran = write-fits b r (ground arith) in
            let (r', all, same) =
              (write_all-written bs r1 (ground (arith, grown))).1 (omega (arith, total, grown)) in
            (r', rw ran all, same)
      ],
    )
