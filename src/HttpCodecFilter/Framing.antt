-- ===== src/HttpCodecFilter/Framing.antt =====
-- The search for one message: it loses no byte, and later bytes do not change what it found.
use cxx_conet.Prelude.{
  ℕ, ◌+◌, ◌-◌, ◌≤◌, ◌<◌, ◌^◌, ◌≡◌, refl, sym, ap, ◌∙◌, Bool-cases, Option-cases, inl, inr, true,
  false, some, List, [], ◌∷◌, ◌++◌, ◌==◌, arith, length, length-append, length-take, take, drop,
  take-append, drop-append, take-drop, leb, ℤ, pos, negsuc,
}
use cxx_conet.Prelude.Exec.{undefined, other_error}
use cxx_conet.HttpCodecFilter.{
  ByteStrings, HttpRequest, Cut, waiting, complete, broken, blank_line, content_length, crlf,
  c_text, cut_at, body_length, cut,
}

-- where a message ends, by the lengths of its head and of its body
abbrev pub EndsAt : ℕ → ℤ → ℕ → Type 0
EndsAt hlen (pos blen) n = (n ≡ hlen + blen) × (n < 2 ^ 31)
EndsAt hlen (negsuc k) n = (n ≡ hlen - k - 1) × (k < hlen)

abbrev pub message : List ℕ → ℕ → ℤ → ℕ → HttpRequest
message cache hlen blen n = record { http_data = take n cache; head_len = hlen; body_len = blen }

-- a message of `cache` with its lengths, and the bytes behind it
pub record Cutting (cache : List ℕ) (hlen : ℕ) (blen : ℤ) (r : HttpRequest) (rest : List ℕ)
    : Type 0 where
  pub end : ℕ
  pub ends : EndsAt hlen blen end
  pub inside : end ≤ length cache
  pub request : r ≡ message cache hlen blen end
  pub behind : rest ≡ drop end cache

pub request_of : {r q : HttpRequest} {a b : List ℕ} → complete r a ≡ complete q b → q ≡ r
request_of h = cc

pub rest_of : {r q : HttpRequest} {a b : List ℕ} → complete r a ≡ complete q b → b ≡ a
rest_of h = cc

cut_at-Cutting :
    (cache : List ℕ) (hlen : ℕ) (blen : ℤ) (r : HttpRequest) (rest : List ℕ)
    → hlen ≤ length cache
    → cut_at cache hlen blen ≡ complete r rest
    → Cutting cache hlen blen r rest
unfolding cut_at
cut_at-Cutting cache hlen (pos b) r rest in_head e = elim (Bool-cases (leb (2 ^ 31) (hlen + b))) [
  | inl big ↦ let out : cut_at cache hlen (pos b) ≡ broken undefined = rw big refl in cc (out, e)
  | inr small ↦ elim (Bool-cases (leb (hlen + b) (length cache))) [
    | inl fits ↦
        let found : cut_at cache hlen (pos b)
            ≡ complete (message cache hlen (pos b) (hlen + b)) (drop (hlen + b) cache) =
          rw (small, fits) refl in
        record {
          end = hlen + b;
          ends = (refl, ground arith);
          inside = ground arith;
          request = request_of (sym found ∙ e);
          behind = rest_of (sym found ∙ e);
        }
    | inr short ↦
        let out : cut_at cache hlen (pos b) ≡ waiting = rw (small, short) refl in cc (out, e)
  ]
]
cut_at-Cutting cache hlen (negsuc k) r rest in_head e = elim (Bool-cases (leb hlen k)) [
  | inl far ↦ let out : cut_at cache hlen (negsuc k) ≡ broken undefined = rw far refl in cc (out, e)
  | inr near ↦
      let found : cut_at cache hlen (negsuc k)
          ≡ complete (message cache hlen (negsuc k) (hlen - k - 1)) (drop (hlen - k - 1) cache) =
        rw near refl in
      record {
        end = hlen - k - 1;
        ends = (refl, ground arith);
        inside = omega arith;
        request = request_of (sym found ∙ e);
        behind = rest_of (sym found ∙ e);
      }
]

cut_at-complete :
    (cache : List ℕ) (hlen : ℕ) (blen : ℤ) (n : ℕ)
    → EndsAt hlen blen n
    → n ≤ length cache
    → cut_at cache hlen blen ≡ complete (message cache hlen blen n) (drop n cache)
unfolding cut_at
cut_at-complete cache hlen (pos b) n (at, small) inside =
    let no_overflow : leb (2 ^ 31) (hlen + b) ≡ false = ground arith in
    let fits : leb (hlen + b) (length cache) ≡ true = ground arith in
    rw (at, no_overflow, fits) refl
cut_at-complete cache hlen (negsuc k) n (at, near) inside =
    let far : leb hlen k ≡ false = ground arith in rw (at, far) refl

Cutting-append :
    (cache more : List ℕ) (hlen : ℕ) (blen : ℤ) (r : HttpRequest) (rest : List ℕ)
    → Cutting cache hlen blen r rest
    → cut_at (cache ++ more) hlen blen ≡ complete r (rest ++ more)
Cutting-append cache more hlen blen r rest c =
    cut_at-complete (cache ++ more) hlen blen c.end c.ends
      (omega (arith, c.inside, length-append {0} cache more))
    ∙ rw
        (
          take-append c.end cache more c.inside,
          drop-append c.end cache more c.inside,
          c.request,
          c.behind,
        )
        refl

-- more bytes behind add at most to the end of the text before the first NUL
c_text-append : (bs more : List ℕ) → (m : List ℕ) × (c_text (bs ++ more) ≡ c_text bs ++ m)
unfolding c_text
c_text-append [] more = (c_text more, refl)
c_text-append (b ∷ bs) more =
    let (m, is) = c_text-append bs more in
    elim (Bool-cases (b == 0)) [
      | inl nul ↦ ([], rw nul refl)
      | inr other ↦ (m, rw other (ap (λ l. b ∷ l) is))
    ]

length-c_text : (bs : List ℕ) → length (c_text bs) ≤ length bs
unfolding c_text
length-c_text [] = omega arith
length-c_text (b ∷ bs) =
    let rest = length-c_text bs in
    elim (Bool-cases (b == 0)) [
      | inl nul ↦ rw nul (omega arith)
      | inr other ↦ rw other (omega (arith, rest))
    ]

module _ (T : ByteStrings) where
  open T use {strnstr, strncasestr, parse_int}

  -- the number of a body that was found is found again with more bytes behind
  body_length-found :
      (cache : List ℕ) (plen : ℕ) (k : ℤ → Cut) (r : HttpRequest) (rest : List ℕ)
      → plen ≤ length cache
      → body_length T cache plen k ≡ complete r rest
      → (b : ℤ) × (k b ≡ complete r rest)
        × ((more : List ℕ) (k' : ℤ → Cut) → body_length T (cache ++ more) plen k' ≡ k' b)
  unfolding body_length
  body_length-found cache plen k r rest inside e =
      elim (Option-cases (strnstr (c_text (drop plen cache)) crlf)) [
        | inl out ↦
            let missed : body_length T cache plen k ≡ broken undefined =
              rw (out, body_length) refl in
            cc (missed, e)
        | inr (n, hit) ↦
            let fits = T.strnstr-fits (c_text (drop plen cache)) crlf n hit in
            let shorter = length-c_text (drop plen cache) in
            elim (Option-cases (parse_int (take n (drop plen cache)))) [
              | inl out ↦
                  let missed : body_length T cache plen k ≡ broken other_error =
                    rw (hit, out, body_length) refl in
                  cc (missed, e)
              | inr (b, number) ↦
                  let found : body_length T cache plen k ≡ k b =
                    rw (hit, number, body_length) refl in
                  (
                    b,
                    sym found ∙ e,
                    λ more k'.
                        let behind = drop-append plen cache more inside in
                        let (m, text) = c_text-append (drop plen cache) more in
                        let again : strnstr (c_text (drop plen (cache ++ more))) crlf ≡ some n =
                          ap (λ l. strnstr l crlf) (ap c_text behind ∙ text)
                          ∙ T.strnstr-append (c_text (drop plen cache)) crlf m n hit in
                        let line : take n (drop plen (cache ++ more)) ≡ take n (drop plen cache) =
                          ap (take n) behind
                          ∙ take-append n (drop plen cache) more (omega (arith, fits, shorter)) in
                        rw (again, line, number, body_length) refl,
                  )
            ]
      ]

  -- What a cut that found a message says of the cache, and of every longer one.
  pub record Parsed (cache : List ℕ) (r : HttpRequest) (rest : List ℕ) : Type 0 where
    pub hlen : ℕ
    pub blen : ℤ
    pub cutting : Cutting cache hlen blen r rest
    pub again : (more : List ℕ) → cut T (cache ++ more) ≡ cut_at (cache ++ more) hlen blen

  cut-Parsed :
      (cache : List ℕ) (r : HttpRequest) (rest : List ℕ)
      → cut T cache ≡ complete r rest
      → Parsed cache r rest
  unfolding cut
  cut-Parsed cache r rest e = elim (Option-cases (strnstr cache blank_line)) [
    | inl out ↦ let missed : cut T cache ≡ waiting = rw (out, cut) refl in cc (missed, e)
    | inr (p, hit) ↦
        let fits = T.strnstr-fits cache blank_line p hit in
        let same = λ (more : List ℕ). T.strnstr-append cache blank_line more p hit in
        let head = λ (more : List ℕ). take-append (p + 4) cache more (omega (arith, fits)) in
        elim (Option-cases (strncasestr (take (p + 4) cache) content_length)) [
          | inl no_body ↦
              let found : cut T cache ≡ cut_at cache (p + 4) (pos 0) =
                rw (hit, no_body, cut) refl in
              record {
                hlen = p + 4;
                blen = pos 0;
                cutting =
                    cut_at-Cutting cache (p + 4) (pos 0) r rest (omega (arith, fits))
                      (sym found ∙ e);
                again = λ more. rw (same more, head more, no_body, cut) refl;
              }
          | inr (q, at) ↦
              let below = T.strncasestr-fits (take (p + 4) cache) content_length q at in
              let found : cut T cache ≡ body_length T cache (q + 15) (cut_at cache (p + 4)) =
                rw (hit, at, cut) refl in
              let in_cache : q + 15 ≤ length cache =
                omega (arith, below, length-take {0} (p + 4) cache) in
              let (b, that, more_too) =
                body_length-found cache (q + 15) (cut_at cache (p + 4)) r rest in_cache
                  (sym found ∙ e) in
              record {
                hlen = p + 4;
                blen = b;
                cutting = cut_at-Cutting cache (p + 4) b r rest (omega (arith, fits)) that;
                again = λ more.
                    rw (same more, head more, at, cut) refl
                    ∙ more_too more (cut_at (cache ++ more) (p + 4));
              }
        ]
  ]

  -- A message that was found is found again, the same, when more bytes stand behind it; they join the
  -- rest.
  pub cut-append :
      (cache more : List ℕ) (r : HttpRequest) (rest : List ℕ)
      → cut T cache ≡ complete r rest
      → cut T (cache ++ more) ≡ complete r (rest ++ more)
  cut-append cache more r rest e =
      let p = cut-Parsed cache r rest e in
      p.again more ∙ Cutting-append cache more p.hlen p.blen r rest p.cutting

  -- A message and the bytes behind it make up the cache.
  pub cut-keeps :
      (cache : List ℕ) (r : HttpRequest) (rest : List ℕ)
      → cut T cache ≡ complete r rest
      → r.http_data ++ rest ≡ cache
  cut-keeps cache r rest e =
      let c = (cut-Parsed cache r rest e).cutting in
      rw (c.request, c.behind) (take-drop c.end cache)
