-- ===== src/Acceptor/Ending.antt =====
-- When the loops of a service end.
use cxx_conet.Prelude.{
  ℕ, ◌≡◌, refl, sym, ap, ◌∙◌, Bool-cases, inl, inr, true, false, ◌||◌, ◌⊎◌, Option, none, some,
  List, [], ◌∷◌, ◌++◌,
}
use cxx_conet.Acceptor.{Acceptor, accepts, is_disposed, at_limit, on_accepted, keeps_running}
use cxx_conet.Acceptor.Loops.{
  Accepted, socket, no_socket, interrupted, timed_out, failed, Wait, Loop, waiting, ended,
  after_accept, accept_loop, Sleep, clean_round, clean_loop, is_over,
}

accepts-on_accepted : (a : Acceptor) → accepts ((on_accepted a).1) ≡ accepts a
unfolding on_accepted accepts
accepts-on_accepted a = elim (Bool-cases (is_disposed a || at_limit a.max_conns a.connections)) [
  | inl out ↦ rw (out, on_accepted) refl
  | inr on ↦ rw (on, on_accepted) refl
]

accept_loop-stopped :
    (ws : List Wait) (a : Acceptor) → accepts a ≡ false → accept_loop ws a ≡ ended a
unfolding accept_loop
accept_loop-stopped [] a stop = rw (stop, accept_loop) refl
accept_loop-stopped (w ∷ ws) a stop = rw (stop, accept_loop) refl

-- what a loop came to
Loop-cases : (l : Loop) → ((b : Acceptor) × (l ≡ waiting b)) ⊎ ((b : Acceptor) × (l ≡ ended b))
Loop-cases (waiting b) = inl (b, refl)
Loop-cases (ended b) = inr (b, refl)

after_accept-stopped :
    (o : Accepted) (a b : Acceptor)
    → accepts a ≡ false
    → after_accept o a ≡ waiting b
    → accepts b ≡ false
unfolding after_accept
after_accept-stopped socket a b stop is =
    let same : (on_accepted a).1 ≡ b = cc is in sym (ap accepts same) ∙ accepts-on_accepted a ∙ stop
after_accept-stopped no_socket a b stop is =
    let same : a ≡ b = cc is in sym (ap accepts same) ∙ stop
after_accept-stopped timed_out a b stop is =
    let same : a ≡ b = cc is in sym (ap accepts same) ∙ stop
after_accept-stopped interrupted a b stop is = cc is
after_accept-stopped failed a b stop is = cc is

accept_loop-next :
    (w : Wait) (ws : List Wait) (a b : Acceptor)
    → accepts a ≡ true
    → after_accept w.outcome (w.meanwhile a) ≡ waiting b
    → accept_loop (w ∷ ws) a ≡ accept_loop ws b
unfolding accept_loop
accept_loop-next w ws a b go is = rw (go, is, accept_loop) refl

accept_loop-leaves :
    (w : Wait) (ws : List Wait) (a b : Acceptor)
    → accepts a ≡ true
    → after_accept w.outcome (w.meanwhile a) ≡ ended b
    → accept_loop (w ∷ ws) a ≡ ended b
unfolding accept_loop
accept_loop-leaves w ws a b go is = rw (go, is, accept_loop) refl

-- Once the service is no longer running, whoever stops it and whenever, the accept loop ends as soon
-- as the call of accept that waits meanwhile comes back, however it does; what would come later plays
-- no part.
pub accept_loop-ended :
    (before after : List Wait) (w : Wait) (a : Acceptor)
    → ((b : Acceptor) → accepts (w.meanwhile b) ≡ false)
    → (a' : Acceptor) × (accept_loop (before ++ w ∷ after) a ≡ ended a')
      × (accept_loop (before ++ w ∷ []) a ≡ ended a')
accept_loop-ended [] after w a stops = elim (Bool-cases (accepts a)) [
  | inr stop ↦ (a, accept_loop-stopped (w ∷ after) a stop, accept_loop-stopped (w ∷ []) a stop)
  | inl go ↦ elim (Loop-cases (after_accept w.outcome (w.meanwhile a))) [
    | inl (b, is) ↦
        let stop = after_accept-stopped w.outcome (w.meanwhile a) b (stops a) is in
        (
          b,
          accept_loop-next w after a b go is ∙ accept_loop-stopped after b stop,
          accept_loop-next w [] a b go is ∙ accept_loop-stopped [] b stop,
        )
    | inr (b, is) ↦ (b, accept_loop-leaves w after a b go is, accept_loop-leaves w [] a b go is)
  ]
]
accept_loop-ended (v ∷ before) after w a stops = elim (Bool-cases (accepts a)) [
  | inr stop ↦ (
    a,
    accept_loop-stopped (v ∷ before ++ w ∷ after) a stop,
    accept_loop-stopped (v ∷ before ++ w ∷ []) a stop,
  )
  | inl go ↦ elim (Loop-cases (after_accept v.outcome (v.meanwhile a))) [
    | inl (b, is) ↦
        let (a', long, short) = accept_loop-ended before after w b stops in
        (
          a',
          accept_loop-next v (before ++ w ∷ after) a b go is ∙ long,
          accept_loop-next v (before ++ w ∷ []) a b go is ∙ short,
        )
    | inr (b, is) ↦ (
      b,
      accept_loop-leaves v (before ++ w ∷ after) a b go is,
      accept_loop-leaves v (before ++ w ∷ []) a b go is,
    )
  ]
]

clean_loop-stopped :
    (ss : List Sleep) (a : Acceptor) → keeps_running a ≡ false → clean_loop ss a ≡ some (ended a)
unfolding clean_loop
clean_loop-stopped [] a stop = rw (stop, clean_loop) refl
clean_loop-stopped (s ∷ ss) a stop = rw (stop, clean_loop) refl

clean_loop-undefined :
    (s : Sleep) (ss : List Sleep) (a : Acceptor)
    → keeps_running a ≡ true
    → clean_round a s.now s.sessions ≡ none
    → clean_loop (s ∷ ss) a ≡ none
unfolding clean_loop
clean_loop-undefined s ss a go is = rw (go, is, clean_loop) refl

clean_loop-over :
    (s : Sleep) (ss : List Sleep) (a : Acceptor) {out : List ℕ}
    → keeps_running a ≡ true
    → clean_round a s.now s.sessions ≡ some out
    → is_over (s.meanwhile a) ≡ true
    → clean_loop (s ∷ ss) a ≡ some (ended (s.meanwhile a))
unfolding clean_loop
clean_loop-over s ss a go is over = rw (go, is, over, clean_loop) refl

clean_loop-next :
    (s : Sleep) (ss : List Sleep) (a : Acceptor) {out : List ℕ}
    → keeps_running a ≡ true
    → clean_round a s.now s.sessions ≡ some out
    → is_over (s.meanwhile a) ≡ false
    → clean_loop (s ∷ ss) a ≡ clean_loop ss (s.meanwhile a)
unfolding clean_loop
clean_loop-next s ss a go is over = rw (go, is, over, clean_loop) refl

round-cases : (r : Option (List ℕ)) → (r ≡ none) ⊎ ((out : List ℕ) × (r ≡ some out))
round-cases none = inl refl
round-cases (some out) = inr (out, refl)

-- Once the service is disposed of, the clean fiber ends with the round in which it sleeps, or before,
-- however many sessions are connected, unless an idle time makes its arithmetic undefined.
pub clean_loop-ended :
    (before after : List Sleep) (s : Sleep) (a : Acceptor)
    → ((b : Acceptor) → is_over (s.meanwhile b) ≡ true)
    → (clean_loop (before ++ s ∷ after) a ≡ none)
      ⊎ ((a' : Acceptor) × (clean_loop (before ++ s ∷ after) a ≡ some (ended a')))
clean_loop-ended [] after s a over = elim (Bool-cases (keeps_running a)) [
  | inr stop ↦ inr (a, clean_loop-stopped (s ∷ after) a stop)
  | inl go ↦ elim (round-cases (clean_round a s.now s.sessions)) [
    | inl is ↦ inl (clean_loop-undefined s after a go is)
    | inr (out, is) ↦ inr (s.meanwhile a, clean_loop-over s after a go is (over a))
  ]
]
clean_loop-ended (t ∷ before) after s a over =
    let more = before ++ s ∷ after in
    elim (Bool-cases (keeps_running a)) [
      | inr stop ↦ inr (a, clean_loop-stopped (t ∷ more) a stop)
      | inl go ↦ elim (round-cases (clean_round a t.now t.sessions)) [
        | inl is ↦ inl (clean_loop-undefined t more a go is)
        | inr (out, is) ↦ elim (Bool-cases (is_over (t.meanwhile a))) [
          | inl now_over ↦ inr (t.meanwhile a, clean_loop-over t more a go is now_over)
          | inr goes_on ↦
              rw (clean_loop-next t more a go is goes_on)
                (clean_loop-ended before after s (t.meanwhile a) over)
        ]
      ]
    ]
