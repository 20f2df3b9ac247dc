-- ===== src/Chain/Fire/Order.antt =====
-- An event passes the filters in the order of the list; the two ends only hand it on.
use cxx_conet.Prelude.{
  ℕ, zero, suc, ◌+◌, ◌<◌, ◌≡◌, refl, ◌∙◌, ap, true, false, Option, List, [], ◌∷◌, ◌++◌, ◌==◌, arith,
  length, length-append,
}
use cxx_conet.Prelude.Exec.{Error, throw, pure, ◌>>=◌, ◌>>◌}
use cxx_conet.Prelude.Containers.{NameMap}
use cxx_conet.Filter.{Filter, adapter}
use cxx_conet.Statistics.{Doubles}
use cxx_conet.Session.{World}
use cxx_conet.Chain.{Ptr, null, Heap, Chain}
use cxx_conet.Chain.Linked.{Cell, has, first, Linked}
use cxx_conet.Chain.Represents.{nodes, IsChain}
use cxx_conet.Chain.Fire.{
  call_next, call_next_session_created, call_next_message_received, call_next_message_send,
  fire_session_created, fire_message_received, fire_message_send, count_received, count_out,
  count_sent,
}

-- the handlers of the cells, each given those after it
abbrev pub through : {A B : Type 0} → (Ptr → B) → A → (B → A → A) → List Cell → A
through filters end handle [] = end
through filters end handle (c ∷ cs) = handle (filters c.filter) (through filters end handle cs)

module _ {A B : Type 0} (filters : Ptr → B) (fail : Error → A) (end : A) (handle : B → A → A) where
  call_next-through :
      (fuel : ℕ) (h : Heap) (prev : Ptr) (cs : List Cell)
      → length cs < fuel
      → has null cs ≡ false
      → Linked h prev cs null
      → call_next filters fail end handle fuel h (first cs null) ≡ through filters end handle cs
  unfolding call_next
  call_next-through zero h prev cs fuel out l = absurd (omega arith)
  call_next-through (suc n) h prev [] fuel out l = refl
  call_next-through (suc n) h prev (c ∷ cs) fuel out l =
      let here : (c.ptr == null) ≡ false = ground arith in
      rw (here, l.0, call_next)
        (ap (handle (filters c.filter))
          (call_next-through n h c.ptr cs (omega arith) (ground arith) l.1))

  through-append :
      (cs : List Cell) (b : Cell)
      → handle (filters b.filter) end ≡ end
      → through filters end handle (cs ++ b ∷ []) ≡ through filters end handle cs
  through-append [] b on = on
  through-append (c ∷ cs) b on = ap (handle (filters c.filter)) (through-append cs b on)

  call_next-chain :
      {N : NameMap Ptr} {c : Chain N} {front back : Cell} {xs : List Cell} (fuel : ℕ)
      → IsChain c front back xs
      → length xs + 2 < fuel
      → ((a : A) → handle (filters front.filter) a ≡ a)
      → ((a : A) → handle (filters back.filter) a ≡ a)
      → call_next filters fail end handle fuel c.heap c.head ≡ through filters end handle xs
  call_next-chain {c} {front} {back} {xs} fuel is enough on_front on_back =
      ap (call_next filters fail end handle fuel c.heap) is.head
      ∙ (call_next-through fuel c.heap null (nodes front back xs)
            (omega (arith, length-append xs (back ∷ []))) is.not_null is.linked
          ∙ (on_front _ ∙ through-append xs back (on_back end)))

module _ {F : Doubles} {U Message : Type 0} (filters : Ptr → Filter (World F U) Message) where
  -- A new session is shown to the filters of the list `xs`, each of which decides whether those
  -- after it see the session; without a veto the answer is true. The head and the tail of the
  -- chain are adapters and change nothing, and fuel above the number of entries is enough.
  pub fire_session_created-through :
      {N : NameMap Ptr} {c : Chain N} {front back : Cell} {xs : List Cell} (fuel : ℕ)
      → IsChain c front back xs
      → length xs + 2 < fuel
      → filters front.filter ≡ adapter
      → filters back.filter ≡ adapter
      → fire_session_created filters fuel c
        ≡ through filters (pure true) (λ f next. f.session_created next) xs
  unfolding fire_session_created call_next_session_created
  fire_session_created-through {c} {front} {back} {xs} fuel is enough on_front on_back =
      call_next-chain filters throw (pure true) (λ f next. f.session_created next) fuel is enough
        (λ a. ap (λ f. f.session_created a) on_front) (λ a. ap (λ f. f.session_created a) on_back)

  module _ (remaining file_length : Message → Option ℕ) where
    -- A received message is counted once, before any filter sees it, and then passes the filters of
    -- the list in its order; with fuel above the number of entries.
    pub fire_message_received-through :
        {N : NameMap Ptr} {c : Chain N} {front back : Cell} {xs : List Cell} (fuel : ℕ)
        (message : Option Message)
        → IsChain c front back xs
        → length xs + 2 < fuel
        → filters front.filter ≡ adapter
        → filters back.filter ≡ adapter
        → fire_message_received filters remaining file_length fuel c message ≡ (
            count_received remaining file_length message
            >> through filters (λ m. pure m) (λ f next. f.message_received next) xs message)
    unfolding fire_message_received call_next_message_received
    fire_message_received-through {c} {front} {back} {xs} fuel message is enough on_front on_back =
        ap (λ rest. count_received remaining file_length message >> rest message)
          (call_next-chain filters (λ e m. throw e) (λ m. pure m)
            (λ f next. f.message_received next) fuel is enough
            (λ a. ap (λ f. f.message_received a) on_front)
            (λ a. ap (λ f. f.message_received a) on_back))

    -- A message to send passes the filters of the list in its order first; what they make of it is
    -- what is counted and returned, and one message more is counted when there was one to send.
    pub fire_message_send-through :
        {N : NameMap Ptr} {c : Chain N} {front back : Cell} {xs : List Cell} (fuel : ℕ)
        (message : Option Message)
        → IsChain c front back xs
        → length xs + 2 < fuel
        → filters front.filter ≡ adapter
        → filters back.filter ≡ adapter
        → fire_message_send filters remaining file_length fuel c message ≡ (
            through filters (λ m. pure m) (λ f next. f.message_send next) xs message >>= λ o.
            count_out remaining file_length o >>= λ _.
            count_sent remaining file_length message >>= λ _. pure o)
    unfolding fire_message_send call_next_message_send
    fire_message_send-through {c} {front} {back} {xs} fuel message is enough on_front on_back =
        ap
          (λ rest. rest message >>= λ o. count_out remaining file_length o >>= λ _.
            count_sent remaining file_length message >>= λ _. pure o)
          (call_next-chain filters (λ e m. throw e) (λ m. pure m) (λ f next. f.message_send next)
            fuel is enough (λ a. ap (λ f. f.message_send a) on_front)
            (λ a. ap (λ f. f.message_send a) on_back))
