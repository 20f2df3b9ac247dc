-- ===== src/Acceptor/Balance.antt =====
-- On which threads the fibers of listen() run, and which of them watch the sessions: the balance
-- callback of src/ESocketAcceptor.cpp. The scheduler is given as many threads as workThreads_ counts, both
-- by EOS::active_processor_count().
use native.Mathlib.Nat.{mod-lt}
use mathlib.Core.List.{append-nil}
use cxx_conet.Prelude.{
  ℕ, zero, suc, ◌+◌, ◌-◌, ◌%◌, ◌≤◌, ◌<◌, ◌≡◌, refl, sym, ap, ◌∙◌, Bool-cases, inl, inr, true, false,
  ◌||◌, some, List, [], ◌∷◌, ◌++◌, map, ltb, leb, ◌==◌, arith, if◌then◌else◌, pos, negsuc, ◌^◌,
}
use cxx_conet.Session.{to_int}
use cxx_conet.Acceptor.{set_running}
use cxx_conet.Acceptor.Services.{
  Service, Fiber, accept_fiber, clean_fiber, statistics_fiber, listening_fiber, Server,
}
use cxx_conet.Acceptor.Threads.{rem_and_one, balance, clean_fibers, tag_of, start}

to_int-small : (n : ℕ) → n < 2 ^ 31 → to_int n ≡ pos n
unfolding to_int
to_int-small n small = ground arith

-- A fiber of a session has a tag below zero. With two threads or more it runs on a thread other than
-- the first, while its id is an int.
balance-session :
    (threads id n : ℕ)
    → 2 ≤ threads
    → id < 2 ^ 31
    → (t : ℕ) × (balance threads id (negsuc n) ≡ some (pos t)) × (1 ≤ t) × (t < threads)
unfolding balance rem_and_one
balance-session threads id n two small =
    let several : leb threads 1 ≡ false = ground arith in
    let least = mod-lt id {m = threads - 1} (omega arith) in
    (
      id % (threads - 1) + 1,
      rw (several, to_int-small id small) refl,
      omega arith,
      omega (arith, least),
    )

module _ {Name Address : Type 0} where
  -- how many clean fibers of a list have the thread t
  abbrev pub watchers : ℕ → List (Fiber Name Address) → ℕ
  watchers t [] = 0
  watchers t (clean_fiber i ∷ fibers) =
      if i == t then suc (watchers t fibers) else watchers t fibers
  watchers t (accept_fiber svc ∷ fibers) = watchers t fibers
  watchers t (statistics_fiber ∷ fibers) = watchers t fibers
  watchers t (listening_fiber ∷ fibers) = watchers t fibers

  watchers-append :
      (t : ℕ) (xs ys : List (Fiber Name Address))
      → watchers t (xs ++ ys) ≡ watchers t xs + watchers t ys
  watchers-append t [] ys = omega arith
  watchers-append t (clean_fiber i ∷ xs) ys =
      let rest = watchers-append t xs ys in
      elim (Bool-cases (i == t)) [
        | inl same ↦ rw same (omega (arith, rest))
        | inr other ↦ rw other rest
      ]
  watchers-append t (accept_fiber svc ∷ xs) ys = watchers-append t xs ys
  watchers-append t (statistics_fiber ∷ xs) ys = watchers-append t xs ys
  watchers-append t (listening_fiber ∷ xs) ys = watchers-append t xs ys

  watchers-accept_fiber :
      (t : ℕ) (svcs : List (Service Name Address)) → watchers t (map accept_fiber svcs) ≡ 0
  watchers-accept_fiber t [] = refl
  watchers-accept_fiber t (svc ∷ svcs) = watchers-accept_fiber t svcs

module _ (Name Address : Type 0) where
  no_watchers :
      (t i count : ℕ)
      → t < i
      → watchers t (clean_fibers {Name = Name} {Address = Address} i count) ≡ 0
  unfolding clean_fibers
  no_watchers t i zero below = refl
  no_watchers t i (suc count) below =
      let other : (i == t) ≡ false = ground arith in
      rw other (no_watchers t (suc i) count (omega arith))

  one_watcher :
      (t i count : ℕ)
      → i ≤ t
      → t < i + count
      → watchers t (clean_fibers {Name = Name} {Address = Address} i count) ≡ 1
  unfolding clean_fibers
  one_watcher t i zero above below = absurd (omega arith)
  one_watcher t i (suc count) above below = elim (Bool-cases (i == t)) [
    | inl same ↦ rw same (ap suc (no_watchers t (suc i) count (ground arith)))
    | inr other ↦ rw other (one_watcher t (suc i) count (ground arith) (omega arith))
  ]

  -- what listen() has scheduled before it waits
  abbrev cleaning : Server Name Address → List (Fiber Name Address)
  cleaning s =
      if ltb 0 s.acceptor.idle_time_for_read || ltb 0 s.acceptor.idle_time_for_write
      then clean_fibers 1 (s.work_threads - 1)
      else []

  abbrev telling : Server Name Address → List (Fiber Name Address)
  telling s = if s.listening_callback then listening_fiber ∷ [] else []

  start-scheduled :
      (order : List (Service Name Address) → List (Service Name Address)) (s : Server Name Address)
      → (start order s).scheduled
        ≡ (((s.scheduled ++ cleaning s) ++ map accept_fiber (order s.services))
            ++ statistics_fiber ∷ [])
          ++ telling s
  unfolding start set_running clean_fibers
  start-scheduled order s =
      elim (Bool-cases
        (ltb 0 s.acceptor.idle_time_for_read || ltb 0 s.acceptor.idle_time_for_write)) [
          | inl idle ↦ elim (Bool-cases s.listening_callback) [
            | inl tells ↦ rw (idle, tells) refl
            | inr quiet ↦ rw (idle, quiet) (sym (append-nil _))
          ]
          | inr never ↦ elim (Bool-cases s.listening_callback) [
            | inl tells ↦ rw (never, tells, append-nil s.scheduled) refl
            | inr quiet ↦ rw (never, quiet, append-nil s.scheduled) (sym (append-nil _))
          ]
        ]

  watchers-telling : (t : ℕ) (s : Server Name Address) → watchers t (telling s) ≡ 0
  watchers-telling t s = elim (Bool-cases s.listening_callback) [
    | inl tells ↦ rw tells refl
    | inr quiet ↦ rw quiet refl
  ]

  watchers-started :
      (order : List (Service Name Address) → List (Service Name Address)) (s : Server Name Address)
      (t : ℕ)
      → s.scheduled ≡ []
      → (ltb 0 s.acceptor.idle_time_for_read || ltb 0 s.acceptor.idle_time_for_write) ≡ true
      → watchers t (start order s).scheduled
        ≡ watchers t (clean_fibers {Name = Name} {Address = Address} 1 (s.work_threads - 1))
  watchers-started order s t fresh idle =
      let cleans : List (Fiber Name Address) = clean_fibers 1 (s.work_threads - 1) in
      let accepts : List (Fiber Name Address) = map accept_fiber (order s.services) in
      let none_before : watchers t s.scheduled ≡ 0 = ap (watchers t) fresh in
      let all_clean : watchers t (cleaning s) ≡ watchers t cleans = rw idle refl in
      let front = watchers-append t (s.scheduled ++ cleaning s) accepts in
      let middle =
        watchers-append t ((s.scheduled ++ cleaning s) ++ accepts) (statistics_fiber ∷ []) in
      ap (watchers t) (start-scheduled order s)
      ∙ omega (
        arith,
        watchers-append t (((s.scheduled ++ cleaning s) ++ accepts) ++ statistics_fiber ∷ [])
            (telling s),
        middle,
        front,
        watchers-append t s.scheduled (cleaning s),
        none_before,
        all_clean,
        watchers-accept_fiber t (order s.services),
        watchers-telling t s,
      )

  -- An acceptor that has no fiber yet, at least two threads, an int many, and an idle time above zero:
  -- after what listen() starts, a fiber with a tag below zero whose id is an int runs on a thread above
  -- 0, where exactly one clean fiber runs. The accept fibers and the statistics fiber run on thread 0,
  -- where no clean fiber runs.
  pub start-watched :
      (order : List (Service Name Address) → List (Service Name Address)) (s : Server Name Address)
      (id n : ℕ) (svc : Service Name Address)
      → s.scheduled ≡ []
      → 2 ≤ s.work_threads
      → s.work_threads < 2 ^ 31
      → id < 2 ^ 31
      → (ltb 0 s.acceptor.idle_time_for_read || ltb 0 s.acceptor.idle_time_for_write) ≡ true
      → (t : ℕ) × (balance s.work_threads id (negsuc n) ≡ some (pos t))
        × (1 ≤ t)
        × (t < s.work_threads)
        × (balance s.work_threads id
              (tag_of {Name = Name} {Address = Address} (negsuc n) (clean_fiber t))
            ≡ some (pos t))
        × (watchers t (start order s).scheduled ≡ 1)
        × (watchers 0 (start order s).scheduled ≡ 0)
        × (balance s.work_threads id (tag_of (negsuc n) (accept_fiber svc)) ≡ some (pos 0))
        × (balance s.work_threads id
              (tag_of {Name = Name} {Address = Address} (negsuc n) statistics_fiber)
            ≡ some (pos 0))
  unfolding balance tag_of
  start-watched order s id n svc fresh two few small idle =
      let (t, at, above, below) = balance-session s.work_threads id n two small in
      let one = one_watcher t 1 (s.work_threads - 1) above (omega (arith, below, two)) in
      let zero_th = no_watchers 0 1 (s.work_threads - 1) (omega arith) in
      (
        t,
        at,
        above,
        below,
        ap some (to_int-small t (omega (arith, below, few))),
        watchers-started order s t fresh idle ∙ one,
        watchers-started order s 0 fresh idle ∙ zero_th,
        ap some (to_int-small 0 (omega arith)),
        ap some (to_int-small 0 (omega arith)),
      )
