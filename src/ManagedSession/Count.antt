-- ===== src/ManagedSession/Count.antt =====
-- The number of managed sessions over any operations of any threads.
use mathlib.Core.Path.{subst⁻¹}
use cxx_conet.Prelude.{
  ℕ, zero, suc, ◌+◌, ◌-◌, ◌%◌, ◌^◌, ◌<◌, ◌≡◌, refl, ap, some, List, [], ◌∷◌, arith, length,
  get_elem?, set,
}
use cxx_conet.Prelude.Exec.{ok}
use cxx_conet.Prelude.Containers.{IntMap}
use cxx_conet.ManagedSession.{
  ThreadSessions, current, add_session, remove_session, get_managed_session_count,
}

module _ {Session : Type 0} (M : IntMap Session) where
  -- an operation of one thread on one descriptor
  pub data Change : Type 0 where
    added : (thread fd : ℕ) → Session → Change
    removed : (thread fd : ℕ) → Change

  abbrev pub thread_of : Change → ℕ
  thread_of (added i fd s) = i
  thread_of (removed i fd) = i

  -- every thread that acts is one of the service's
  abbrev pub AllBelow : ℕ → List Change → Type 0
  AllBelow n [] = Unit
  AllBelow n (c ∷ cs) = (thread_of c < n) × AllBelow n cs

  abbrev pub additions : List Change → ℕ
  additions [] = 0
  additions (added i fd s ∷ cs) = suc (additions cs)
  additions (removed i fd ∷ cs) = additions cs

  abbrev pub removals : List Change → ℕ
  removals [] = 0
  removals (added i fd s ∷ cs) = removals cs
  removals (removed i fd ∷ cs) = suc (removals cs)

  -- the operations one after the other
  pub data Runs : List (ThreadSessions M) → List Change → List (ThreadSessions M) → Type 0 where
    runs_none : {s : List (ThreadSessions M)} → Runs s [] s
    runs_added :
        {s s' t : List (ThreadSessions M)} {i fd : ℕ} {x : Session} {cs : List Change}
        → add_session M (some i) fd x s ≡ ok tt s'
        → Runs s' cs t
        → Runs s (added i fd x ∷ cs) t
    runs_removed :
        {s s' t : List (ThreadSessions M)} {i fd : ℕ} {cs : List Change}
        → remove_session M (some i) fd s ≡ ok tt s'
        → Runs s' cs t
        → Runs s (removed i fd ∷ cs) t

  get_elem?-some :
      (s : List (ThreadSessions M)) (i : ℕ)
      → i < length s
      → (t : ThreadSessions M) × (get_elem? s i ≡ some t)
  get_elem?-some [] i h = elim h [ ]
  get_elem?-some (t ∷ s) zero h = (t, refl)
  get_elem?-some (t ∷ s) (suc i) h = get_elem?-some s i (omega arith)

  length-set :
      (s : List (ThreadSessions M)) (i : ℕ) (t : ThreadSessions M) → length (set s i t) ≡ length s
  length-set [] i t = refl
  length-set (x ∷ s) zero t = refl
  length-set (x ∷ s) (suc i) t = ap suc (length-set s i t)

  count-set :
      (s : List (ThreadSessions M)) (i d : ℕ) (t u : ThreadSessions M)
      → get_elem? s i ≡ some t
      → u.sessions_counter ≡ (t.sessions_counter + d) % 2 ^ 32
      → get_managed_session_count M (set s i u) ≡ (get_managed_session_count M s + d) % 2 ^ 32
  unfolding get_managed_session_count
  count-set [] i d t u at e = cc
  count-set (x ∷ s) zero d t u at e =
      let same : x.sessions_counter ≡ t.sessions_counter = ground arith in omega (arith, same)
  count-set (x ∷ s) (suc i) d t u at e = omega (arith, count-set s i d t u at e)

  -- a change on a thread of the service
  record Done (s s' : List (ThreadSessions M)) (d : ℕ) : Type 0 where
    size : length s' ≡ length s
    count : get_managed_session_count M s' ≡ (get_managed_session_count M s + d) % 2 ^ 32

  add_session-Done :
      (i fd : ℕ) (x : Session) (s : List (ThreadSessions M))
      → i < length s
      → (s' : List (ThreadSessions M)) × (add_session M (some i) fd x s ≡ ok tt s') × Done s s' 1
  unfolding add_session current
  add_session-Done i fd x s h =
      let (t, at) = get_elem?-some s i h in
      let u : ThreadSessions M = record {
        managed_sessions = M.put t.managed_sessions fd x;
        sessions_counter = (t.sessions_counter + 1) % 2 ^ 32;
      } in
      (
        set s i u,
        rw (at, add_session, current),
        record { size = length-set s i u; count = count-set s i 1 t u at refl },
      )

  remove_session-Done :
      (i fd : ℕ) (s : List (ThreadSessions M))
      → i < length s
      → (s' : List (ThreadSessions M)) × (remove_session M (some i) fd s ≡ ok tt s')
        × Done s s' (2 ^ 32 - 1)
  unfolding remove_session current
  remove_session-Done i fd s h =
      let (t, at) = get_elem?-some s i h in
      let u : ThreadSessions M = record {
        managed_sessions = M.remove t.managed_sessions fd;
        sessions_counter = (t.sessions_counter + 2 ^ 32 - 1) % 2 ^ 32;
      } in
      (
        set s i u,
        rw (at, remove_session, current),
        record { size = length-set s i u; count = count-set s i (2 ^ 32 - 1) t u at (omega arith) },
      )

  -- Any sequence of additions and removals by threads of the service, in whatever order they come,
  -- runs to its end, and afterwards the count is the count before plus the additions less the
  -- removals, modulo 2 ^ 32.
  pub Runs-count :
      (s : List (ThreadSessions M)) (cs : List Change)
      → AllBelow (length s) cs
      → (t : List (ThreadSessions M)) × Runs s cs t
        × ((get_managed_session_count M t + removals cs) % 2 ^ 32
            ≡ (get_managed_session_count M s + additions cs) % 2 ^ 32)
  Runs-count s [] h = (s, runs_none, refl)
  Runs-count s (added i fd x ∷ cs) h =
      let (s', ran, done) = add_session-Done i fd x s h.0 in
      let (t, rest, count) = Runs-count s' cs (subst⁻¹ (λ n. AllBelow n cs) done.size h.1) in
      (t, runs_added ran rest, omega (arith, count, done.count))
  Runs-count s (removed i fd ∷ cs) h =
      let (s', ran, done) = remove_session-Done i fd s h.0 in
      let (t, rest, count) = Runs-count s' cs (subst⁻¹ (λ n. AllBelow n cs) done.size h.1) in
      (t, runs_removed ran rest, omega (arith, count, done.count))
