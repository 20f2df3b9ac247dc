-- ===== src/Acceptor/Limit.antt =====
-- The number of sessions over the life of a service, as a step relation on the service and the
-- sessions whose fibers run.
use mathlib.Core.Path.{subst}
use cxx_conet.Prelude.{
  ℕ, suc, ◌+◌, ◌^◌, min, max, ◌≤◌, ◌<◌, ◌≡◌, refl, sym, ap, ◌∙◌, Bool, true, false, Bool-cases, inl,
  inr, arith, ltb, if◌then◌else◌, ℤ, pos,
}
use cxx_conet.Acceptor.{
  Acceptor, more32, below32, new_acceptor, set_max_connections, is_disposed, at_limit, on_accepted,
  on_scope_exit, set_running, shutdown, dispose,
}

-- A service with the number of its sessions whose fiber is not over, of those that ended, and of the
-- fewest that were alive at a time since its limit was last set.
pub record Life : Type 0 where
  pub acceptor : Acceptor
  pub alive : ℕ
  pub ended : ℕ
  pub fewest : ℕ

-- One step: the accept loop takes a socket, or a session's fiber ends, the status changes, or the limit is set.
pub data Step : Life → Life → Type 0 where
  step_accepted :
      {a a' : Acceptor} {n m k : ℕ}
      → on_accepted a ≡ (true, a')
      → Step
          (record { acceptor = a; alive = n; ended = m; fewest = k })
          (record { acceptor = a'; alive = suc n; ended = m; fewest = k })
  step_refused :
      {a a' : Acceptor} {n m k : ℕ}
      → on_accepted a ≡ (false, a')
      → Step
          (record { acceptor = a; alive = n; ended = m; fewest = k })
          (record { acceptor = a'; alive = n; ended = m; fewest = k })
  step_ended :
      {a : Acceptor} {n m k : ℕ}
      → Step
          (record { acceptor = a; alive = suc n; ended = m; fewest = k })
          (record { acceptor = on_scope_exit a; alive = n; ended = suc m; fewest = min k n })
  step_running :
      {a : Acceptor} {n m k : ℕ}
      → Step
          (record { acceptor = a; alive = n; ended = m; fewest = k })
          (record { acceptor = set_running a; alive = n; ended = m; fewest = k })
  step_shutdown :
      {a : Acceptor} {n m k : ℕ}
      → Step
          (record { acceptor = a; alive = n; ended = m; fewest = k })
          (record { acceptor = shutdown a; alive = n; ended = m; fewest = k })
  step_dispose :
      {a : Acceptor} {n m k : ℕ}
      → Step
          (record { acceptor = a; alive = n; ended = m; fewest = k })
          (record { acceptor = dispose a; alive = n; ended = m; fewest = k })
  step_limit :
      {a : Acceptor} {n m k : ℕ} (limit : ℤ)
      → Step
          (record { acceptor = a; alive = n; ended = m; fewest = k })
          (record { acceptor = set_max_connections limit a; alive = n; ended = m; fewest = n })

pub data Steps (l : Life) : Life → Type 0 where
  steps_none : Steps l l
  steps_more : {k m : Life} → Steps l k → Step k m → Steps l m

-- The counters tell the truth, and no session is let in above a positive limit: no more are alive than
-- the limit says, or than were at some time since it was set.
pub record Counted (l : Life) : Type 0 where
  pub connections : l.acceptor.connections ≡ l.alive
  pub cumulative : l.acceptor.cumulative_managed_session_count ≡ l.alive + l.ended
  pub largest : l.alive ≤ l.acceptor.largest_managed_session_count
  pub largest_reached : l.acceptor.largest_managed_session_count ≤ l.alive + l.ended
  pub within : (n : ℕ) → l.acceptor.max_conns ≡ pos (suc n) → l.alive ≤ max (suc n) l.fewest
  pub fewest_reached : l.fewest ≤ l.alive

-- the service when a socket has been let in
abbrev admitted : Acceptor → Acceptor
admitted a = record a {
  connections = more32 a.connections;
  cumulative_managed_session_count = more32 a.cumulative_managed_session_count;
  largest_managed_session_count =
      if below32 a.largest_managed_session_count (more32 a.connections)
      then more32 a.connections
      else a.largest_managed_session_count;
}

pair_first : (p q : Bool × Acceptor) → p ≡ q → p.0 ≡ q.0
pair_first p q h = ap (λ r. r.0) h

pair_second : (p q : Bool × Acceptor) → p ≡ q → p.1 ≡ q.1
pair_second p q h = ap (λ r. r.1) h

on_accepted-true :
    (a a' : Acceptor)
    → on_accepted a ≡ (true, a')
    → (is_disposed a ≡ false) × (at_limit a.max_conns a.connections ≡ false) × (a' ≡ admitted a)
unfolding on_accepted
on_accepted-true a a' ran = elim (Bool-cases (is_disposed a)) [
  | inl out ↦
      let refused : on_accepted a ≡ (false, a) = rw out refl in
      let no : false ≡ true = pair_first _ _ (sym refused ∙ ran) in cc no
  | inr on ↦ elim (Bool-cases (at_limit a.max_conns a.connections)) [
    | inl full ↦
        let refused : on_accepted a ≡ (false, a) = rw (on, full) refl in
        let no : false ≡ true = pair_first _ _ (sym refused ∙ ran) in cc no
    | inr room ↦
        let taken : on_accepted a ≡ (true, admitted a) = rw (on, room) refl in
        (on, room, pair_second _ _ (sym ran ∙ taken))
  ]
]

on_accepted-false : (a a' : Acceptor) → on_accepted a ≡ (false, a') → a' ≡ a
unfolding on_accepted
on_accepted-false a a' ran = elim (Bool-cases (is_disposed a)) [
  | inl out ↦
      let refused : on_accepted a ≡ (false, a) = rw out refl in pair_second _ _ (sym ran ∙ refused)
  | inr on ↦ elim (Bool-cases (at_limit a.max_conns a.connections)) [
    | inl full ↦
        let refused : on_accepted a ≡ (false, a) = rw (on, full) refl in
        pair_second _ _ (sym ran ∙ refused)
    | inr room ↦
        let taken : on_accepted a ≡ (true, admitted a) = rw (on, room) refl in
        let no : true ≡ false = pair_first _ _ (sym taken ∙ ran) in cc no
  ]
]

room_left :
    (max_conns : ℤ) (n k : ℕ)
    → at_limit max_conns k ≡ false
    → max_conns ≡ pos (suc n)
    → suc n < 2 ^ 31
    → k < 2 ^ 31
    → k < suc n
unfolding at_limit
room_left max_conns n k room is int small =
    let here : at_limit (pos (suc n)) k ≡ false = subst (λ z. at_limit z k ≡ false) is room in
    ground arith

admitted-Counted :
    (a : Acceptor) (n m k : ℕ)
    → suc n + m < 2 ^ 31
    → at_limit a.max_conns a.connections ≡ false
    → Counted (record { acceptor = a; alive = n; ended = m; fewest = k })
    → Counted (record { acceptor = admitted a; alive = suc n; ended = m; fewest = k })
admitted-Counted a n m k int room c = record {
  connections = omega (arith, int, c.connections);
  cumulative = omega (arith, int, c.cumulative);
  largest = ground (arith, int, c.connections, c.largest, c.largest_reached);
  largest_reached = ground (arith, int, c.connections, c.largest_reached);
  within = λ j is. elim (Bool-cases (ltb (suc j) (2 ^ 31))) [
    | inl small ↦
        let below : suc j < 2 ^ 31 = ground arith in
        omega (
          arith,
          int,
          c.connections,
          room_left a.max_conns j a.connections room is below (omega (arith, int, c.connections)),
        )
    | inr large ↦ let above : 2 ^ 31 ≤ suc j = ground arith in omega (arith, above, int)
  ];
  fewest_reached = omega (arith, c.fewest_reached);
}

-- a step that leaves the counters and the limit alone
same-Counted :
    (a b : Acceptor) (n m k : ℕ)
    → b.connections ≡ a.connections
    → b.cumulative_managed_session_count ≡ a.cumulative_managed_session_count
    → b.largest_managed_session_count ≡ a.largest_managed_session_count
    → b.max_conns ≡ a.max_conns
    → Counted (record { acceptor = a; alive = n; ended = m; fewest = k })
    → Counted (record { acceptor = b; alive = n; ended = m; fewest = k })
same-Counted a b n m k is_connections is_cumulative is_largest is_limit c = record {
  connections = is_connections ∙ c.connections;
  cumulative = is_cumulative ∙ c.cumulative;
  largest = omega (arith, is_largest, c.largest);
  largest_reached = omega (arith, is_largest, c.largest_reached);
  within = λ j is. c.within j (sym is_limit ∙ is);
  fewest_reached = c.fewest_reached;
}

Step-Counted : {l m : Life} → Step l m → m.alive + m.ended < 2 ^ 31 → Counted l → Counted m
unfolding on_scope_exit set_running shutdown dispose set_max_connections
Step-Counted (step_accepted {a} {a'} {n} {m} {k} ran) int c =
    let (on, room, is) = on_accepted-true a a' ran in rw is (admitted-Counted a n m k int room c)
Step-Counted (step_refused {a} {a'} {n} {m} ran) int c = rw (on_accepted-false a a' ran) c
Step-Counted (step_ended {a} {n} {m} {k}) int c = record {
  connections = omega (arith, int, c.connections);
  cumulative = omega (arith, c.cumulative);
  largest = omega (arith, c.largest);
  largest_reached = omega (arith, c.largest_reached);
  within = λ j is. omega (arith, c.within j is);
  fewest_reached = omega arith;
}
Step-Counted (step_running {a} {n} {m} {k}) int c =
    same-Counted a (set_running a) n m k refl refl refl refl c
Step-Counted (step_shutdown {a} {n} {m} {k}) int c =
    same-Counted a (shutdown a) n m k refl refl refl refl c
Step-Counted (step_dispose {a} {n} {m} {k}) int c =
    same-Counted a (dispose a) n m k refl refl refl refl c
Step-Counted (step_limit limit) int c = record {
  connections = c.connections;
  cumulative = c.cumulative;
  largest = c.largest;
  largest_reached = c.largest_reached;
  within = λ j is. omega arith;
  fewest_reached = omega arith;
}

-- no session that was ever let in is forgotten
Step-total : {l m : Life} → Step l m → l.alive + l.ended ≤ m.alive + m.ended
Step-total (step_accepted ran) = omega arith
Step-total (step_refused ran) = omega arith
Step-total step_ended = omega arith
Step-total step_running = omega arith
Step-total step_shutdown = omega arith
Step-total step_dispose = omega arith
Step-total (step_limit limit) = omega arith

Steps-Counted : {l m : Life} → Counted l → Steps l m → m.alive + m.ended < 2 ^ 31 → Counted m
Steps-Counted start steps_none int = start
Steps-Counted start (steps_more ran s) int =
    Step-Counted s int (Steps-Counted start ran (omega (arith, Step-total s, int)))

-- a service that has just been made, with a limit
unfoldable pub fresh_life : ℕ → ℤ → Life
unfolding new_acceptor set_max_connections
fresh_life backlog_min limit = record {
  acceptor = set_max_connections limit (new_acceptor backlog_min);
  alive = 0;
  ended = 0;
  fewest = 0;
}

-- In every state that a new service reaches, by sockets that come, sessions that end, changes of the
-- status and of the limit in any order, and as long as no more sessions than an int holds have been let
-- in: `connections` is the number of sessions whose fiber runs, the cumulative count that of all sessions
-- ever let in, the largest count lies between the two, and under a positive limit no more sessions run
-- than the limit, or than the fewest that ran at a time since it was set.
pub Steps-fresh :
    (backlog_min : ℕ) (limit : ℤ) {l : Life}
    → Steps (fresh_life backlog_min limit) l
    → l.alive + l.ended < 2 ^ 31
    → Counted l
unfolding fresh_life new_acceptor set_max_connections
Steps-fresh backlog_min limit ran int =
    let start : Counted (fresh_life backlog_min limit) = record {
      connections = refl;
      cumulative = refl;
      largest = omega arith;
      largest_reached = omega arith;
      within = λ n is. omega arith;
      fewest_reached = omega arith;
    } in
    Steps-Counted start ran int
