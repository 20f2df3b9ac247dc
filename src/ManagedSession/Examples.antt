-- ===== src/ManagedSession/Examples.antt =====
-- The theorem on the count at two threads.
use cxx_conet.Prelude.{ℕ, ◌+◌, ◌%◌, ◌^◌, ◌≡◌, List, [], ◌∷◌, arith}
use cxx_conet.Prelude.Containers.{int_function_map}
use cxx_conet.ManagedSession.{ThreadSessions, new_managed_session, get_managed_session_count}
use cxx_conet.ManagedSession.Count.{Change, added, removed, Runs, Runs-count}

abbrev sessions : List (ThreadSessions (int_function_map ℕ))
unfolding new_managed_session
sessions = new_managed_session (int_function_map ℕ) 2

abbrev changes : List (Change (int_function_map ℕ))
changes = added 0 7 70 ∷ added 1 8 80 ∷ removed 0 7 ∷ []

Runs-count_example :
    (t : List (ThreadSessions (int_function_map ℕ))) × Runs (int_function_map ℕ) sessions changes t
    × ((get_managed_session_count (int_function_map ℕ) t + 1) % 2 ^ 32
        ≡ (get_managed_session_count (int_function_map ℕ) sessions + 2) % 2 ^ 32)
unfolding sessions new_managed_session
Runs-count_example =
    Runs-count (int_function_map ℕ) sessions changes (omega arith, (omega arith, (omega arith, tt)))
