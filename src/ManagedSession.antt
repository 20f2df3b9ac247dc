-- ===== src/ManagedSession.antt =====
-- The sessions of a service by worker thread and file descriptor: src/EManagedSession.hh.
pub mod Count
mod Examples
use cxx_conet.Prelude.{
  ℕ, ◌+◌, ◌-◌, ◌%◌, ◌^◌, Option, none, some, List, [], ◌∷◌, get_elem?, set, replicate,
}
use cxx_conet.Prelude.Exec.{Exec, Run, ok, throws, null_pointer, undefined}
use cxx_conet.Prelude.Containers.{IntMap}

module _ {Session : Type 0} (M : IntMap Session) where
  -- `sessions_counter` is an int, as its pattern of 32 bits.
  pub record ThreadSessions : Type 0 where
    pub managed_sessions : M.Map
    pub sessions_counter : ℕ

  -- the constructor
  unfoldable pub new_managed_session : ℕ → List ThreadSessions
  new_managed_session work_threads =
      replicate work_threads (record { managed_sessions = M.empty; sessions_counter = 0 })

  -- what the current fiber's thread holds; `none` is the thread of code outside a fiber
  unfoldable pub current : Option ℕ → Exec (List ThreadSessions) ThreadSessions
  current none s = throws null_pointer s
  current (some i) s = elim (get_elem? s i) [ none ↦ throws undefined s | some t ↦ ok t s ]

  unfoldable pub store : Option ℕ → ThreadSessions → List ThreadSessions → List ThreadSessions
  store none t s = s
  store (some i) t s = set s i t

  unfoldable pub add_session : Option ℕ → ℕ → Session → Exec (List ThreadSessions) (Unit {0})
  unfolding store
  add_session thread fd session s = elim (current thread s) [
    | throws e s' ↦ throws e s'
    | ok t s' ↦ ok tt (
        store thread
          (record {
            managed_sessions = M.put t.managed_sessions fd session;
            sessions_counter = (t.sessions_counter + 1) % 2 ^ 32;
          })
          s')
  ]

  unfoldable pub remove_session : Option ℕ → ℕ → Exec (List ThreadSessions) (Unit {0})
  unfolding store
  remove_session thread fd s = elim (current thread s) [
    | throws e s' ↦ throws e s'
    | ok t s' ↦ ok tt (
        store thread
          (record {
            managed_sessions = M.remove t.managed_sessions fd;
            sessions_counter = (t.sessions_counter + 2 ^ 32 - 1) % 2 ^ 32;
          })
          s')
  ]

  unfoldable pub get_current_thread_managed_sessions : Option ℕ → Exec (List ThreadSessions) M.Map
  get_current_thread_managed_sessions thread s = elim (current thread s) [
    | throws e s' ↦ throws e s'
    | ok t s' ↦ ok t.managed_sessions s'
  ]

  -- the sum of the counters, an int that wraps
  unfoldable pub get_managed_session_count : List ThreadSessions → ℕ
  get_managed_session_count [] = 0
  get_managed_session_count (t ∷ rest) =
      (t.sessions_counter + get_managed_session_count rest) % 2 ^ 32
