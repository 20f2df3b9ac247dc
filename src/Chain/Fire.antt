-- ===== src/Chain/Fire.antt =====
-- How an event goes through the filters: the functions fire… and callNext… of src/EIoFilterChain.cpp.
pub mod Order
pub mod Counts
pub mod Received
mod Examples
use cxx_conet.Prelude.{
  ℕ, zero, suc, Bool, true, false, Option, none, some, ◌==◌, if◌then◌else◌, pos,
}
use cxx_conet.Prelude.Exec.{
  Error, Exec, illegal_state, undefined, out_of_fuel, throw, pure, gets, ◌>>=◌, ◌>>◌,
}
use cxx_conet.Prelude.Containers.{NameMap}
use cxx_conet.Filter.{Filter}
use cxx_conet.Statistics.{Doubles}
use cxx_conet.Session.{
  World, to_int, increase_read_bytes, increase_read_messages, increase_written_bytes,
  increase_written_messages,
}
use cxx_conet.Chain.{Ptr, null, Heap, Chain}

-- The shape of the four functions callNext…: at a null entry the event ends, at any other the filter
-- handles it and is given what comes after. `filters` says what stands at a filter's address.
module _ {A B : Type 0} (filters : Ptr → B) (fail : Error → A) (end : A) (handle : B → A → A) where
  unfoldable pub call_next : ℕ → Heap → Ptr → A
  call_next zero h p = fail out_of_fuel
  call_next (suc fuel) h p = elim (p == null) [
    | true ↦ end
    | false ↦ elim (h p) [
      | none ↦ fail undefined
      | some e ↦ handle (filters e.filter) (call_next fuel h e.next_entry)
    ]
  ]

-- What the chain counts of a message. `remaining` is the remaining() of a message that is an
-- EIoBuffer, `file_length` the length() of one that is an EFile.
module _ {F : Doubles} {U Message : Type 0} (remaining file_length : Message → Option ℕ) where
  unfoldable pub count_received : Option Message → Exec (World F U) (Unit {0})
  count_received none = pure tt
  count_received (some message) = do
    now ← gets (λ w. w.clock)
    elim (remaining message) [ none ↦ pure tt | some n ↦ increase_read_bytes (pos n) now ]
    increase_read_messages now

  -- The length of a file is converted to the `int` that increaseWrittenBytes takes.
  unfoldable pub count_out : Option Message → Exec (World F U) (Unit {0})
  count_out none = throw illegal_state
  count_out (some o) = do
    now ← gets (λ w. w.clock)
    elim (remaining o) [
      | some n ↦ increase_written_bytes (pos n) now
      | none ↦ elim (file_length o) [
        | some n ↦ increase_written_bytes (to_int n) now
        | none ↦ throw illegal_state
      ]
    ]

  unfoldable pub count_sent : Option Message → Exec (World F U) (Unit {0})
  count_sent none = pure tt
  count_sent (some message) = do now ← gets (λ w. w.clock); increase_written_messages now

-- The filters are taken not to change the chain while an event is on its way.
module _ {F : Doubles} {U Message : Type 0} (filters : Ptr → Filter (World F U) Message) where
  unfoldable pub call_next_session_created : ℕ → Heap → Ptr → Exec (World F U) Bool
  call_next_session_created =
      call_next filters throw (pure true) (λ filter next. filter.session_created next)

  unfoldable pub call_next_session_closed : ℕ → Heap → Ptr → Exec (World F U) (Unit {0})
  call_next_session_closed =
      call_next filters throw (pure tt) (λ filter next. filter.session_closed next)

  unfoldable pub call_next_message_received :
      ℕ → Heap → Ptr → Option Message → Exec (World F U) (Option Message)
  call_next_message_received =
      call_next filters (λ e m. throw e) (λ m. pure m) (λ filter next. filter.message_received next)

  unfoldable pub call_next_message_send :
      ℕ → Heap → Ptr → Option Message → Exec (World F U) (Option Message)
  call_next_message_send =
      call_next filters (λ e m. throw e) (λ m. pure m) (λ filter next. filter.message_send next)

  unfoldable pub fire_session_created : {N : NameMap Ptr} → ℕ → Chain N → Exec (World F U) Bool
  unfolding call_next_session_created
  fire_session_created fuel c = call_next_session_created fuel c.heap c.head

  unfoldable pub fire_session_closed : {N : NameMap Ptr} → ℕ → Chain N → Exec (World F U) (Unit {0})
  unfolding call_next_session_closed
  fire_session_closed fuel c = call_next_session_closed fuel c.heap c.head

  module _ (remaining file_length : Message → Option ℕ) where
    unfoldable pub fire_message_received :
        {N : NameMap Ptr} → ℕ → Chain N → Option Message → Exec (World F U) (Option Message)
    unfolding call_next_message_received
    fire_message_received fuel c message = do
      count_received remaining file_length message
      call_next_message_received fuel c.heap c.head message

    unfoldable pub fire_message_send :
        {N : NameMap Ptr} → ℕ → Chain N → Option Message → Exec (World F U) (Option Message)
    unfolding call_next_message_send
    fire_message_send fuel c message = do
      o ← call_next_message_send fuel c.heap c.head message
      count_out remaining file_length o
      count_sent remaining file_length message
      pure o
