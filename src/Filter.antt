-- ===== src/Filter.antt =====
-- Filters and the forwarding adapter: inc/EIoFilter.hh, src/EIoFilterAdapter.cpp.
use cxx_conet.Prelude.{Bool, Option}
use cxx_conet.Prelude.Exec.{Exec}

-- A filter by its four handlers. Each is given what the next filter does with the event, and may
-- call it any number of times or not at all. `W` is what handlers read and write; a message is a
-- pointer that may be null.
pub record Filter (W Message : Type 0) : Type 0 where
  pub session_created : Exec W Bool → Exec W Bool
  pub session_closed : Exec W (Unit {0}) → Exec W (Unit {0})
  pub message_received :
      (Option Message → Exec W (Option Message)) → Option Message → Exec W (Option Message)
  pub message_send :
      (Option Message → Exec W (Option Message)) → Option Message → Exec W (Option Message)

-- EIoFilterAdapter: each handler calls the next filter.
abbrev pub adapter : {W Message : Type 0} → Filter W Message
adapter = record {
  session_created = λ next. next;
  session_closed = λ next. next;
  message_received = λ next message. next message;
  message_send = λ next message. next message;
}
