-- ===== src/HttpAcceptor.antt =====
-- The acceptor of HTTP connections: src/EHttpAcceptor.cpp, inc/EHttpAcceptor.hh, src/EHttpHandler.cpp.
pub mod Serve
pub mod Reads
mod Examples
use cxx_conet.Prelude.{
  ℕ, zero, suc, Bool, true, false, not, Option, none, some, List, [], ◌∷◌, ◌++◌, String,
  if◌then◌else◌,
}
use cxx_conet.Prelude.Exec.{
  Exec, Run, ok, throws, Error, undefined, out_of_fuel, throw, pure, gets, modify, ◌>>=◌, ◌>>◌,
}
use cxx_conet.HttpStream.{Request, Frame, Response, new_response, frames_of}

pub record Acceptor : Type 0 where
  pub rw_io_detached : Bool
  pub worker_detached : Bool

unfoldable pub new_acceptor : (rw_io_detached worker_detached : Bool) → Acceptor
new_acceptor rw worker = record {
  rw_io_detached = if worker then true else rw;
  worker_detached = worker;
}

-- A handler reads a request and writes its response; S is whatever else it changes.
pub record Handler (S : Type 0) : Type 0 where
  pub service : Request → Exec (S × Response) (Unit {0})
  pub do_get : Request → Exec (S × Response) (Unit {0})
  pub do_head : Request → Exec (S × Response) (Unit {0})
  pub do_post : Request → Exec (S × Response) (Unit {0})
  pub do_put : Request → Exec (S × Response) (Unit {0})
  pub do_delete : Request → Exec (S × Response) (Unit {0})
  pub do_options : Request → Exec (S × Response) (Unit {0})
  pub do_trace : Request → Exec (S × Response) (Unit {0})
  pub do_patch : Request → Exec (S × Response) (Unit {0})

abbrev pub do_nothing : {S : Type 0} → Request → Exec (S × Response) (Unit {0})
do_nothing q = pure tt

-- EHttpHandler itself, whose methods have empty bodies
abbrev pub empty_handler : {S : Type 0} → Handler S
empty_handler = record {
  service = do_nothing;
  do_get = do_nothing;
  do_head = do_nothing;
  do_post = do_nothing;
  do_put = do_nothing;
  do_delete = do_nothing;
  do_options = do_nothing;
  do_trace = do_nothing;
  do_patch = do_nothing;
}

-- what the response channel of a session holds; a stream is known by its number
pub data Reply : Type 0 where
  response : ℕ → Response → Reply
  end_response : Reply

-- A session as its workers and its write routine see it, with the frames given to the encoders of
-- its streams.
pub record Connection (S : Type 0) : Type 0 where
  pub state : S
  pub closed : Bool
  pub response_channel : List Reply
  pub sent : List (ℕ × Frame)

abbrev pub on_stream : ℕ → List Frame → List (ℕ × Frame)
on_stream id [] = []
on_stream id (f ∷ fs) = (id, f) ∷ on_stream id fs

module _ {S : Type 0} where
  unfoldable pub send_response : Acceptor → ℕ → Response → Exec (Connection S) (Unit {0})
  send_response a id r =
      if a.rw_io_detached
      then modify (λ c. record c { response_channel = c.response_channel ++ response id r ∷ [] })
      else modify (λ c. record c { sent = c.sent ++ on_stream id (frames_of r) })

  -- `catch (...)` goes on after any exception, but not after undefined behaviour
  unfoldable pub caught : Run (Connection S) (Unit {0}) → Run (Connection S) (Unit {0})
  caught (ok u c) = ok tt c
  caught (throws undefined c) = throws undefined c
  caught (throws e c) = ok tt c

-- `equals_ignore_case` is EString::equalsIgnoreCase of the Efc library.
module _ {S : Type 0} (equals_ignore_case : String → String → Bool) where
  -- the chain of tests on the method
  unfoldable pub do_method : Handler S → String → Request → Exec (S × Response) (Unit {0})
  do_method h method q =
      if equals_ignore_case method "GET"
      then h.do_get q
      else if equals_ignore_case method "HEAD"
      then h.do_head q
      else if equals_ignore_case method "POST"
      then h.do_post q
      else if equals_ignore_case method "PUT"
      then h.do_put q
      else if equals_ignore_case method "DELETE"
      then h.do_delete q
      else if equals_ignore_case method "OPTIONS"
      then h.do_options q
      else if equals_ignore_case method "TRACE"
      then h.do_trace q
      else if equals_ignore_case method "PATCH"
      then h.do_patch q
      else pure tt

  -- The calls of the handler. A header without a method and a handler that was not set are null.
  unfoldable pub handle : Option (Handler S) → Request → Exec (S × Response) (Unit {0})
  unfolding do_method
  handle h q = elim q.header_map.method [
    | none ↦ throw undefined
    | some method ↦ elim h [ none ↦ throw undefined | some h ↦ h.service q >> do_method h method q ]
  ]

  unfoldable pub process_request :
      Acceptor → Option (Handler S) → ℕ → Request → Exec (Connection S) (Unit {0})
  unfolding handle send_response
  process_request a h id q c = elim (handle h q (c.state, new_response)) [
    | ok u out ↦ send_response a id (out.1) (record c { state = out.0 })
    | throws e out ↦ throws e (record c { state = out.0 })
  ]

  -- A worker that takes these requests from the request channel, one after the other.
  unfoldable pub work :
      Acceptor → Option (Handler S) → List (ℕ × Request) → Exec (Connection S) (Unit {0})
  unfolding process_request caught
  work a h [] = pure tt
  work a h ((id, q) ∷ qs) = (λ c. caught (process_request a h id q c)) >> work a h qs

module _ {S : Type 0} where
  -- The fiber of detachWriteRoutine, for at most so many rounds; with nothing in the channel it waits.
  unfoldable pub write_routine : ℕ → Connection S → Connection S
  write_routine zero c = c
  write_routine (suc rounds) c = if c.closed then c else elim c.response_channel [
    | [] ↦ c
    | end_response ∷ rest ↦ record c { response_channel = rest }
    | response id r ∷ rest ↦
        write_routine rounds
          (record c { response_channel = rest; sent = c.sent ++ on_stream id (frames_of r) })
  ]

  -- EHttpSession::close; `close_socket_session` is ESocketSession::close
  unfoldable pub close : Exec (Connection S) (Unit {0}) → Exec (Connection S) (Unit {0})
  close close_socket_session = do
    modify (λ c. record c { response_channel = c.response_channel ++ end_response ∷ [] })
    close_socket_session

-- the loop that reads and drops the messages; `read` is EHttpSession::read
module _ {W Message : Type 0} (read : Exec W (Option Message)) where
  unfoldable pub read_to_end : ℕ → Exec W (Unit {0})
  read_to_end zero = throw out_of_fuel
  read_to_end (suc fuel) = do m ← read; elim m [ none ↦ pure tt | some b ↦ read_to_end fuel ]

-- `attach` is onConnectionHandle of ESocketAcceptor, `start_writer` the start of the write routine,
-- `opened` and `on_closed` the handler's sessionOpened and sessionClosed.
module _ {W Message : Type 0} (attach start_writer opened on_closed : Exec W (Unit {0}))
    (read : Exec W (Option Message)) where
  unfoldable pub on_connection_handle :
      Acceptor → (has_handler : Bool) (fuel : ℕ) → Exec W (Unit {0})
  unfolding read_to_end
  on_connection_handle a has_handler fuel = do
    attach
    if a.rw_io_detached then start_writer else pure tt
    if has_handler then opened else pure tt
    read_to_end read fuel
    if has_handler then on_closed else pure tt
