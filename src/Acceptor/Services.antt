-- ===== src/Acceptor/Services.antt =====
-- The services of an acceptor and the fibers that it starts for them: bind, listen, signalAccept,
-- dispose and shutdown of src/ESocketAcceptor.cpp, Service of inc/ESocketAcceptor.hh.
use cxx_conet.Prelude.{
  ℕ, Bool, Option, none, some, List, [], ◌∷◌, ◌++◌, ltb, if◌then◌else◌, ℤ, pos, negsuc,
}
use cxx_conet.Prelude.Exec.{Exec, ok, throws, null_pointer, undefined, throw, pure, ◌>>◌}
use cxx_conet.Acceptor.{Acceptor}

pub data ServerSocket : Type 0 where
  server_socket ssl_server_socket : ServerSocket

-- `listener` of a bind may change the service that it is given, so its socket may be null.
pub record Service (Name Address : Type 0) : Type 0 where
  pub ss : Option ServerSocket
  pub ssl_active : Bool
  pub service_name : Name
  pub bound_address : Address

-- what startAccept asks of a listening socket before its loop
pub data SocketCall (Address : Type 0) : Type 0 where
  set_reuse_address : Bool → SocketCall Address
  set_so_timeout : ℕ → SocketCall Address
  set_receive_buffer_size : ℕ → SocketCall Address
  bind_to : Address → (backlog : ℕ) → SocketCall Address

-- the fibers that listen() schedules, the clean fibers with their tag
pub data Fiber (Name Address : Type 0) : Type 0 where
  accept_fiber : Service Name Address → Fiber Name Address
  clean_fiber : ℕ → Fiber Name Address
  statistics_fiber : Fiber Name Address
  listening_fiber : Fiber Name Address

-- `acceptor` has the other fields; the set of services is in the order in which they came.
pub record Server (Name Address : Type 0) : Type 0 where
  pub acceptor : Acceptor
  pub reuse_address : Bool
  pub timeout : ℤ
  pub bufsize : ℤ
  pub work_threads : ℕ
  pub listening_callback : Bool
  pub services : List (Service Name Address)
  pub scheduled : List (Fiber Name Address)

abbrev pub Listener : (Name Address : Type 0) → Type 0
Listener Name Address = Option (Exec (Service Name Address) (Unit {0}))

-- `if (n > 0)`
abbrev if_positive : {A : Type 0} → ℤ → (ℕ → A) → List A → List A
if_positive (negsuc n) call rest = rest
if_positive (pos n) call rest = if ltb 0 n then call n ∷ rest else rest

module _ {Name Address : Type 0} where
  unfoldable pub set_reuse : Bool → Server Name Address → Server Name Address
  set_reuse on s = record s { reuse_address = on }

  unfoldable pub set_timeout : ℤ → Server Name Address → Server Name Address
  set_timeout timeout s = record s { timeout = timeout }

  unfoldable pub set_bufsize : ℤ → Server Name Address → Server Name Address
  set_bufsize size s = record s { bufsize = size }

  -- the constructors of Service, with createSocket()
  unfoldable pub new_service : Name → Bool → Address → Service Name Address
  new_service name ssl address = record {
    ss = some (if ssl then ssl_server_socket else server_socket);
    ssl_active = ssl;
    service_name = name;
    bound_address = address;
  }

  unfoldable pub listened : Listener Name Address → Exec (Service Name Address) (Unit {0})
  listened none = pure tt
  listened (some listener) = listener

  -- A service is in the set before the listener sees it.
  unfoldable pub add_service :
      Name → Bool → Listener Name Address → Address → Exec (Server Name Address) (Unit {0})
  add_service name ssl listener address s =
      elim (listened listener (new_service name ssl address)) [
        | ok u svc ↦ ok tt (record s { services = s.services ++ svc ∷ [] })
        | throws e svc ↦ throws e (record s { services = s.services ++ svc ∷ [] })
      ]

  -- the four binds; `to_address` is the constructor of EInetSocketAddress with a host and a port
  unfoldable pub bind_host :
      {Host : Type 0}
      → (Host → ℕ → Address)
      → Host
      → ℕ
      → Bool
      → Name
      → Listener Name Address
      → Exec (Server Name Address) (Unit {0})
  bind_host to_address hostname port ssl name listener =
      add_service name ssl listener (to_address hostname port)

  unfoldable pub bind_port :
      {Host : Type 0}
      → (Host → ℕ → Address)
      → (local : Host) → ℕ
      → Bool
      → Name
      → Listener Name Address
      → Exec (Server Name Address) (Unit {0})
  bind_port to_address local port ssl name listener =
      add_service name ssl listener (to_address local port)

  unfoldable pub bind_address :
      Option Address → Bool → Name → Listener Name Address → Exec (Server Name Address) (Unit {0})
  bind_address none ssl name listener = throw null_pointer
  bind_address (some address) ssl name listener = add_service name ssl listener address

  -- the loop over the addresses, which reads through each of them
  unfoldable pub bind_loop :
      Bool
      → Name
      → Listener Name Address
      → List (Option Address)
      → Exec (Server Name Address) (Unit {0})
  bind_loop ssl name listener [] = pure tt
  bind_loop ssl name listener (none ∷ addresses) = throw undefined
  bind_loop ssl name listener (some address ∷ addresses) = do
    add_service name ssl listener address
    bind_loop ssl name listener addresses

  unfoldable pub bind_addresses :
      Option (List (Option Address))
      → Bool
      → Name
      → Listener Name Address
      → Exec (Server Name Address) (Unit {0})
  bind_addresses none ssl name listener = throw null_pointer
  bind_addresses (some addresses) ssl name listener = bind_loop ssl name listener addresses

  -- the calls on the listening socket of a service, in their order
  unfoldable pub prepare : Server Name Address → Service Name Address → List (SocketCall Address)
  prepare s svc =
      set_reuse_address s.reuse_address
      ∷ if_positive s.timeout set_so_timeout (
          if_positive s.bufsize set_receive_buffer_size
            (bind_to svc.bound_address s.acceptor.backlog ∷ []))
