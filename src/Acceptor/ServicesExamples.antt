-- ===== src/Acceptor/ServicesExamples.antt =====
-- An acceptor with three threads and two services.
use cxx_conet.Prelude.{
  ℕ, ◌≤◌, ◌<◌, ◌≡◌, refl, true, false, none, some, List, [], ◌∷◌, arith, ◌==◌, if◌then◌else◌, pos,
  negsuc,
}
use cxx_conet.Prelude.Exec.{Exec, ok, throws, other_error, io_error}
use cxx_conet.Acceptor.{Acceptor, running}
use cxx_conet.Acceptor.Loops.{Wait, socket}
use cxx_conet.Acceptor.Services.{
  server_socket, Service, Server, accept_fiber, clean_fiber, statistics_fiber, new_service,
  listened, bind_addresses,
}
use cxx_conet.Acceptor.Threads.{balance, tag_of, start}
use cxx_conet.Acceptor.Bind.{Bound, none_bound, one_bound, bind_addresses-throws}
use cxx_conet.Acceptor.Balance.{watchers, start-watched}

abbrev idle_after : Acceptor
idle_after = record {
  status = running;
  backlog = 512;
  max_conns = negsuc 0;
  connections = 4;
  idle_time_for_read = 60;
  idle_time_for_write = 0;
  cumulative_managed_session_count = 9;
  largest_managed_session_count = 5;
}

abbrev plain : ℕ → Service ℕ ℕ
plain address = record {
  ss = some server_socket;
  ssl_active = false;
  service_name = 7;
  bound_address = address;
}

abbrev server : Server ℕ ℕ
server = record {
  acceptor = idle_after;
  reuse_address = true;
  timeout = pos 0;
  bufsize = negsuc 0;
  work_threads = 3;
  listening_callback = true;
  services = plain 80 ∷ [];
  scheduled = [];
}

-- a listener that throws for the address 0, after it has taken the socket away
abbrev listener : Exec (Service ℕ ℕ) (Unit {0})
listener svc =
    if svc.bound_address == 0 then throws other_error (record svc { ss = none }) else ok tt svc

first-Bound : Bound false 7 (some listener) (81 ∷ []) (plain 81 ∷ [])
unfolding new_service listened
first-Bound = one_bound refl none_bound

bind_addresses-throws_example :
    bind_addresses (some (some 81 ∷ some 0 ∷ some 82 ∷ [])) false 7 (some listener) server
    ≡ throws other_error
        (record server { services = plain 80 ∷ plain 81 ∷ record (plain 0) { ss = none } ∷ [] })
unfolding new_service listened
bind_addresses-throws_example =
    bind_addresses-throws false 7 (some listener) server 0 (some 82 ∷ []) first-Bound refl

start-watched_example :
    (t : ℕ) × (balance 3 12 (negsuc 0) ≡ some (pos t))
    × (1 ≤ t)
    × (t < 3)
    × (balance 3 12 (tag_of {Name = ℕ} {Address = ℕ} (negsuc 0) (clean_fiber t)) ≡ some (pos t))
    × (watchers t (start (λ l. l) server).scheduled ≡ 1)
    × (watchers 0 (start (λ l. l) server).scheduled ≡ 0)
    × (balance 3 12 (tag_of (negsuc 0) (accept_fiber (plain 80))) ≡ some (pos 0))
    × (balance 3 12 (tag_of {Name = ℕ} {Address = ℕ} (negsuc 0) statistics_fiber) ≡ some (pos 0))
start-watched_example =
    start-watched ℕ ℕ (λ l. l) server 12 0 (plain 80) refl (omega arith) (omega arith) (omega arith)
      refl

-- nobody listens at the service's port on the local host
abbrev refused : Service ℕ ℕ → Exec (Server ℕ ℕ) (Unit {0})
refused svc = throws io_error

abbrev one_socket : List Wait
one_socket = record { outcome = socket; meanwhile = λ a. a } ∷ []
