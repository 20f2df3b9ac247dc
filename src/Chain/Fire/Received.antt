-- ===== src/Chain/Fire/Received.antt =====
-- A received message is counted in the session and in the service before any filter sees it.
use mathlib.Core.Path.{subst, subst⁻¹}
use cxx_conet.Prelude.{
  ℕ, zero, suc, ◌+◌, ◌%◌, ◌^◌, ◌<◌, ◌≡◌, refl, ap, ◌∙◌, Option, none, some, List, [], ◌∷◌, set,
  get_elem?, arith, length, pos,
}
use cxx_conet.Prelude.Exec.{ok, pure}
use cxx_conet.Prelude.Containers.{NameMap}
use cxx_conet.Filter.{Filter, adapter}
use cxx_conet.Statistics
use cxx_conet.Statistics.{Doubles, ThreadThroughput, Statistics, add64, at_thread}
use cxx_conet.Statistics.Totals.{total, total-set, get_elem?-some}
use cxx_conet.Session.{Session, World, read_more, increase_read_bytes, increase_read_messages}
use cxx_conet.Session.Counting.{on_statistics-ok}
use cxx_conet.Chain.{Ptr, Chain}
use cxx_conet.Chain.Linked.{Cell}
use cxx_conet.Chain.Represents.{IsChain}
use cxx_conet.Chain.Fire.{fire_message_received, count_received}
use cxx_conet.Chain.Fire.Order.{through, fire_message_received-through}

-- the bytes of a message that is a buffer, none of any other
abbrev pub bytes_of : Option ℕ → ℕ
bytes_of none = 0
bytes_of (some n) = n

length-set :
    (ts : List ThreadThroughput) (i : ℕ) (t : ThreadThroughput) → length (set ts i t) ≡ length ts
length-set [] i t = refl
length-set (x ∷ ts) zero t = refl
length-set (x ∷ ts) (suc i) t = ap suc (length-set ts i t)

-- what a change of one thread adds to the total of a field
total-changed :
    (f : ThreadThroughput → ℕ) (ts : List ThreadThroughput) (i n : ℕ) (t u : ThreadThroughput)
    → get_elem? ts i ≡ some t
    → f u % 2 ^ 64 ≡ (f t + n) % 2 ^ 64
    → total f (set ts i u) % 2 ^ 64 ≡ (total f ts + n) % 2 ^ 64
total-changed f ts i n t u at more = omega (arith, total-set f ts i t u at, more)

module _ {F : Doubles} {U : Type 0} where
  -- From `w` to `w'` so many bytes and messages have been counted: in the session and over the threads of
  -- the service, modulo 2 ^ 64.
  pub record Counted (bytes messages : ℕ) (w w' : World F U) : Type 0 where
    pub session_bytes : w'.session.read_bytes % 2 ^ 64 ≡ (w.session.read_bytes + bytes) % 2 ^ 64
    pub session_messages :
        w'.session.read_messages % 2 ^ 64 ≡ (w.session.read_messages + messages) % 2 ^ 64
    pub service_bytes :
        total (λ t. t.read_bytes) w'.statistics.threads % 2 ^ 64
        ≡ (total (λ t. t.read_bytes) w.statistics.threads + bytes) % 2 ^ 64
    pub service_messages :
        total (λ t. t.read_messages) w'.statistics.threads % 2 ^ 64
        ≡ (total (λ t. t.read_messages) w.statistics.threads + messages) % 2 ^ 64
    pub same_threads : length w'.statistics.threads ≡ length w.statistics.threads
    pub same_thread : w'.thread ≡ w.thread
    pub same_clock : w'.clock ≡ w.clock
    pub same_user : w'.user ≡ w.user

  Counted-trans :
      {b1 m1 b2 m2 : ℕ} {w w1 w2 : World F U}
      → Counted b1 m1 w w1
      → Counted b2 m2 w1 w2
      → Counted (b1 + b2) (m1 + m2) w w2
  Counted-trans one two = record {
    session_bytes = omega (arith, one.session_bytes, two.session_bytes);
    session_messages = omega (arith, one.session_messages, two.session_messages);
    service_bytes = omega (arith, one.service_bytes, two.service_bytes);
    service_messages = omega (arith, one.service_messages, two.service_messages);
    same_threads = two.same_threads ∙ one.same_threads;
    same_thread = two.same_thread ∙ one.same_thread;
    same_clock = two.same_clock ∙ one.same_clock;
    same_user = two.same_user ∙ one.same_user;
  }

  increase_read_messages-Counted :
      (i now : ℕ) (w : World F U)
      → w.thread ≡ some i
      → i < length w.statistics.threads
      → (w' : World F U) × (increase_read_messages now w ≡ ok tt w')
        × Counted 0 1 w w'
        × (w'.session.last_read_time ≡ now)
  unfolding increase_read_messages add64 Statistics.increase_read_messages
  increase_read_messages-Counted i now w on h =
      let (t, at) = get_elem?-some w.statistics.threads i h in
      let u : ThreadThroughput = record t {
        read_messages = add64 t.read_messages 1;
        last_read_time = now;
      } in
      let session' : Session = record w.session {
        read_messages = (w.session.read_messages + 1) % 2 ^ 64;
        last_read_time = now;
      } in
      let s' : Statistics F = record w.statistics { threads = set w.statistics.threads i u } in
      let w' : World F U = record w { session = session'; statistics = s' } in
      let ran : Statistics.increase_read_messages w.thread now w.statistics ≡ ok tt s' =
        rw on (rw (at, at_thread) refl) in
      (
        w',
        on_statistics-ok (Statistics.increase_read_messages w.thread now)
            (record w { session = session' }) s' ran,
        record {
          session_bytes = omega arith;
          session_messages = omega arith;
          service_bytes =
              total-changed (λ t. t.read_bytes) w.statistics.threads i 0 t u at (omega arith);
          service_messages =
              total-changed (λ t. t.read_messages) w.statistics.threads i 1 t u at (omega arith);
          same_threads = length-set w.statistics.threads i u;
          same_thread = refl;
          same_clock = refl;
          same_user = refl;
        },
        refl,
      )

  increase_read_bytes-Counted :
      (i n now : ℕ) (w : World F U)
      → w.thread ≡ some i
      → i < length w.statistics.threads
      → (w' : World F U) × (increase_read_bytes (pos n) now w ≡ ok tt w') × Counted n 0 w w'
  unfolding increase_read_bytes read_more add64 Statistics.increase_read_bytes
  increase_read_bytes-Counted i zero now w on h = (
    w,
    refl,
    record {
      session_bytes = omega arith;
      session_messages = omega arith;
      service_bytes = omega arith;
      service_messages = omega arith;
      same_threads = refl;
      same_thread = refl;
      same_clock = refl;
      same_user = refl;
    },
  )
  increase_read_bytes-Counted i (suc n) now w on h =
      let (t, at) = get_elem?-some w.statistics.threads i h in
      let u : ThreadThroughput = record t {
        read_bytes = add64 t.read_bytes (suc n);
        last_read_time = now;
      } in
      let session' : Session = record w.session {
        read_bytes = (w.session.read_bytes + suc n) % 2 ^ 64;
        last_read_time = now;
      } in
      let s' : Statistics F = record w.statistics { threads = set w.statistics.threads i u } in
      let w' : World F U = record w { session = session'; statistics = s' } in
      let ran : Statistics.increase_read_bytes w.thread (suc n) now w.statistics ≡ ok tt s' =
        rw on (rw (at, at_thread) refl) in
      (
        w',
        on_statistics-ok (Statistics.increase_read_bytes w.thread (suc n) now)
            (record w { session = session' }) s' ran,
        record {
          session_bytes = omega arith;
          session_messages = omega arith;
          service_bytes =
              total-changed (λ t. t.read_bytes) w.statistics.threads i (suc n) t u at (omega arith);
          service_messages =
              total-changed (λ t. t.read_messages) w.statistics.threads i 0 t u at (omega arith);
          same_threads = length-set w.statistics.threads i u;
          same_thread = refl;
          same_clock = refl;
          same_user = refl;
        },
      )

module _ {F : Doubles} {U Message : Type 0} (remaining file_length : Message → Option ℕ) where
  count_received-Counted :
      (i : ℕ) (m : Message) (w : World F U)
      → w.thread ≡ some i
      → i < length w.statistics.threads
      → (w' : World F U) × (count_received remaining file_length (some m) w ≡ ok tt w')
        × Counted (bytes_of (remaining m)) 1 w w'
        × (w'.session.last_read_time ≡ w.clock)
  unfolding count_received
  count_received-Counted i m w on h = of_size (remaining m) refl
    where
      of_size :
          (size : Option ℕ)
          → remaining m ≡ size
          → (w' : World F U) × (count_received remaining file_length (some m) w ≡ ok tt w')
            × Counted (bytes_of (remaining m)) 1 w w'
            × (w'.session.last_read_time ≡ w.clock)
      of_size none is =
          let (w', ran, counts, last) = increase_read_messages-Counted i w.clock w on h in
          (
            w',
            rw (is, count_received) ran,
            subst⁻¹ (λ o. Counted (bytes_of o) 1 w w') is counts,
            last,
          )
      of_size (some n) is =
          let (w1, read, bytes) = increase_read_bytes-Counted i n w.clock w on h in
          let (w2, ran, counts, last) =
            increase_read_messages-Counted i w.clock w1 (bytes.same_thread ∙ on)
              (omega (arith, h, bytes.same_threads)) in
          (
            w2,
            rw (is, count_received) (rw read ran),
            subst⁻¹ (λ o. Counted (bytes_of o) 1 w w2) is
                (subst (λ b. Counted b 1 w w2) (omega arith) (Counted-trans bytes counts)),
            last,
          )

  module _ (filters : Ptr → Filter (World F U) Message) where
    -- A message that is received by a fiber on one of the service's threads passes the filters of the
    -- list in its order, in a world where it has been counted once: in the session and over the threads
    -- of the service one message more and as many bytes as remain in it if it is a buffer, modulo 2 ^ 64,
    -- and the session's last read is now. A null passes the same filters, with nothing counted. Fuel
    -- above the number of entries is enough, and the adapters at the two ends change nothing.
    pub fire_message_received-Counted :
        {N : NameMap Ptr} {c : Chain N} {front back : Cell} {xs : List Cell} (fuel i : ℕ)
        (m : Message) (w : World F U)
        → IsChain c front back xs
        → length xs + 2 < fuel
        → filters front.filter ≡ adapter
        → filters back.filter ≡ adapter
        → w.thread ≡ some i
        → i < length w.statistics.threads
        → (w' : World F U) × (fire_message_received filters remaining file_length fuel c (some m) w
            ≡ through filters (λ m. pure m) (λ f next. f.message_received next) xs (some m) w')
          × Counted (bytes_of (remaining m)) 1 w w'
          × (w'.session.last_read_time ≡ w.clock)
          × (fire_message_received filters remaining file_length fuel c none w
              ≡ through filters (λ m. pure m) (λ f next. f.message_received next) xs none w)
    unfolding count_received
    fire_message_received-Counted fuel i m w is enough on_front on_back on h =
        let (w', ran, counts, last) = count_received-Counted i m w on h in
        (
          w',
          ap (λ r. r w)
                (fire_message_received-through filters remaining file_length fuel (some m) is enough
                  on_front on_back)
              ∙ rw ran refl,
          counts,
          last,
          ap (λ r. r w)
              (fire_message_received-through filters remaining file_length fuel none is enough
                on_front on_back),
        )
