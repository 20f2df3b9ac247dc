-- ===== src/Session/Examples.antt =====
-- The theorem on a session's counters at a service of two threads.
use cxx_conet.Prelude.{some}
use cxx_conet.Statistics.{new_statistics}
use cxx_conet.Statistics.Sample.{whole_numbers}
use cxx_conet.Session.{World, new_session}

abbrev world : World whole_numbers (Unit {0})
world = record {
  session = new_session 7 100 0;
  statistics = new_statistics whole_numbers 2;
  thread = some 1;
  clock = 200;
  user = tt;
}
