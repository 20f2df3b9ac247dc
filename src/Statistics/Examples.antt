-- ===== src/Statistics/Examples.antt =====
-- The theorems on the counters of a service at two threads.
use cxx_conet.Prelude.{ℕ, ◌%◌, ◌^◌, ◌≡◌}
use cxx_conet.Statistics.{Gauge, Statistics, new_statistics, update_throughput}
use cxx_conet.Statistics.Sample.{whole_numbers}
use cxx_conet.Statistics.Totals.{total, latest, update_throughput-totals}

abbrev service : Statistics whole_numbers
service = new_statistics whole_numbers 2

update_throughput-totals_example :
    let u = update_throughput 1000 service in
    (u.read_bytes.count ≡ total (λ t. t.read_bytes) service.threads % 2 ^ 64)
    × (u.written_bytes.count ≡ total (λ t. t.written_bytes) service.threads % 2 ^ 64)
    × (u.read_messages.count ≡ total (λ t. t.read_messages) service.threads % 2 ^ 64)
    × (u.written_messages.count ≡ total (λ t. t.written_messages) service.threads % 2 ^ 64)
    × (u.last_read_time ≡ latest (λ t. t.last_read_time) service.threads service.last_read_time)
    × (u.last_write_time ≡ latest (λ t. t.last_write_time) service.threads service.last_write_time)
update_throughput-totals_example = update_throughput-totals {F = whole_numbers} 1000 service

abbrev slow : Gauge ℕ
slow = record { count = 10; last_count = 10; throughput = 2; largest = 5 }
