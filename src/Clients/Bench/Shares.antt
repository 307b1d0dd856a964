-- ===== src/Clients/Bench/Shares.antt =====
-- The clients' shares of the requests.
use rustkv_lab.Prelude.{
  ℕ, zero, suc, ◌+◌, ◌*◌, ◌/◌, ◌%◌, ◌<◌, ◌≡◌, min, arith, ltb, ◌^◌, refl, List, [], ◌∷◌, map,
  if◌then◌else◌,
}
use rustkv_lab.Clients.Response.{received}
use rustkv_lab.Clients.Bench.{WorkerStats, no_stats, requests_for_client, join_workers}

-- The shares of the first `n` clients together.
abbrev pub total_of : ℕ → (ℕ → ℕ) → ℕ
total_of zero share = 0
total_of (suc n) share = total_of n share + share n

shares_of :
    (base remainder n : ℕ)
    → total_of n (λ id. if ltb id remainder then base + 1 else base) ≡ n * base + min n remainder
shares_of base remainder zero = omega arith
shares_of base remainder (suc n) = grind (arith, shares_of base remainder n)

-- The clients together send the number of requests that was asked for.
pub requests_for_client-total :
    (total clients : ℕ) → 0 < clients → total_of clients (requests_for_client total clients) ≡ total
unfolding requests_for_client
requests_for_client-total total clients pos =
    grind (arith, shares_of (total / clients) (total % clients) clients)

abbrev pub completed_sum : List WorkerStats → ℕ
completed_sum [] = 0
completed_sum (stats ∷ results) = stats.completed + completed_sum results

join_workers-sum :
    (results : List WorkerStats) (aggregate : WorkerStats)
    → aggregate.completed + completed_sum results < 2 ^ 64
    → (stats : WorkerStats) × (join_workers (map received results) aggregate ≡ received stats)
      × (stats.completed ≡ aggregate.completed + completed_sum results)
unfolding join_workers
join_workers-sum [] aggregate h = (aggregate, refl, omega arith)
join_workers-sum (s ∷ results) aggregate h =
    let (stats, e, f) =
      join_workers-sum results
        (record {
          completed = (aggregate.completed + s.completed) % 2 ^ 64;
          total_latency_nanos = (aggregate.total_latency_nanos + s.total_latency_nanos) % 2 ^ 128;
        })
        (omega arith) in
    (stats, e, omega (arith, f))

-- If the workers, of which there is one at least, complete as many requests together as their
-- shares, the benchmark reports the number of requests that was asked for, which is below 2^64.
pub join_workers-total :
    (total clients : ℕ) (results : List WorkerStats)
    → 0 < clients
    → total < 2 ^ 64
    → completed_sum results ≡ total_of clients (requests_for_client total clients)
    → (stats : WorkerStats) × (join_workers (map received results) no_stats ≡ received stats)
      × (stats.completed ≡ total)
join_workers-total total clients results pos fits e =
    let shares = requests_for_client-total total clients pos in
    let (stats, f, g) = join_workers-sum results no_stats (omega (arith, e, shares)) in
    (stats, f, omega (arith, e, shares, g))
