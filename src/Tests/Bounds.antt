-- ===== src/Tests/Bounds.antt =====
-- Spans of time, rounds of loops and limits, at small inputs.
use safexip.Prelude.{
  ℕ, ◌+◌, ◌-◌, ◌*◌, ◌≤◌, ◌<◌, true, [], ◌∷◌, ◌≡◌, ◌⊎◌, ◌↔◌, refl, arith, leb, Bool,
}
use safexip.Api.{TokenBucket}
use safexip.Api.Gate.{check_all}
use safexip.Api.Window.{exact, billion, request_rate, count_true, window_bound}
use safexip.Wire.Search.{grow, bisect, settle, maximum}
use safexip.Wire.Rounds.{search_rounds}
use safexip.Main.Accept.{
  TcpLoop, TcpStep, tcp_here, tcp_next, acquire, accept, accepting, in_hand, max_tcp_connections,
  run_tcp_dns_bound, HttpLoop, http_here, http_next, take, take_stream, run_http_api_bound,
}

-- The bucket of the router, when it has one token left.
abbrev bucket : TokenBucket ℕ
bucket = record {
  tokens = billion;
  last_refill = 3;
  rate_per_second = request_rate * billion;
  burst = 100 * billion;
}

window_bound_example :
    count_true (check_all exact (4 ∷ 5 ∷ 6 ∷ []) bucket).0 * billion
    ≤ bucket.burst + request_rate * (9 - 4)
window_bound_example =
    window_bound 4 (5 ∷ 6 ∷ []) 9 bucket refl (omega arith, (omega arith, omega arith))

abbrev up_to_nine : ℕ → Bool
up_to_nine n = leb n 9

search_rounds_example :
    (let (low, high) = grow up_to_nine 17 0 1 in settle up_to_nine (bisect up_to_nine 20 low high))
    ≡ maximum up_to_nine
search_rounds_example = search_rounds up_to_nine 17 20 (omega arith) (omega arith)

-- One connection, and a permit for the next.
abbrev one_open : TcpLoop
one_open = record { phase = accepting; permits = 1022; connections = 1 }

run_tcp_dns_bound_example :
    (one_open.connections + one_open.permits + in_hand one_open.phase ≡ max_tcp_connections)
    × (one_open.connections ≤ max_tcp_connections)
    × ((one_open.phase ≡ accepting)
        ⊎ ((left : ℕ) × TcpStep one_open (record one_open { phase = accepting; permits = left }))
        ⊎ (one_open.connections ≡ max_tcp_connections))
run_tcp_dns_bound_example =
    run_tcp_dns_bound one_open (
      tcp_next (tcp_next (tcp_next tcp_here (acquire refl refl)) (accept refl)) (acquire refl refl))

-- Both connections of a loop that allows two.
abbrev full : HttpLoop
full = record { permits = 0; connections = 2 }

run_http_api_bound_example :
    (full.connections + full.permits ≡ 2)
    × (full.connections ≤ 2)
    × (((take_stream full).0 ≡ true) ↔ (full.connections < 2))
unfolding take_stream
run_http_api_bound_example = run_http_api_bound 2 full (http_next (http_next http_here take) take)
