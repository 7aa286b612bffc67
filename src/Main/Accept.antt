-- ===== src/Main/Accept.antt =====
-- src/main.rs: the accept loops, `run_tcp_dns` and `run_http_api_with_limits`. A connection holds a
-- permit of its loop's semaphore from its acceptance to its end. The loop of TCP takes the permit
-- before it accepts, and waits for one; that of HTTP accepts first, and drops a connection for which
-- no permit is left.
use safexip.Prelude.{
  ℕ, zero, suc, ◌+◌, ◌≤◌, ◌<◌, Bool, true, false, none, some, ◌≡◌, ◌⊎◌, ◌↔◌, inl, inr, refl, arith,
}
use safexip.Api.{try_acquire}

-- `MAX_CONNECTIONS`
abbrev pub max_tcp_connections : ℕ
max_tcp_connections = 1024

abbrev pub max_http_connections : ℕ
max_http_connections = 128

-- Where the loop of TCP stands: before `acquire_owned`, or before `accept` with a permit in hand.
pub data Phase : Type 0 where
  acquiring accepting : Phase

pub record TcpLoop : Type 0 where
  pub phase : Phase
  pub permits : ℕ
  pub connections : ℕ

pub data TcpStep (s : TcpLoop) : TcpLoop → Type 0 where
  acquire :
      {left : ℕ}
      → s.phase ≡ acquiring
      → s.permits ≡ suc left
      → TcpStep s (record s { phase = accepting; permits = left })
  -- The permit is dropped with the round.
  accept_error :
      s.phase ≡ accepting → TcpStep s (record s { phase = acquiring; permits = suc s.permits })
  accept :
      s.phase ≡ accepting
      → TcpStep s (record s { phase = acquiring; connections = suc s.connections })
  close_tcp :
      {others : ℕ}
      → s.connections ≡ suc others
      → TcpStep s (record s { permits = suc s.permits; connections = others })

pub data TcpReach (s : TcpLoop) : TcpLoop → Type 0 where
  tcp_here : TcpReach s s
  tcp_next : {t u : TcpLoop} → TcpReach s t → TcpStep t u → TcpReach s u

abbrev pub opened_tcp : TcpLoop
opened_tcp = record { phase = acquiring; permits = max_tcp_connections; connections = 0 }

abbrev pub in_hand : Phase → ℕ
in_hand acquiring = 0
in_hand accepting = 1

TcpStep-total :
    (s t : TcpLoop)
    → s.connections + s.permits + in_hand s.phase ≡ max_tcp_connections
    → TcpStep s t
    → t.connections + t.permits + in_hand t.phase ≡ max_tcp_connections
TcpStep-total s t e (acquire p q) = ground arith
TcpStep-total s t e (accept_error p) = ground arith
TcpStep-total s t e (accept p) = ground arith
TcpStep-total s t e (close_tcp q) = ground arith

TcpReach-total :
    (t : TcpLoop)
    → TcpReach opened_tcp t
    → t.connections + t.permits + in_hand t.phase ≡ max_tcp_connections
TcpReach-total t tcp_here = refl
TcpReach-total t (tcp_next {t = s} r step) = TcpStep-total s t (TcpReach-total s r) step

-- The loop accepts, or can take a permit, or all the permits are with connections.
not_stuck :
    (t : TcpLoop) (phase : Phase) (permits : ℕ)
    → t.phase ≡ phase
    → t.permits ≡ permits
    → t.connections + t.permits + in_hand t.phase ≡ max_tcp_connections
    → (t.phase ≡ accepting)
      ⊎ ((left : ℕ) × TcpStep t (record t { phase = accepting; permits = left }))
      ⊎ (t.connections ≡ max_tcp_connections)
not_stuck t accepting permits p q e = inl p
not_stuck t acquiring (suc left) p q e = inr (inl (left, acquire p q))
not_stuck t acquiring zero p q e = inr (inr (ground arith))

-- However the loop that accepts TCP connections runs and connections end: the open connections, the
-- permits left and the one in the loop's hand are 1024 together, at most 1024 connections are open,
-- and the loop can accept, or it can take a permit, or 1024 connections are open.
pub run_tcp_dns_bound :
    (t : TcpLoop)
    → TcpReach opened_tcp t
    → (t.connections + t.permits + in_hand t.phase ≡ max_tcp_connections)
      × (t.connections ≤ max_tcp_connections)
      × ((t.phase ≡ accepting)
          ⊎ ((left : ℕ) × TcpStep t (record t { phase = accepting; permits = left }))
          ⊎ (t.connections ≡ max_tcp_connections))
run_tcp_dns_bound t r =
    let same = TcpReach-total t r in
    (same, omega (arith, same), not_stuck t t.phase t.permits refl refl same)

pub record HttpLoop : Type 0 where
  pub permits : ℕ
  pub connections : ℕ

-- What the loop does with an accepted stream, and whether the connection is served.
unfoldable pub take_stream : HttpLoop → Bool × HttpLoop
take_stream s = elim (try_acquire s.permits) [
  | none ↦ (false, s)
  | some left ↦ (true, record { permits = left; connections = suc s.connections })
]

pub data HttpStep (s : HttpLoop) : HttpLoop → Type 0 where
  http_accept_error : HttpStep s s
  take : HttpStep s (take_stream s).1
  close_http :
      {others : ℕ}
      → s.connections ≡ suc others
      → HttpStep s (record { permits = suc s.permits; connections = others })

pub data HttpReach (s : HttpLoop) : HttpLoop → Type 0 where
  http_here : HttpReach s s
  http_next : {t u : HttpLoop} → HttpReach s t → HttpStep t u → HttpReach s u

abbrev pub opened_http : ℕ → HttpLoop
opened_http max_connections = record { permits = max_connections; connections = 0 }

take_stream-total :
    (s : HttpLoop)
    → ((take_stream s).1.connections + (take_stream s).1.permits ≡ s.connections + s.permits)
      × (((take_stream s).0 ≡ true) ↔ (0 < s.permits))
unfolding take_stream
take_stream-total s = ground arith

HttpReach-total :
    (limit : ℕ) (t : HttpLoop) → HttpReach (opened_http limit) t → t.connections + t.permits ≡ limit
HttpReach-total limit t http_here = omega arith
HttpReach-total limit t (http_next {t = s} r http_accept_error) = HttpReach-total limit s r
HttpReach-total limit t (http_next {t = s} r take) =
    omega (arith, HttpReach-total limit s r, (take_stream-total s).0)
HttpReach-total limit t (http_next {t = s} r (close_http e)) =
    omega (arith, HttpReach-total limit s r, e)

-- However the loop that accepts HTTP connections runs and connections end: the open connections and
-- the permits left are the limit together, at most that many connections are open, and a stream
-- that is accepted is served exactly if fewer are.
pub run_http_api_bound :
    (limit : ℕ) (t : HttpLoop)
    → HttpReach (opened_http limit) t
    → (t.connections + t.permits ≡ limit)
      × (t.connections ≤ limit)
      × (((take_stream t).0 ≡ true) ↔ (t.connections < limit))
run_http_api_bound limit t r =
    let same = HttpReach-total limit t r in
    let (only, if_left) = (take_stream-total t).1 in
    (
      same,
      omega (arith, same),
      (λ e. omega (arith, same, only e), λ below. if_left (omega (arith, same, below))),
    )
