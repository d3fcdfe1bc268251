-- ===== src/Gateway/Breaker.antt =====
-- `CircuitBreaker` and `AsaasAdapter._make_request` (app/adapters/asaas_adapter.py). Times are in
-- seconds. The retries around an attempt are in Gateway.Client.
pub mod States
use payvorax.Base.{ℕ, ◌+◌, Bool, true, false, not, ◌&&◌, List, [], ◌∷◌, leb, if◌then◌else◌}

pub data BreakerState : Type 0 where
  closed half_open opened : BreakerState

pub record CircuitBreaker : Type 0 where
  pub failure_threshold : ℕ
  pub recovery_timeout : ℕ
  pub failure_count : ℕ
  pub last_failure_time : ℕ
  pub state : BreakerState

abbrev pub new_breaker : ℕ → ℕ → CircuitBreaker
new_breaker failure_threshold recovery_timeout = record {
  failure_threshold = failure_threshold;
  recovery_timeout = recovery_timeout;
  failure_count = 0;
  last_failure_time = 0;
  state = closed;
}

abbrev pub is_opened : BreakerState → Bool
is_opened opened = true
is_opened _ = false

-- The property `state`: an open breaker that has waited long enough is half open from then on.
unfoldable pub read_state : ℕ → CircuitBreaker → CircuitBreaker
read_state now c =
    if is_opened c.state && leb (c.last_failure_time + c.recovery_timeout) now
    then record c { state = half_open }
    else c

-- `allow_request`
unfoldable pub allow_request : ℕ → CircuitBreaker → Bool × CircuitBreaker
unfolding read_state
allow_request now c = let c' = read_state now c in (not (is_opened c'.state), c')

-- `record_success`
unfoldable pub record_success : CircuitBreaker → CircuitBreaker
record_success c = record c { failure_count = 0; state = closed }

-- `record_failure`
unfoldable pub record_failure : ℕ → CircuitBreaker → CircuitBreaker
record_failure now c =
    if leb c.failure_threshold (c.failure_count + 1)
    then record c { failure_count = c.failure_count + 1; last_failure_time = now; state = opened }
    else record c { failure_count = c.failure_count + 1; last_failure_time = now }

-- How a request ends: with an answer, with an answer whose body cannot be read, with a refusal (4xx),
-- or with a server error, a timeout or another exception.
pub data Reply : Type 0 where
  answered unreadable client_error unavailable : Reply

unfoldable pub record_reply : ℕ → Reply → CircuitBreaker → CircuitBreaker
unfolding record_success record_failure
record_reply now answered c = record_success c
record_reply now unreadable c = record_failure now (record_success c)
record_reply now client_error c = c
record_reply now unavailable c = record_failure now c

-- One attempt of `_make_request`: whether the request goes out, and the breaker afterwards.
unfoldable pub make_request : ℕ → Reply → CircuitBreaker → Bool × CircuitBreaker
unfolding allow_request record_reply
make_request now reply c =
    let o = allow_request now c in if o.0 then (true, record_reply now reply o.1) else o

-- Attempts, each with its time and its end.
abbrev pub make_requests : List (ℕ × Reply) → CircuitBreaker → CircuitBreaker
make_requests [] c = c
make_requests (r ∷ rs) c = make_requests rs (make_request r.0 r.1 c).1
