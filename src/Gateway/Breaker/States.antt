-- ===== src/Gateway/Breaker/States.antt =====
-- The states of the circuit breaker.
use payvorax.Base.Query.{All}
use payvorax.Gateway.Breaker.{
  closed, CircuitBreaker, is_opened, read_state, allow_request, record_success, record_failure,
  Reply, record_reply, make_request, make_requests, half_open, opened, answered, unreadable,
  client_error, unavailable,
}
use payvorax.Base.{
  ℕ, ◌+◌, ◌≤◌, ◌<◌, ◌≡◌, refl, ap, ◌∙◌, ◌≢◌, Bool, false, not, ◌&&◌, List, [], ◌∷◌, arith, leb,
  if-holds,
}

-- A breaker is closed while fewer failures than the threshold have been counted, and only then.
pub record IsSound (c : CircuitBreaker) : Type 0 where
  pub closed_below : c.state ≡ closed → c.failure_count < c.failure_threshold
  pub tripped_above : c.state ≢ closed → c.failure_threshold ≤ c.failure_count
  pub positive : 0 < c.failure_threshold

read_state-IsSound : (now : ℕ) (c : CircuitBreaker) → IsSound c → IsSound (read_state now c)
unfolding read_state
read_state-IsSound now c h =
    if-holds IsSound (is_opened c.state && leb (c.last_failure_time + c.recovery_timeout) now) _ _
      (λ waited. record {
        closed_below = λ e. absurd (cc e);
        tripped_above = λ _. h.tripped_above (λ e. ground (arith, waited, e));
        positive = h.positive;
      })
      (λ _. h)

record_success-IsSound : (c : CircuitBreaker) → IsSound c → IsSound (record_success c)
unfolding record_success
record_success-IsSound c h = record {
  closed_below = λ _. h.positive;
  tripped_above = λ ne. absurd (ne refl);
  positive = h.positive;
}

record_failure-IsSound : (now : ℕ) (c : CircuitBreaker) → IsSound c → IsSound (record_failure now c)
unfolding record_failure
record_failure-IsSound now c h =
    if-holds IsSound (leb c.failure_threshold (c.failure_count + 1)) _ _
      (λ enough. record {
        closed_below = λ e. absurd (cc e);
        tripped_above = λ _. ground (arith, enough);
        positive = h.positive;
      })
      (λ few. record {
        closed_below = λ _. ground (arith, few);
        tripped_above = λ ne. omega (arith, h.tripped_above ne);
        positive = h.positive;
      })

record_reply-IsSound :
    (now : ℕ) (reply : Reply) (c : CircuitBreaker) → IsSound c → IsSound (record_reply now reply c)
unfolding record_reply
record_reply-IsSound now answered c h = record_success-IsSound c h
record_reply-IsSound now unreadable c h =
    record_failure-IsSound now (record_success c) (record_success-IsSound c h)
record_reply-IsSound now client_error c h = h
record_reply-IsSound now unavailable c h = record_failure-IsSound now c h

make_request-IsSound :
    (now : ℕ) (reply : Reply) (c : CircuitBreaker)
    → IsSound c
    → IsSound (make_request now reply c).1
unfolding make_request allow_request
make_request-IsSound now reply c h =
    let seen = read_state-IsSound now c h in
    if-holds (λ (o : Bool × CircuitBreaker). IsSound o.1) (not (is_opened (read_state now c).state))
      _ _ (λ _. record_reply-IsSound now reply (read_state now c) seen) (λ _. seen)

-- A breaker that is closed exactly while fewer failures than its positive threshold have been counted
-- is so after any requests at any times, however they end.
pub make_requests-IsSound :
    (rs : List (ℕ × Reply)) (c : CircuitBreaker) → IsSound c → IsSound (make_requests rs c)
make_requests-IsSound [] c h = h
make_requests-IsSound (r ∷ rs) c h =
    make_requests-IsSound rs (make_request r.0 r.1 c).1 (make_request-IsSound r.0 r.1 c h)

-- An open breaker turns away every request until the recovery time has passed, and no such request
-- changes it.
open_breaker_turns_away :
    (rs : List (ℕ × Reply)) (c : CircuitBreaker)
    → c.state ≡ opened
    → All (λ r. r.0 < c.last_failure_time + c.recovery_timeout) rs
    → (make_requests rs c ≡ c) × All (λ r. (make_request r.0 r.1 c).0 ≡ false) rs
unfolding make_request allow_request read_state
open_breaker_turns_away [] c h early = (refl, tt)
open_breaker_turns_away (r ∷ rs) c h early =
    let later = open_breaker_turns_away rs c h early.1 in
    let same : make_request r.0 r.1 c ≡ (false, c) = ground (arith, h, early.0) in
    (
      ap (λ (o : Bool × CircuitBreaker). make_requests rs o.1) same ∙ later.0,
      (ap (λ (o : Bool × CircuitBreaker). o.0) same, later.1),
    )

-- A probe of a half-open breaker that has counted enough failures: an answer closes it with no
-- failure counted, a failure opens it again at once.
probe_decides :
    (now : ℕ) (c : CircuitBreaker)
    → IsSound c
    → c.state ≡ half_open
    → ((make_request now answered c).1 ≡ record c { state = closed; failure_count = 0 })
      × ((make_request now unavailable c).1.state ≡ opened)
unfolding make_request allow_request read_state record_reply record_success record_failure
probe_decides now c sound half =
    let enough = sound.tripped_above (λ e. ground (arith, half, e)) in
    (ground (arith, half), ground (arith, half, enough))
