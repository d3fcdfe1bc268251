-- ===== src/Gateway/Client.antt =====
-- `AsaasAdapter` (app/adapters/asaas_adapter.py): its requests, their attempts, and the requests that
-- move or look up money. The HTTP library, its retries (tenacity), the codes of a device (pyotp) and
-- the reading of JSON and dates are parameters. A `null` in an answer is read as a missing field.
pub mod Attempts
pub mod Sent
use payvorax.Gateway.Breaker.{
  CircuitBreaker, allow_request, record_reply, unreadable, client_error, unavailable, Reply,
  answered,
}
use payvorax.Base.{ℕ, zero, suc, ◌+◌, not, Option, none, some, List, ◌∷◌, leb, if◌then◌else◌, Bool}
use payvorax.Base.Text.{Text}

-- `POST /pix/qrCodes/pay`
pub record CodeBody : Type 0 where
  pub qr_code : Text
  pub description : Text
  pub value : Option ℕ
  pub operation_key : Option Text

-- `POST /transfers`
pub record TransferBody : Type 0 where
  pub value : ℕ
  pub pix_key : Text
  pub pix_key_type : Text
  pub description : Text
  pub operation_key : Option Text

-- A request, with the idempotency key of its header. The others are reads and cancellations.
pub data Request : Type 0 where
  pay_code : CodeBody → Option Text → Request
  transfer : TransferBody → Option Text → Request
  read_payment read_charge delete_charge : Text → Request
  read_key : Text → Text → Request

-- The fields of an answer that the adapter reads, and whether it is `{}`; `pixTransaction` has a value
-- and a receiver.
pub record Body : Type 0 where
  pub is_empty : Bool
  pub id : Option Text
  pub status : Option Text
  pub value : Option ℕ
  pub end_to_end_id : Option Text
  pub date_created : Option Text
  pub pix_value : Option ℕ
  pub pix_receiver : Option Text

-- What a request meets: an answer, an answer whose body is not JSON, a status of 400 or more with
-- the error codes of its body (`none` if it cannot be read), a timeout or a failure of the network, or
-- another exception.
pub data Wire : Type 0 where
  received : Body → Wire
  garbled : Wire
  refused : ℕ → Option (List Text) → Wire
  timed_out : Wire
  broken : Wire

pub record World : Type 0 where
  pub sent : List (Request × Wire)
  pub breaker : CircuitBreaker
  pub tries : ℕ

-- The adapter's settings and what it is built on: the answer to the next request after those that
-- were sent, the clock at each attempt, `pyotp`, and `datetime.fromisoformat`.
pub record Client : Type 0 where
  pub totp_secret : Option Text
  pub operation_key : Option Text
  pub send : List (Request × Wire) → Request → Wire
  pub clock : ℕ → ℕ
  pub totp : ℕ → Text → Option Text
  pub from_iso : Text → Option ℕ

-- How `_make_request` ends: with the answer, with an `HTTPStatusError`, or with another exception.
pub data Answer : Type 0 where
  returned : Body → Answer
  status_error : ℕ → Option (List Text) → Answer
  no_answer : Answer

abbrev pub breaker_reply : Wire → Reply
breaker_reply (received x) = answered
breaker_reply garbled = unreadable
breaker_reply (refused status errors) = if leb 500 status then unavailable else client_error
breaker_reply timed_out = unavailable
breaker_reply broken = unavailable

-- Timeouts and failures of the network are tried again, `none`.
abbrev pub answer_of_wire : Wire → Option Answer
answer_of_wire (received x) = some (returned x)
answer_of_wire garbled = some no_answer
answer_of_wire (refused status errors) = some (status_error status errors)
answer_of_wire timed_out = none
answer_of_wire broken = some no_answer

-- One run of the body of `_make_request`. An open breaker counts as a failure of the network.
unfoldable pub attempt : Client → Request → World → Option Answer × World
unfolding allow_request record_reply
attempt p r w =
    let now = p.clock w.tries in
    let o = allow_request now w.breaker in
    if not o.0
    then (none, record w { breaker = o.1; tries = w.tries + 1 })
    else (let x = p.send w.sent r in
        (
          answer_of_wire x,
          record {
            sent = (r, x) ∷ w.sent;
            breaker = record_reply now (breaker_reply x) o.1;
            tries = w.tries + 1;
          },
        ))

-- `stop_after_attempt`; the last failure ends in a `RetryError`.
unfoldable pub attempts : ℕ → Client → Request → World → Answer × World
unfolding attempt
attempts zero p r w = (no_answer, w)
attempts (suc n) p r w =
    let o = attempt p r w in
    let rest = attempts n p r o.1 in elim o.0 [ some a ↦ (a, o.1) | none ↦ rest ]

abbrev pub max_attempts : ℕ
max_attempts = 3

-- `_make_request`
unfoldable pub make_request_retried : Client → Request → World → Answer × World
unfolding attempts
make_request_retried p r w = attempts max_attempts p r w
