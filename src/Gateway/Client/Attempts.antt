-- ===== src/Gateway/Client/Attempts.antt =====
-- A request that is tried again is answered positively once at most. A request without an answer may
-- have been carried out all the same; what its idempotency key does is in Client/Sent and PayCode/Keys.
use payvorax.Gateway.Client.{
  Client, Request, Body, Wire, World, Answer, pay_code, transfer, received, garbled, refused,
  timed_out, broken, returned, attempt, attempts, max_attempts, make_request_retried,
  answer_of_wire,
}
use payvorax.Base.{
  ℕ, zero, suc, ◌+◌, ◌≡◌, refl, Bool, true, false, not, ◌&&◌, Option, none, some, List, ◌∷◌, arith,
  if-holds,
}
use payvorax.Base.Query.{sum_where}
use payvorax.Gateway.Breaker.{allow_request}
use payvorax.Gateway.PayCode.{amount_in}
use payvorax.Gateway.Transfers.{processed_at}

abbrev pub is_payment : Request → Bool
is_payment (pay_code body key) = true
is_payment (transfer body key) = true
is_payment _ = false

-- A request for a payment got a positive answer, whether that can be read or not.
abbrev pub is_answered : Request × Wire → Bool
is_answered (r, received x) = is_payment r
is_answered (r, garbled) = is_payment r
is_answered (r, _) = false

-- How many of the requests for payments that went out got a positive answer.
abbrev pub answered : World → ℕ
answered w = sum_where is_answered (λ o. 1) w.sent

abbrev pub is_some {ℓ} : {A : Type ℓ} → Option A → Bool
is_some none = false
is_some (some x) = true

-- An answer as the gateway documents it: the date, if there is one, can be read, and there is an
-- amount.
abbrev pub is_complete : Client → Body → Bool
is_complete p x = is_some (processed_at p x.date_created) && is_some (amount_in x)

abbrev pub is_documented : Client → Wire → Bool
is_documented p (received x) = is_complete p x
is_documented p garbled = false
is_documented p _ = true

abbrev pub answer_complete : Client → Answer → Bool
answer_complete p (returned x) = is_complete p x
answer_complete p _ = true

abbrev pub got : Answer → ℕ
got (returned x) = 1
got _ = 0

abbrev got_one : Option Answer → ℕ
got_one none = 0
got_one (some a) = got a

abbrev one_complete : Client → Option Answer → Bool
one_complete p none = true
one_complete p (some a) = answer_complete p a

wire-answered :
    (p : Client) (r : Request) (x : Wire) (sent : List (Request × Wire))
    → is_payment r ≡ true
    → is_documented p x ≡ true
    → (sum_where is_answered (λ o. 1) ((r, x) ∷ sent)
        ≡ sum_where is_answered (λ o. 1) sent + got_one (answer_of_wire x))
      × (one_complete p (answer_of_wire x) ≡ true)
wire-answered p r (received x) sent pays fine = (ground (arith, pays), fine)
wire-answered p r garbled sent pays fine = cc
wire-answered p r (refused n errors) sent pays fine = (ground arith, refl)
wire-answered p r timed_out sent pays fine = (ground arith, refl)
wire-answered p r broken sent pays fine = (ground arith, refl)

module _ (p : Client) (r : Request) (pays : is_payment r ≡ true)
    (documented : (sent : List (Request × Wire)) (q : Request)
      → is_documented p (p.send sent q) ≡ true) where
  attempt-answered :
      (w : World)
      → (answered (attempt p r w).1 ≡ answered w + got_one (attempt p r w).0)
        × (one_complete p (attempt p r w).0 ≡ true)
  unfolding attempt
  attempt-answered w =
      if-holds
        (λ (o : Option Answer × World).
          (answered o.1 ≡ answered w + got_one o.0) × (one_complete p o.0 ≡ true))
        (not (allow_request (p.clock w.tries) w.breaker).0) _ _ (λ _. (ground arith, refl))
        (λ _. wire-answered p r (p.send w.sent r) w.sent pays (documented w.sent r))

  -- One more attempt, or the end.
  retried :
      (w : World) (o : Option Answer × World) (rest : Answer × World)
      → (answered o.1 ≡ answered w + got_one o.0) × (one_complete p o.0 ≡ true)
      → (answered rest.1 ≡ answered o.1 + got rest.0) × (answer_complete p rest.0 ≡ true)
      → let end : Answer × World = elim o.0 [ some a ↦ (a, o.1) | none ↦ rest ] in
        (answered end.1 ≡ answered w + got end.0) × (answer_complete p end.0 ≡ true)
  retried w (none, w') rest here there = (ground (arith, here.0, there.0), there.1)
  retried w (some a, w') rest here there = here

  attempts-answered :
      (n : ℕ) (w : World)
      → (answered (attempts n p r w).1 ≡ answered w + got (attempts n p r w).0)
        × (answer_complete p (attempts n p r w).0 ≡ true)
  unfolding attempts
  attempts-answered zero w = (ground arith, refl)
  attempts-answered (suc n) w =
      retried w (attempt p r w) (attempts n p r (attempt p r w).1) (attempt-answered w)
        (attempts-answered n (attempt p r w).1)

  -- One of the tries got a positive answer if the call returns, and else none.
  pub request-answered :
      (w : World)
      → (answered (make_request_retried p r w).1 ≡ answered w + got (make_request_retried p r w).0)
        × (answer_complete p (make_request_retried p r w).0 ≡ true)
  unfolding make_request_retried
  request-answered w = attempts-answered max_attempts w
