-- ===== src/Gateway/Client/Sent.antt =====
-- What a call adds to the requests that went out: how many, and what they have in common.
use payvorax.Base.{
  ℕ, zero, suc, ◌+◌, ◌≤◌, ◌≡◌, refl, sym, ap, ◌∙◌, not, Option, none, some, List, [], ◌∷◌, ◌++◌,
  append_assoc, arith, if-holds, length, length-append,
}
use payvorax.Base.Query.{All}
use payvorax.Gateway.Breaker.{allow_request}
use payvorax.Gateway.Client.{
  Request, Wire, World, Client, Answer, attempt, attempts, max_attempts, make_request_retried,
}

-- Between two worlds at most `n` requests went out, and `P` holds for each of them.
pub record Added (P : Request → Type 0) (n : ℕ) (w w' : World) : Type 0 where
  pub requests : List (Request × Wire)
  pub sent : w'.sent ≡ requests ++ w.sent
  pub all : All (λ x. P x.0) requests
  pub count : length requests ≤ n

module _ (P : Request → Type 0) where
  pub none-Added : (n : ℕ) (w : World) → Added P n w w
  none-Added n w = record { requests = []; sent = refl; all = tt; count = omega arith }

  join-All :
      (xs ys : List (Request × Wire))
      → All (λ x. P x.0) xs
      → All (λ x. P x.0) ys
      → All (λ x. P x.0) (xs ++ ys)
  join-All [] ys h k = k
  join-All (x ∷ xs) ys h k = (h.0, join-All xs ys h.1 k)

  pub then-Added :
      (m n : ℕ) (w w' w'' : World) → Added P m w w' → Added P n w' w'' → Added P (m + n) w w''
  then-Added m n w w' w'' h k = record {
    requests = k.requests ++ h.requests;
    sent =
        k.sent ∙ ap (λ l. k.requests ++ l) h.sent ∙ sym (append_assoc k.requests h.requests w.sent);
    all = join-All k.requests h.requests k.all h.all;
    count = omega (arith, length-append k.requests h.requests, h.count, k.count);
  }

  pub more-Added : (m n : ℕ) (w w' : World) → m ≤ n → Added P m w w' → Added P n w w'
  more-Added m n w w' le h = record {
    requests = h.requests;
    sent = h.sent;
    all = h.all;
    count = omega (arith, h.count, le);
  }

module _ (P : Request → Type 0) (p : Client) (r : Request) (holds : P r) where
  attempt-Added : (w : World) → Added P 1 w (attempt p r w).1
  unfolding attempt
  attempt-Added w =
      if-holds (λ (o : Option Answer × World). Added P 1 w o.1)
        (not (allow_request (p.clock w.tries) w.breaker).0) _ _
        (λ _. record { requests = []; sent = refl; all = tt; count = omega arith })
        (λ _. record {
          requests = (r, p.send w.sent r) ∷ [];
          sent = refl;
          all = (holds, tt);
          count = omega arith;
        })

  retried-Added :
      (n : ℕ) (w : World) (o : Option Answer × World) (rest : Answer × World)
      → Added P 1 w o.1
      → Added P n o.1 rest.1
      → let end : Answer × World = elim o.0 [ some a ↦ (a, o.1) | none ↦ rest ] in
        Added P (1 + n) w end.1
  retried-Added n w (none, w') rest here there = then-Added P 1 n w w' rest.1 here there
  retried-Added n w (some a, w') rest here there = more-Added P 1 (1 + n) w w' (omega arith) here

  attempts-Added : (n : ℕ) (w : World) → Added P n w (attempts n p r w).1
  unfolding attempts
  attempts-Added zero w = none-Added P 0 w
  attempts-Added (suc n) w = more-Added P (1 + n) (suc n) w _ (omega arith) (
      retried-Added n w (attempt p r w) (attempts n p r (attempt p r w).1) (attempt-Added w)
        (attempts-Added n (attempt p r w).1))

  -- A request goes out three times at most, unchanged.
  pub request-Added : (w : World) → Added P 3 w (make_request_retried p r w).1
  unfolding make_request_retried
  request-Added w = attempts-Added max_attempts w
