-- ===== src/Gateway/PayCode/Keys.antt =====
-- The idempotency key of the requests for a scanned code: where the caller gives one, every request
-- carries it.
use payvorax.Gateway.Transfers.{
  failed, expired, gateway_key_type, get_operation_key, Receipt, Fault, PaymentEnd, or_text,
  create_pix_payment, http_error, no_key, no_amount, unreadable_answer,
}
use payvorax.Gateway.PayCode.{
  description_of, or_amount, key_type_text, CodeReading, CodeOrder, key_for, pay_canonical,
  resolved_amount, transfer_resolved, pay_resolved, or_resolved, pay_dynamic, pay_static,
  pay_by_url, pay_fallback, has_parse_error, after_first, pay_qr_code,
}
use payvorax.Base.{
  ℕ, zero, suc, ◌≡◌, ap, ◌⊎◌, inl, inr, Option, none, some, [], ◌∷◌, ◌++◌, arith, ltb, if-holds,
  option-holds, length, take,
}
use payvorax.Base.Text.{Text, codes, text_eq, strip}
use payvorax.Emv.Keys.{KeyKind, key_kind}
use payvorax.Gateway.Client.{
  CodeBody, TransferBody, Request, World, Client, Answer, pay_code, transfer, returned,
  status_error, no_answer, make_request_retried,
}
use payvorax.Gateway.Client.Sent.{Added, none-Added, then-Added, more-Added, request-Added}
use payvorax.Gateway.CodePage.{PageCharge, Libraries, Loaded, is_closed, loaded, not_loaded}

-- A request for a payment with the idempotency key `key`.
abbrev pub Carries : Text → Request → Type 0
Carries key r =
    ((body : CodeBody) × (r ≡ pay_code body (some key)))
    ⊎ ((body : TransferBody) × (r ≡ transfer body (some key)))

create-Carries :
    (p : Client) (value : ℕ) (key type description own : Text) (given : Option Text) (w : World)
    → given ≡ some own
    → Added (Carries own) 3 w (create_pix_payment p value key type description given w).1
unfolding create_pix_payment
create-Carries p value key type description own given w e =
    let body : TransferBody = record {
      value = value;
      pix_key = key;
      pix_key_type = gateway_key_type type;
      description = take 140 description;
      operation_key = get_operation_key p w;
    } in
    request-Added (Carries own) p (transfer body given) (inr (body, ap (transfer body) e)) w

module _ (p : Client) (m : Libraries) (d : CodeOrder) (c : ℕ) (s : Text)
    (given : d.idempotency ≡ some (c ∷ s)) where
  abbrev own : Text
  own = c ∷ s

  abbrev Keyed : ℕ → World → PaymentEnd × World → Type 0
  Keyed n w o = Added (Carries own) n w o.1

  stops : (n : ℕ) (w : World) (e : Fault) → Keyed n w (failed e, w)
  stops n w e = none-Added (Carries own) n w

  key_for-given : (prefix text : Text) → key_for m d prefix text ≡ some own
  key_for-given prefix text =
      ap (λ (o : Option Text). some (or_text o (prefix ++ take 20 (m.sha256 text)))) given

  resolved-Keyed :
      (key : Text) (amount : Option ℕ) (w : World)
      → Keyed 3 w (transfer_resolved p m d key amount w)
  unfolding transfer_resolved
  resolved-Keyed key none w = stops 3 w unreadable_answer
  resolved-Keyed key (some zero) w = stops 3 w no_amount
  resolved-Keyed key (some (suc n)) w =
      create-Carries p (suc n) key (key_type_text (key_kind key)) (description_of d) own
        (key_for m d (codes "qrfallback-") d.payload) w
        (key_for-given (codes "qrfallback-") d.payload)

  pay_resolved-Keyed :
      (charge : PageCharge) (amount : ℕ) (w : World)
      → Keyed 3 w (pay_resolved p m d charge amount w)
  unfolding pay_resolved
  pay_resolved-Keyed charge amount w =
      let key = strip (or_text charge.chave []) in
      if-holds (Keyed 3 w) (text_eq key []) _ _ (λ _. stops 3 w no_key)
        (λ _. resolved-Keyed key (resolved_amount m charge amount) w)

  canonical-Keyed :
      (charge : PageCharge) (amount : ℕ) (w : World)
      → Added (Carries own) 3 w (pay_canonical p m d charge amount w).1
  unfolding pay_canonical
  canonical-Keyed charge amount w =
      let emv = strip (or_text charge.copia_e_cola []) in
      let body : CodeBody = record {
        qr_code = emv;
        description = take 140 (description_of d);
        value = none;
        operation_key = get_operation_key p w;
      } in
      if-holds (λ (o : Option Receipt × World). Added (Carries own) 3 w o.1) (ltb (length emv) 20) _
        _ (λ _. none-Added (Carries own) 3 w)
        (λ _.
          request-Added (Carries own) p (pay_code body (key_for m d (codes "qrcanon-") emv))
            (inl (body, ap (pay_code body) (key_for-given (codes "qrcanon-") emv))) w)

  or_resolved-Keyed :
      (charge : PageCharge) (amount : ℕ) (w : World) (o : Option Receipt × World)
      → Added (Carries own) 3 w o.1
      → Keyed 6 w (or_resolved p m d charge amount o)
  unfolding or_resolved
  or_resolved-Keyed charge amount w (some x, w') h =
      more-Added (Carries own) 3 6 w w' (omega arith) h
  or_resolved-Keyed charge amount w (none, w') h =
      then-Added (Carries own) 3 3 w w' _ h (pay_resolved-Keyed charge amount w')

  pay_dynamic-Keyed :
      (amount : ℕ) (page : Loaded) (w : World) → Keyed 6 w (pay_dynamic p m d amount page w)
  unfolding pay_dynamic
  pay_dynamic-Keyed amount (not_loaded e) w = stops 6 w e
  pay_dynamic-Keyed amount (loaded charge) w =
      if-holds (Keyed 6 w) (is_closed charge.status) _ _ (λ _. stops 6 w expired)
        (λ _. or_resolved-Keyed charge amount w _ (canonical-Keyed charge amount w))

  by_url-Keyed : (r : CodeReading) (w : World) → Keyed 6 w (pay_by_url p m d r w)
  unfolding pay_by_url
  by_url-Keyed r w =
      option-holds (Keyed 6 w) r.payload_url _ _ (λ _. stops 6 w (http_error 400))
        (λ url _. pay_dynamic-Keyed r.amount _ w)

  static-Keyed :
      (r : CodeReading) (key : Text × KeyKind) (w : World)
      → Keyed 6 w
          (elim r.amount [ zero ↦ pay_by_url p m d r w | suc n ↦ pay_static p m d key (suc n) w ])
  unfolding pay_static
  static-Keyed r key w =
      elim r.amount
        as (λ n.
          Keyed 6 w
            (elim n [ zero ↦ pay_by_url p m d r w | suc n ↦ pay_static p m d key (suc n) w ])) [
              | zero ↦ by_url-Keyed r w
              | suc n ↦ more-Added (Carries own) 3 6 w _ (omega arith) (
                  create-Carries p (suc n) key.0 (key_type_text key.1) (description_of d) own
                    (key_for m d (codes "qrstatic-") d.payload) w
                    (key_for-given (codes "qrstatic-") d.payload))
            ]

  fallback-Keyed : (r : CodeReading) (w : World) → Keyed 6 w (pay_fallback p m d r w)
  unfolding pay_fallback
  fallback-Keyed r w =
      option-holds (Keyed 6 w) r.key _ _ (λ _. by_url-Keyed r w) (λ key _. static-Keyed r key w)

  first-Keyed :
      (r : CodeReading) (w : World) (o : Answer × World)
      → Added (Carries own) 3 w o.1
      → Keyed 9 w (after_first p m d r o)
  unfolding after_first
  first-Keyed r w (returned x, w') h = more-Added (Carries own) 3 9 w w' (omega arith) h
  first-Keyed r w (no_answer, w') h = more-Added (Carries own) 3 9 w w' (omega arith) h
  first-Keyed r w (status_error status errors, w') h =
      if-holds (Keyed 9 w) (has_parse_error status errors) _ _
        (λ _. then-Added (Carries own) 3 6 w w' _ h (fallback-Keyed r w'))
        (λ _. more-Added (Carries own) 3 9 w w' (omega arith) h)

  pub pay_qr_code-Keyed : (r : CodeReading) (w : World) → Keyed 9 w (pay_qr_code p m d r w)
  unfolding pay_qr_code
  pay_qr_code-Keyed r w =
      let body : CodeBody = record {
        qr_code = d.payload;
        description = take 140 (description_of d);
        value = or_amount d.value (or_amount (some r.amount) none);
        operation_key = get_operation_key p w;
      } in
      first-Keyed r w (make_request_retried p (pay_code body d.idempotency) w) (
        request-Added (Carries own) p (pay_code body d.idempotency)
          (inl (body, ap (pay_code body) given)) w)
