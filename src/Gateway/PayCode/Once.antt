-- ===== src/Gateway/PayCode/Once.antt =====
-- A payment of a scanned code is reported for one positive answer, and all its requests carry the
-- caller's idempotency key.
use payvorax.Gateway.Client.{
  Client, Answer, returned, status_error, no_answer, Request, Body, Wire, World, pay_code, transfer,
  CodeBody,
}
use payvorax.Gateway.Client.Attempts.{
  answered, got, answer_complete, is_complete, is_documented, request-answered,
}
use payvorax.Gateway.Transfers.{
  expired, PaymentEnd, paid, failed, Receipt, after_transfer, Fault, create_pix_payment,
  get_operation_key, or_text, no_key, no_amount, unreadable_answer, http_error,
}
use payvorax.Gateway.CodePage.{Libraries, PageCharge, Loaded, is_closed, loaded, not_loaded}
use payvorax.Gateway.PayCode.{
  after_canonical, CodeReading, CodeOrder, pay_canonical, transfer_resolved, pay_resolved,
  or_resolved, pay_dynamic, pay_static, pay_by_url, pay_fallback, has_parse_error, after_code,
  after_first, pay_qr_code, description_of, key_for, resolved_amount,
}
use payvorax.Base.{
  ℕ, ◌≡◌, refl, true, Option, none, some, zero, suc, ◌+◌, sym, ap, ◌∙◌, List, arith, if-holds,
  option-holds, [], ltb, length, take, ◌∷◌,
}
use payvorax.Base.Text.{Text, codes, text_eq, strip}
use payvorax.Gateway.Client.Sent.{Added}
use payvorax.Gateway.PayCode.Keys.{Carries, pay_qr_code-Keyed}

-- Whether a payment is reported to the caller.
abbrev pub reported : PaymentEnd → ℕ
reported (paid x) = 1
reported (failed e) = 0

abbrev pub found_one : Option Receipt → ℕ
found_one none = 0
found_one (some x) = 1

module _ (p : Client) where
  transfer-reported :
      (value : ℕ) (a : Answer)
      → answer_complete p a ≡ true
      → reported (after_transfer p value a) ≡ got a
  transfer-reported value (returned x) fine = ground arith
  transfer-reported value (status_error status errors) fine = refl
  transfer-reported value no_answer fine = refl

  canonical-reported :
      (m : Libraries) (charge : PageCharge) (amount : ℕ) (a : Answer)
      → answer_complete p a ≡ true
      → found_one (after_canonical p m charge amount a) ≡ got a
  canonical-reported m charge amount (returned x) fine = ground arith
  canonical-reported m charge amount (status_error status errors) fine = refl
  canonical-reported m charge amount no_answer fine = refl

  code-reported : (x : Body) → is_complete p x ≡ true → reported (after_code p x) ≡ 1
  code-reported x fine = ground arith

-- From a world on, the positive answers to payment requests are the payments that are reported.
abbrev pub Balanced : World → PaymentEnd × World → Type 0
Balanced w o = answered o.1 ≡ answered w + reported o.0

fails : (w : World) (e : Fault) → Balanced w (failed e, w)
fails w e = ground arith

module _ (p : Client)
    (documented : (sent : List (Request × Wire)) (q : Request)
      → is_documented p (p.send sent q) ≡ true) where
  pub create-Balanced :
      (value : ℕ) (key type description : Text) (idempotency : Option Text) (w : World)
      → Balanced w (create_pix_payment p value key type description idempotency w)
  unfolding create_pix_payment
  create-Balanced value key type description idempotency w =
      let h = request-answered p (transfer _ idempotency) refl documented w in
      h.0 ∙ ap (λ n. answered w + n) (sym (transfer-reported p value _ h.1))

module _ (p : Client) (m : Libraries) (d : CodeOrder)
    (documented : (sent : List (Request × Wire)) (q : Request)
      → is_documented p (p.send sent q) ≡ true) where
  resolved-Balanced :
      (key : Text) (amount : Option ℕ) (w : World)
      → Balanced w (transfer_resolved p m d key amount w)
  unfolding transfer_resolved
  resolved-Balanced key none w = fails w unreadable_answer
  resolved-Balanced key (some zero) w = fails w no_amount
  resolved-Balanced key (some (suc n)) w = create-Balanced p documented (suc n) key _ _ _ w

  pay_resolved-Balanced :
      (charge : PageCharge) (amount : ℕ) (w : World)
      → Balanced w (pay_resolved p m d charge amount w)
  unfolding pay_resolved
  pay_resolved-Balanced charge amount w =
      let key = strip (or_text charge.chave []) in
      if-holds (Balanced w) (text_eq key []) _ _ (λ _. fails w no_key)
        (λ _. resolved-Balanced key (resolved_amount m charge amount) w)

  canonical-Balanced :
      (charge : PageCharge) (amount : ℕ) (w : World)
      → let o = pay_canonical p m d charge amount w in answered o.1 ≡ answered w + found_one o.0
  unfolding pay_canonical
  canonical-Balanced charge amount w =
      let emv = strip (or_text charge.copia_e_cola []) in
      let body : CodeBody = record {
        qr_code = emv;
        description = take 140 (description_of d);
        value = none;
        operation_key = get_operation_key p w;
      } in
      if-holds (λ (o : Option Receipt × World). answered o.1 ≡ answered w + found_one o.0)
        (ltb (length emv) 20) _ _ (λ _. ground arith)
        (λ _.
          let h =
            request-answered p (pay_code body (key_for m d (codes "qrcanon-") emv)) refl documented
              w in
          h.0 ∙ ap (λ n. answered w + n) (sym (canonical-reported p m charge amount _ h.1)))

  or_resolved-Balanced :
      (charge : PageCharge) (amount : ℕ) (w : World) (o : Option Receipt × World)
      → answered o.1 ≡ answered w + found_one o.0
      → Balanced w (or_resolved p m d charge amount o)
  unfolding or_resolved
  or_resolved-Balanced charge amount w (some x, w') h = h
  or_resolved-Balanced charge amount w (none, w') h =
      grind (arith, h, pay_resolved-Balanced charge amount w')

  pay_dynamic-Balanced :
      (amount : ℕ) (page : Loaded) (w : World) → Balanced w (pay_dynamic p m d amount page w)
  unfolding pay_dynamic
  pay_dynamic-Balanced amount (not_loaded e) w = fails w e
  pay_dynamic-Balanced amount (loaded charge) w =
      if-holds (Balanced w) (is_closed charge.status) _ _ (λ _. fails w expired)
        (λ _. or_resolved-Balanced charge amount w _ (canonical-Balanced charge amount w))

  by_url-Balanced : (r : CodeReading) (w : World) → Balanced w (pay_by_url p m d r w)
  unfolding pay_by_url
  by_url-Balanced r w =
      option-holds (Balanced w) r.payload_url _ _ (λ _. fails w (http_error 400))
        (λ url _. pay_dynamic-Balanced r.amount _ w)

  fallback-Balanced : (r : CodeReading) (w : World) → Balanced w (pay_fallback p m d r w)
  unfolding pay_fallback pay_static
  fallback-Balanced r w =
      option-holds (Balanced w) r.key _ _ (λ _. by_url-Balanced r w)
        (λ key _.
          elim r.amount
            as (λ n.
              Balanced w
                (elim n [ zero ↦ pay_by_url p m d r w | suc n ↦ pay_static p m d key (suc n) w ])) [
                  | zero ↦ by_url-Balanced r w
                  | suc n ↦ create-Balanced p documented (suc n) _ _ _ _ w
                ])

  first-Balanced :
      (r : CodeReading) (w : World) (o : Answer × World)
      → (answered o.1 ≡ answered w + got o.0) × (answer_complete p o.0 ≡ true)
      → Balanced w (after_first p m d r o)
  unfolding after_first
  first-Balanced r w (returned x, w') h =
      h.0 ∙ ap (λ n. answered w + n) (sym (code-reported p x h.1))
  first-Balanced r w (no_answer, w') h = h.0
  first-Balanced r w (status_error status errors, w') h =
      if-holds (Balanced w) (has_parse_error status errors) _ _
        (λ _. grind (arith, h.0, fallback-Balanced r w')) (λ _. h.0)

-- When the gateway answers the way it documents (the date, if there is one, can be read, and there is
-- an amount) and the caller gives an idempotency key that is not empty: all requests that `pay_qr_code`
-- sends, nine at most, on whichever of its three ways and however often each was tried again, are
-- payment requests with that key; and it reports a payment exactly if one of them got a positive
-- answer, which never more than one does. A request without an answer may have been carried out by the
-- gateway as well, which only the key tells it.
pub pay_qr_code-pays_once :
    (p : Client) (m : Libraries) (d : CodeOrder) (c : ℕ) (s : Text) (r : CodeReading) (w : World)
    → d.idempotency ≡ some (c ∷ s)
    → ((sent : List (Request × Wire)) (q : Request) → is_documented p (p.send sent q) ≡ true)
    → let o = pay_qr_code p m d r w in
      Added (Carries (c ∷ s)) 9 w o.1 × (answered o.1 ≡ answered w + reported o.0)
unfolding pay_qr_code
pay_qr_code-pays_once p m d c s r w given documented = (
  pay_qr_code-Keyed p m d c s given r w,
  first-Balanced p m d documented r w _
      (request-answered p (pay_code _ d.idempotency) refl documented w),
)
