-- ===== src/Pix/Inbound/Once.antt =====
-- A payment event that is delivered again changes nothing, whether its charge is known or not.
use payvorax.Pix.Inbound.{
  PlatformSettings, PaymentEvent, find_inbound_user, inbound_row, credit_inbound, on_inbound,
  on_payment_event,
}
use payvorax.Base.{
  ◌≡◌, refl, sym, ap, ◌∙◌, inl, inr, true, none, some, arith, ◌==◌, ==-refl, Bool-cases,
  Option-cases,
}
use payvorax.Base.Query.{find_first}
use payvorax.Bank.{User, PixTransaction, Bank, is_confirmed, confirmed}
use payvorax.Pix.Lifecycle.{pix_is, with_status, find_pix, set_status}
use payvorax.Pix.Receipt.{credit_pix_receipt, credit_receiver, on_charge_paid}
use payvorax.Pix.Receipt.Credits.{set_status-confirmed, pix-credit_receiver, confirmed_is_final}

module _ (g : PlatformSettings) (e : PaymentEvent) where
  stored_is_final :
      (q : PixTransaction) (b : Bank)
      → find_pix e.payment_id b ≡ some q
      → is_confirmed q.status ≡ true
      → (on_payment_event g e b).1 ≡ b
  unfolding on_payment_event
  stored_is_final q b found st = ground (arith, found, confirmed_is_final e.payment_id q b found st)

  known_again :
      (p : PixTransaction) (b : Bank)
      → find_pix e.payment_id b ≡ some p
      → (on_payment_event g e (on_payment_event g e b).1).1 ≡ (on_payment_event g e b).1
  unfolding on_payment_event on_charge_paid
  known_again p b found = elim (Bool-cases (is_confirmed p.status)) [
    | inl before ↦
        let same = stored_is_final p b found before in ap (λ x. (on_payment_event g e x).1) same
    | inr new ↦
        let marked = set_status e.payment_id confirmed b in
        let paid = credit_receiver p marked in
        let same : (on_payment_event g e b).1 ≡ paid = ground (arith, found, new) in
        let row : find_pix e.payment_id paid ≡ some (with_status confirmed p) =
          ap (λ l. find_first (pix_is e.payment_id) l) (pix-credit_receiver p marked)
          ∙ set_status-confirmed e.payment_id p b found in
        ap (λ x. (on_payment_event g e x).1) same
        ∙ stored_is_final (with_status confirmed p) paid row refl
        ∙ sym same
  ]

  credited_again :
      (receiver : User) (b : Bank)
      → (on_payment_event g e (credit_inbound e receiver b)).1 ≡ credit_inbound e receiver b
  unfolding credit_inbound
  credited_again receiver b =
      let paid = credit_pix_receipt receiver e.value none b in
      stored_is_final (inbound_row e receiver paid.0.0 paid.0.1) (credit_inbound e receiver b)
        (ground (arith, ==-refl e.payment_id)) refl

  unknown_again :
      (b : Bank)
      → find_pix e.payment_id b ≡ none
      → (on_payment_event g e (on_payment_event g e b).1).1 ≡ (on_payment_event g e b).1
  unfolding on_payment_event on_inbound
  unknown_again b missing = elim (Bool-cases (e.value == 0)) [
    | inl nothing ↦
        let same : (on_payment_event g e b).1 ≡ b = ground (arith, missing, nothing) in
        ap (λ x. (on_payment_event g e x).1) same
    | inr some_value ↦ elim (Option-cases (find_inbound_user g e b)) [
      | inl nobody ↦
          let same : (on_payment_event g e b).1 ≡ b = ground (arith, missing, some_value, nobody) in
          ap (λ x. (on_payment_event g e x).1) same
      | inr (receiver, found) ↦
          let same : (on_payment_event g e b).1 ≡ credit_inbound e receiver b =
            ground (arith, missing, some_value, found) in
          ap (λ x. (on_payment_event g e x).1) same ∙ credited_again receiver b ∙ sym same
    ]
  ]

-- Any payment event, delivered twice, has the effect of one delivery: for a charge that is open, one
-- that is paid, a payment whose receiver is found by any layer, and one that nobody claims.
pub payment_event-once :
    (g : PlatformSettings) (e : PaymentEvent) (b : Bank)
    → (on_payment_event g e (on_payment_event g e b).1).1 ≡ (on_payment_event g e b).1
payment_event-once g e b = elim (Option-cases (find_pix e.payment_id b)) [
  | inl missing ↦ unknown_again g e b missing
  | inr (p, found) ↦ known_again g e p b found
]
