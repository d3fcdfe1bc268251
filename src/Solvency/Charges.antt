-- ===== src/Solvency/Charges.antt =====
-- Charges, inbound payments, verified deposits and the polling (app/pix/router.py) keep every balance
-- at zero or above.
use payvorax.Solvency.{Solvent}
use payvorax.Base.Digits.{keep_digits}
use payvorax.Base.{
  ℕ, sym, subst, inl, inr, not, ◌&&◌, Option, none, List, [], ◌∷◌, ◌==◌, if-holds, option-holds,
  length, ◌≡◌, Bool, some, Option-cases, arith, Bool-cases,
}
use payvorax.Base.Text.{Text}
use payvorax.Bank.Money.{find_user}
use payvorax.Bank.{
  Outcome, PixTransaction, Bank, is_sent, is_confirmed, is_created, confirmed, User,
}
use payvorax.Pix.Charge.{
  RemoteStatus, ChargeGateway, settle_charge, process_pix_receipt, says_confirmed, charge_answered,
  verify_pix_charge_payment, get_pix_transaction,
}
use payvorax.Pix.Charge.Paid.{charge_answered-cases}
use payvorax.Pix.Deposit.{
  PixCredit, NamedCredit, name_all, is_processed, is_wanted, credit_deposit, verify_loop,
  rows_are_unique, verify_static_deposit,
}
use payvorax.Pix.Inbound.{
  PaymentEvent, PlatformSettings, find_inbound_user, PaymentAction, credit_inbound, on_inbound,
  on_payment_event, first_layer, inbound_layers,
}
use payvorax.Pix.Lifecycle.{find_pix, set_status, get_pix}
use payvorax.Solvency.Services.{
  credit_pix_receipt-Solvent, owner-Solvent, credit_receiver-Solvent, on_charge_paid-Solvent,
}
use payvorax.Base.Int.{pos, ◌≤ℤ◌}
use payvorax.Base.Query.{find_first, All-find_first}

settle_charge-Solvent : (p : PixTransaction) (b : Bank) → Solvent b → Solvent (settle_charge p b)
unfolding settle_charge
settle_charge-Solvent p b s = credit_receiver-Solvent p (set_status p.id confirmed b) s

pub process_pix_receipt-Solvent :
    (id : ℕ) (b : Bank) → Solvent b → Solvent (process_pix_receipt id b).1
unfolding process_pix_receipt
process_pix_receipt-Solvent id b s =
    option-holds (λ (o : Outcome PixTransaction). Solvent o.1) (find_pix id b) _ _ (λ _. s)
      (λ p _.
        if-holds (λ (o : Outcome PixTransaction). Solvent o.1) (is_confirmed p.status) _ _ (λ _. s)
          (λ _.
            if-holds (λ (o : Outcome PixTransaction). Solvent o.1) (not (is_created p.status)) _ _
              (λ _. s) (λ _. settle_charge-Solvent p b s)))

charge_answered-Solvent :
    (o : Option RemoteStatus) (p : PixTransaction) (b : Bank)
    → Solvent b
    → Solvent (charge_answered o p b).1
charge_answered-Solvent o p b s = elim (charge_answered-cases o p b) [
  | inl same ↦ subst Solvent (sym same) s
  | inr paid ↦ subst Solvent (sym paid) (settle_charge-Solvent p b s)
]

pub verify_pix_charge_payment-Solvent :
    (g : Option ChargeGateway) (id k : ℕ) (b : Bank)
    → Solvent b
    → Solvent (verify_pix_charge_payment g id k b).1
unfolding verify_pix_charge_payment
verify_pix_charge_payment-Solvent g id k b s =
    option-holds (λ (o : Outcome PixTransaction). Solvent o.1) (get_pix id k b) _ _ (λ _. s)
      (λ p _.
        if-holds (λ (o : Outcome PixTransaction). Solvent o.1) (is_confirmed p.status) _ _ (λ _. s)
          (λ _.
            if-holds (λ (o : Outcome PixTransaction). Solvent o.1) (not (is_created p.status)) _ _
              (λ _. s)
              (λ _.
                option-holds (λ (o : Outcome PixTransaction). Solvent o.1) g _ _ (λ _. s)
                  (λ gw _. charge_answered-Solvent (gw.get_charge_status id) p b s))))

pub get_pix_transaction-Solvent :
    (g : Option ChargeGateway) (id k : ℕ) (b : Bank)
    → Solvent b
    → Solvent (get_pix_transaction g id k b).1
unfolding get_pix_transaction
get_pix_transaction-Solvent g id k b s =
    option-holds (λ (o : Option PixTransaction × Bank). Solvent o.1) (get_pix id k b) _ _ (λ _. s)
      (λ p _.
        if-holds (λ (o : Option PixTransaction × Bank). Solvent o.1)
          (not (is_sent p.type) && is_created p.status && says_confirmed g id) _ _
          (λ _. settle_charge-Solvent p b s) (λ _. s))

-- Whoever a layer finds has a balance that is not negative.
layer-not_negative :
    (ls : List (Bool × (User → Bool))) (b : Bank) (u : User)
    → Solvent b
    → first_layer ls b.users ≡ some u
    → pos 0 ≤ℤ u.balance
unfolding first_layer
layer-not_negative [] b u s found = absurd (ground (arith, found))
layer-not_negative (l ∷ ls) b u s found = elim (Bool-cases l.0) [
  | inr skipped ↦ layer-not_negative ls b u s (ground (arith, skipped, found))
  | inl tried ↦ elim (Option-cases (find_first l.1 b.users)) [
    | inl nobody ↦ layer-not_negative ls b u s (ground (arith, tried, nobody, found))
    | inr (v, here) ↦
        All-find_first (λ (x : User). pos 0 ≤ℤ x.balance) l.1 b.users u s
          (ground (arith, tried, here, found))
  ]
]

inbound_user-not_negative :
    (g : PlatformSettings) (e : PaymentEvent) (b : Bank) (u : User)
    → Solvent b
    → find_inbound_user g e b ≡ some u
    → pos 0 ≤ℤ u.balance
unfolding find_inbound_user
inbound_user-not_negative g e b u s found = layer-not_negative (inbound_layers g e) b u s found

pub on_payment_event-Solvent :
    (g : PlatformSettings) (e : PaymentEvent) (b : Bank)
    → Solvent b
    → Solvent (on_payment_event g e b).1
unfolding on_payment_event on_inbound credit_inbound
on_payment_event-Solvent g e b s =
    option-holds (λ (o : PaymentAction × Bank). Solvent o.1) (find_pix e.payment_id b) _ _
      (λ _.
        if-holds (λ (o : PaymentAction × Bank). Solvent o.1) (e.value == 0) _ _ (λ _. s)
          (λ _.
            option-holds (λ (o : PaymentAction × Bank). Solvent o.1) (find_inbound_user g e b) _ _
              (λ _. s)
              (λ u found.
                credit_pix_receipt-Solvent u e.value none b
                  (inbound_user-not_negative g e b u s found) s)))
      (λ p _. on_charge_paid-Solvent e.payment_id b s)

credit_deposit-Solvent :
    (now : ℕ) (key : Text) (k : ℕ) (t : NamedCredit) (b : Bank)
    → Solvent b
    → Solvent (credit_deposit now key k t b)
unfolding credit_deposit
credit_deposit-Solvent now key k t b s =
    option-holds Solvent (find_user k b) _ _ (λ _. s)
      (λ u found. credit_pix_receipt-Solvent u t.value none b (owner-Solvent k u b s found) s)

verify_loop-Solvent :
    (now : ℕ) (key : Text) (k : ℕ) (doc : Text) (old : List PixTransaction) (ts : List NamedCredit)
    (b : Bank)
    → Solvent b
    → Solvent (verify_loop now key k doc old ts b)
unfolding verify_loop
verify_loop-Solvent now key k doc old [] b s = s
verify_loop-Solvent now key k doc old (t ∷ ts) b s =
    if-holds Solvent (is_wanted doc t && not (is_processed t old)) _ _
      (λ _.
        verify_loop-Solvent now key k doc old ts (credit_deposit now key k t b)
          (credit_deposit-Solvent now key k t b s))
      (λ _. verify_loop-Solvent now key k doc old ts b s)

pub verify_static_deposit-Solvent :
    (now : ℕ) (key : Text) (fresh : ℕ → ℕ × Text) (credits : Option (List PixCredit)) (k : ℕ)
    (b : Bank)
    → Solvent b
    → Solvent (verify_static_deposit now key fresh credits k b).1
unfolding verify_static_deposit
verify_static_deposit-Solvent now key fresh credits k b s =
    option-holds (λ (o : Outcome ℕ). Solvent o.1) (find_user k b) _ _ (λ _. s)
      (λ u _.
        if-holds (λ (o : Outcome ℕ). Solvent o.1) (length (keep_digits u.cpf_cnpj) == 0) _ _
          (λ _. s)
          (λ _.
            option-holds (λ (o : Outcome ℕ). Solvent o.1) credits _ _ (λ _. s)
              (λ ts _.
                let names = name_all fresh 0 ts in
                let after = verify_loop now key k (keep_digits u.cpf_cnpj) b.pix names b in
                if-holds (λ (o : Outcome ℕ). Solvent o.1) (rows_are_unique after.pix) _ _
                  (λ _. verify_loop-Solvent now key k (keep_digits u.cpf_cnpj) b.pix names b s)
                  (λ _. s))))
