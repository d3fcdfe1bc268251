-- ===== src/Solvency/Services.antt =====
-- Receipts, deposits, boletos, renewals and audit cycles (app/pix/service.py, app/boleto/service.py,
-- app/minha_conta/service.py, app/core/audit_worker.py) keep every balance at zero or above.
use payvorax.Base.Query.{All-find_first, update_first, All-update}
use payvorax.Base.{
  ℕ, ◌+◌, ◌-◌, ◌≤◌, ◌≡◌, sym, subst, inl, inr, ◌&&◌, Option, none, some, arith, ltb, leb, ◌==◌,
  Option-cases, if-holds,
}
use payvorax.Base.Int.{ℤ, pos, negsuc, pos_part, ◌+ℤ◌, ◌-ℤ◌, ◌≤ℤ◌, ltb_ℤ, abs, one_sign, int_laws}
use payvorax.Audit.{
  auto_correction_max, AuditResult, matrix_debit, correct_down, correct_up, judge, run_single_audit,
}
use payvorax.Bank.Money.{user_is, find_user, set_balance, total_balance}
use payvorax.Bank.{
  Outcome, User, PixTransaction, BoletoTransaction, UserSubscription, Bank, is_confirmed, confirmed,
}
use payvorax.Boleto.{BoletoPaymentRequest, charge_boleto, process_payment}
use payvorax.Fees.{calculate_boleto_fee}
use payvorax.Matrix.{is_matrix, get_matrix_user}
use payvorax.Pix.Lifecycle.{find_pix, set_status, confirm_pix, cancel_pix, deposit_funds}
use payvorax.Pix.Receipt.{
  receipt_fee, raised_limit, credited_row, credit_pix_receipt, ChargeAction, credit_receiver,
  on_charge_paid,
}
use payvorax.Solvency.{
  Solvent, set_balance-Solvent, set_matrix_balance-Solvent, add-not_negative, sub-not_negative,
  credit_fee-Solvent,
}
use payvorax.Solvency.Payments.{same_users}
use payvorax.Subscription.{
  subscription_amount, is_active, get_or_create, has_passed, renew, check_expiry, get_subscription,
}

pub credit_pix_receipt-Solvent :
    (r : User) (gross : ℕ) (fee : Option ℕ) (b : Bank)
    → pos 0 ≤ℤ r.balance
    → Solvent b
    → Solvent (credit_pix_receipt r gross fee b).1
unfolding credit_pix_receipt
credit_pix_receipt-Solvent r gross fee b h s =
    let v = r.balance +ℤ pos (gross - receipt_fee r gross fee) in
    let limit = raised_limit r.credit_limit gross in
    let b₁ : Bank = record b {
      users = update_first (user_is r.id) (credited_row v limit) b.users;
    } in
    credit_fee-Solvent (receipt_fee r gross fee) b₁ (
      All-update (λ (u : User). pos 0 ≤ℤ u.balance) (user_is r.id) (credited_row v limit) b.users
        (λ _ _. add-not_negative r.balance (gross - receipt_fee r gross fee) h) s)

pub owner-Solvent :
    (k : ℕ) (u : User) (b : Bank) → Solvent b → find_user k b ≡ some u → pos 0 ≤ℤ u.balance
owner-Solvent k u b s found =
    All-find_first (λ (x : User). pos 0 ≤ℤ x.balance) (user_is k) b.users u s found

pub credit_receiver-Solvent :
    (p : PixTransaction) (b : Bank) → Solvent b → Solvent (credit_receiver p b)
unfolding credit_receiver
credit_receiver-Solvent p b s = elim (Option-cases (find_user p.user_id b)) [
  | inl missing ↦ rw (missing, credit_receiver) s
  | inr (u, found) ↦
      rw (found, credit_receiver)
        (credit_pix_receipt-Solvent u p.value none b (owner-Solvent p.user_id u b s found) s)
]

pub on_charge_paid-Solvent : (id : ℕ) (b : Bank) → Solvent b → Solvent (on_charge_paid id b).1
unfolding on_charge_paid
on_charge_paid-Solvent id b s = elim (Option-cases (find_pix id b)) [
  | inl missing ↦ rw (missing, on_charge_paid) s
  | inr (p, found) ↦
      rw (found, on_charge_paid)
        (if-holds (λ (o : ChargeAction × Bank). Solvent o.1) (is_confirmed p.status) _ _ (λ _. s)
          (λ _. credit_receiver-Solvent p (set_status id confirmed b) s))
]

pub deposit_funds-Solvent :
    (k amount : ℕ) (b : Bank) → Solvent b → Solvent (deposit_funds k amount b).1
unfolding deposit_funds
deposit_funds-Solvent k amount b s = elim (Option-cases (find_user k b)) [
  | inl missing ↦
      let e : (deposit_funds k amount b).1 ≡ b = ground (arith, missing) in subst Solvent (sym e) s
  | inr (u, found) ↦
      let v = u.balance +ℤ pos amount in
      let kept =
        set_balance-Solvent k v b (add-not_negative u.balance amount (owner-Solvent k u b s found))
          s in
      rw (found, deposit_funds)
        (if-holds (λ (o : Outcome ℤ). Solvent o.1) (amount == 0) _ _ (λ _. s)
          (λ _.
            if-holds (λ (o : Outcome ℤ). Solvent o.1) (ltb 100000000 amount) _ _ (λ _. s)
              (λ _. kept)))
]

pub process_payment-Solvent :
    (r : BoletoPaymentRequest) (k : ℕ) (b : Bank) → Solvent b → Solvent (process_payment r k b).1
unfolding process_payment charge_boleto
process_payment-Solvent r k b s = elim (Option-cases (find_user k b)) [
  | inl missing ↦
      let e : (process_payment r k b).1 ≡ b = ground (arith, missing) in subst Solvent (sym e) s
  | inr (u, found) ↦
      let fee = calculate_boleto_fee u.cpf_cnpj in
      let after = u.balance -ℤ pos (r.value + fee) in
      rw (found, process_payment)
        (if-holds (λ (o : Outcome BoletoTransaction). Solvent o.1)
          (ltb_ℤ u.balance (pos (r.value + fee))) _ _ (λ _. s)
          (λ enough.
            if-holds (λ (o : Outcome BoletoTransaction). Solvent o.1) (ltb_ℤ after (pos 0)) _ _
              (λ _. s)
              (λ _. credit_fee-Solvent fee (set_balance k after b) (
                set_balance-Solvent k after b (sub-not_negative u.balance (r.value + fee) enough)
                  s))))
]

renew-Solvent :
    (now : ℕ) (sub : UserSubscription) (u : User) (b : Bank)
    → Solvent b
    → Solvent (renew now sub u b).1
unfolding renew
renew-Solvent now sub u b s =
    let after = u.balance -ℤ pos subscription_amount in
    if-holds (λ (o : UserSubscription × Bank). Solvent o.1)
      (ltb_ℤ u.balance (pos subscription_amount)) _ _ (λ _. s)
      (λ enough.
        if-holds (λ (o : UserSubscription × Bank). Solvent o.1) (ltb_ℤ after (pos 0)) _ _ (λ _. s)
          (λ _.
            set_balance-Solvent sub.user_id after b
              (sub-not_negative u.balance subscription_amount enough) s))

check_expiry-Solvent :
    (now : ℕ) (sub : UserSubscription) (b : Bank) → Solvent b → Solvent (check_expiry now sub b).1
unfolding check_expiry
check_expiry-Solvent now sub b s = elim (Option-cases (find_user sub.user_id b)) [
  | inl missing ↦
      rw (missing, check_expiry)
        (if-holds (λ (o : UserSubscription × Bank). Solvent o.1)
          (is_active sub.status && has_passed now sub) _ _
          (λ _.
            if-holds (λ (o : UserSubscription × Bank). Solvent o.1) sub.auto_renew _ _ (λ _. s)
              (λ _. s))
          (λ _. s))
  | inr (u, found) ↦
      rw (found, check_expiry)
        (if-holds (λ (o : UserSubscription × Bank). Solvent o.1)
          (is_active sub.status && has_passed now sub) _ _
          (λ _.
            if-holds (λ (o : UserSubscription × Bank). Solvent o.1) sub.auto_renew _ _
              (λ _. renew-Solvent now sub u b s) (λ _. s))
          (λ _. s))
]

get_or_create-users : (k : ℕ) (b : Bank) → (get_or_create k b).1.users ≡ b.users
unfolding get_or_create
get_or_create-users k b = ground arith

pub get_subscription-Solvent :
    (now k : ℕ) (b : Bank) → Solvent b → Solvent (get_subscription now k b).1
unfolding get_subscription
get_subscription-Solvent now k b s =
    check_expiry-Solvent now (get_or_create k b).0 (get_or_create k b).1
      (same_users b (get_or_create k b).1 (get_or_create-users k b) s)

debit_within : (m : ℤ) (n : ℕ) → pos 0 ≤ℤ m → n ≤ pos_part m → pos 0 ≤ℤ m -ℤ pos n
debit_within m n h le =
    one_sign m (pos 0 ≤ℤ m -ℤ pos n) (λ z. omega (int_laws, h, le, z))
      (λ z. omega (int_laws, h, le, z))

judge-Solvent :
    (signed : ℤ) (m : User) (b : Bank)
    → pos 0 ≤ℤ m.balance
    → Solvent b
    → Solvent (judge signed (some m) b).1
unfolding judge correct_down correct_up
judge-Solvent signed m b h s =
    if-holds (λ (o : AuditResult × Bank). Solvent o.1) (ltb (abs signed) 1) _ _ (λ _. s)
      (λ _.
        if-holds (λ (o : AuditResult × Bank). Solvent o.1)
          (ltb_ℤ (pos 1) signed && leb (abs signed) auto_correction_max) _ _
          (λ _.
            set_matrix_balance-Solvent (m.balance -ℤ pos (matrix_debit (abs signed) m)) b
              (debit_within m.balance (matrix_debit (abs signed) m) h (omega arith)) s)
          (λ _.
            if-holds (λ (o : AuditResult × Bank). Solvent o.1) (ltb_ℤ signed (negsuc 0)) _ _
              (λ _.
                set_matrix_balance-Solvent (m.balance +ℤ pos (abs signed)) b
                  (add-not_negative m.balance (abs signed) h) s)
              (λ _. s)))

judge-without_matrix : (signed : ℤ) (b : Bank) → (judge signed none b).1 ≡ b
unfolding judge
judge-without_matrix signed b = ground arith

pub run_single_audit-Solvent :
    (asaas : Option ℤ) (b : Bank) → Solvent b → Solvent (run_single_audit asaas b).1
unfolding run_single_audit
run_single_audit-Solvent none b s = s
run_single_audit-Solvent (some asaas) b s = elim (Option-cases (get_matrix_user b)) [
  | inl missing ↦
      rw (missing, run_single_audit)
        (subst Solvent (sym (judge-without_matrix (total_balance b -ℤ asaas) b)) s)
  | inr (m, found) ↦
      rw (found, run_single_audit)
        (judge-Solvent (total_balance b -ℤ asaas) m b
          (All-find_first (λ (u : User). pos 0 ≤ℤ u.balance) is_matrix b.users m s found) s)
]

pub users-status :
    (id k : ℕ) (b : Bank)
    → ((confirm_pix id b).1.users ≡ b.users) × ((cancel_pix id k b).1.users ≡ b.users)
unfolding confirm_pix cancel_pix
users-status id k b = (ground arith, ground arith)
