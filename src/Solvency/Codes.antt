-- ===== src/Solvency/Codes.antt =====
-- Payments of QR codes and their polling (app/pix/router.py) keep every balance at zero or above.
use payvorax.Solvency.{Solvent, set_balance-Solvent, sub-not_negative, credit_fee-Solvent}
use payvorax.Base.{
  ℕ, ◌+◌, ◌-◌, ◌≡◌, refl, Option, none, some, arith, ltb, ◌==◌, if-holds, option-holds,
}
use payvorax.Base.Int.{pos, pos_part, ◌-ℤ◌, ltb_ℤ}
use payvorax.Bank.Money.{find_user, set_balance, get_available_balance}
use payvorax.Bank.{
  Outcome, result-holds, User, PixTransaction, Bank, is_processing, fee_of, confirmed,
}
use payvorax.Emv.{validate_pix_crc}
use payvorax.Emv.TopLevel.{parse_emv_value}
use payvorax.Fees.{pix_maintenance_fee, platform_pix_outbound_network_fee}
use payvorax.Pix.Create.{add_dispatch, create_ledger_entry}
use payvorax.Pix.Lifecycle.{find_pix, set_status, settle_ledger_entries, reverse_ledger_entries}
use payvorax.Pix.QrCode.{
  QrRequest, QrReply, QrContext, idempotency_key, Looked, find_internal_qrcode_charge, charge_open,
  already_paid, not_internal,
}
use payvorax.Pix.QrCode.External.{
  client_sent, provisional_row, qr_payment, qr_replied, qr_dispatch, qr_to_gateway, preflight_total,
  pay_external, PollAnswer, debit_inline, poll_round, poll_confirmed, poll_failed, poll_other,
  poll_error,
}
use payvorax.Pix.QrCode.Internal.{
  credit_charge, settle_internal, debit_payer, pay_other, pay_internal,
}
use payvorax.Pix.QrCode.Pay.{find_duplicate, pay_looked, pay_screened, pay_pix_qrcode}
use payvorax.Pix.Screen.{screen_antifraud}
use payvorax.Pix.Webhook.{credit_margin}
use payvorax.Solvency.Payments.{same_users}
use payvorax.Solvency.Services.{credit_pix_receipt-Solvent, owner-Solvent}

debit_inline-Solvent :
    (k : ℕ) (p : PixTransaction) (b : Bank) → Solvent b → Solvent (debit_inline k p b)
unfolding debit_inline credit_margin
debit_inline-Solvent k p b s =
    option-holds Solvent (find_user k b) _ _ (λ _. s)
      (λ u _.
        let v = pos (pos_part (u.balance -ℤ pos (p.value + fee_of p))) in
        let kept = set_balance-Solvent k v b (omega arith) s in
        if-holds Solvent (ltb platform_pix_outbound_network_fee (fee_of p)) _ _
          (λ _.
            credit_fee-Solvent (fee_of p - platform_pix_outbound_network_fee) (set_balance k v b)
              kept)
          (λ _. kept))

pub poll_round-Solvent :
    (now k id : ℕ) (a : PollAnswer) (b : Bank) → Solvent b → Solvent (poll_round now k id a b)
unfolding poll_round settle_ledger_entries reverse_ledger_entries
poll_round-Solvent now k id (poll_confirmed ref) b s =
    option-holds Solvent (find_pix id b) _ _ (λ _. s)
      (λ p _.
        if-holds Solvent (is_processing p.status) _ _ (λ _. debit_inline-Solvent k p _ s) (λ _. s))
poll_round-Solvent now k id poll_failed b s =
    option-holds Solvent (find_pix id b) _ _ (λ _. s)
      (λ p _. if-holds Solvent (is_processing p.status) _ _ (λ _. s) (λ _. s))
poll_round-Solvent now k id poll_other b s = s
poll_round-Solvent now k id poll_error b s = s

settle_internal-Solvent :
    (charge : PixTransaction) (b : Bank) → Solvent b → Solvent (settle_internal charge b)
unfolding settle_internal credit_charge
settle_internal-Solvent charge b s =
    let marked = set_status charge.id confirmed b in
    option-holds Solvent (find_user charge.user_id marked) _ _ (λ _. s)
      (λ u found.
        credit_pix_receipt-Solvent u charge.value (some 0) marked
          (owner-Solvent charge.user_id u marked s found) s)

module _ (c : QrContext) (d : QrRequest) (sender : User) where
  pay_other-Solvent :
      (charge : PixTransaction) (b : Bank) → Solvent b → Solvent (pay_other c d charge sender b).1
  unfolding pay_other debit_payer
  pay_other-Solvent charge b s =
      let total = charge.value + pix_maintenance_fee in
      if-holds (λ (o : Outcome PixTransaction). Solvent o.1) (ltb_ℤ sender.balance (pos total)) _ _
        (λ _. s)
        (λ enough.
          if-holds (λ (o : Outcome PixTransaction). Solvent o.1)
            (ltb_ℤ (sender.balance -ℤ pos total) (pos 0)) _ _ (λ _. s)
            (λ _.
              let after = sender.balance -ℤ pos total in
              settle_internal-Solvent charge (debit_payer sender charge b) (
                credit_fee-Solvent pix_maintenance_fee (set_balance sender.id after b) (
                  set_balance-Solvent sender.id after b
                    (sub-not_negative sender.balance total enough) s))))

  pay_internal-Solvent :
      (charge : PixTransaction) (b : Bank)
      → Solvent b
      → Solvent (pay_internal c d charge sender b).1
  unfolding pay_internal
  pay_internal-Solvent charge b s =
      option-holds (λ (o : Outcome PixTransaction). Solvent o.1) (find_user charge.user_id b) _ _
        (λ _. s)
        (λ receiver _.
          if-holds (λ (o : Outcome PixTransaction). Solvent o.1) (charge.user_id == sender.id) _ _
            (λ _. settle_internal-Solvent charge b s) (λ _. pay_other-Solvent charge b s))

  replied-users :
      (r : QrReply) (emv_value : ℕ) (p : PixTransaction) (b : Bank)
      → (qr_replied r sender emv_value p b).1.users ≡ b.users
  unfolding qr_replied create_ledger_entry
  replied-users r emv_value p b = ground arith

  -- A payment outside the platform leaves the accounts alone.
  external-users :
      (emv_value : ℕ) (b : Bank) → (pay_external c d sender emv_value b).1.users ≡ b.users
  unfolding pay_external qr_to_gateway qr_dispatch
  external-users emv_value b =
      result-holds (λ (o : Outcome PixTransaction). o.1.users ≡ b.users)
        (get_available_balance sender.id b) _ _ (λ _ _. refl)
        (λ available _.
          if-holds (λ (o : Outcome PixTransaction). o.1.users ≡ b.users)
            (ltb available (preflight_total sender emv_value)) _ _ (λ _. refl)
            (λ _.
              option-holds (λ (o : Outcome PixTransaction). o.1.users ≡ b.users) c.pay_qr_code _ _
                (λ _. refl)
                (λ g _.
                  if-holds (λ (o : Outcome PixTransaction). o.1.users ≡ b.users) c.use_sandbox _ _
                    (λ _. refl)
                    (λ _.
                      option-holds (λ (o : Outcome PixTransaction). o.1.users ≡ b.users)
                        (g d (idempotency_key c d)) _ _ (λ _. refl)
                        (λ r _.
                          replied-users r emv_value (provisional_row c d sender emv_value)
                            (add_dispatch (qr_payment c d) b))))))

-- A call that has ended leaves its accounts so.
abbrev pub IsSolventEnd : Option (Outcome PixTransaction) → Type 0
IsSolventEnd none = Unit
IsSolventEnd (some o) = Solvent o.1

module _ (c : QrContext) (d : QrRequest) (fuel : ℕ) where
  looked-Solvent :
      (sender : User) (found : Looked) (b : Bank)
      → Solvent b
      → IsSolventEnd (pay_looked c d fuel sender found b)
  unfolding pay_looked
  looked-Solvent sender already_paid b s = s
  looked-Solvent sender (charge_open charge) b s = pay_internal-Solvent c d sender charge b s
  looked-Solvent sender not_internal b s =
      option-holds IsSolventEnd (parse_emv_value c.float_of fuel d.payload) _ _ (λ _. tt)
        (λ emv_value _.
          same_users b (pay_external c d sender emv_value b).1
            (external-users c d sender emv_value b) s)

  pub pay_pix_qrcode-Solvent :
      (k : ℕ) (b : Bank) → Solvent b → IsSolventEnd (pay_pix_qrcode c d fuel k b)
  unfolding pay_pix_qrcode pay_screened
  pay_pix_qrcode-Solvent k b s =
      if-holds IsSolventEnd (validate_pix_crc d.payload) _ _
        (λ _.
          option-holds IsSolventEnd (find_duplicate d k b) _ _
            (λ _.
              option-holds IsSolventEnd (find_user k b) _ _ (λ _. s)
                (λ sender _.
                  let routed = looked-Solvent sender (find_internal_qrcode_charge d b) b s in
                  if-holds IsSolventEnd (client_sent d == 0) _ _ (λ _. routed)
                    (λ _.
                      option-holds IsSolventEnd
                        (screen_antifraud c.now c.hour (client_sent d) sender.id b) _ _
                        (λ _. routed) (λ _ _. s))))
            (λ _ _. s))
        (λ _. s)
