-- ===== src/Solvency/Events.antt =====
-- The transfer events (app/pix/router.py) keep every balance at zero or above.
use payvorax.Base.{if-holds, ℕ, ◌+◌, ◌-◌, inl, inr, not, arith, ltb, Option-cases}
use payvorax.Base.Int.{ℤ, pos, ◌-ℤ◌, ltb_ℤ, abs, ltb_ℤ→ge}
use payvorax.Bank.Money.{find_user, set_balance}
use payvorax.Bank.{
  PixTransaction, Bank, is_sent, is_processing, is_confirmed, is_failed, fee_of, confirmed,
}
use payvorax.Fees.{platform_pix_outbound_network_fee}
use payvorax.Matrix.{get_matrix_user, credit_fee}
use payvorax.Pix.Lifecycle.{set_status, settle_ledger_entries, reverse_ledger_entries}
use payvorax.Pix.Webhook.{
  TransferEvent, Action, find_transfer, absorb_shortfall, debit_balance, credit_margin,
  debit_sender, complete_transfer, on_transfer_done, on_transfer_failed, on_event,
  process_transfer_event, transfer_done, transfer_failed,
}
use payvorax.Solvency.{Solvent, set_balance-Solvent, set_matrix_balance-Solvent, credit_fee-Solvent}

absorb_shortfall-Solvent : (n : ℕ) (b : Bank) → Solvent b → Solvent (absorb_shortfall n b)
unfolding absorb_shortfall
absorb_shortfall-Solvent n b s = elim (Option-cases (get_matrix_user b)) [
  | inl missing ↦ rw (missing, absorb_shortfall) s
  | inr (m, found) ↦ rw (found, absorb_shortfall) (set_matrix_balance-Solvent _ b (omega arith) s)
]

debit_balance-Solvent :
    (k : ℕ) (after : ℤ) (b : Bank) → Solvent b → Solvent (debit_balance k after b)
unfolding debit_balance
debit_balance-Solvent k after b s =
    if-holds Solvent (ltb_ℤ after (pos 0)) (absorb_shortfall (abs after) (set_balance k (pos 0) b))
      (set_balance k after b)
      (λ _.
        absorb_shortfall-Solvent (abs after) (set_balance k (pos 0) b)
          (set_balance-Solvent k (pos 0) b (omega arith) s))
      (λ h. set_balance-Solvent k after b (ltb_ℤ→ge after (pos 0) h) s)

debit_sender-Solvent : (p : PixTransaction) (b : Bank) → Solvent b → Solvent (debit_sender p b)
unfolding debit_sender credit_margin
debit_sender-Solvent p b s = elim (Option-cases (find_user p.user_id b)) [
  | inl missing ↦ rw (missing, debit_sender) s
  | inr (u, found) ↦
      let b₁ = debit_balance p.user_id (u.balance -ℤ pos (p.value + fee_of p)) b in
      let s₁ = debit_balance-Solvent p.user_id (u.balance -ℤ pos (p.value + fee_of p)) b s in
      rw (found, debit_sender)
        (if-holds Solvent (ltb platform_pix_outbound_network_fee (fee_of p))
          (credit_fee (fee_of p - platform_pix_outbound_network_fee) b₁) b₁
          (λ _. credit_fee-Solvent (fee_of p - platform_pix_outbound_network_fee) b₁ s₁) (λ _. s₁))
]

complete_transfer-Solvent :
    (now : ℕ) (p : PixTransaction) (b : Bank) → Solvent b → Solvent (complete_transfer now p b)
unfolding complete_transfer settle_ledger_entries
complete_transfer-Solvent now p b s =
    if-holds Solvent (is_sent p.type) (debit_sender p (set_status p.id confirmed b))
      (set_status p.id confirmed b) (λ _. debit_sender-Solvent p (set_status p.id confirmed b) s)
      (λ _. s)

on_event-Solvent :
    (ev : TransferEvent) (now : ℕ) (p : PixTransaction) (b : Bank)
    → Solvent b
    → Solvent (on_event ev now p b).1
unfolding on_transfer_done on_transfer_failed reverse_ledger_entries
on_event-Solvent transfer_done now p b s =
    if-holds (λ (o : Action × Bank). Solvent o.1) (is_confirmed p.status) _ _ (λ _. s)
      (λ _.
        if-holds (λ (o : Action × Bank). Solvent o.1) (not (is_processing p.status)) _ _ (λ _. s)
          (λ _. complete_transfer-Solvent now p b s))
on_event-Solvent transfer_failed now p b s =
    if-holds (λ (o : Action × Bank). Solvent o.1) (is_failed p.status) _ _ (λ _. s)
      (λ _.
        if-holds (λ (o : Action × Bank). Solvent o.1) (not (is_processing p.status)) _ _ (λ _. s)
          (λ _. s))

pub process_transfer_event-Solvent :
    (ev : TransferEvent) (now id : ℕ) (b : Bank)
    → Solvent b
    → Solvent (process_transfer_event ev now id b).1
unfolding process_transfer_event
process_transfer_event-Solvent ev now id b s = elim (Option-cases (find_transfer id b)) [
  | inl missing ↦ rw (missing, process_transfer_event) s
  | inr (p, found) ↦ rw (found, process_transfer_event) (on_event-Solvent ev now p b s)
]
