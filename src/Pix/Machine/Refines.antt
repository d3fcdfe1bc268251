-- ===== src/Pix/Machine/Refines.antt =====
-- The calls on transactions implement the machine on the rows.
use payvorax.Pix.Webhook.{
  TransferEvent, find_transfer, complete_transfer, on_transfer_done, on_transfer_failed,
  process_transfer_event, on_event, transfer_done, transfer_failed,
}
use payvorax.Base.{
  ℕ, ◌≡◌, refl, sym, ap, ◌∙◌, inl, inr, Option, none, some, List, [], ◌∷◌, arith, if◌then◌else◌,
  ==_iff, Option-cases, if-holds,
}
use payvorax.Base.Query.{update_first, find_first-holds}
use payvorax.Bank.{PixTransaction, Bank, is_sent, is_processing, confirmed, failed}
use payvorax.Pix.Charge.{
  RemoteStatus, ChargeGateway, settle_charge, process_pix_receipt, charge_answered,
  verify_pix_charge_payment, remote_pending, remote_confirmed, remote_expired, remote_cancelled,
  remote_other, pays, get_pix_transaction,
}
use payvorax.Pix.Lifecycle.{
  pix_is, with_status, find_pix, set_status, confirm_pix, get_pix, cancel_pix,
  settle_ledger_entries, reverse_ledger_entries,
}
use payvorax.Pix.Machine.{
  Move, carry_out, carry_out_all, rewrite_row, pick_transfer, move_rows, move_rows_all,
  transfer_event, charge_paid, charge_reported, confirmed_by_hand, charge_verified, cancelled,
  polled, outcome_of, charge_seen,
}
use payvorax.Pix.QrCode.External.{
  PollAnswer, inline_confirmed, poll_round, poll_confirmed, poll_failed, poll_other, poll_error,
}
use payvorax.Pix.QrCode.Race.{pix-debit_inline}
use payvorax.Pix.Receipt.{on_charge_paid}
use payvorax.Pix.Receipt.Credits.{pix-credit_receiver}
use payvorax.Pix.Webhook.Debit.{pix-debit_sender}

pix-settle_charge :
    (p : PixTransaction) (b : Bank)
    → (settle_charge p b).pix ≡ update_first (pix_is p.id) (with_status confirmed) b.pix
unfolding settle_charge
pix-settle_charge p b = pix-credit_receiver p (set_status p.id confirmed b)

module _ (b : Bank) where
  -- The row that an id finds has that id.
  id_found : (id : ℕ) (p : PixTransaction) → find_pix id b ≡ some p → id ≡ p.id
  id_found id p h = (==_iff id p.id).0 (find_first-holds (pix_is id) b.pix p h)

  pix-complete_transfer :
      (now : ℕ) (p : PixTransaction)
      → (complete_transfer now p b).pix ≡ update_first (pix_is p.id) (with_status confirmed) b.pix
  unfolding complete_transfer settle_ledger_entries
  pix-complete_transfer now p =
      let marked = set_status p.id confirmed b in
      if-holds (λ (x : Bank). x.pix ≡ marked.pix) (is_sent p.type) _ _
        (λ _. (pix-debit_sender p marked).0) (λ _. refl)

  done-rows :
      (now : ℕ) (p : PixTransaction)
      → (on_transfer_done now p b).1.pix
        ≡ rewrite_row (some p) is_processing (with_status confirmed) b.pix
  unfolding on_transfer_done
  done-rows now p = ground (arith, pix-complete_transfer now p)

  failed-rows :
      (now : ℕ) (p : PixTransaction)
      → (on_transfer_failed now p b).1.pix
        ≡ rewrite_row (some p) is_processing (with_status failed) b.pix
  unfolding on_transfer_failed reverse_ledger_entries
  failed-rows now p = ground arith

  on_event-rows :
      (ev : TransferEvent) (now : ℕ) (p : PixTransaction)
      → (on_event ev now p b).1.pix
        ≡ rewrite_row (some p) is_processing (with_status (outcome_of ev)) b.pix
  on_event-rows transfer_done now p = done-rows now p
  on_event-rows transfer_failed now p = failed-rows now p

  picked : (id : ℕ) → find_transfer id b ≡ pick_transfer id b.pix
  unfolding find_transfer
  picked id = refl

  event-rows :
      (ev : TransferEvent) (now id : ℕ)
      → (process_transfer_event ev now id b).1.pix ≡ move_rows (transfer_event ev now id) b.pix
  unfolding process_transfer_event
  event-rows ev now id = elim (Option-cases (find_transfer id b)) [
    | inl missing ↦ rw (missing, sym (picked id) ∙ missing, process_transfer_event) refl
    | inr (p, found) ↦
        rw (found, sym (picked id) ∙ found, process_transfer_event) (on_event-rows ev now p)
  ]

  paid-rows : (id : ℕ) → (on_charge_paid id b).1.pix ≡ move_rows (charge_paid id) b.pix
  unfolding on_charge_paid
  paid-rows id = elim (Option-cases (find_pix id b)) [
    | inl missing ↦ ground (arith, missing)
    | inr (p, found) ↦
        ground
          (arith, found, id_found id p found, pix-credit_receiver p (set_status id confirmed b))
  ]

  reported-rows : (id : ℕ) → (process_pix_receipt id b).1.pix ≡ move_rows (charge_reported id) b.pix
  unfolding process_pix_receipt
  reported-rows id = elim (Option-cases (find_pix id b)) [
    | inl missing ↦ ground (arith, missing)
    | inr (p, found) ↦ ground (arith, found, pix-settle_charge p b)
  ]

  confirmed-rows : (id : ℕ) → (confirm_pix id b).1.pix ≡ move_rows (confirmed_by_hand id) b.pix
  unfolding confirm_pix
  confirmed-rows id = elim (Option-cases (find_pix id b)) [
    | inl missing ↦ ground (arith, missing)
    | inr (p, found) ↦ ground (arith, found, id_found id p found)
  ]

  answered-rows :
      (o : Option RemoteStatus) (p : PixTransaction)
      → (charge_answered o p b).1.pix
        ≡ (if pays o then update_first (pix_is p.id) (with_status confirmed) b.pix else b.pix)
  unfolding charge_answered
  answered-rows none p = refl
  answered-rows (some remote_pending) p = refl
  answered-rows (some remote_confirmed) p = pix-settle_charge p b
  answered-rows (some remote_expired) p = refl
  answered-rows (some remote_cancelled) p = refl
  answered-rows (some remote_other) p = refl

  verified-rows :
      (g : Option ChargeGateway) (id k : ℕ)
      → (verify_pix_charge_payment g id k b).1.pix ≡ move_rows (charge_verified g id k) b.pix
  unfolding verify_pix_charge_payment
  verified-rows none id k = ground arith
  verified-rows (some g) id k = elim (Option-cases (get_pix id k b)) [
    | inl missing ↦ ground (arith, missing)
    | inr (p, found) ↦ ground (arith, found, answered-rows (g.get_charge_status id) p)
  ]

  seen-rows :
      (g : Option ChargeGateway) (id k : ℕ)
      → (get_pix_transaction g id k b).1.pix ≡ move_rows (charge_seen g id k) b.pix
  unfolding get_pix_transaction
  seen-rows g id k = elim (Option-cases (get_pix id k b)) [
    | inl missing ↦ ground (arith, missing)
    | inr (p, found) ↦ ground (arith, found, pix-settle_charge p b)
  ]

  cancelled-rows : (id k : ℕ) → (cancel_pix id k b).1.pix ≡ move_rows (cancelled id k) b.pix
  unfolding cancel_pix
  cancelled-rows id k = ground arith

  polled-rows :
      (now k id : ℕ) (a : PollAnswer)
      → (poll_round now k id a b).pix ≡ move_rows (polled now k id a) b.pix
  unfolding poll_round settle_ledger_entries reverse_ledger_entries
  polled-rows now k id (poll_confirmed ref) = elim (Option-cases (find_pix id b)) [
    | inl missing ↦ ground (arith, missing)
    | inr (p, found) ↦
        let marked : Bank = record b {
          pix = update_first (pix_is id) (inline_confirmed ref) b.pix;
        } in
        ground (arith, found, id_found id p found, pix-debit_inline now id k p marked)
  ]
  polled-rows now k id poll_failed = elim (Option-cases (find_pix id b)) [
    | inl missing ↦ ground (arith, missing)
    | inr (p, found) ↦ ground (arith, found, id_found id p found)
  ]
  polled-rows now k id poll_other = refl
  polled-rows now k id poll_error = refl

-- One call does to the rows what the machine does.
carry_out-move_rows : (m : Move) (b : Bank) → (carry_out m b).pix ≡ move_rows m b.pix
carry_out-move_rows (transfer_event ev now id) b = event-rows b ev now id
carry_out-move_rows (charge_paid id) b = paid-rows b id
carry_out-move_rows (charge_reported id) b = reported-rows b id
carry_out-move_rows (confirmed_by_hand id) b = confirmed-rows b id
carry_out-move_rows (charge_verified g id k) b = verified-rows b g id k
carry_out-move_rows (charge_seen g id k) b = seen-rows b g id k
carry_out-move_rows (cancelled id k) b = cancelled-rows b id k
carry_out-move_rows (polled now k id a) b = polled-rows b now k id a

-- Any sequence of transfer events, paid and reported charges, confirmations by hand, verifications and
-- looks at charges, cancellations and polls implements the machine: the rows that it leaves are those
-- that the machine makes of the rows before, whatever the balances, the ledger and the platform hold.
-- The calls that create rows, the dispatch and the listing of charges (`sync_pix_charge_status`) are
-- none of these.
pub carry_out_all-refines :
    (ms : List Move) (b : Bank) → (carry_out_all ms b).pix ≡ move_rows_all ms b.pix
carry_out_all-refines [] b = refl
carry_out_all-refines (m ∷ ms) b =
    carry_out_all-refines ms (carry_out m b) ∙ ap (move_rows_all ms) (carry_out-move_rows m b)
