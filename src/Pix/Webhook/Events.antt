-- ===== src/Pix/Webhook/Events.antt =====
-- The transfer events as a state machine on the status of a transaction.
use payvorax.Base.{ℕ, ◌≡◌, Bool, true, false, some, arith, ◌+◌, refl, sym, subst, ap, ◌∙◌}
use payvorax.Bank.{
  PixStatus, PixTransaction, Bank, processing, User, fee_of, confirmed, failed, sent, settled,
  reversed,
}
use payvorax.Pix.Webhook.{
  TransferEvent, find_transfer, on_transfer_done, on_transfer_failed, process_transfer_event,
  transfer_done, transfer_failed, on_event, Action, debit_sender, complete_transfer,
  transfer_updated,
}
use payvorax.Base.Int.{pos, ◌≤ℤ◌, ◌<ℤ◌}
use payvorax.Base.Query.{find_first, All, find_first-holds, find_first-update_self}
use payvorax.Bank.Money.{find_user}
use payvorax.Matrix.{get_matrix_user}
use payvorax.Matrix.Credit.{IsCustomer}
use payvorax.Pix.Lifecycle.{
  pix_is, with_status, find_pix, set_status, awaits, settle_ledger_entries, reverse_ledger_entries,
}
use payvorax.Pix.Lifecycle.Status.{close_entries-none_awaits}
use payvorax.Pix.Webhook.Debit.{
  Debited, Clamped, debit_sender-Debited, debit_sender-Clamped, pix-debit_sender,
}

-- A status with which no transfer event changes anything.
abbrev pub is_settled : PixStatus → Bool
is_settled processing = false
is_settled _ = true

on_event-settled :
    (ev : TransferEvent) (now : ℕ) (p : PixTransaction) (b : Bank)
    → is_settled p.status ≡ true
    → (on_event ev now p b).1 ≡ b
unfolding on_transfer_done on_transfer_failed
on_event-settled transfer_done now p b h = ground arith
on_event-settled transfer_failed now p b h = ground arith

-- An event for a transaction whose status is not `PROCESSING` changes nothing.
pub settled_is_final :
    (ev : TransferEvent) (now id : ℕ) (p : PixTransaction) (b : Bank)
    → find_transfer id b ≡ some p
    → is_settled p.status ≡ true
    → (process_transfer_event ev now id b).1 ≡ b
unfolding process_transfer_event
settled_is_final ev now id p b found h =
    rw (found, process_transfer_event) (on_event-settled ev now p b h)

-- After an event that found a transaction on its way: its row has the new status and is the same
-- otherwise, and no ledger entry of it is left pending.
pub record Completed (st : PixStatus) (p : PixTransaction) (b' : Bank) : Type 0 where
  pub row : find_pix p.id b' ≡ some (with_status st p)
  pub ledger : All (λ e. awaits p.id e ≡ false) b'.ledger

pub set_status-row :
    (st : PixStatus) (p : PixTransaction) (b : Bank)
    → find_pix p.id b ≡ some p
    → find_pix p.id (set_status p.id st b) ≡ some (with_status st p)
set_status-row st p b h =
    find_first-update_self (pix_is p.id) (with_status st) b.pix p h
      (find_first-holds (pix_is p.id) b.pix p h)

module _ (now id : ℕ) (p : PixTransaction) (b : Bank) where
  abbrev marked : Bank
  marked = set_status p.id confirmed b

  done_event :
      find_transfer id b ≡ some p
      → p.status ≡ processing
      → p.type ≡ sent
      → process_transfer_event transfer_done now id b
        ≡ (transfer_updated, settle_ledger_entries now p.id (debit_sender p marked))
  unfolding process_transfer_event on_transfer_done complete_transfer
  done_event found st out = ground (arith, found)

  failed_event :
      find_transfer id b ≡ some p
      → p.status ≡ processing
      → process_transfer_event transfer_failed now id b
        ≡ (transfer_updated, reverse_ledger_entries now p.id (set_status p.id failed b))
  unfolding process_transfer_event on_transfer_failed
  failed_event found st = ground (arith, found)

  abbrev done : Bank
  done = (process_transfer_event transfer_done now id b).1

  abbrev undone : Bank
  undone = (process_transfer_event transfer_failed now id b).1

  settle-Completed :
      (b' : Bank)
      → find_pix p.id b' ≡ some (with_status confirmed p)
      → Completed confirmed p (settle_ledger_entries now p.id b')
  unfolding settle_ledger_entries
  settle-Completed b' h = record {
    row = h;
    ledger = close_entries-none_awaits settled now p.id b'.ledger refl;
  }

  pub transfer_done-Completed :
      find_transfer id b ≡ some p
      → find_pix p.id b ≡ some p
      → p.status ≡ processing
      → p.type ≡ sent
      → Completed confirmed p done
  transfer_done-Completed found row st out =
      subst (λ (x : Bank). Completed confirmed p x)
        (sym (ap (λ (o : Action × Bank). o.1) (done_event found st out)))
        (settle-Completed (debit_sender p marked) (
          ap (λ l. find_first (pix_is p.id) l) (pix-debit_sender p marked).0
          ∙ set_status-row confirmed p b row))

  -- A transfer on its way whose gateway reports `TRANSFER_FAILED`: its row becomes `FAILED` and is
  -- the same otherwise, none of its ledger entries stays pending, and no user's row changes.
  pub transfer_failed-Completed :
      find_transfer id b ≡ some p
      → find_pix p.id b ≡ some p
      → p.status ≡ processing
      → Completed failed p undone × (undone.users ≡ b.users)
  unfolding reverse_ledger_entries
  transfer_failed-Completed found row st =
      subst (λ (x : Bank). Completed failed p x × (x.users ≡ b.users))
        (sym (ap (λ (o : Action × Bank). o.1) (failed_event found st)))
        (
          record {
            row = set_status-row failed p b row;
            ledger = close_entries-none_awaits reversed now p.id b.ledger refl;
          },
          refl,
        )

  -- A transfer on its way, of a customer whose balance covers its value and fee, where the platform
  -- has an account: on `TRANSFER_DONE` its row becomes `CONFIRMED`, none of its ledger entries stays
  -- pending, the customer's balance falls by exactly value and fee, the platform's rises by the part
  -- of the fee above the network fee, and the sum of all balances falls by the difference.
  pub transfer_done-Debited :
      (u m : User)
      → find_transfer id b ≡ some p
      → find_pix p.id b ≡ some p
      → p.status ≡ processing
      → p.type ≡ sent
      → find_user p.user_id b ≡ some u
      → get_matrix_user b ≡ some m
      → IsCustomer p.user_id b
      → pos (p.value + fee_of p) ≤ℤ u.balance
      → Completed confirmed p done × Debited p u m b done
  unfolding settle_ledger_entries
  transfer_done-Debited u m found row st out owner platform apart covered =
      let w = debit_sender-Debited p u m marked owner platform apart covered in
      (
        transfer_done-Completed found row st out,
        subst (λ (x : Bank). Debited p u m b x)
            (sym (ap (λ (o : Action × Bank). o.1) (done_event found st out)))
            (record { sender = w.sender; platform = w.platform; total = w.total }),
      )

  -- A transfer on its way, of a customer whose balance does not cover its value and fee, where the
  -- platform has an account: on `TRANSFER_DONE` its row becomes `CONFIRMED`, none of its ledger
  -- entries stays pending, the customer's balance becomes zero, and what is missing is taken from the
  -- platform's balance, down to zero and no further, before its part of the fee is added.
  pub transfer_done-Clamped :
      (u m : User)
      → find_transfer id b ≡ some p
      → find_pix p.id b ≡ some p
      → p.status ≡ processing
      → p.type ≡ sent
      → find_user p.user_id b ≡ some u
      → get_matrix_user b ≡ some m
      → IsCustomer p.user_id b
      → u.balance <ℤ pos (p.value + fee_of p)
      → Completed confirmed p done × Clamped p u m b done
  unfolding settle_ledger_entries
  transfer_done-Clamped u m found row st out owner platform apart short =
      let w = debit_sender-Clamped p u m marked owner platform apart short in
      (
        transfer_done-Completed found row st out,
        subst (λ (x : Bank). Clamped p u m b x)
            (sym (ap (λ (o : Action × Bank). o.1) (done_event found st out)))
            (record { sender = w.sender; platform = w.platform }),
      )
