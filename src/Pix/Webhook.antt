-- ===== src/Pix/Webhook.antt =====
-- The transfer events of `_process_asaas_webhook_event` (app/pix/router.py): the deferred debit on
-- `TRANSFER_DONE`, and the reversal on `TRANSFER_FAILED`.
pub mod Debit
pub mod Events
pub mod Inert
pub mod Delivery
use payvorax.Base.{ℕ, ◌+◌, ◌-◌, Bool, not, ◌&&◌, Option, none, some, ltb, ◌==◌, if◌then◌else◌}
use payvorax.Base.Int.{ℤ, pos, pos_part, ◌-ℤ◌, ltb_ℤ, abs}
use payvorax.Base.Query.{find_first}
use payvorax.Bank.Money.{find_user, set_balance}
use payvorax.Bank.{
  PixTransaction, Bank, is_sent, is_processing, is_confirmed, is_failed, fee_of, confirmed, failed,
}
use payvorax.Fees.{platform_pix_outbound_network_fee}
use payvorax.Matrix.{get_matrix_user, set_matrix_balance, credit_fee}
use payvorax.Pix.Lifecycle.{find_pix, set_status, settle_ledger_entries, reverse_ledger_entries}

pub data TransferEvent : Type 0 where
  transfer_done transfer_failed : TransferEvent

-- The field `action` of the answer.
pub data Action : Type 0 where
  already_confirmed already_failed invalid_transition transfer_updated : Action

abbrev pub by_correlation : ℕ → PixTransaction → Bool
by_correlation transfer_id p =
    transfer_id == p.correlation_id && is_sent p.type && is_processing p.status

-- First by the row's own id, then by the id that the gateway gave at dispatch.
unfoldable pub find_transfer : ℕ → Bank → Option PixTransaction
find_transfer transfer_id b = elim (find_pix transfer_id b) [
  | some p ↦ some p
  | none ↦ find_first (by_correlation transfer_id) b.pix
]

-- The platform absorbs a shortfall as far as its balance goes: `max(0, m - shortfall)`.
unfoldable pub absorb_shortfall : ℕ → Bank → Bank
absorb_shortfall shortfall b = elim (get_matrix_user b) [
  | none ↦ b
  | some m ↦ set_matrix_balance (pos (pos_part (m.balance -ℤ pos shortfall))) b
]

-- The balance is debited in full; below zero it is set to zero and the platform absorbs the rest.
unfoldable pub debit_balance : ℕ → ℤ → Bank → Bank
debit_balance user_id balance_after b =
    if ltb_ℤ balance_after (pos 0)
    then absorb_shortfall (abs balance_after) (set_balance user_id (pos 0) b)
    else set_balance user_id balance_after b

-- `if _wh_svc_margin > 0: credit_fee(...)`
unfoldable pub credit_margin : ℕ → Bank → Bank
credit_margin fee b =
    if ltb platform_pix_outbound_network_fee fee
    then credit_fee (fee - platform_pix_outbound_network_fee) b
    else b

unfoldable pub debit_sender : PixTransaction → Bank → Bank
debit_sender p b = elim (find_user p.user_id b) [
  | none ↦ b
  | some sender ↦
      credit_margin (fee_of p)
        (debit_balance p.user_id (sender.balance -ℤ pos (p.value + fee_of p)) b)
]

unfoldable pub complete_transfer : ℕ → PixTransaction → Bank → Bank
complete_transfer now p b = settle_ledger_entries now p.id (
    if is_sent p.type
    then debit_sender p (set_status p.id confirmed b)
    else set_status p.id confirmed b)

unfoldable pub on_transfer_done : ℕ → PixTransaction → Bank → Action × Bank
on_transfer_done now p b =
    if is_confirmed p.status
    then (already_confirmed, b)
    else if not (is_processing p.status)
    then (invalid_transition, b)
    else (transfer_updated, complete_transfer now p b)

-- No balance moves: it was not debited at dispatch.
unfoldable pub on_transfer_failed : ℕ → PixTransaction → Bank → Action × Bank
on_transfer_failed now p b =
    if is_failed p.status
    then (already_failed, b)
    else if not (is_processing p.status)
    then (invalid_transition, b)
    else (transfer_updated, reverse_ledger_entries now p.id (set_status p.id failed b))

abbrev pub on_event : TransferEvent → ℕ → PixTransaction → Bank → Action × Bank
on_event transfer_done now p b = on_transfer_done now p b
on_event transfer_failed now p b = on_transfer_failed now p b

-- An unknown transfer is answered like a processed one.
unfoldable pub process_transfer_event : TransferEvent → ℕ → ℕ → Bank → Action × Bank
process_transfer_event ev now transfer_id b = elim (find_transfer transfer_id b) [
  | none ↦ (transfer_updated, b)
  | some p ↦ on_event ev now p b
]
