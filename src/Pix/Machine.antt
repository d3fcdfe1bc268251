-- ===== src/Pix/Machine.antt =====
-- The statuses of transactions as a machine on the rows alone, and the calls of app/pix/service.py and
-- app/pix/router.py that implement it: what they do to balances, ledger and platform is forgotten.
pub mod Refines
use payvorax.Pix.Webhook.{TransferEvent, process_transfer_event, transfer_done, transfer_failed}
use payvorax.Base.{ℕ, Bool, not, ◌&&◌, Option, none, some, List, [], ◌∷◌, if◌then◌else◌, ◌==◌}
use payvorax.Base.Query.{find_first, update_first}
use payvorax.Bank.{
  PixStatus, PixTransaction, Bank, is_processing, is_confirmed, is_created, is_scheduled, confirmed,
  failed, canceled, is_sent,
}
use payvorax.Pix.Charge.{
  ChargeGateway, process_pix_receipt, verify_pix_charge_payment, says_confirmed,
  get_pix_transaction,
}
use payvorax.Pix.Lifecycle.{pix_is, with_status, confirm_pix, cancel_pix}
use payvorax.Pix.QrCode.External.{
  PollAnswer, inline_confirmed, poll_round, poll_confirmed, poll_failed, poll_other, poll_error,
}
use payvorax.Pix.Receipt.{on_charge_paid}

-- A call on a transaction that exists.
pub data Move : Type 0 where
  transfer_event : TransferEvent → ℕ → ℕ → Move
  charge_paid charge_reported confirmed_by_hand : ℕ → Move
  charge_verified charge_seen : Option ChargeGateway → ℕ → ℕ → Move
  cancelled : ℕ → ℕ → Move
  polled : ℕ → ℕ → ℕ → PollAnswer → Move

abbrev pub carry_out : Move → Bank → Bank
carry_out (transfer_event ev now id) b = (process_transfer_event ev now id b).1
carry_out (charge_paid id) b = (on_charge_paid id b).1
carry_out (charge_reported id) b = (process_pix_receipt id b).1
carry_out (confirmed_by_hand id) b = (confirm_pix id b).1
carry_out (charge_verified g id k) b = (verify_pix_charge_payment g id k b).1
carry_out (charge_seen g id k) b = (get_pix_transaction g id k b).1
carry_out (cancelled id k) b = (cancel_pix id k b).1
carry_out (polled now k id a) b = poll_round now k id a b

abbrev pub carry_out_all : List Move → Bank → Bank
carry_out_all [] b = b
carry_out_all (m ∷ ms) b = carry_out_all ms (carry_out m b)

-- The machine: a row is picked, and rewritten if its status allows it.
abbrev pub rewrite_row :
    Option PixTransaction
    → (PixStatus → Bool)
    → (PixTransaction → PixTransaction)
    → List PixTransaction
    → List PixTransaction
rewrite_row none from f ps = ps
rewrite_row (some p) from f ps = if from p.status then update_first (pix_is p.id) f ps else ps

-- The row with the id that belongs to the user `k`.
abbrev pub pick_own : ℕ → ℕ → List PixTransaction → Option PixTransaction
pick_own id k ps = find_first (λ (p : PixTransaction). id == p.id && k == p.user_id) ps

-- By the row's own id, or else by the id that the gateway gave, where it is sent and on its way.
abbrev pub pick_transfer : ℕ → List PixTransaction → Option PixTransaction
pick_transfer id ps = elim (find_first (pix_is id) ps) [
  | some p ↦ some p
  | none ↦
      find_first
        (λ (p : PixTransaction). id == p.correlation_id && is_sent p.type && is_processing p.status)
        ps
]

abbrev pub outcome_of : TransferEvent → PixStatus
outcome_of transfer_done = confirmed
outcome_of transfer_failed = failed

abbrev not_confirmed : PixStatus → Bool
not_confirmed st = not (is_confirmed st)

abbrev pub move_rows : Move → List PixTransaction → List PixTransaction
move_rows (transfer_event ev now id) ps =
    rewrite_row (pick_transfer id ps) is_processing (with_status (outcome_of ev)) ps
move_rows (charge_paid id) ps =
    rewrite_row (find_first (pix_is id) ps) not_confirmed (with_status confirmed) ps
move_rows (charge_reported id) ps =
    rewrite_row (find_first (pix_is id) ps) is_created (with_status confirmed) ps
move_rows (confirmed_by_hand id) ps =
    rewrite_row (find_first (pix_is id) ps) not_confirmed (with_status confirmed) ps
move_rows (charge_verified g id k) ps =
    rewrite_row (pick_own id k ps) (λ st. is_created st && says_confirmed g id)
      (with_status confirmed) ps
move_rows (charge_seen g id k) ps = elim (pick_own id k ps) [
  | none ↦ ps
  | some p ↦
      if not (is_sent p.type) && is_created p.status && says_confirmed g id
      then update_first (pix_is p.id) (with_status confirmed) ps
      else ps
]
move_rows (cancelled id k) ps = elim (pick_own id k ps) [
  | none ↦ ps
  | some p ↦
      if is_scheduled p.status
      then update_first (λ (q : PixTransaction). id == q.id && k == q.user_id)
          (with_status canceled) ps
      else ps
]
move_rows (polled now k id (poll_confirmed ref)) ps =
    rewrite_row (find_first (pix_is id) ps) is_processing (inline_confirmed ref) ps
move_rows (polled now k id poll_failed) ps =
    rewrite_row (find_first (pix_is id) ps) is_processing (with_status failed) ps
move_rows (polled now k id poll_other) ps = ps
move_rows (polled now k id poll_error) ps = ps

abbrev pub move_rows_all : List Move → List PixTransaction → List PixTransaction
move_rows_all [] ps = ps
move_rows_all (m ∷ ms) ps = move_rows_all ms (move_rows m ps)
