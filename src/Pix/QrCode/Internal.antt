-- ===== src/Pix/QrCode/Internal.antt =====
-- `pay_pix_qrcode` (app/pix/router.py): the payment of a code that is a charge of the platform.
use payvorax.Base.{◌+◌, none, some, ◌==◌, if◌then◌else◌}
use payvorax.Base.Int.{pos, ◌-ℤ◌, ltb_ℤ}
use payvorax.Bank.Money.{find_user, set_balance}
use payvorax.Bank.{
  User, PixTransaction, Bank, ok, raise, Outcome, receiver_not_found, insufficient_funds, random,
  sent, confirmed,
}
use payvorax.Fees.{pix_maintenance_fee}
use payvorax.Matrix.{credit_fee}
use payvorax.Pix.Create.{add_pix}
use payvorax.Pix.Lifecycle.{with_status, set_status}
use payvorax.Pix.Receipt.{credit_pix_receipt}
use payvorax.Pix.QrCode.{QrRequest, QrContext, idempotency_key}

-- The payer's row.
abbrev pub internal_row : QrContext → QrRequest → PixTransaction → User → PixTransaction
internal_row c d charge sender = record {
  id = c.new_id;
  value = charge.value;
  pix_key = charge.pix_key;
  key_type = random;
  type = sent;
  status = confirmed;
  user_id = sender.id;
  idempotency_key = idempotency_key c d;
  created_at = c.now;
  correlation_id = charge.correlation_id;
  scheduled_date = none;
  fee_amount = none;
  payload_hash = some d.payload_hash;
}

-- `credit_pix_receipt(..., fee_override=0.0)` on the receiver's row as it is by then.
unfoldable pub credit_charge : PixTransaction → Bank → Bank
credit_charge charge b = elim (find_user charge.user_id b) [
  | none ↦ b
  | some receiver ↦ (credit_pix_receipt receiver charge.value (some 0) b).1
]

-- The charge is marked and its owner credited.
unfoldable pub settle_internal : PixTransaction → Bank → Bank
settle_internal charge b = credit_charge charge (set_status charge.id confirmed b)

-- What the payer pays: the value and the maintenance fee, which goes to the platform.
unfoldable pub debit_payer : User → PixTransaction → Bank → Bank
debit_payer sender charge b =
    credit_fee pix_maintenance_fee
      (set_balance sender.id (sender.balance -ℤ pos (charge.value + pix_maintenance_fee)) b)

-- A charge of someone else; a balance below zero after the debit is refused once more.
unfoldable pub pay_other :
    QrContext → QrRequest → PixTransaction → User → Bank → Outcome PixTransaction
unfolding debit_payer settle_internal
pay_other c d charge sender b =
    let total_debit = charge.value + pix_maintenance_fee in
    let row = internal_row c d charge sender in
    if ltb_ℤ sender.balance (pos total_debit)
    then (raise insufficient_funds, b)
    else if ltb_ℤ (sender.balance -ℤ pos total_debit) (pos 0)
    then (raise insufficient_funds, b)
    else (ok row, add_pix row (settle_internal charge (debit_payer sender charge b)))

-- A charge of the payer's own is credited without any debit.
unfoldable pub pay_internal :
    QrContext → QrRequest → PixTransaction → User → Bank → Outcome PixTransaction
unfolding pay_other settle_internal
pay_internal c d charge sender b = elim (find_user charge.user_id b) [
  | none ↦ (raise receiver_not_found, b)
  | some receiver ↦
      if charge.user_id == sender.id
      then (ok (with_status confirmed charge), settle_internal charge b)
      else pay_other c d charge sender b
]
