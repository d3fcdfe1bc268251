-- ===== src/Pix/Receipt.antt =====
-- `credit_pix_receipt` (app/pix/service.py), and the webhook's confirmation of a charge
-- (app/pix/router.py).
pub mod Credits
use payvorax.Base.{ℕ, ◌+◌, ◌-◌, ◌*◌, ◌/◌, min, true, Option, none, some, if◌then◌else◌}
use payvorax.Base.Int.{ℤ, pos, ◌+ℤ◌}
use payvorax.Base.Query.{update_first}
use payvorax.Bank.Money.{user_is, find_user}
use payvorax.Bank.{User, PixTransaction, Bank, is_confirmed, confirmed}
use payvorax.Fees.{calculate_pix_fee}
use payvorax.Matrix.{credit_fee}
use payvorax.Pix.Lifecycle.{find_pix, set_status}

-- `CREDIT_LIMIT_CAP`, R$50,000.00.
abbrev pub credit_limit_cap : ℕ
credit_limit_cap = 5000000

-- `fee_override`, or the fee of a receipt from outside.
unfoldable pub receipt_fee : User → ℕ → Option ℕ → ℕ
receipt_fee receiver gross_value none = calculate_pix_fee receiver.cpf_cnpj gross_value true true
receipt_fee receiver gross_value (some fee) = fee

-- `min(current + gross * 0.50, cap)`, rounded half up: the sum is taken in half cents.
unfoldable pub raised_limit : ℕ → ℕ → ℕ
raised_limit current gross_value = (min (2 * current + gross_value) (2 * credit_limit_cap) + 1) / 2

abbrev pub credited_row : ℤ → ℕ → User → User
credited_row v limit u = record u { balance = v; credit_limit = limit }

-- `max(0, gross - fee)` is the truncated difference. The limit on a day's receipts is only logged.
-- The caller commits. The results are the net credit and the fee.
unfoldable pub credit_pix_receipt : User → ℕ → Option ℕ → Bank → (ℕ × ℕ) × Bank
credit_pix_receipt receiver gross_value fee_override b =
    let receive_fee = receipt_fee receiver gross_value fee_override in
    let net = gross_value - receive_fee in
    let credited = record b {
      users =
          update_first (user_is receiver.id)
            (credited_row (receiver.balance +ℤ pos net)
              (raised_limit receiver.credit_limit gross_value))
            b.users;
    } in
    ((net, receive_fee), credit_fee receive_fee credited)

pub data ChargeAction : Type 0 where
  charge_unknown charge_already_confirmed charge_confirmed : ChargeAction

unfoldable pub credit_receiver : PixTransaction → Bank → Bank
credit_receiver p b = elim (find_user p.user_id b) [
  | none ↦ b
  | some receiver ↦ (credit_pix_receipt receiver p.value none b).1
]

-- `PAYMENT_RECEIVED` or `PAYMENT_CONFIRMED` for a payment id. For an id that the table does not hold
-- the sender is looked for in other ways, which are not modelled.
unfoldable pub on_charge_paid : ℕ → Bank → ChargeAction × Bank
on_charge_paid payment_id b = elim (find_pix payment_id b) [
  | none ↦ (charge_unknown, b)
  | some p ↦
      if is_confirmed p.status
      then (charge_already_confirmed, b)
      else (charge_confirmed, credit_receiver p (set_status payment_id confirmed b))
]
