-- ===== src/Boleto.antt =====
-- app/boleto/service.py: the payment of a boleto.
pub mod Pays
use payvorax.Base.{ℕ, ◌+◌, none, some, ◌∷◌, if◌then◌else◌}
use payvorax.Base.Int.{pos, ◌-ℤ◌, ltb_ℤ}
use payvorax.Base.Text.{Text}
use payvorax.Bank.Money.{find_user, set_balance}
use payvorax.Bank.{
  Outcome, user_not_found, insufficient_funds, ok, raise, User, BoletoTransaction, Bank,
}
use payvorax.Fees.{calculate_boleto_fee}
use payvorax.Matrix.{credit_fee}

-- What `BoletoPaymentRequest` carries, and the fresh id.
pub record BoletoPaymentRequest : Type 0 where
  pub barcode : Text
  pub value : ℕ
  pub new_id : ℕ

abbrev pub boleto_row : BoletoPaymentRequest → ℕ → ℕ → BoletoTransaction
boleto_row r user_id fee = record {
  id = r.new_id;
  value = r.value;
  barcode = r.barcode;
  user_id = user_id;
  fee_amount = fee;
}

abbrev pub add_boleto : BoletoTransaction → Bank → Bank
add_boleto x b = record b { boletos = x ∷ b.boletos }

-- The debit, its guard (a rollback), the fee, the row, the commit.
unfoldable pub charge_boleto :
    BoletoPaymentRequest → User → ℕ → ℕ → Bank → Outcome BoletoTransaction
charge_boleto r user user_id fee b =
    let balance_after = user.balance -ℤ pos (r.value + fee) in
    if ltb_ℤ balance_after (pos 0) then (raise insufficient_funds, b) else (
      ok (boleto_row r user_id fee),
      add_boleto (boleto_row r user_id fee) (credit_fee fee (set_balance user_id balance_after b)),
    )

-- `process_payment`
unfoldable pub process_payment : BoletoPaymentRequest → ℕ → Bank → Outcome BoletoTransaction
process_payment r user_id b = elim (find_user user_id b) [
  | none ↦ (raise user_not_found, b)
  | some user ↦
      let fee = calculate_boleto_fee user.cpf_cnpj in
      if ltb_ℤ user.balance (pos (r.value + fee))
      then (raise insufficient_funds, b)
      else charge_boleto r user user_id fee b
]
