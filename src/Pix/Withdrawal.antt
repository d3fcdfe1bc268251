-- ===== src/Pix/Withdrawal.antt =====
-- `asaas_withdrawal_validation` (app/pix/router.py): whether the gateway may carry out a withdrawal
-- from the platform's own account there.
use payvorax.Base.{ℕ, Bool, true, false, not, Option, none, some, [], ◌∷◌, if◌then◌else◌}
use payvorax.Base.Int.{ℤ, pos, ltb_ℤ}
use payvorax.Base.Text.{Text, text_eq}

pub data WithdrawalType : Type 0 where
  withdrawal_transfer withdrawal_pix bill_payment pix_refund other_withdrawal : WithdrawalType

-- A request: the token of its header, and the value, `none` where it is no number. A missing type is
-- `none`.
pub record Withdrawal : Type 0 where
  pub token : Text
  pub type : Option WithdrawalType
  pub value : Option ℤ

pub data Verdict : Type 0 where
  approved token_not_configured unauthorized invalid_value limit_exceeded : Verdict
  unsupported_type : Verdict

-- R$50,000.00
abbrev max_withdrawal : ℕ
max_withdrawal = 5000000

abbrev withdrawal_value : Withdrawal → ℤ
withdrawal_value w = elim w.value [ none ↦ pos 0 | some v ↦ v ]

abbrev is_supported : Option WithdrawalType → Bool
is_supported (some other_withdrawal) = false
is_supported _ = true

-- `asaas_withdrawal_validation`; an empty configured token is none.
unfoldable withdrawal_validation : Text → Withdrawal → Verdict
withdrawal_validation [] w = token_not_configured
withdrawal_validation (c ∷ secret) w =
    if not (text_eq w.token (c ∷ secret))
    then unauthorized
    else if ltb_ℤ (withdrawal_value w) (pos 1)
    then invalid_value
    else if ltb_ℤ (pos max_withdrawal) (withdrawal_value w)
    then limit_exceeded
    else if is_supported w.type
    then approved
    else unsupported_type
