-- ===== src/Matrix.antt =====
-- app/core/matrix.py: the platform's own account, which collects the fees.
pub mod Credit
use payvorax.Base.{ℕ, ◌==◌, Option, none, some, if◌then◌else◌, Bool}
use payvorax.Base.Int.{ℤ, pos, ◌+ℤ◌}
use payvorax.Base.Text.{Text, codes, text_eq}
use payvorax.Base.Query.{find_first, update_first}
use payvorax.Bank.{User, Bank}
use payvorax.Bank.Money.{with_balance}

-- `settings.MATRIX_ACCOUNT_EMAIL`, at its default.
abbrev pub matrix_account_email : Text
matrix_account_email = codes "matrix@biocodetechpay.internal"

unfoldable pub is_matrix : User → Bool
unfolding text_eq
is_matrix u = text_eq u.email matrix_account_email

abbrev pub get_matrix_user : Bank → Option User
get_matrix_user b = find_first is_matrix b.users

-- Writes the balance of the row that `get_matrix_user` returns.
abbrev pub set_matrix_balance : ℤ → Bank → Bank
set_matrix_balance v b = record b { users = update_first is_matrix (with_balance v) b.users }

-- `credit_fee`: the caller commits. Amounts are whole cents, so `quantize` changes nothing.
unfoldable pub credit_fee : ℕ → Bank → Bank
credit_fee amount b = if amount == 0 then b else elim (get_matrix_user b) [
  | none ↦ b
  | some m ↦ set_matrix_balance (m.balance +ℤ pos amount) b
]
