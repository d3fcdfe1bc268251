-- ===== src/Audit.antt =====
-- `_run_single_audit` (app/core/audit_worker.py): one cycle that compares the sum of all balances
-- with the gateway's balance, and corrects the platform's account.
pub mod Loop
pub mod Parity
use payvorax.Base.{ℕ, ◌-◌, min, ◌&&◌, Option, none, some, ltb, leb, if◌then◌else◌}
use payvorax.Base.Int.{ℤ, pos, negsuc, pos_part, ◌+ℤ◌, ◌-ℤ◌, ltb_ℤ, abs}
use payvorax.Bank.Money.{total_balance}
use payvorax.Bank.{User, Bank}
use payvorax.Matrix.{get_matrix_user, set_matrix_balance}

-- `_AUTO_CORRECTION_MAX`, R$20.00.
abbrev pub auto_correction_max : ℕ
auto_correction_max = 2000

pub data AuditStatus : Type 0 where
  status_ok warn_no_gateway auto_corrected warn error : AuditStatus

pub data Correction : Type 0 where
  matrix_debited : ℕ → Correction
  matrix_credited : ℕ → Correction

pub record AuditResult : Type 0 where
  pub signed_diff : Option ℤ
  pub status : AuditStatus
  pub correction_applied : Option Correction
  pub remainder_unfunded : ℕ

-- `min(abs_diff, max(0, matrix_cur))`
abbrev pub matrix_debit : ℕ → User → ℕ
matrix_debit diff m = min diff (pos_part m.balance)

-- The internal total exceeds the gateway's by at most the cap.
unfoldable pub correct_down : ℕ → User → Bank → AuditResult × Bank
correct_down diff m b = (
  record {
    signed_diff = some (pos diff);
    status = auto_corrected;
    correction_applied = some (matrix_debited (matrix_debit diff m));
    remainder_unfunded = diff - matrix_debit diff m;
  },
  set_matrix_balance (m.balance -ℤ pos (matrix_debit diff m)) b,
)

-- The gateway's balance exceeds the internal total: the surplus is swept, with no cap.
unfoldable pub correct_up : ℤ → ℕ → User → Bank → AuditResult × Bank
correct_up signed diff m b = (
  record {
    signed_diff = some signed;
    status = auto_corrected;
    correction_applied = some (matrix_credited diff);
    remainder_unfunded = 0;
  },
  set_matrix_balance (m.balance +ℤ pos diff) b,
)

abbrev pub left_alone : ℤ → AuditStatus → Bank → AuditResult × Bank
left_alone signed st b = (
  record {
    signed_diff = some signed;
    status = st;
    correction_applied = none;
    remainder_unfunded = 0;
  },
  b,
)

-- The tests `> 0.01` and `< -0.01` leave a difference of one cent uncorrected.
unfoldable pub judge : ℤ → Option User → Bank → AuditResult × Bank
judge signed none b =
    if ltb (abs signed) 1
    then left_alone signed status_ok b
    else left_alone signed (if leb 1000 (abs signed) then error else warn) b
judge signed (some m) b =
    if ltb (abs signed) 1
    then left_alone signed status_ok b
    else if ltb_ℤ (pos 1) signed && leb (abs signed) auto_correction_max
    then correct_down (abs signed) m b
    else if ltb_ℤ signed (negsuc 0)
    then correct_up signed (abs signed) m b
    else left_alone signed (if leb 1000 (abs signed) then error else warn) b

-- `asaas_balance` is `none` where the gateway is missing or its call fails.
unfoldable pub run_single_audit : Option ℤ → Bank → AuditResult × Bank
run_single_audit none b = (
  record {
    signed_diff = none;
    status = warn_no_gateway;
    correction_applied = none;
    remainder_unfunded = 0;
  },
  b,
)
run_single_audit (some asaas_balance) b =
    judge (total_balance b -ℤ asaas_balance) (get_matrix_user b) b
