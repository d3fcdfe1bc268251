-- ===== src/Audit/Parity.antt =====
-- What a correction does to the accounts.
use payvorax.Base.{ℕ, ◌≡◌, refl, ◌≢◌, ◌⊎◌, Option, none, some, arith}
use payvorax.Base.Int.{ℤ, pos, ◌+ℤ◌, ◌-ℤ◌, ◌≤ℤ◌, ◌<ℤ◌, abs}
use payvorax.Audit.{
  auto_correction_max, AuditResult, matrix_debit, correct_down, correct_up, judge, run_single_audit,
  auto_corrected,
}
use payvorax.Bank.Money.{find_user, with_balance, total_balance}
use payvorax.Bank.{User, Bank}
use payvorax.Matrix.{get_matrix_user}
use payvorax.Matrix.Credit.{IsCustomer, find_user-set_matrix_balance}

judge-keeps_customers :
    (signed : ℤ) (o : Option User) (k : ℕ) (b : Bank)
    → IsCustomer k b
    → find_user k (judge signed o b).1 ≡ find_user k b
unfolding judge correct_down correct_up
judge-keeps_customers signed none k b apart = ground arith
judge-keeps_customers signed (some m) k b apart = ground (
  arith,
  find_user-set_matrix_balance k (m.balance -ℤ pos (matrix_debit (abs signed) m)) b apart,
  find_user-set_matrix_balance k (m.balance +ℤ pos (abs signed)) b apart,
)

-- No cycle changes the account of a customer, whatever the gateway reports.
audit_keeps_customers :
    (asaas : Option ℤ) (k : ℕ) (b : Bank)
    → IsCustomer k b
    → find_user k (run_single_audit asaas b).1 ≡ find_user k b
unfolding run_single_audit
audit_keeps_customers none k b apart = refl
audit_keeps_customers (some asaas) k b apart =
    judge-keeps_customers (total_balance b -ℤ asaas) (get_matrix_user b) k b apart

-- The three ends of a cycle with a report `asaas`.
abbrev pub DebitsMatrix : ℤ → User → Bank → AuditResult × Bank → Type 0
DebitsMatrix asaas m b (r, b') =
    (asaas +ℤ pos 1 <ℤ total_balance b)
    × (total_balance b ≤ℤ asaas +ℤ pos auto_correction_max)
    × (r.status ≡ auto_corrected)
    × (get_matrix_user b'
        ≡ some
            (with_balance (m.balance -ℤ pos (matrix_debit (abs (total_balance b -ℤ asaas)) m)) m))
    × (pos 0 ≤ℤ m.balance -ℤ pos (matrix_debit (abs (total_balance b -ℤ asaas)) m))
    × (total_balance b' ≡ asaas +ℤ pos r.remainder_unfunded)

abbrev pub CreditsMatrix : ℤ → User → Bank → AuditResult × Bank → Type 0
CreditsMatrix asaas m b (r, b') =
    (total_balance b +ℤ pos 1 <ℤ asaas)
    × (r.status ≡ auto_corrected)
    × (get_matrix_user b'
        ≡ some (with_balance (m.balance +ℤ pos (abs (total_balance b -ℤ asaas))) m))
    × (total_balance b' ≡ asaas)

abbrev pub LeavesAlone : ℤ → Bank → AuditResult × Bank → Type 0
LeavesAlone asaas b (r, b') =
    ((total_balance b ≤ℤ asaas +ℤ pos 1) × (asaas ≤ℤ total_balance b +ℤ pos 1)
      ⊎ (asaas +ℤ pos auto_correction_max <ℤ total_balance b))
    × (r.status ≢ auto_corrected)
    × (b' ≡ b)

module _ (asaas : ℤ) (m : User) (b : Bank) (platform : get_matrix_user b ≡ some m) where
  abbrev gap : ℤ
  gap = total_balance b -ℤ asaas

  abbrev taken : ℕ
  taken = matrix_debit (abs gap) m

  abbrev Ends : AuditResult × Bank → Type 0
  Ends o = DebitsMatrix asaas m b o ⊎ (CreditsMatrix asaas m b o ⊎ LeavesAlone asaas b o)

  abbrev cycle : AuditResult × Bank
  cycle = run_single_audit (some asaas) b
