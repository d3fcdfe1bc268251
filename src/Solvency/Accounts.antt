-- ===== src/Solvency/Accounts.antt =====
-- The calls of app/auth/router.py keep every balance at zero or above: a new account starts at zero.
use payvorax.Solvency.{Solvent}
use payvorax.Bank.{Bank, User}
use payvorax.Auth.Accounts.{AuthContext}
use payvorax.Auth.Accounts.Calls.{AuthOp, apply_auth, apply_auth-keeps}
use payvorax.Base.Query.{All, All-append, All-update}
use payvorax.Base.{sym, subst, arith}
use payvorax.Base.Int.{pos, ◌≤ℤ◌}

pub apply_auth-Solvent :
    (c : AuthContext) (o : AuthOp) (b : Bank) → Solvent b → Solvent (apply_auth c o b)
apply_auth-Solvent =
    apply_auth-keeps (All (λ (u : User). pos 0 ≤ℤ u.balance))
      (λ c d us free h. All-append (λ (u : User). pos 0 ≤ℤ u.balance) us _ h (omega arith))
      (λ p f us keeps h.
        All-update (λ (u : User). pos 0 ≤ℤ u.balance) p f us
          (λ x positive. subst (λ v. pos 0 ≤ℤ v) (sym (keeps x).2) positive) h)
