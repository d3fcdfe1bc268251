-- ===== src/Admin/Removal.antt =====
-- What the deletion of an account leaves.
use payvorax.Base.Query.{All}
use payvorax.Base.{ℕ, ◌≡◌, ◌≢◌, ◌⊎◌, true, not, none, ◌==◌, some}
use payvorax.Admin.{keep_where}
use payvorax.Bank.Money.{find_user}
use payvorax.Bank.{
  Outcome, User, PixTransaction, BoletoTransaction, CreditCard, Bank, user_not_found,
  protected_account, ok, raise,
}
use payvorax.Matrix.{is_matrix}

-- Every row of the user `j`, in the order of the tables.
pub record SameRows (j : ℕ) (b b' : Bank) : Type 0 where
  pub account : find_user j b' ≡ find_user j b
  pub pix :
      keep_where (λ (p : PixTransaction). j == p.user_id) b'.pix
      ≡ keep_where (λ (p : PixTransaction). j == p.user_id) b.pix
  pub boletos :
      keep_where (λ (x : BoletoTransaction). j == x.user_id) b'.boletos
      ≡ keep_where (λ (x : BoletoTransaction). j == x.user_id) b.boletos
  pub cards :
      keep_where (λ (x : CreditCard). j == x.user_id) b'.cards
      ≡ keep_where (λ (x : CreditCard). j == x.user_id) b.cards

-- A deletion that succeeds: the account is gone, with every transaction, boleto and card of it; every
-- other user has the same rows as before; and the ledger, with the entries of the account, is
-- untouched.
pub record Removed (k : ℕ) (b b' : Bank) : Type 0 where
  pub account : find_user k b' ≡ none
  pub others : (j : ℕ) → j ≢ k → SameRows j b b'
  pub pix : All (λ (p : PixTransaction). not (k == p.user_id) ≡ true) b'.pix
  pub boletos : All (λ (x : BoletoTransaction). not (k == x.user_id) ≡ true) b'.boletos
  pub cards : All (λ (x : CreditCard). not (k == x.user_id) ≡ true) b'.cards
  pub ledger : b'.ledger ≡ b.ledger

-- Whom the administrator may not delete: administrators, the platform's account, themself.
abbrev pub IsProtected : ℕ → User → Type 0
IsProtected admin_id u = (u.is_admin ≡ true) ⊎ ((is_matrix u ≡ true) ⊎ (u.id ≡ admin_id))

-- What an answer to the deletion of the user `k` says of the data before and after.
abbrev pub Answers : ℕ → ℕ → Bank → Outcome ℕ → Type 0
Answers admin_id k b (ok x, b') =
    (x ≡ k)
    × (u : User) × (find_user k b ≡ some u)
    × (¬ (IsProtected admin_id u))
    × (Removed k b b')
Answers admin_id k b (raise e, b') =
    (b' ≡ b)
    × ((find_user k b ≡ none) × (e ≡ user_not_found)
        ⊎ ((u : User) × (find_user k b ≡ some u)
            × (IsProtected admin_id u)
            × (e ≡ protected_account)))
