-- ===== src/Solvency.antt =====
-- No balance below zero: the writes to the accounts that app/pix, app/boleto, app/minha_conta and
-- app/core/matrix.py share, and what they need for it.
pub mod Accounts
pub mod Admins
pub mod Charges
pub mod Codes
pub mod Events
pub mod Payments
pub mod Run
pub mod Services
use payvorax.Base.{ℕ, ◌≡◌, sym, subst, inl, inr, false, arith, ◌==◌, Bool-cases, Option-cases}
use payvorax.Base.Int.{ℤ, pos, ◌+ℤ◌, ◌-ℤ◌, ◌≤ℤ◌, ltb_ℤ, ltb_ℤ→ge, int_laws}
use payvorax.Base.Query.{All-find_first, All, All-update}
use payvorax.Bank.Money.{user_is, with_balance, set_balance}
use payvorax.Bank.{User, Bank}
use payvorax.Matrix.{is_matrix, get_matrix_user, set_matrix_balance, credit_fee}

-- Every account, the platform's among them, has a balance that is not negative.
abbrev pub Solvent : Bank → Type 0
Solvent b = All (λ (u : User). pos 0 ≤ℤ u.balance) b.users

pub set_balance-Solvent :
    (k : ℕ) (v : ℤ) (b : Bank) → pos 0 ≤ℤ v → Solvent b → Solvent (set_balance k v b)
set_balance-Solvent k v b h s =
    All-update (λ (u : User). pos 0 ≤ℤ u.balance) (user_is k) (with_balance v) b.users (λ _ _. h) s

pub set_matrix_balance-Solvent :
    (v : ℤ) (b : Bank) → pos 0 ≤ℤ v → Solvent b → Solvent (set_matrix_balance v b)
set_matrix_balance-Solvent v b h s =
    All-update (λ (u : User). pos 0 ≤ℤ u.balance) is_matrix (with_balance v) b.users (λ _ _. h) s

pub add-not_negative : (a : ℤ) (n : ℕ) → pos 0 ≤ℤ a → pos 0 ≤ℤ a +ℤ pos n
add-not_negative a n h = grind (int_laws, h)

pub sub-not_negative : (a : ℤ) (n : ℕ) → ltb_ℤ a (pos n) ≡ false → pos 0 ≤ℤ a -ℤ pos n
sub-not_negative a n h = grind (int_laws, ltb_ℤ→ge a (pos n) h)

pub credit_fee-Solvent : (amount : ℕ) (b : Bank) → Solvent b → Solvent (credit_fee amount b)
unfolding credit_fee
credit_fee-Solvent amount b s = elim (Option-cases (get_matrix_user b)) [
  | inl missing ↦
      let e : credit_fee amount b ≡ b = ground (arith, missing) in subst Solvent (sym e) s
  | inr (m, found) ↦ elim (Bool-cases (amount == 0)) [
    | inl nothing ↦
        let e : credit_fee amount b ≡ b = ground (arith, nothing) in subst Solvent (sym e) s
    | inr fee ↦
        let e : credit_fee amount b ≡ set_matrix_balance (m.balance +ℤ pos amount) b =
          ground (arith, fee, found) in
        subst Solvent (sym e) (
          set_matrix_balance-Solvent (m.balance +ℤ pos amount) b
            (add-not_negative m.balance amount
              (All-find_first (λ (u : User). pos 0 ≤ℤ u.balance) is_matrix b.users m s found))
            s)
  ]
]
