-- ===== src/Boleto/Pays.antt =====
-- A boleto payment debits value and fee, or changes nothing.
use payvorax.Base.{ℕ, ◌+◌, ◌≡◌, refl, sym, subst, ap, ◌∙◌, inl, inr, some, ◌∷◌, arith, Bool-cases}
use payvorax.Base.Int.{
  ℤ, pos, ◌+ℤ◌, ◌-ℤ◌, ◌≤ℤ◌, ◌<ℤ◌, ltb_ℤ, -ℤ_parts, ltb_ℤ→lt, ltb_ℤ→ge, int_laws, parts_of_eq,
  sum_after_debit,
}
use payvorax.Bank.Money.{find_user, with_balance, set_balance, total_balance}
use payvorax.Bank.{Outcome, insufficient_funds, ok, raise, User, BoletoTransaction, Bank}
use payvorax.Boleto.{BoletoPaymentRequest, boleto_row, add_boleto, charge_boleto, process_payment}
use payvorax.Fees.{calculate_boleto_fee}
use payvorax.Matrix.{get_matrix_user, credit_fee}
use payvorax.Matrix.Credit.{
  credit_fee-arrives, total_balance-credit_fee, IsCustomer, get_matrix_user-set_balance,
  set_balance-IsCustomer, find_user-credit_fee,
}
use payvorax.Pix.Transfer.Moves.{find_user-set_balance_self, total_balance-set_balance}

-- What a payment by user `k` has done, by how it ended; `u` and `m` are the rows of the user and of
-- the platform before it.
abbrev pub Pays : BoletoPaymentRequest → ℕ → User → User → Bank → Outcome BoletoTransaction → Type 0
Pays r k u m b (ok x, b') =
    (pos (r.value + 400) ≤ℤ u.balance)
    × (find_user k b' ≡ some (with_balance (u.balance -ℤ pos (r.value + 400)) u))
    × (get_matrix_user b' ≡ some (with_balance (m.balance +ℤ pos 400) m))
    × (total_balance b' ≡ total_balance b -ℤ pos r.value)
    × (b'.boletos ≡ x ∷ b.boletos)
    × (x.value ≡ r.value)
    × (x.user_id ≡ k)
Pays r k u m b (raise e, b') =
    (b' ≡ b) × (e ≡ insufficient_funds) × (u.balance <ℤ pos (r.value + 400))

boletos-credit_fee : (n : ℕ) (b : Bank) → (credit_fee n b).boletos ≡ b.boletos
unfolding credit_fee
boletos-credit_fee n b = ground arith

boleto_sum : (t₀ t₁ : ℤ) (v : ℕ) → t₁ ≡ t₀ -ℤ pos (v + 400) → t₁ +ℤ pos 400 ≡ t₀ -ℤ pos v
boleto_sum t₀ t₁ v h = omega (int_laws, parts_of_eq t₁ (t₀ -ℤ pos (v + 400)) h)

-- A boleto payment by a customer, where the platform has an account. If it goes through, the balance
-- covered value and fee and has fallen by both, the platform's has risen by the fee, the sum of all
-- balances has fallen by the value that left the platform, and the boleto is stored. If it raises,
-- nothing has changed and the balance is below value and fee.
pub process_payment-Pays :
    (r : BoletoPaymentRequest) (k : ℕ) (u m : User) (b : Bank)
    → find_user k b ≡ some u
    → get_matrix_user b ≡ some m
    → IsCustomer k b
    → Pays r k u m b (process_payment r k b)
unfolding process_payment charge_boleto calculate_boleto_fee
process_payment-Pays r k u m b found platform apart =
    elim (Bool-cases (ltb_ℤ u.balance (pos (r.value + 400)))) [
      | inl short ↦
          let e : process_payment r k b ≡ (raise insufficient_funds, b) = ground (arith, found) in
          subst (Pays r k u m b) (sym e)
            (refl, refl, ltb_ℤ→lt u.balance (pos (r.value + 400)) short)
      | inr enough ↦
          let covered = ltb_ℤ→ge u.balance (pos (r.value + 400)) enough in
          let after = u.balance -ℤ pos (r.value + 400) in
          let b₁ = set_balance k after b in
          let platform₁ = get_matrix_user-set_balance k after b apart ∙ platform in
          let e : process_payment r k b
              ≡ (ok (boleto_row r k 400), add_boleto (boleto_row r k 400) (credit_fee 400 b₁)) =
            ground (arith, found, -ℤ_parts u.balance (pos (r.value + 400)), covered) in
          subst (Pays r k u m b) (sym e) (
            covered,
            find_user-credit_fee 400 k b₁ (set_balance-IsCustomer k k after b apart)
                ∙ find_user-set_balance_self k after b u found,
            credit_fee-arrives 400 b₁ m platform₁,
            total_balance-credit_fee 400 b₁ m platform₁
                ∙ boleto_sum (total_balance b) (total_balance b₁) r.value (
                    sum_after_debit (total_balance b) (total_balance b₁) u.balance
                      (pos (r.value + 400)) (total_balance-set_balance k after b u found)),
            ap (λ l. boleto_row r k 400 ∷ l) (boletos-credit_fee 400 b₁),
            refl,
            refl,
          )
    ]
