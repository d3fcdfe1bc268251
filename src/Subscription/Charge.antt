-- ===== src/Subscription/Charge.antt =====
-- The plan bought with the balance: it costs its price, or nothing.
use payvorax.Base.{ℕ, ◌+◌, ◌≡◌, refl, sym, subst, ap, ◌∙◌, inl, inr, true, some, arith, Bool-cases}
use payvorax.Base.Int.{pos, ◌-ℤ◌, ◌≤ℤ◌, ◌<ℤ◌, ltb_ℤ, -ℤ_parts, ltb_ℤ→lt, ltb_ℤ→ge, sum_after_debit}
use payvorax.Base.Query.{find_first, sum_of}
use payvorax.Bank.Money.{user_is, find_user, with_balance, set_balance, total_balance}
use payvorax.Bank.{Outcome, insufficient_funds, ok, raise, User, UserSubscription, Bank, active}
use payvorax.Pix.Transfer.Moves.{find_user-set_balance_self, total_balance-set_balance}
use payvorax.Subscription.{get_or_create, save, by_balance, subscribe_with_balance}

-- What `subscribe_with_balance` has done for the user `u`, by how it ended.
abbrev pub Subscribes : ℕ → User → Bank → Outcome UserSubscription → Type 0
Subscribes now u b (ok s, b') =
    (pos 990 ≤ℤ u.balance)
    × (find_user u.id b' ≡ some (with_balance (u.balance -ℤ pos 990) u))
    × (total_balance b' ≡ total_balance b -ℤ pos 990)
    × (s.status ≡ active)
    × (s.expires_at ≡ some (now + 2592000))
    × (s.auto_renew ≡ true)
Subscribes now u b (raise e, b') = (b' ≡ b) × (e ≡ insufficient_funds) × (u.balance <ℤ pos 990)

get_or_create-same_users : (k : ℕ) (b : Bank) → (get_or_create k b).1.users ≡ b.users
unfolding get_or_create
get_or_create-same_users k b = ground arith

-- A user whose row was just read buys the plan. If it goes through, the balance covered R$9.90 and
-- has fallen by it, and so has the sum of all balances; the plan is active, renews itself and runs
-- for 30 days. If it raises, nothing has changed and the balance is below R$9.90.
subscribe_with_balance-Subscribes :
    (now : ℕ) (u : User) (b : Bank)
    → find_user u.id b ≡ some u
    → Subscribes now u b (subscribe_with_balance now u b)
unfolding subscribe_with_balance
subscribe_with_balance-Subscribes now u b found = elim (Bool-cases (ltb_ℤ u.balance (pos 990))) [
  | inl short ↦
      let e : subscribe_with_balance now u b ≡ (raise insufficient_funds, b) = ground arith in
      subst (Subscribes now u b) (sym e) (refl, refl, ltb_ℤ→lt u.balance (pos 990) short)
  | inr enough ↦
      let covered = ltb_ℤ→ge u.balance (pos 990) enough in
      let after = u.balance -ℤ pos 990 in
      let s = (get_or_create u.id b).0 in
      let b₁ = (get_or_create u.id b).1 in
      let found₁ : find_user u.id b₁ ≡ some u =
        ap (λ us. find_first (user_is u.id) us) (get_or_create-same_users u.id b) ∙ found in
      let b₂ = set_balance u.id after b₁ in
      let e : subscribe_with_balance now u b
          ≡ (ok (by_balance now s), save u.id (by_balance now s) b₂) =
        ground (arith, -ℤ_parts u.balance (pos 990), covered) in
      subst (Subscribes now u b) (sym e) (
        covered,
        find_user-set_balance_self u.id after b₁ u found₁,
        sum_after_debit (total_balance b₁) (total_balance b₂) u.balance (pos 990)
              (total_balance-set_balance u.id after b₁ u found₁)
            ∙ ap (λ us. sum_of (λ (x : User). x.balance) us -ℤ pos 990)
                (get_or_create-same_users u.id b),
        refl,
        refl,
        refl,
      )
]
