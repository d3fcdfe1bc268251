-- ===== src/Subscription/Renewal.antt =====
-- The renewal on expiry: the plan is renewed by exactly its price, or expires and costs nothing.
use payvorax.Base.{
  ℕ, ◌≡◌, ap, ◌∙◌, ◌≢◌, ◌⊎◌, inl, inr, true, false, some, arith, Bool-cases, ◌+◌, ◌<◌, refl, sym,
  subst, ◌==◌, ==-refl, Option-cases,
}
use payvorax.Base.Int.{pos, ◌-ℤ◌, ◌≤ℤ◌, ◌<ℤ◌, ltb_ℤ, -ℤ_parts, ltb_ℤ→lt, ltb_ℤ→ge, ℤ}
use payvorax.Bank.Money.{find_user, with_balance, set_balance}
use payvorax.Bank.{SubscriptionStatus, User, UserSubscription, Bank, active, expired}
use payvorax.Pix.Transfer.Moves.{find_user-set_balance_self}
use payvorax.Subscription.{
  is_active, save, has_passed, as_expired, as_renewed, expire, renew, check_expiry, subscription_is,
  find_subscription, put,
}
use payvorax.Base.Query.{find_first-update_self}

-- The fields of a subscription that a look never changes.
pub record SamePlan (s s' : UserSubscription) : Type 0 where
  pub user : s'.user_id ≡ s.user_id
  pub amount : s'.plan_amount ≡ s.plan_amount
  pub method : s'.payment_method ≡ s.payment_method
  pub card : s'.card_id ≡ s.card_id
  pub start : s'.subscribed_at ≡ s.subscribed_at
  pub renews : s'.auto_renew ≡ s.auto_renew
  pub trial : s'.trial_used ≡ s.trial_used

-- Its time is over: there is an end, and it lies before `now`.
abbrev pub IsOver : ℕ → UserSubscription → Type 0
IsOver now s = (at : ℕ) × (s.expires_at ≡ some at) × (at < now)

-- What a look at the subscription `s` at the time `now` has done; `u` is the row of its user before.
-- Its parts are the renewed, the expired and the unchanged subscription. 2,592,000 seconds are 30
-- days.
abbrev pub Renews : ℕ → UserSubscription → User → Bank → UserSubscription × Bank → Type 0
Renews now s u b (s', b') =
    (s.status ≡ active)
    × IsOver now s
    × (s.auto_renew ≡ true)
    × (pos 990 ≤ℤ u.balance)
    × SamePlan s s'
    × (s'.status ≡ active)
    × (s'.expires_at ≡ some (now + 2592000))
    × (s'.last_renewed_at ≡ some now)
    × (find_subscription s.user_id b' ≡ some s')
    × (find_user s.user_id b' ≡ some (with_balance (u.balance -ℤ pos 990) u))

abbrev pub Expires : ℕ → UserSubscription → User → Bank → UserSubscription × Bank → Type 0
Expires now s u b (s', b') =
    (s.status ≡ active)
    × IsOver now s
    × ((s.auto_renew ≡ false) ⊎ (u.balance <ℤ pos 990))
    × SamePlan s s'
    × (s'.status ≡ expired)
    × (s'.expires_at ≡ s.expires_at)
    × (s'.last_renewed_at ≡ s.last_renewed_at)
    × (find_subscription s.user_id b' ≡ some s')
    × (b'.users ≡ b.users)

abbrev pub Stays : ℕ → UserSubscription → Bank → UserSubscription × Bank → Type 0
Stays now s b (s', b') = ((s.status ≢ active) ⊎ ¬ (IsOver now s)) × (s' ≡ s) × (b' ≡ b)

passed : (now : ℕ) (s : UserSubscription) → has_passed now s ≡ true → IsOver now s
passed now s h = elim (Option-cases s.expires_at) [
  | inl endless ↦ ground (arith, endless)
  | inr (at, e) ↦ (at, e, ground (arith, e))
]

not_passed : (now : ℕ) (s : UserSubscription) → has_passed now s ≡ false → ¬ (IsOver now s)
not_passed now s h (at, e, less) = ground (arith, e)

SamePlan-expired : (s : UserSubscription) → SamePlan s (as_expired s)
SamePlan-expired s = record {
  user = refl;
  amount = refl;
  method = refl;
  card = refl;
  start = refl;
  renews = refl;
  trial = refl;
}

SamePlan-renewed : (now : ℕ) (s : UserSubscription) → SamePlan s (as_renewed now s)
SamePlan-renewed now s = record {
  user = refl;
  amount = refl;
  method = refl;
  card = refl;
  start = refl;
  renews = refl;
  trial = refl;
}

-- The row that `save` stores is the one that is found.
find_subscription-save :
    (s s' : UserSubscription) (b : Bank)
    → find_subscription s.user_id b ≡ some s
    → s'.user_id ≡ s.user_id
    → find_subscription s.user_id (save s.user_id s' b) ≡ some s'
find_subscription-save s s' b h same =
    find_first-update_self (subscription_is s.user_id) (put s') b.subscriptions s h
      (ap (λ i. s.user_id == i) same ∙ ==-refl s.user_id)

active_cases : (st : SubscriptionStatus) → (st ≡ active) ⊎ (is_active st ≡ false)
active_cases st = ground arith

not_active : (st : SubscriptionStatus) → is_active st ≡ false → st ≢ active
not_active st h e = ground arith

module _ (now : ℕ) (s : UserSubscription) (u : User) (b : Bank)
    (stored : find_subscription s.user_id b ≡ some s) (found : find_user s.user_id b ≡ some u) where
  abbrev looked : UserSubscription × Bank
  looked = check_expiry now s b

  expires :
      s.status ≡ active
      → has_passed now s ≡ true
      → (s.auto_renew ≡ false) ⊎ (u.balance <ℤ pos 990)
      → Expires now s u b (expire s b)
  expires on over why = (
    on,
    passed now s over,
    why,
    SamePlan-expired s,
    refl,
    refl,
    refl,
    find_subscription-save s (as_expired s) b stored refl,
    refl,
  )

  abbrev after : ℤ
  after = u.balance -ℤ pos 990

  renews :
      s.status ≡ active
      → has_passed now s ≡ true
      → s.auto_renew ≡ true
      → pos 990 ≤ℤ u.balance
      → Renews now s u b
          (as_renewed now s, save s.user_id (as_renewed now s) (set_balance s.user_id after b))
  renews on over auto covered = (
    on,
    passed now s over,
    auto,
    covered,
    SamePlan-renewed now s,
    on,
    refl,
    refl,
    find_subscription-save s (as_renewed now s) (set_balance s.user_id after b) stored refl,
    find_user-set_balance_self s.user_id after b u found,
  )

  abbrev Ends : UserSubscription × Bank → Type 0
  Ends o = Renews now s u b o ⊎ (Expires now s u b o ⊎ Stays now s b o)

  -- A look at the stored subscription of a user ends in one of three ways. It was active, its end lay
  -- before now, it renews itself and the balance covers R$9.90: then the stored subscription is active
  -- and ends 30 days from now, and the balance falls by R$9.90. Or it was active and its end lay
  -- before now, but it does not renew itself or the balance is below R$9.90: then the stored
  -- subscription is expired and no user's row changes. Both leave the plan, its price and method and
  -- the used trial as they were. Or it was not active or its end did not lie before now: then nothing
  -- changes.
  pub check_expiry_cases : Ends looked
  unfolding check_expiry renew
  check_expiry_cases = elim (active_cases s.status) [
    | inr idle ↦
        let e : looked ≡ (s, b) = ground arith in
        subst Ends (sym e) (inr (inr (inl (not_active s.status idle), refl, refl)))
    | inl on ↦ elim (Bool-cases (has_passed now s)) [
      | inr running ↦
          let e : looked ≡ (s, b) = ground arith in
          subst Ends (sym e) (inr (inr (inr (not_passed now s running), refl, refl)))
      | inl over ↦ elim (Bool-cases s.auto_renew) [
        | inr manual ↦
            let e : looked ≡ expire s b = ground arith in
            subst Ends (sym e) (inr (inl (expires on over (inl manual))))
        | inl auto ↦ elim (Bool-cases (ltb_ℤ u.balance (pos 990))) [
          | inl short ↦
              let e : looked ≡ expire s b = ground (arith, found) in
              subst Ends (sym e)
                (inr (inl (expires on over (inr (ltb_ℤ→lt u.balance (pos 990) short)))))
          | inr enough ↦
              let covered = ltb_ℤ→ge u.balance (pos 990) enough in
              let e : looked ≡ (
                as_renewed now s,
                save s.user_id (as_renewed now s) (set_balance s.user_id after b),
              ) =
                ground (arith, found, -ℤ_parts u.balance (pos 990), covered) in
              subst Ends (sym e) (inl (renews on over auto covered))
        ]
      ]
    ]
  ]
