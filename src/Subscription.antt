-- ===== src/Subscription.antt =====
-- app/minha_conta/service.py: the monthly plan, its renewal, and the trial. Times are in seconds.
pub mod Charge
pub mod Renewal
pub mod States
use payvorax.Base.{
  ℕ, ◌+◌, ◌*◌, Bool, true, false, not, ◌&&◌, Option, none, some, ◌∷◌, ltb, ◌==◌, if◌then◌else◌,
}
use payvorax.Base.Int.{pos, ◌-ℤ◌, ltb_ℤ}
use payvorax.Base.Query.{find_first, update_first}
use payvorax.Bank.Money.{find_user, set_balance}
use payvorax.Bank.{
  Outcome, insufficient_funds, card_not_found, card_blocked, no_active_subscription,
  trial_already_used, already_active, ok, raise, SubscriptionStatus, PaymentMethod, User,
  CreditCard, UserSubscription, Bank, active, inactive, expired, credit_card, trial, admin_grant,
}

-- `SUBSCRIPTION_AMOUNT`, R$9.90.
abbrev pub subscription_amount : ℕ
subscription_amount = 990

-- `SUBSCRIPTION_DAYS` and `TRIAL_HOURS`, in seconds.
abbrev pub subscription_seconds : ℕ
subscription_seconds = 30 * 86400

abbrev trial_seconds : ℕ
trial_seconds = 24 * 3600

abbrev pub is_active : SubscriptionStatus → Bool
is_active active = true
is_active _ = false

abbrev pub subscription_is : ℕ → UserSubscription → Bool
subscription_is k s = k == s.user_id

abbrev pub find_subscription : ℕ → Bank → Option UserSubscription
find_subscription k b = find_first (subscription_is k) b.subscriptions

-- The defaults of a new row.
abbrev pub new_subscription : ℕ → UserSubscription
new_subscription k = record {
  user_id = k;
  status = inactive;
  plan_amount = subscription_amount;
  payment_method = none;
  card_id = none;
  subscribed_at = none;
  expires_at = none;
  last_renewed_at = none;
  auto_renew = true;
  trial_used = false;
}

-- `_get_or_create`
unfoldable pub get_or_create : ℕ → Bank → UserSubscription × Bank
get_or_create k b = elim (find_subscription k b) [
  | some s ↦ (s, b)
  | none ↦ (new_subscription k, record b { subscriptions = new_subscription k ∷ b.subscriptions })
]

abbrev pub put : UserSubscription → UserSubscription → UserSubscription
put s _ = s

-- The assignments to the row of user `k`, and the commit.
abbrev pub save : ℕ → UserSubscription → Bank → Bank
save k s b = record b { subscriptions = update_first (subscription_is k) (put s) b.subscriptions }

abbrev pub has_passed : ℕ → UserSubscription → Bool
has_passed now s = elim s.expires_at [ none ↦ false | some at ↦ ltb at now ]

abbrev pub as_expired : UserSubscription → UserSubscription
as_expired s = record s { status = expired }

abbrev pub as_renewed : ℕ → UserSubscription → UserSubscription
as_renewed now s = record s {
  expires_at = some (now + subscription_seconds);
  last_renewed_at = some now;
}

abbrev pub expire : UserSubscription → Bank → UserSubscription × Bank
expire s b = (as_expired s, save s.user_id (as_expired s) b)

-- The debit of a renewal, behind its guard: below zero the debit is rolled back.
unfoldable pub renew : ℕ → UserSubscription → User → Bank → UserSubscription × Bank
renew now s user b =
    let balance_after = user.balance -ℤ pos subscription_amount in
    if ltb_ℤ user.balance (pos subscription_amount)
    then expire s b
    else if ltb_ℤ balance_after (pos 0)
    then expire s b
    else (
      as_renewed now s,
      save s.user_id (as_renewed now s) (set_balance s.user_id balance_after b),
    )

-- `_check_expiry`
unfoldable pub check_expiry : ℕ → UserSubscription → Bank → UserSubscription × Bank
check_expiry now s b =
    if is_active s.status && has_passed now s
    then if s.auto_renew
      then elim (find_user s.user_id b) [ none ↦ expire s b | some user ↦ renew now s user b ]
      else expire s b
    else (s, b)

-- `get_subscription`
unfoldable pub get_subscription : ℕ → ℕ → Bank → UserSubscription × Bank
get_subscription now k b = let (s, b₁) = get_or_create k b in check_expiry now s b₁

abbrev pub activated :
    PaymentMethod → Option ℕ → ℕ → ℕ → Option ℕ → Bool → ℕ → UserSubscription → UserSubscription
activated method card amount now renewed auto seconds s = record s {
  status = active;
  payment_method = some method;
  card_id = card;
  plan_amount = amount;
  subscribed_at = some now;
  expires_at = some (now + seconds);
  last_renewed_at = renewed;
  auto_renew = auto;
}

abbrev pub by_balance : ℕ → UserSubscription → UserSubscription
by_balance now =
    activated PaymentMethod.balance none subscription_amount now (some now) true
      subscription_seconds

-- `subscribe_with_balance`. The row is created, and committed, before the second guard.
unfoldable pub subscribe_with_balance : ℕ → User → Bank → Outcome UserSubscription
subscribe_with_balance now user b =
    let (s, b₁) = get_or_create user.id b in
    let balance_after = user.balance -ℤ pos subscription_amount in
    if ltb_ℤ user.balance (pos subscription_amount)
    then (raise insufficient_funds, b)
    else if ltb_ℤ balance_after (pos 0)
    then (raise insufficient_funds, b₁)
    else (
      ok (by_balance now s),
      save user.id (by_balance now s) (set_balance user.id balance_after b₁),
    )

abbrev card_of_user : ℕ → ℕ → CreditCard → Bool
card_of_user card_id k c = card_id == c.id && k == c.user_id

-- `subscribe_with_card`: no balance is charged.
unfoldable pub subscribe_with_card : ℕ → User → ℕ → Bank → Outcome UserSubscription
subscribe_with_card now user card_id b =
    let (s, b₁) = get_or_create user.id b in
    let s' =
      activated credit_card (some card_id) subscription_amount now (some now) true
        subscription_seconds s in
    elim (find_first (card_of_user card_id user.id) b.cards) [
      | none ↦ (raise card_not_found, b)
      | some c ↦ if c.is_blocked then (raise card_blocked, b) else (ok s', save user.id s' b₁)
    ]

-- `cancel_subscription`: only the renewal ends.
unfoldable pub cancel_subscription : User → Bank → Outcome UserSubscription
cancel_subscription user b =
    let (s, b₁) = get_or_create user.id b in
    if not (is_active s.status)
    then (raise no_active_subscription, b₁)
    else (ok (record s { auto_renew = false }), save user.id (record s { auto_renew = false }) b₁)

abbrev pub on_trial : ℕ → UserSubscription → UserSubscription
on_trial now s = record (activated trial none 0 now none false trial_seconds s) {
  trial_used = true;
}

-- `activate_trial`
unfoldable pub activate_trial : ℕ → User → Bank → Outcome UserSubscription
activate_trial now user b =
    let (s, b₁) = get_or_create user.id b in
    if s.trial_used
    then (raise trial_already_used, b₁)
    else if is_active s.status
    then (raise already_active, b₁)
    else (ok (on_trial now s), save user.id (on_trial now s) b₁)

-- `admin_grant_subscription`
unfoldable pub admin_grant_subscription : ℕ → ℕ → Bank → Outcome UserSubscription
admin_grant_subscription now k b =
    let (s, b₁) = get_or_create k b in
    let s' = activated admin_grant none 0 now (some now) false subscription_seconds s in
    (ok s', save k s' b₁)
