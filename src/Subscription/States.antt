-- ===== src/Subscription/States.antt =====
-- The trial is used once, whatever else is done with the subscription.
use payvorax.Base.{
  ℕ, ◌≡◌, Bool, true, false, none, some, List, [], ◌∷◌, arith, ◌==◌, sym, ap, ◌∙◌, inl, inr, Option,
  ==_iff, ==-refl, Option-cases, ◌&&◌, if-holds, option-holds,
}
use payvorax.Base.Int.{pos, ◌-ℤ◌, ltb_ℤ}
use payvorax.Base.Query.{find_first-holds, find_first-update_self}
use payvorax.Bank.Money.{find_user, set_balance, user_is}
use payvorax.Bank.{
  trial_already_used, ok, raise, User, UserSubscription, Bank, credit_card, admin_grant,
}
use payvorax.Subscription.{
  subscription_seconds, subscription_is, find_subscription, get_or_create, put, save, activated,
  by_balance, subscribe_with_balance, subscribe_with_card, cancel_subscription, activate_trial,
  admin_grant_subscription, new_subscription, on_trial, renew, check_expiry, get_subscription,
  subscription_amount, is_active, has_passed, as_expired, as_renewed, expire,
}

-- The operations of one user, who is read from the database before each (`current_user`).
pub data Op : Type 0 where
  pay_balance : ℕ → Op
  pay_card : ℕ → ℕ → Op
  cancel : Op
  try_trial : ℕ → Op
  grant : ℕ → Op
  look : ℕ → Op

abbrev apply_as : User → Op → Bank → Bank
apply_as u (pay_balance now) b = (subscribe_with_balance now u b).1
apply_as u (pay_card now card) b = (subscribe_with_card now u card b).1
apply_as u cancel b = (cancel_subscription u b).1
apply_as u (try_trial now) b = (activate_trial now u b).1
apply_as u (grant now) b = (admin_grant_subscription now u.id b).1
apply_as u (look now) b = (get_subscription now u.id b).1

abbrev apply : ℕ → Op → Bank → Bank
apply k op b = elim (find_user k b) [ none ↦ b | some u ↦ apply_as u op b ]

abbrev pub run : ℕ → List Op → Bank → Bank
run k [] b = b
run k (op ∷ ops) b = run k ops (apply k op b)

-- Whether the user's subscription, if there is one, has used its trial.
abbrev trial_flag : ℕ → Bank → Bool
trial_flag k b = elim (find_subscription k b) [ none ↦ false | some s ↦ s.trial_used ]

trial_flag-save :
    (k : ℕ) (s s' : UserSubscription) (b : Bank)
    → find_subscription k b ≡ some s
    → (k == s'.user_id) ≡ true
    → trial_flag k (save k s' b) ≡ s'.trial_used
trial_flag-save k s s' b h own =
    ap (λ (o : Option UserSubscription). elim o [ none ↦ false | some x ↦ x.trial_used ])
      (find_first-update_self (subscription_is k) (put s') b.subscriptions s h own)

-- A look keeps a used trial used, also when it ends the trial or renews the plan.
check_expiry-trial_flag :
    (now : ℕ) (s : UserSubscription) (b : Bank)
    → find_subscription s.user_id b ≡ some s
    → s.trial_used ≡ true
    → trial_flag s.user_id (check_expiry now s b).1 ≡ true
unfolding check_expiry renew
check_expiry-trial_flag now s b found used =
    let k = s.user_id in
    let own = ==-refl k in
    let Kept : UserSubscription × Bank → Type 0 = λ o. trial_flag k o.1 ≡ true in
    let ended : Kept (expire s b) = trial_flag-save k s (as_expired s) b found own ∙ used in
    if-holds Kept (is_active s.status && has_passed now s) _ _
      (λ _.
        if-holds Kept s.auto_renew _ _
          (λ _.
            option-holds Kept (find_user k b) _ _ (λ _. ended)
              (λ user _.
                if-holds Kept (ltb_ℤ user.balance (pos subscription_amount)) _ _ (λ _. ended)
                  (λ _.
                    if-holds Kept (ltb_ℤ (user.balance -ℤ pos subscription_amount) (pos 0)) _ _
                      (λ _. ended)
                      (λ _.
                        trial_flag-save k s (as_renewed now s)
                          (set_balance k (user.balance -ℤ pos subscription_amount) b) found own
                        ∙ used))))
          (λ _. ended))
      (λ _. ground (arith, found))

module _ (u : User) (s : UserSubscription) (b : Bank)
    (found : find_subscription u.id b ≡ some s) where
  own_row : (u.id == s.user_id) ≡ true
  own_row = find_first-holds (subscription_is u.id) b.subscriptions s found

  keeps_flag : (op : Op) → s.trial_used ≡ true → trial_flag u.id (apply_as u op b) ≡ true
  unfolding subscribe_with_balance subscribe_with_card cancel_subscription activate_trial
      admin_grant_subscription get_or_create get_subscription
  keeps_flag (pay_balance now) used = ground (
    arith,
    found,
    trial_flag-save u.id s (by_balance now s) (set_balance u.id (u.balance -ℤ pos 990) b) found
        own_row,
  )
  keeps_flag (pay_card now card) used = ground (
    arith,
    found,
    trial_flag-save u.id s
        (activated credit_card (some card) 990 now (some now) true subscription_seconds s) b found
        own_row,
  )
  keeps_flag cancel used =
      ground
        (arith, found, trial_flag-save u.id s (record s { auto_renew = false }) b found own_row)
  keeps_flag (try_trial now) used = ground (arith, found)
  keeps_flag (grant now) used = ground (
    arith,
    found,
    trial_flag-save u.id s
        (activated admin_grant none 0 now (some now) false subscription_seconds s) b found own_row,
  )
  keeps_flag (look now) used =
      let same : s.user_id ≡ u.id = sym ((==_iff u.id s.user_id).0 own_row) in
      let e : get_subscription now u.id b ≡ check_expiry now s b = ground (arith, found) in
      ap (λ o. trial_flag u.id o.1) e
      ∙ ap (λ i. trial_flag i (check_expiry now s b).1) (sym same)
      ∙ check_expiry-trial_flag now s b (ap (λ i. find_subscription i b) same ∙ found) used

flag_found :
    (k : ℕ) (b : Bank)
    → trial_flag k b ≡ true
    → (s : UserSubscription) × (find_subscription k b ≡ some s) × (s.trial_used ≡ true)
flag_found k b h = ground arith

apply-trial_flag :
    (k : ℕ) (op : Op) (b : Bank) → trial_flag k b ≡ true → trial_flag k (apply k op b) ≡ true
apply-trial_flag k op b h = elim (Option-cases (find_user k b)) [
  | inl missing ↦ ground (arith, missing)
  | inr (u, current) ↦
      let same = (==_iff k u.id).0 (find_first-holds (user_is k) b.users u current) in
      let (s, found, used) = flag_found k b h in
      let e : apply k op b ≡ apply_as u op b = ground (arith, current) in
      ap (λ x. trial_flag k x) e
      ∙ ap (λ i. trial_flag i (apply_as u op b)) same
      ∙ keeps_flag u s b (ap (λ i. find_subscription i b) (sym same) ∙ found) op used
]

run-trial_flag :
    (k : ℕ) (ops : List Op) (b : Bank) → trial_flag k b ≡ true → trial_flag k (run k ops b) ≡ true
run-trial_flag k [] b h = h
run-trial_flag k (op ∷ ops) b h = run-trial_flag k ops (apply k op b) (apply-trial_flag k op b h)

trial_used_up :
    (now : ℕ) (u : User) (b : Bank)
    → trial_flag u.id b ≡ true
    → activate_trial now u b ≡ (raise trial_already_used, b)
unfolding activate_trial get_or_create
trial_used_up now u b h = ground arith

trial_starts :
    (now : ℕ) (u : User) (s : UserSubscription) (b b' : Bank)
    → activate_trial now u b ≡ (ok s, b')
    → trial_flag u.id b' ≡ true
unfolding activate_trial get_or_create
trial_starts now u s b b' h = elim (Option-cases (find_subscription u.id b)) [
  | inl missing ↦
      let b₁ = record b { subscriptions = new_subscription u.id ∷ b.subscriptions } in
      ground (
        arith,
        missing,
        ==-refl u.id,
        trial_flag-save u.id (new_subscription u.id) (on_trial now (new_subscription u.id)) b₁
            (rw (==-refl u.id)) (==-refl u.id),
      )
  | inr (s₀, found) ↦ ground (
    arith,
    found,
    trial_flag-save u.id s₀ (on_trial now s₀) b found
        (find_first-holds (subscription_is u.id) b.subscriptions s₀ found),
  )
]

-- After a trial was granted, and whatever operations on the same user's subscription have followed it
-- (payments, cancellations, grants, other tries, and looks, which end the trial or renew the plan),
-- trying it again raises and changes nothing.
pub trial_only_once :
    (now now' : ℕ) (u : User) (s : UserSubscription) (b b' : Bank) (ops : List Op)
    → activate_trial now u b ≡ (ok s, b')
    → activate_trial now' u (run u.id ops b') ≡ (raise trial_already_used, run u.id ops b')
trial_only_once now now' u s b b' ops h =
    trial_used_up now' u (run u.id ops b')
      (run-trial_flag u.id ops b' (trial_starts now u s b b' h))
