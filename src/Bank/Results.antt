-- ===== src/Bank/Results.antt =====
-- How a service call ends. A raise discards what was not committed, since `get_db` closes the
-- session; so the state that comes back with it is the one last committed.
use payvorax.Base.{◌≡◌, refl}
use payvorax.Bank.Tables.{Bank}

-- The messages of the `ValueError`s that the services raise, and of the errors of the routes.
pub data Error : Type 0 where
  user_not_found insufficient_funds self_transfer daily_limit gateway_refused : Error
  not_positive above_limit not_scheduled card_not_found card_blocked : Error
  no_active_subscription trial_already_used already_active : Error
  charge_not_found charge_already_paid invalid_charge_status gateway_unavailable : Error
  payment_not_confirmed gateway_failed blocked_by_risk inactive_account : Error
  invalid_checksum receiver_not_found value_unresolved sandbox_mode : Error
  key_taken no_document too_many_attempts duplicate_row : Error
  platform_not_found protected_account invalid_destination type_error invalid_key_type : Error
  too_many_requests not_authenticated email_unverified wrong_credentials invalid_token : Error
  invalid_session admin_only document_invalid account_exists invalid_link link_expired : Error
  document_missing wait_before_resend passwords_differ invalid_code : Error
  invalid_field already_verified mail_not_sent : Error

pub data Result {ℓ} (A : Type ℓ) : Type ℓ where
  ok : A → Result A
  raise : Error → Result A

abbrev pub Outcome : Type 0 → Type 0
Outcome A = Result A × Bank

pub result-holds {ℓ κ μ} :
    {A : Type ℓ} {B : Type κ} (P : B → Type μ) (r : Result A) (f : Error → B) (g : A → B)
    → ((e : Error) → r ≡ raise e → P (f e))
    → ((a : A) → r ≡ ok a → P (g a))
    → P (elim r [ raise e ↦ f e | ok a ↦ g a ])
result-holds P (ok a) f g p q = q a refl
result-holds P (raise e) f g p q = p e refl
