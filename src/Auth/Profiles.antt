-- ===== src/Auth/Profiles.antt =====
-- app/web_routes.py: what an administrator writes to the profile of an account. The check that the
-- caller is an administrator, `require_admin`, lies before.
use payvorax.Auth.Accounts.{AuthContext, with_token}
use payvorax.Base.Int.{ℤ, pos, pos_part, ltb_ℤ}
use payvorax.Bank.{
  Outcome, user_not_found, already_verified, mail_not_sent, invalid_field, ok, raise, User, Bank,
}
use payvorax.Base.{ℕ, Bool, false, ◌||◌, Option, none, some, ltb, ◌==◌, if◌then◌else◌, length}
use payvorax.Base.Text.{Text, strip}
use payvorax.Base.Query.{update_first}
use payvorax.Bank.Money.{user_is, find_user}

-- `admin_send_verification`: the token is stored before the mail is which may fail.
unfoldable pub admin_send_verification : AuthContext → ℕ → Bool → Bank → Outcome (Unit {0})
admin_send_verification c user_id delivered b = elim (find_user user_id b) [
  | none ↦ (raise user_not_found, b)
  | some u ↦ if u.email_verified then (raise already_verified, b) else (
    if delivered then ok tt else raise mail_not_sent,
    record b { users = update_first (user_is user_id) (with_token c.new_token c.now) b.users },
  )
]

-- `AdminEditUserRequest`, of which the fields that are only shown are left out, but for the two that
-- may be refused. The limit is in cents.
pub record ProfileEdit : Type 0 where
  pub name : Option Text
  pub address_state : Option Text
  pub email_verified : Option Bool
  pub document_verified : Option Bool
  pub credit_limit : Option ℤ

abbrev is_bad_name : Option Text → Bool
is_bad_name none = false
is_bad_name (some name) = length (strip name) == 0 || ltb 100 (length (strip name))

abbrev is_bad_state : Option Text → Bool
is_bad_state none = false
is_bad_state (some s) = ltb 2 (length (strip s))

abbrev is_bad_limit : Option ℤ → Bool
is_bad_limit none = false
is_bad_limit (some n) = ltb_ℤ n (pos 0)

abbrev pub is_refused : ProfileEdit → Bool
is_refused e = is_bad_name e.name || is_bad_state e.address_state || is_bad_limit e.credit_limit

abbrev or_before {ℓ} : {A : Type ℓ} → Option A → A → A
or_before none x = x
or_before (some y) x = y

abbrev limit_or : Option ℤ → ℕ → ℕ
limit_or none n = n
limit_or (some v) n = pos_part v

abbrev pub edited : ProfileEdit → User → User
edited e u = record u {
  email_verified = or_before e.email_verified u.email_verified;
  document_verified = or_before e.document_verified u.document_verified;
  credit_limit = limit_or e.credit_limit u.credit_limit;
}

-- `edit_user`
unfoldable pub edit_user : ℕ → ProfileEdit → Bank → Outcome (Unit {0})
edit_user user_id e b = elim (find_user user_id b) [
  | none ↦ (raise user_not_found, b)
  | some u ↦
      if is_refused e
      then (raise invalid_field, b)
      else (ok tt, record b { users = update_first (user_is user_id) (edited e) b.users })
]
