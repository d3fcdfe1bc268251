-- ===== src/Auth/Reset.antt =====
-- app/auth/router.py: the recovery of a password by a code that is sent by mail.
use payvorax.Auth.Accounts.{AuthContext, Passwords, is_recent}
use payvorax.Bank.{Outcome, Result, passwords_differ, invalid_code, ok, raise, User, Bank}
use payvorax.Base.{ℕ, Bool, false, not, none, some, if◌then◌else◌}
use payvorax.Base.Text.{Text, text_eq}
use payvorax.Base.Query.{find_first, update_first}

abbrev pub has_address : Text → User → Bool
has_address email u = text_eq u.email email

abbrev pub with_reset : Text → ℕ → User → User
with_reset hash now u = record u {
  password_reset_token = some hash;
  password_reset_sent_at = some now;
}

-- `request_password_reset`: `new_token` is the recovery code, of which the hash is stored. The answer
-- is the same for every address.
unfoldable pub request_password_reset : AuthContext → Text → Bank → Bank
request_password_reset c email b = elim (find_first (has_address email) b.users) [
  | none ↦ b
  | some u ↦ if is_recent c.now u.password_reset_sent_at then b else record b {
    users =
        update_first (has_address email) (with_reset (c.passwords.hash c.new_token) c.now) b.users;
  }
]

-- The candidates are the accounts with a recovery code.
abbrev pub has_code : Passwords → Text → User → Bool
has_code p code u = elim u.password_reset_token [ none ↦ false | some hash ↦ p.verify code hash ]

-- `validate_recovery_code`
unfoldable pub validate_recovery_code : AuthContext → Text → Bank → Result (Unit {0})
validate_recovery_code c code b = elim (find_first (has_code c.passwords code) b.users) [
  | none ↦ raise invalid_code
  | some u ↦ ok tt
]

abbrev pub with_password : Text → User → User
with_password hash u = record u {
  hashed_password = hash;
  password_reset_token = none;
  password_reset_sent_at = none;
}

-- `confirm_password_reset`
unfoldable pub confirm_password_reset : AuthContext → Text → Text → Text → Bank → Outcome (Unit {0})
confirm_password_reset c code new_password confirm_password b =
    if not (text_eq new_password confirm_password)
    then (raise passwords_differ, b)
    else elim (find_first (has_code c.passwords code) b.users) [
      | none ↦ (raise invalid_code, b)
      | some u ↦ (
        ok tt,
        record b {
          users =
              update_first (has_code c.passwords code)
                (with_password (c.passwords.hash new_password)) b.users;
        },
      )
    ]
