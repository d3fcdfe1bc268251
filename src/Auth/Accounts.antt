-- ===== src/Auth/Accounts.antt =====
-- app/auth/router.py: registration, login and the confirmation of an email.
-- The library for passwords (argon2) is a parameter.
pub mod Calls
pub mod Lifecycle
pub mod Recovery
pub mod Unique
use payvorax.Pix.Transfer.{by_document}
use payvorax.Base.Digits.{keep_digits}
use payvorax.Auth.RateLimit.{Store, rate_limit, login_max, login_window, reg_max, reg_window}
use payvorax.Auth.Sessions.{Codec, Cookies, issue}
use payvorax.Base.{
  ℕ, ◌+◌, ◌-◌, Bool, true, false, not, ◌||◌, Option, none, some, [], ◌∷◌, ◌++◌, ltb, ◌==◌,
  if◌then◌else◌, length,
}
use payvorax.Base.Int.{pos}
use payvorax.Base.Text.{Text, text_eq, strip}
use payvorax.Base.Query.{find_first, update_first}
use payvorax.Bank.Money.{get_available_balance}
use payvorax.Bank.{
  Result, Outcome, duplicate_row, too_many_requests, email_unverified, wrong_credentials,
  document_invalid, invalid_link, link_expired, document_missing, wait_before_resend, ok, raise,
  User, Bank, account_exists,
}
use payvorax.Document.{DocumentCheck, validate_document, is_cpf, is_cnpj}

-- `get_password_hash` of a call, with the salt that it draws, and `verify_password`.
pub record Passwords : Type 0 where
  pub hash : Text → Text
  pub verify : Text → Text → Bool

-- The surroundings of a call: the clock in seconds, the monotonic clock, the address of the client,
-- and what the call draws.
pub record AuthContext : Type 0 where
  pub now : ℕ
  pub ticks : ℕ
  pub ip : Text
  pub passwords : Passwords
  pub codec : Codec
  pub new_id : ℕ
  pub new_token : Text
  pub new_key : Text

-- `UserCreate` and `UserLogin`: the document is what `validate_cpf_cnpj` leaves of it.
pub record UserCreate : Type 0 where
  pub cpf_cnpj : Text
  pub email : Text
  pub password : Text

-- R$10,000.00
abbrev default_credit_limit : ℕ
default_credit_limit = 1000000

abbrev pub new_user : AuthContext → UserCreate → User
new_user c d = record {
  id = c.new_id;
  cpf_cnpj = keep_digits d.cpf_cnpj;
  email = d.email;
  balance = pos 0;
  credit_limit = default_credit_limit;
  hashed_password = c.passwords.hash d.password;
  email_verified = false;
  email_verification_token = some c.new_token;
  email_verification_sent_at = some c.now;
  document_verified = true;
  pix_random_key = some c.new_key;
  pix_email_key = none;
  asaas_customer_id = none;
  is_active = true;
  is_admin = false;
  password_reset_token = none;
  password_reset_sent_at = none;
}

abbrev pub is_valid_document : DocumentCheck → Bool
is_valid_document is_cpf = true
is_valid_document is_cnpj = true
is_valid_document _ = false

-- `(User.email == email) | (User.cpf_cnpj == cpf_cnpj)`
abbrev pub has_email_or_document : Text → Text → User → Bool
has_email_or_document email key u = text_eq u.email email || text_eq u.cpf_cnpj key

-- `NULL` equals nothing.
abbrev pub is_stored : Option Text → Text → Bool
is_stored none s = false
is_stored (some t) s = text_eq t s

-- The other unique columns, which only a clash of fresh identifiers touches.
abbrev pub clashes : AuthContext → User → Bool
clashes c u = c.new_id == u.id || is_stored u.pix_random_key c.new_key

unfoldable pub register_account : AuthContext → UserCreate → Bank → Outcome ℕ
unfolding validate_document
register_account c d b =
    let key = keep_digits d.cpf_cnpj in
    if not (is_valid_document (validate_document key))
    then (raise document_invalid, b)
    else elim (find_first (has_email_or_document d.email key) b.users) [
      | some u ↦ (raise account_exists, b)
      | none ↦ elim (find_first (clashes c) b.users) [
        | some u ↦ (raise duplicate_row, b)
        | none ↦ (ok c.new_id, record b { users = b.users ++ new_user c d ∷ [] })
      ]
    ]

-- `register`, with the limit on attempts; mail is left out.
unfoldable pub register : AuthContext → UserCreate → Store → Bank → Outcome ℕ × Store
unfolding register_account rate_limit
register c d store b =
    let o = rate_limit c.ticks c.ip reg_max reg_window store in
    (if o.0 then register_account c d b else (raise too_many_requests, b), o.1)

unfoldable pub check_login : AuthContext → Text → Text → Bank → Result Cookies
check_login c cpf_cnpj password b = elim (find_first (by_document (keep_digits cpf_cnpj)) b.users) [
  | none ↦ raise wrong_credentials
  | some u ↦
      if not (c.passwords.verify password u.hashed_password)
      then raise wrong_credentials
      else if not u.email_verified
      then raise email_unverified
      else ok (issue c.codec c.now u)
]

-- `login`; the answer is the cookies that it sets.
unfoldable pub login : AuthContext → Text → Text → Store → Bank → Result Cookies × Store
unfolding check_login rate_limit
login c cpf_cnpj password store b =
    let o = rate_limit c.ticks c.ip login_max login_window store in
    (if o.0 then check_login c cpf_cnpj password b else raise too_many_requests, o.1)

-- More than 24 hours after the mail; a row with no date does not expire.
abbrev pub is_expired : ℕ → User → Bool
is_expired now u = elim u.email_verification_sent_at [
  | none ↦ false
  | some at ↦ ltb 86400 (now - at)
]

abbrev pub has_token : Text → User → Bool
has_token token u = is_stored u.email_verification_token token

abbrev pub with_verified_email : User → User
with_verified_email u = record u { email_verified = true; email_verification_token = none }

-- `verify_email`, with the session that it opens.
unfoldable pub verify_email : AuthContext → Text → Bank → Outcome Cookies
verify_email c token b = elim (find_first (has_token token) b.users) [
  | none ↦ (raise invalid_link, b)
  | some u ↦ if is_expired c.now u then (raise link_expired, b) else (
    ok (issue c.codec c.now (with_verified_email u)),
    record b { users = update_first (has_token token) with_verified_email b.users },
  )
]

-- Less than 5 minutes after the last mail.
abbrev pub is_recent : ℕ → Option ℕ → Bool
is_recent now none = false
is_recent now (some at) = ltb (now - at) 300

abbrev pub with_token : Text → ℕ → User → User
with_token token now u = record u {
  email_verification_token = some token;
  email_verification_sent_at = some now;
}

-- `resend_verification`; here the document is only stripped. The answer does not tell an unknown
-- account from a verified one.
unfoldable pub resend_verification : AuthContext → Text → Bank → Outcome (Unit {0})
resend_verification c document b =
    let key = strip document in
    if length key == 0
    then (raise document_missing, b)
    else elim (find_first (by_document key) b.users) [
      | none ↦ (ok tt, b)
      | some u ↦
          if u.email_verified
          then (ok tt, b)
          else if is_recent c.now u.email_verification_sent_at
          then (raise wait_before_resend, b)
          else (
            ok tt,
            record b {
              users = update_first (by_document key) (with_token c.new_token c.now) b.users;
            },
          )
    ]

-- `validate_doc`
abbrev pub validate_doc : Text → DocumentCheck
validate_doc cpf_cnpj = validate_document (keep_digits cpf_cnpj)

-- `get_balance`: the available balance, the credit limit, and their sum.
unfoldable pub balance_answer : User → Bank → Result (ℕ × ℕ × ℕ)
balance_answer u b = elim (get_available_balance u.id b) [
  | raise e ↦ raise e
  | ok available ↦ ok (available, u.credit_limit, u.credit_limit + available)
]
