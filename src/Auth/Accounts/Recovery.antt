-- ===== src/Auth/Accounts/Recovery.antt =====
-- The recovery of a password.
use payvorax.Bank.{ok, Bank, User, wrong_credentials, invalid_code, raise}
use payvorax.Pix.Transfer.{by_document}
use payvorax.Auth.Accounts.{AuthContext, check_login}
use payvorax.Auth.Reset.{has_code, with_password, confirm_password_reset}
use payvorax.Base.Query.{
  sum_where, sum_where-update, sum_where-none, find_first-update_same, find_first-holds, find_first,
  update_first,
}
use payvorax.Base.Digits.{keep_digits}
use payvorax.Base.{ℕ, ◌≡◌, true, none, some, arith, ap, ◌∙◌, false}
use payvorax.Base.Text.{Text, text_eq_refl}
use payvorax.Auth.Sessions.{issue}
use payvorax.Auth.Accounts.Unique.{AllApart, AllApart-by_document}

-- The number of accounts that a recovery code opens.
unfoldable pub opened_by : AuthContext → Text → Bank → ℕ
opened_by c code b = sum_where (has_code c.passwords code) (λ u. 1) b.users

module _ (c l : AuthContext) (code password : Text) (b : Bank) (u : User)
    (found : find_first (has_code c.passwords code) b.users ≡ some u)
    (own : find_first (by_document u.cpf_cnpj) b.users ≡ some u)
    (digits : keep_digits u.cpf_cnpj ≡ u.cpf_cnpj) (verified : u.email_verified ≡ true)
    (only : opened_by c code b ≡ 1) where
  abbrev changed : User
  changed = with_password (c.passwords.hash password) u

  abbrev reset : Bank
  reset = record b {
    users =
        update_first (has_code c.passwords code) (with_password (c.passwords.hash password))
          b.users;
  }

  confirmed : confirm_password_reset c code password password b ≡ (ok tt, reset)
  unfolding confirm_password_reset
  confirmed = ground (arith, found, text_eq_refl password)

  own-changed : find_first (by_document (keep_digits u.cpf_cnpj)) reset.users ≡ some changed
  own-changed = rw digits (
      find_first-update_same (has_code c.passwords code) (by_document u.cpf_cnpj)
        (with_password (c.passwords.hash password)) b.users u found own (text_eq_refl u.cpf_cnpj))

  spent : find_first (has_code c.passwords code) reset.users ≡ none
  unfolding opened_by
  spent = sum_where-none _ reset.users (
      grind (
        arith,
        only,
        find_first-holds _ b.users u found,
        sum_where-update (has_code c.passwords code) (λ x. 1) (has_code c.passwords code)
            (with_password (c.passwords.hash password)) b.users u found,
      ))

-- A recovery code that is confirmed, for an account with a verified email, when no two accounts have
-- the same document or email and the code opens no other account: the login with the new password
-- opens a session, a password that does not check against the new hash is refused, and the code is
-- not valid again.
pub confirm_password_reset-login :
    (c l : AuthContext) (code password old again : Text) (b : Bank) (u : User)
    → find_first (has_code c.passwords code) b.users ≡ some u
    → AllApart b.users
    → keep_digits u.cpf_cnpj ≡ u.cpf_cnpj
    → u.email_verified ≡ true
    → opened_by c code b ≡ 1
    → l.passwords.verify password (c.passwords.hash password) ≡ true
    → l.passwords.verify old (c.passwords.hash password) ≡ false
    → let after = confirm_password_reset c code password password b in
      (after.0 ≡ ok tt)
      × (check_login l u.cpf_cnpj password after.1
          ≡ ok (issue l.codec l.now (with_password (c.passwords.hash password) u)))
      × (check_login l u.cpf_cnpj old after.1 ≡ raise wrong_credentials)
      × ((confirm_password_reset c code again again after.1).0 ≡ raise invalid_code)
unfolding confirm_password_reset check_login
confirm_password_reset-login c l code password old again b u found apart digits verified only new
      gone =
    let own = AllApart-by_document (has_code c.passwords code) b.users u apart found in
    let done = confirmed c l code password b u found own digits verified only in
    let at = own-changed c l code password b u found own digits verified only in
    let empty = spent c l code password b u found own digits verified only in
    (
      ap (λ o. o.0) done,
      ap (λ o. check_login l u.cpf_cnpj password o.1) done ∙ ground (arith, at, new, verified),
      ap (λ o. check_login l u.cpf_cnpj old o.1) done ∙ ground (arith, at, gone),
      ap (λ o. (confirm_password_reset c code again again o.1).0) done
          ∙ ground (arith, empty, text_eq_refl again),
    )
