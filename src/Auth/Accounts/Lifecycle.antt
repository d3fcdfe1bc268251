-- ===== src/Auth/Accounts/Lifecycle.antt =====
-- From the registration of an account to its first login.
use payvorax.Bank.{ok, Bank, email_unverified, raise, User, invalid_link}
use payvorax.Pix.Transfer.{by_document}
use payvorax.Auth.Accounts.{
  AuthContext, UserCreate, new_user, is_valid_document, has_email_or_document, clashes,
  register_account, has_token, check_login, with_verified_email, verify_email,
}
use payvorax.Base.Digits.{keep_digits}
use payvorax.Base.{
  ℕ, ◌≡◌, inl, inr, none, some, [], ◌∷◌, ◌++◌, arith, Bool-cases, Option-cases, ◌-◌, true, false,
  ltb, if◌then◌else◌, refl, sym, subst, ap, ◌∙◌,
}
use payvorax.Base.Query.{
  find_first, update_first, find_first-append, find_first-weaken, find_first-update_same,
  find_first-update_append,
}
use payvorax.Document.{validate_document}
use payvorax.Base.Text.{Text, text_eq_refl}
use payvorax.Auth.Sessions.{issue}

-- What a registration that succeeds found and did.
pub register_account-ok :
    (c : AuthContext) (d : UserCreate) (b b' : Bank) (id : ℕ)
    → register_account c d b ≡ (ok id, b')
    → (find_first (has_email_or_document d.email (keep_digits d.cpf_cnpj)) b.users ≡ none)
      × (b' ≡ record b { users = b.users ++ new_user c d ∷ [] })
unfolding register_account
register_account-ok c d b b' id done =
    let key = keep_digits d.cpf_cnpj in
    elim (Bool-cases (is_valid_document (validate_document key))) [
      | inr bad ↦ absurd (ground (arith, done, bad))
      | inl good ↦ elim (Option-cases (find_first (has_email_or_document d.email key) b.users)) [
        | inr (u, taken) ↦ absurd (ground (arith, done, good, taken))
        | inl free ↦ elim (Option-cases (find_first (clashes c) b.users)) [
          | inr (u, clash) ↦ absurd (ground (arith, done, good, free, clash))
          | inl fresh ↦ (free, ground (arith, done, good, free, fresh))
        ]
      ]
    ]

-- The login of an account that its document finds, with its password.
pub check_login-found :
    (l : AuthContext) (doc password : Text) (b : Bank) (u : User)
    → find_first (by_document (keep_digits doc)) b.users ≡ some u
    → l.passwords.verify password u.hashed_password ≡ true
    → check_login l doc password b
      ≡ (if u.email_verified then ok (issue l.codec l.now u) else raise email_unverified)
unfolding check_login
check_login-found l doc password b u found known = ground (arith, found, known)

-- In the bank where `c` and `d` opened an account: what a login and the link answer, before and after
-- the link is followed.
abbrev pub FirstLogin : AuthContext → AuthContext → UserCreate → Bank → Type 0
FirstLogin c l d b =
    let session = ok (issue l.codec l.now (with_verified_email (new_user c d))) in
    let verified = verify_email l c.new_token b in
    (check_login l d.cpf_cnpj d.password b ≡ raise email_unverified)
    × (verified.0 ≡ session)
    × (check_login l d.cpf_cnpj d.password verified.1 ≡ session)
    × ((verify_email l c.new_token verified.1).0 ≡ raise invalid_link)

module _ (c l : AuthContext) (d : UserCreate) (b : Bank)
    (fresh : find_first (has_token c.new_token) b.users ≡ none)
    (known : l.passwords.verify d.password (c.passwords.hash d.password) ≡ true)
    (on_time : ltb 86400 (l.now - c.now) ≡ false) where
  abbrev opened : Bank
  opened = record b { users = b.users ++ new_user c d ∷ [] }

  abbrev confirmed : Bank
  confirmed = record b {
    users = update_first (has_token c.new_token) with_verified_email opened.users;
  }

  opened-has_token : find_first (has_token c.new_token) opened.users ≡ some (new_user c d)
  opened-has_token =
      find_first-append (has_token c.new_token) b.users (new_user c d) fresh
        (text_eq_refl c.new_token)

  confirmed-eq :
      verify_email l c.new_token opened
      ≡ (ok (issue l.codec l.now (with_verified_email (new_user c d))), confirmed)
  unfolding verify_email
  confirmed-eq = ground (arith, opened-has_token, on_time)

  confirmed-has_token : find_first (has_token c.new_token) confirmed.users ≡ none
  confirmed-has_token =
      find_first-update_append (has_token c.new_token) with_verified_email b.users (new_user c d)
        fresh (text_eq_refl c.new_token) refl

  module _
      (free : find_first (has_email_or_document d.email (keep_digits d.cpf_cnpj)) b.users
        ≡ none) where
    opened-by_document :
        find_first (by_document (keep_digits d.cpf_cnpj)) opened.users ≡ some (new_user c d)
    opened-by_document =
        find_first-append (by_document (keep_digits d.cpf_cnpj)) b.users (new_user c d)
          (find_first-weaken _ _ b.users (λ x no. ground (arith, no)) free)
          (text_eq_refl (keep_digits d.cpf_cnpj))

    confirmed-by_document :
        find_first (by_document (keep_digits d.cpf_cnpj)) confirmed.users
        ≡ some (with_verified_email (new_user c d))
    confirmed-by_document =
        find_first-update_same (has_token c.new_token) (by_document (keep_digits d.cpf_cnpj))
          with_verified_email opened.users (new_user c d) opened-has_token opened-by_document
          (text_eq_refl (keep_digits d.cpf_cnpj))

    first_login : FirstLogin c l d opened
    unfolding verify_email
    first_login = (
      check_login-found l d.cpf_cnpj d.password opened (new_user c d) opened-by_document known,
      ap (λ o. o.0) confirmed-eq,
      ap (λ o. check_login l d.cpf_cnpj d.password o.1) confirmed-eq
          ∙ check_login-found l d.cpf_cnpj d.password confirmed (with_verified_email (new_user c d))
              confirmed-by_document known,
      ap (λ o. (verify_email l c.new_token o.1).0) confirmed-eq
          ∙ ground (arith, confirmed-has_token),
    )

-- An account that is registered, with a token for the mail that no account has, and a password that
-- checks against its hash: the login is refused until the email is verified; the link of the mail,
-- within 24 hours, opens a session; the login then opens one too; and the link is not valid again.
pub register-login :
    (c l : AuthContext) (d : UserCreate) (b b' : Bank) (id : ℕ)
    → register_account c d b ≡ (ok id, b')
    → find_first (has_token c.new_token) b.users ≡ none
    → l.passwords.verify d.password (c.passwords.hash d.password) ≡ true
    → ltb 86400 (l.now - c.now) ≡ false
    → FirstLogin c l d b'
register-login c l d b b' id done fresh known on_time =
    let o = register_account-ok c d b b' id done in
    subst (FirstLogin c l d) (sym o.1) (first_login c l d b fresh known on_time o.0)
