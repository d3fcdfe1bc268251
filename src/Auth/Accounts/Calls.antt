-- ===== src/Auth/Accounts/Calls.antt =====
-- The calls of app/auth/router.py, and of the administrator (app/web_routes.py), that write accounts
-- or their profiles, and what they keep.
use payvorax.Auth.Profiles.{ProfileEdit, is_refused, edited, edit_user, admin_send_verification}
use payvorax.Bank.{Bank, User, Outcome}
use payvorax.Auth.Accounts.{
  AuthContext, UserCreate, register_account, verify_email, resend_verification,
  has_email_or_document, new_user, is_valid_document, clashes, is_expired, has_token,
  with_verified_email, is_recent, with_token,
}
use payvorax.Auth.Reset.{
  request_password_reset, confirm_password_reset, has_address, with_reset, has_code, with_password,
}
use payvorax.Auth.Sessions.{Cookies}
use payvorax.Base.Query.{update_first, find_first}
use payvorax.Base.{
  ◌≡◌, Bool, none, List, [], ◌∷◌, ◌++◌, if-holds, ℕ, refl, not, ◌==◌, option-holds, length,
}
use payvorax.Base.Text.{Text, text_eq, strip}
use payvorax.Base.Digits.{keep_digits}
use payvorax.Document.{validate_document}
use payvorax.Pix.Transfer.{by_document}
use payvorax.Bank.Money.{user_is, find_user}

-- A call of the routes that write accounts.
pub data AuthOp : Type 0 where
  registering : UserCreate → AuthOp
  following : Text → AuthOp
  resending : Text → AuthOp
  forgetting : Text → AuthOp
  resetting : Text → Text → Text → AuthOp
  mailing : ℕ → Bool → AuthOp
  editing : ℕ → ProfileEdit → AuthOp

abbrev pub apply_auth : AuthContext → AuthOp → Bank → Bank
apply_auth c (registering d) b = (register_account c d b).1
apply_auth c (following token) b = (verify_email c token b).1
apply_auth c (resending document) b = (resend_verification c document b).1
apply_auth c (forgetting email) b = request_password_reset c email b
apply_auth c (resetting code new again) b = (confirm_password_reset c code new again b).1
apply_auth c (mailing k delivered) b = (admin_send_verification c k delivered b).1
apply_auth c (editing k e) b = (edit_user k e b).1

-- Calls one after the other, each with its own surroundings.
unfoldable pub auth_run : List (AuthContext × AuthOp) → Bank → Bank
auth_run [] b = b
auth_run (o ∷ os) b = auth_run os (apply_auth o.0 o.1 b)

-- A write that leaves the identity and the money of an account alone.
abbrev pub KeepsAccount : (User → User) → Type 0
KeepsAccount f =
    (u : User)
    → ((f u).email ≡ u.email) × ((f u).cpf_cnpj ≡ u.cpf_cnpj) × ((f u).balance ≡ u.balance)

-- A property of the accounts is kept by every call if it is by a new account at the end, whose email
-- and document no other account has, and by such a write.
module _ {κ} (P : List User → Type κ)
    (opens : (c : AuthContext) (d : UserCreate) (us : List User)
      → find_first (has_email_or_document d.email (keep_digits d.cpf_cnpj)) us ≡ none
      → P us
      → P (us ++ new_user c d ∷ []))
    (writes : (p : User → Bool) (f : User → User) (us : List User)
      → KeepsAccount f
      → P us
      → P (update_first p f us)) where
  register_account-keeps :
      (c : AuthContext) (d : UserCreate) (b : Bank) → P b.users → P (register_account c d b).1.users
  unfolding register_account
  register_account-keeps c d b h =
      let key = keep_digits d.cpf_cnpj in
      if-holds (λ (o : Outcome ℕ). P o.1.users) (not (is_valid_document (validate_document key))) _
        _ (λ _. h)
        (λ _.
          option-holds (λ (o : Outcome ℕ). P o.1.users)
            (find_first (has_email_or_document d.email key) b.users) _ _
            (λ free.
              option-holds (λ (o : Outcome ℕ). P o.1.users) (find_first (clashes c) b.users) _ _
                (λ _. opens c d b.users free h) (λ _ _. h))
            (λ _ _. h))

  verify_email-keeps :
      (c : AuthContext) (token : Text) (b : Bank) → P b.users → P (verify_email c token b).1.users
  unfolding verify_email
  verify_email-keeps c token b h =
      option-holds (λ (o : Outcome Cookies). P o.1.users) (find_first (has_token token) b.users) _ _
        (λ _. h)
        (λ u _.
          if-holds (λ (o : Outcome Cookies). P o.1.users) (is_expired c.now u) _ _ (λ _. h)
            (λ _. writes (has_token token) with_verified_email b.users (λ x. (refl, refl, refl)) h))

  resend_verification-keeps :
      (c : AuthContext) (document : Text) (b : Bank)
      → P b.users
      → P (resend_verification c document b).1.users
  unfolding resend_verification
  resend_verification-keeps c document b h =
      let Q = (λ (o : Outcome (Unit {0})). P o.1.users) in
      if-holds Q (length (strip document) == 0) _ _ (λ _. h)
        (λ _.
          option-holds Q (find_first (by_document (strip document)) b.users) _ _ (λ _. h)
            (λ u _.
              if-holds Q u.email_verified _ _ (λ _. h)
                (λ _.
                  if-holds Q (is_recent c.now u.email_verification_sent_at) _ _ (λ _. h)
                    (λ _.
                      writes (by_document (strip document)) (with_token c.new_token c.now) b.users
                        (λ x. (refl, refl, refl)) h))))

  request_password_reset-keeps :
      (c : AuthContext) (email : Text) (b : Bank)
      → P b.users
      → P (request_password_reset c email b).users
  unfolding request_password_reset
  request_password_reset-keeps c email b h =
      let Q = (λ (o : Bank). P o.users) in
      option-holds Q (find_first (has_address email) b.users) _ _ (λ _. h)
        (λ u _.
          if-holds Q (is_recent c.now u.password_reset_sent_at) _ _ (λ _. h)
            (λ _.
              writes (has_address email) (with_reset (c.passwords.hash c.new_token) c.now) b.users
                (λ x. (refl, refl, refl)) h))

  confirm_password_reset-keeps :
      (c : AuthContext) (code new again : Text) (b : Bank)
      → P b.users
      → P (confirm_password_reset c code new again b).1.users
  unfolding confirm_password_reset
  confirm_password_reset-keeps c code new again b h =
      let Q = (λ (o : Outcome (Unit {0})). P o.1.users) in
      if-holds Q (not (text_eq new again)) _ _ (λ _. h)
        (λ _.
          option-holds Q (find_first (has_code c.passwords code) b.users) _ _ (λ _. h)
            (λ u _.
              writes (has_code c.passwords code) (with_password (c.passwords.hash new)) b.users
                (λ x. (refl, refl, refl)) h))

  admin_send_verification-keeps :
      (c : AuthContext) (k : ℕ) (delivered : Bool) (b : Bank)
      → P b.users
      → P (admin_send_verification c k delivered b).1.users
  unfolding admin_send_verification
  admin_send_verification-keeps c k delivered b h =
      let Q = (λ (o : Outcome (Unit {0})). P o.1.users) in
      option-holds Q (find_user k b) _ _ (λ _. h)
        (λ u _.
          if-holds Q u.email_verified _ _ (λ _. h)
            (λ _.
              writes (user_is k) (with_token c.new_token c.now) b.users (λ x. (refl, refl, refl))
                h))

  edit_user-keeps : (k : ℕ) (e : ProfileEdit) (b : Bank) → P b.users → P (edit_user k e b).1.users
  unfolding edit_user
  edit_user-keeps k e b h =
      let Q = (λ (o : Outcome (Unit {0})). P o.1.users) in
      option-holds Q (find_user k b) _ _ (λ _. h)
        (λ u _.
          if-holds Q (is_refused e) _ _ (λ _. h)
            (λ _. writes (user_is k) (edited e) b.users (λ x. (refl, refl, refl)) h))

  pub apply_auth-keeps :
      (c : AuthContext) (o : AuthOp) (b : Bank) → P b.users → P (apply_auth c o b).users
  apply_auth-keeps c (registering d) b h = register_account-keeps c d b h
  apply_auth-keeps c (following token) b h = verify_email-keeps c token b h
  apply_auth-keeps c (resending document) b h = resend_verification-keeps c document b h
  apply_auth-keeps c (forgetting email) b h = request_password_reset-keeps c email b h
  apply_auth-keeps c (resetting code new again) b h =
      confirm_password_reset-keeps c code new again b h
  apply_auth-keeps c (mailing k delivered) b h = admin_send_verification-keeps c k delivered b h
  apply_auth-keeps c (editing k e) b h = edit_user-keeps k e b h

  pub auth_run-keeps :
      (os : List (AuthContext × AuthOp)) (b : Bank) → P b.users → P (auth_run os b).users
  unfolding auth_run
  auth_run-keeps [] b h = h
  auth_run-keeps (o ∷ os) b h =
      auth_run-keeps os (apply_auth o.0 o.1 b) (apply_auth-keeps o.0 o.1 b h)
