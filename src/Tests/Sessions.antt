-- ===== src/Tests/Sessions.antt =====
-- Sessions, registrations and recoveries on a small bank.
use payvorax.Tests.Fixtures.{alice, bob, bank}
use payvorax.Bank.{ok, User, Bank, wrong_credentials, invalid_code, raise}
use payvorax.Document.{validate_document, validate_cpf, one_digit_only, cpf_digit, weighted}
use payvorax.Base.Digits.{keep_digits}
use payvorax.Auth.RateLimit.{login_max, login_window}
use payvorax.Auth.RateLimit.Window.{count_between, serve_all, rate_limit_bounds}
use payvorax.Auth.Sessions.{Claims, Codec, issue, get_current_user}
use payvorax.Auth.Sessions.Access.{IsCodec, session_lasts}
use payvorax.Base.{
  ℕ, ◌≤◌, ◌≡◌, refl, Bool, true, false, Option, none, some, List, [], ◌∷◌, arith, leb, ◌==◌,
  if◌then◌else◌, ◌++◌,
}
use payvorax.Base.Text.{Text, codes, text_eq}
use payvorax.Auth.Accounts.{
  Passwords, AuthContext, UserCreate, new_user, register_account, check_login,
}
use payvorax.Auth.Reset.{with_reset, with_password, confirm_password_reset}
use payvorax.Auth.Accounts.Calls.{auth_run, registering, following, forgetting}
use payvorax.Auth.Accounts.Lifecycle.{FirstLogin, register-login}
use payvorax.Auth.Accounts.Recovery.{opened_by, confirm_password_reset-login}
use payvorax.Auth.Accounts.Unique.{AllApart, auth_run-AllApart}

-- Seven attempts from one address within a minute, and one later.
abbrev attempts : List (ℕ × Text)
attempts =
    (10, codes "a")
    ∷ (11, codes "a")
    ∷ (12, codes "b")
    ∷ (13, codes "a")
    ∷ (14, codes "a")
    ∷ (15, codes "a")
    ∷ (16, codes "a")
    ∷ (80, codes "a")
    ∷ []

rate_limit_bounds_example :
    count_between 10 70 (serve_all (codes "a") login_max login_window attempts ([], [])).1 ≤ 5
rate_limit_bounds_example =
    rate_limit_bounds (codes "a") login_max login_window attempts 10 (ground arith)

abbrev mark : Bool → ℕ
mark true = 1
mark false = 2

abbrev tagged : Option Text → Text
tagged none = []
tagged (some s) = 1 ∷ s

abbrev untagged : Text → Option Text
untagged [] = none
untagged (x ∷ s) = some s

abbrev open_decode : ℕ → Text → Option Claims
open_decode now (f ∷ e ∷ s) =
    if leb now e then some (record { sub = untagged s; is_refresh = f == 1; exp = e }) else none
open_decode now _ = none

-- Tokens that anyone can read.
abbrev open_codec : Codec
open_codec = record { encode = λ c. mark c.is_refresh ∷ c.exp ∷ tagged c.sub; decode = open_decode }

open_decode-encode :
    (now : ℕ) (s : Option Text) (r : Bool) (e : ℕ)
    → let c : Claims = record { sub = s; is_refresh = r; exp = e } in
      open_decode now (open_codec.encode c) ≡ (if leb now e then some c else none)
open_decode-encode now none true e = refl
open_decode-encode now (some s) true e = refl
open_decode-encode now none false e = refl
open_decode-encode now (some s) false e = refl

open_codec-IsCodec : IsCodec open_codec
unfolding text_eq
open_codec-IsCodec = record {
  decode-encode = λ now c. open_decode-encode now c.sub c.is_refresh c.exp;
  encode-filled = λ c. refl;
}

abbrev suspended : User
suspended = record alice { is_active = false }

abbrev suspended_bank : Bank
suspended_bank = record bank { users = suspended ∷ [] }

-- A suspended account, ten minutes after its login.
session_lasts_example :
    get_current_user open_codec 1600 (issue open_codec 1000 suspended) suspended_bank
    ≡ ok (suspended, none)
unfolding text_eq
session_lasts_example =
    session_lasts open_codec open_codec-IsCodec 1000 1600 suspended suspended_bank refl refl refl

-- A hash that anyone can read.
abbrev passwords : Passwords
passwords = record { hash = λ s. 7 ∷ s; verify = λ s h. text_eq (7 ∷ s) h }

abbrev here : AuthContext
here = record {
  now = 1000;
  ticks = 50;
  ip = codes "a";
  passwords = passwords;
  codec = open_codec;
  new_id = 20;
  new_token = codes "token";
  new_key = codes "key";
}

abbrev an_hour_later : AuthContext
an_hour_later = record here { now = 4600 }

abbrev carol : UserCreate
carol = record {
  cpf_cnpj = codes "123.456.789-09";
  email = codes "carol@example.com";
  password = codes "abc";
}

abbrev bank_with_carol : Bank
bank_with_carol = record bank { users = bank.users ++ new_user here carol ∷ [] }

register-login_example : FirstLogin here an_hour_later carol bank_with_carol
unfolding register_account validate_document text_eq keep_digits validate_cpf one_digit_only
    cpf_digit weighted
register-login_example =
    register-login here an_hour_later carol bank bank_with_carol 20 refl refl refl refl

abbrev forgetful : User
forgetful = with_reset (7 ∷ codes "C0DE") 900 alice

abbrev forgetful_bank : Bank
forgetful_bank = record bank { users = bob ∷ forgetful ∷ [] }

confirm_password_reset-login_example :
    let after =
      confirm_password_reset here (codes "C0DE") (codes "new") (codes "new") forgetful_bank in
    (after.0 ≡ ok tt)
    × (check_login an_hour_later alice.cpf_cnpj (codes "new") after.1
        ≡ ok (issue open_codec 4600 (with_password (7 ∷ codes "new") forgetful)))
    × (check_login an_hour_later alice.cpf_cnpj (codes "old") after.1 ≡ raise wrong_credentials)
    × ((confirm_password_reset here (codes "C0DE") (codes "x") (codes "x") after.1).0
        ≡ raise invalid_code)
unfolding text_eq opened_by keep_digits
confirm_password_reset-login_example =
    confirm_password_reset-login here an_hour_later (codes "C0DE") (codes "new") (codes "old")
      (codes "x") forgetful_bank forgetful refl (((refl, refl), tt), (tt, tt)) refl refl refl refl
      refl

auth_run-AllApart_example :
    AllApart
      (auth_run
        ((here, registering carol)
          ∷ (an_hour_later, following (codes "token"))
          ∷ (an_hour_later, forgetting (codes "carol@example.com"))
          ∷ (an_hour_later, registering carol)
          ∷ [])
        bank).users
unfolding text_eq
auth_run-AllApart_example =
    auth_run-AllApart
      ((here, registering carol)
        ∷ (an_hour_later, following (codes "token"))
        ∷ (an_hour_later, forgetting (codes "carol@example.com"))
        ∷ (an_hour_later, registering carol)
        ∷ [])
      bank (((refl, refl), ((refl, refl), tt)), (((refl, refl), tt), (tt, tt)))
