-- ===== src/Pix/Keys.antt =====
-- `register_email_pix_key`, `remove_email_pix_key` and `_normalize_pix_key` (app/pix/router.py).
pub mod Unique
use payvorax.Base.Query.{find_first, update_first}
use payvorax.Base.Digits.{keep_digits}
use payvorax.Base.{
  ℕ, Bool, false, not, ◌&&◌, Option, none, some, ◌++◌, ltb, ◌==◌, if◌then◌else◌, length, take, drop,
}
use payvorax.Base.Text.{truthy, Text, codes, text_eq, strip}
use payvorax.Bank.Money.{user_is, find_user}
use payvorax.Bank.{
  Outcome, user_not_found, key_taken, ok, raise, PixKeyType, User, Bank, cpf, cnpj, email, phone,
  random,
}
use payvorax.Pix.Transfer.{lower}

-- The field `status` of the answer.
pub data KeyStatus : Type 0 where
  already_registered registered not_registered removed : KeyStatus

-- The account's email, stripped and in small letters.
abbrev pub email_key : User → Text
email_key u = lower (strip u.email)

-- `User.pix_email_key == email`: `NULL` equals nothing.
abbrev pub holds_key : Text → User → Bool
holds_key key u = elim u.pix_email_key [ none ↦ false | some t ↦ text_eq t key ]

abbrev pub with_email_key : Option Text → User → User
with_email_key key u = record u { pix_email_key = key }

abbrev pub set_email_key : ℕ → Option Text → Bank → Bank
set_email_key k key b = record b { users = update_first (user_is k) (with_email_key key) b.users }

abbrev pub holds_already : User → Bool
holds_already u = elim u.pix_email_key [ none ↦ false | some t ↦ text_eq (lower t) (email_key u) ]

-- `register_email_pix_key` of the logged-in user `k`.
unfoldable pub register_email_pix_key : ℕ → Bank → Outcome KeyStatus
register_email_pix_key k b = elim (find_user k b) [
  | none ↦ (raise user_not_found, b)
  | some u ↦
      if holds_already u
      then (ok already_registered, b)
      else elim (find_first (λ x. holds_key (email_key u) x && not (k == x.id)) b.users) [
        | some other ↦ (raise key_taken, b)
        | none ↦ (ok registered, set_email_key k (some (email_key u)) b)
      ]
]

-- `remove_email_pix_key`; an empty key counts as none.
unfoldable remove_email_pix_key : ℕ → Bank → Outcome KeyStatus
remove_email_pix_key k b = elim (find_user k b) [
  | none ↦ (raise user_not_found, b)
  | some u ↦ elim (truthy u.pix_email_key) [
    | none ↦ (ok not_registered, b)
    | some key ↦ (ok removed, set_email_key k none b)
  ]
]

abbrev drop_country : Text → Text
drop_country digits =
    if text_eq (take 2 digits) (codes "55") && ltb 11 (length digits) then drop 2 digits else digits

-- `_normalize_pix_key`
unfoldable normalize_pix_key : Text → PixKeyType → Text
normalize_pix_key key phone = codes "+55" ++ drop_country (keep_digits key)
normalize_pix_key key cpf = keep_digits key
normalize_pix_key key cnpj = keep_digits key
normalize_pix_key key email = lower (strip key)
normalize_pix_key key random = strip key
