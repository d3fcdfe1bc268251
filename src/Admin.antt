-- ===== src/Admin.antt =====
-- The administrator's calls of app/web_routes.py on accounts: suspension, deletion, and the movements
-- of the platform's money. All of them ask for an administrator (`require_admin`).
pub mod Removal
use payvorax.Base.Query.{find_first, update_first}
use payvorax.Base.{
  ℕ, Bool, true, false, not, ◌||◌, Option, none, some, List, [], ◌∷◌, ◌==◌, if◌then◌else◌,
}
use payvorax.Base.Int.{pos, ◌+ℤ◌, ◌-ℤ◌, ltb_ℤ}
use payvorax.Base.Text.{Text, text_eq}
use payvorax.Bank.Money.{user_is, find_user, set_balance}
use payvorax.Bank.{
  Outcome, user_not_found, insufficient_funds, gateway_refused, gateway_unavailable,
  platform_not_found, protected_account, invalid_destination, type_error, invalid_key_type, ok,
  raise, PixKeyType, User, PixTransaction, BoletoTransaction, CreditCard, Payment, Bank, cpf, cnpj,
  email, random,
}
use payvorax.Matrix.{is_matrix, get_matrix_user, set_matrix_balance}
use payvorax.Pix.Create.{add_dispatch}
use payvorax.Pix.Request.{Context, accepted, refused, PaymentReply}
use payvorax.Pix.Transfer.{find_recipient_user, execute_internal_transfer}

abbrev pub keep_where {ℓ} : {A : Type ℓ} → (A → Bool) → List A → List A
keep_where q [] = []
keep_where q (x ∷ xs) = if q x then x ∷ keep_where q xs else keep_where q xs

abbrev with_active : Bool → User → User
with_active t u = record u { is_active = t }

-- `toggle_user_active`
unfoldable toggle_user_active : ℕ → Bool → Bank → Outcome Bool
toggle_user_active user_id on b = elim (find_user user_id b) [
  | none ↦ (raise user_not_found, b)
  | some u ↦
      if u.is_admin
      then (raise protected_account, b)
      else (ok on, record b { users = update_first (user_is user_id) (with_active on) b.users })
]

-- The rows of everyone else; ledger entries and subscriptions are not deleted.
abbrev pub without_user : ℕ → Bank → Bank
without_user k b = record b {
  users = keep_where (λ u. not (user_is k u)) b.users;
  pix = keep_where (λ (p : PixTransaction). not (k == p.user_id)) b.pix;
  boletos = keep_where (λ (x : BoletoTransaction). not (k == x.user_id)) b.boletos;
  cards = keep_where (λ (x : CreditCard). not (k == x.user_id)) b.cards;
}

-- `delete_user`, by the administrator `admin_id`.
unfoldable pub delete_user : ℕ → ℕ → Bank → Outcome ℕ
delete_user admin_id user_id b = elim (find_user user_id b) [
  | none ↦ (raise user_not_found, b)
  | some u ↦
      if u.is_admin || is_matrix u || u.id == admin_id
      then (raise protected_account, b)
      else (ok user_id, without_user user_id b)
]

-- The kinds of keys for which `matrix_transfer` looks for an account of the platform.
abbrev pub looks_inside : Option PixKeyType → Bool
looks_inside (some cpf) = true
looks_inside (some cnpj) = true
looks_inside (some email) = true
looks_inside _ = false

abbrev pub inside_recipient : Text → Option PixKeyType → Bank → Option User
inside_recipient key none b = none
inside_recipient key (some t) b =
    if looks_inside (some t) then find_recipient_user key t b else none

abbrev pub debit_matrix : User → ℕ → Bank → Bank
debit_matrix m amount b = set_matrix_balance (m.balance -ℤ pos amount) b

abbrev pub balance_text : Outcome (PixTransaction × PixTransaction) → Outcome Unit
balance_text (ok txs, b) = (ok tt, b)
balance_text (raise e, b) = (raise e, b)

abbrev pub type_or_random : Option PixKeyType → PixKeyType
type_or_random none = random
type_or_random (some t) = t

abbrev pub payment_to : Text → Option PixKeyType → ℕ → Text → Payment
payment_to pix_key key_type amount key = record {
  value = amount;
  pix_key = pix_key;
  key_type = type_or_random key_type;
  idempotency_key = key;
}

-- The gateway's reply; a refusal leaves everything as it was.
abbrev pub platform_replied : PaymentReply → User → Payment → Bank → Outcome Unit
platform_replied refused m x b = (raise gateway_refused, add_dispatch x b)
platform_replied (accepted end_to_end_id payment_id) m x b =
    (ok tt, debit_matrix m x.value (add_dispatch x b))

-- To an address outside: no row is stored.
unfoldable pub matrix_external : Context → User → Payment → Bank → Outcome Unit
matrix_external c m x b = elim c.gateway [
  | none ↦ (ok tt, debit_matrix m x.value b)
  | some g ↦ platform_replied (g x) m x b
]

-- `matrix_transfer`; `key` and `correlation_id` are fresh.
unfoldable pub matrix_transfer :
    Context → Text → Option PixKeyType → ℕ → Text → ℕ → Bank → Outcome Unit
unfolding matrix_external
matrix_transfer c pix_key key_type amount key correlation_id b = elim (get_matrix_user b) [
  | none ↦ (raise platform_not_found, b)
  | some m ↦
      if ltb_ℤ m.balance (pos amount)
      then (raise insufficient_funds, b)
      else elim (inside_recipient pix_key key_type b) [
        | some recipient ↦ balance_text (
            execute_internal_transfer c m recipient amount pix_key (type_or_random key_type) key
              correlation_id b)
        | none ↦ matrix_external c m (payment_to pix_key key_type amount key) b
      ]
]

-- The destinations of `asaas_transfer`.
pub data Destination : Type 0 where
  to_customer : Option ℕ → Destination
  to_platform : Destination
  to_key : Text → Option PixKeyType → Destination

unfoldable pub credit_customer : ℕ → ℕ → Bank → Outcome Unit
credit_customer user_id amount b = elim (find_user user_id b) [
  | none ↦ (raise user_not_found, b)
  | some u ↦
      if is_matrix u
      then (raise invalid_destination, b)
      else (ok tt, set_balance user_id (u.balance +ℤ pos amount) b)
]

abbrev pub sent_out : PaymentReply → Payment → Bank → Outcome Unit
sent_out refused x b = (raise gateway_refused, add_dispatch x b)
sent_out (accepted end_to_end_id payment_id) x b = (ok tt, add_dispatch x b)

-- For the platform's account the sum of a `Decimal` and a `float` is a `TypeError`.
unfoldable pub asaas_transfer : Context → Destination → ℕ → Text → Bank → Outcome Unit
unfolding credit_customer
asaas_transfer c (to_customer none) amount key b = (raise invalid_destination, b)
asaas_transfer c (to_customer (some user_id)) amount key b = credit_customer user_id amount b
asaas_transfer c to_platform amount key b = elim (get_matrix_user b) [
  | none ↦ (raise platform_not_found, b)
  | some m ↦ (raise type_error, b)
]
asaas_transfer c (to_key pix_key none) amount key b = (raise invalid_key_type, b)
asaas_transfer c (to_key pix_key (some t)) amount key b = elim c.gateway [
  | none ↦ (raise gateway_unavailable, b)
  | some g ↦ let x = payment_to pix_key (some t) amount key in sent_out (g x) x b
]

-- `matrix_to_asaas`
unfoldable pub matrix_to_asaas : ℕ → Bank → Outcome Unit
matrix_to_asaas amount b = elim (get_matrix_user b) [
  | none ↦ (raise platform_not_found, b)
  | some m ↦
      if ltb_ℤ m.balance (pos amount)
      then (raise insufficient_funds, b)
      else (ok tt, debit_matrix m amount b)
]

-- The owner's row as it is by then: it may be the platform's own.
abbrev pub credit_owner : ℕ → ℕ → Bank → Bank
credit_owner k amount b = elim (find_user k b) [
  | none ↦ b
  | some u ↦ set_balance k (u.balance +ℤ pos amount) b
]

-- `matrix_to_owner`; the owner's account is that of `settings.ADMIN_EMAIL`.
unfoldable pub matrix_to_owner : Text → ℕ → Bank → Outcome Unit
matrix_to_owner admin_email amount b = elim (get_matrix_user b) [
  | none ↦ (raise platform_not_found, b)
  | some m ↦
      if ltb_ℤ m.balance (pos amount)
      then (raise insufficient_funds, b)
      else elim (find_first (λ (u : User). text_eq u.email admin_email) b.users) [
        | none ↦ (raise user_not_found, b)
        | some owner ↦ (ok tt, credit_owner owner.id amount (debit_matrix m amount b))
      ]
]
