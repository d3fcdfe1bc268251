-- ===== src/Pix/Transfer.antt =====
-- app/pix/internal_transfer.py: the recipient behind a Pix key, and the transfer between two
-- accounts of the platform.
pub mod Moves
use payvorax.Base.Digits.{keep_digits}
use payvorax.Bank.{
  User, PixTransaction, PixKeyType, cpf, cnpj, email, phone, random, TransactionType, sent,
  received, confirmed, Bank, ok, raise, Outcome, self_transfer, insufficient_funds,
}
use payvorax.Bank.Money.{set_balance}
use payvorax.Pix.Request.{Context}
use payvorax.Base.{ℕ, Bool, false, Option, none, some, List, ◌∷◌, ◌++◌, map, ◌==◌, if◌then◌else◌}
use payvorax.Base.Int.{pos, ◌+ℤ◌, ◌-ℤ◌, ltb_ℤ}
use payvorax.Base.Text.{Text, codes, text_eq, to_lower, strip}
use payvorax.Base.Query.{find_first}

abbrev pub lower : Text → Text
lower = map to_lower

-- A comparison with a nullable column: `NULL` equals nothing.
abbrev column_is : Option Text → Text → Bool
column_is none key = false
column_is (some t) key = text_eq (lower t) key

abbrev pub by_document : Text → User → Bool
by_document key u = text_eq u.cpf_cnpj key

abbrev pub by_email : Text → User → Bool
by_email key u = text_eq (lower u.email) key

abbrev pub by_pix_email : Text → User → Bool
by_pix_email key u = column_is u.pix_email_key key

abbrev by_random_key : Text → User → Bool
by_random_key key u = column_is u.pix_random_key key

-- The login email first, then `pix_email_key`.
unfoldable pub find_by_email : Text → List User → Option User
find_by_email key users = elim (find_first (by_email key) users) [
  | some u ↦ some u
  | none ↦ find_first (by_pix_email key) users
]

-- Keys of the type `PHONE` are not looked up.
unfoldable pub find_recipient_user : Text → PixKeyType → Bank → Option User
unfolding find_by_email
find_recipient_user key cpf b = find_first (by_document (keep_digits key)) b.users
find_recipient_user key cnpj b = find_first (by_document (keep_digits key)) b.users
find_recipient_user key email b = find_by_email (lower (strip key)) b.users
find_recipient_user key random b = find_first (by_random_key (lower (strip key))) b.users
find_recipient_user key phone b = none

-- f"internal-recv-{idempotency_key}"
abbrev recv_key : Text → Text
recv_key key = codes "internal-recv-" ++ key

-- One side of a transfer: both are `CONFIRMED` at once.
abbrev transfer_row :
    Context → ℕ → TransactionType → User → ℕ → Text → PixKeyType → Text → ℕ → PixTransaction
transfer_row c id type owner amount pix_key key_type key correlation_id = record {
  id = id;
  value = amount;
  pix_key = pix_key;
  key_type = key_type;
  type = type;
  status = confirmed;
  user_id = owner.id;
  idempotency_key = key;
  created_at = c.now;
  correlation_id = correlation_id;
  scheduled_date = none;
  fee_amount = none;
  payload_hash = none;
}

-- `execute_internal_transfer`: the caller commits. The balances are those of the rows that the
-- caller has read, and the rows are written by their ids.
unfoldable pub execute_internal_transfer :
    Context
    → User
    → User
    → ℕ
    → Text
    → PixKeyType
    → Text
    → ℕ
    → Bank
    → Outcome (PixTransaction × PixTransaction)
execute_internal_transfer c sender recipient amount pix_key key_type key correlation_id b =
    let sent_tx = transfer_row c c.new_id sent sender amount pix_key key_type key correlation_id in
    let received_tx =
      transfer_row c c.second_id received recipient amount pix_key key_type (recv_key key)
        correlation_id in
    let moved =
      set_balance recipient.id (recipient.balance +ℤ pos amount)
        (set_balance sender.id (sender.balance -ℤ pos amount) b) in
    if sender.id == recipient.id
    then (raise self_transfer, b)
    else if ltb_ℤ sender.balance (pos amount)
    then (raise insufficient_funds, b)
    else (ok (sent_tx, received_tx), record moved { pix = sent_tx ∷ received_tx ∷ moved.pix })
