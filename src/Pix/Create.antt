-- ===== src/Pix/Create.antt =====
-- `create_pix` (app/pix/service.py): idempotency, the three ways of a payment (scheduled, internal,
-- external), and the row that is stored before the gateway is called.
pub mod Replay
pub mod Reserve
use payvorax.Bank.{
  Bank, User, PixTransaction, PixStatus, created, processing, failed, scheduled, TransactionType,
  sent, received, LedgerEntry, debit, pending, Payment, is_sent, is_processing, is_created, fee_of,
  ok, raise, Outcome, user_not_found, insufficient_funds, daily_limit, gateway_refused,
}
use payvorax.Bank.Money.{find_user, get_available_balance, get_daily_sent_total}
use payvorax.Fees.{calculate_pix_fee}
use payvorax.Pix.Request.{Context, PixCreateRequest, PaymentReply, accepted, refused}
use payvorax.Pix.Transfer.{find_recipient_user, execute_internal_transfer}
use payvorax.Base.{ℕ, ◌+◌, Bool, true, false, ◌&&◌, Option, none, some, ◌∷◌, ltb, if◌then◌else◌}
use payvorax.Base.Text.{Text, text_eq}
use payvorax.Base.Query.{find_first}

-- `DAILY_SEND_LIMIT`, R$20,000.00.
abbrev pub daily_send_limit : ℕ
daily_send_limit = 2000000

abbrev pub has_key : Text → PixTransaction → Bool
has_key key p = text_eq key p.idempotency_key

-- The row with an idempotency key, which the table holds once.
abbrev pub find_by_key : Text → Bank → Option PixTransaction
find_by_key key b = find_first (has_key key) b.pix

abbrev pub pix_row :
    Context → PixCreateRequest → Text → ℕ → ℕ → TransactionType → PixStatus → ℕ → PixTransaction
pix_row c d key correlation_id user_id type status fee = record {
  id = c.new_id;
  value = d.value;
  pix_key = d.pix_key;
  key_type = d.key_type;
  type = type;
  status = status;
  user_id = user_id;
  idempotency_key = key;
  created_at = c.now;
  correlation_id = correlation_id;
  scheduled_date = d.scheduled_date;
  fee_amount = some fee;
  payload_hash = none;
}

abbrev pub payment_of : PixTransaction → Payment
payment_of p = record {
  value = p.value;
  pix_key = p.pix_key;
  key_type = p.key_type;
  idempotency_key = p.idempotency_key;
}

abbrev pub add_pix : PixTransaction → Bank → Bank
add_pix p b = record b { pix = p ∷ b.pix }

abbrev pub add_dispatch : Payment → Bank → Bank
add_dispatch x b = record b { dispatched = x ∷ b.dispatched }

-- `create_ledger_entry` with the status `PENDING`.
abbrev pub pending_debit : PixTransaction → LedgerEntry
pending_debit p = record {
  account_id = p.user_id;
  entry_type = debit;
  amount = p.value + fee_of p;
  status = pending;
  tx_id = p.id;
  settled_at = none;
}

unfoldable pub create_ledger_entry : LedgerEntry → Bank → Bank
create_ledger_entry e b = record b { ledger = e ∷ b.ledger }

-- The last step: the ledger entry of an outbound transfer on its way, and the commit.
unfoldable pub enter_pending : PixTransaction → Bank → Outcome PixTransaction
enter_pending p b =
    if is_processing p.status && is_sent p.type
    then (ok p, create_ledger_entry (pending_debit p) b)
    else (ok p, b)

-- `if end_to_end_id: pix.correlation_id = end_to_end_id`, and the status `PROCESSING`.
abbrev pub dispatched_row : Option ℕ → PixTransaction → PixTransaction
dispatched_row none p = record p { status = processing }
dispatched_row (some ref) p = record p { status = processing; correlation_id = ref }

-- `payment_result.get("end_to_end_id") or payment_result.get("payment_id")`
abbrev pub reference : Option ℕ → Option ℕ → Option ℕ
reference (some end_to_end_id) payment_id = some end_to_end_id
reference none payment_id = payment_id

-- The reply of the gateway: a refusal is committed as `FAILED` and raised.
unfoldable pub gateway_replied : PaymentReply → PixTransaction → Bank → Outcome PixTransaction
gateway_replied (accepted end_to_end_id payment_id) p b =
    let row = dispatched_row (reference end_to_end_id payment_id) p in
    enter_pending row (add_pix row b)
gateway_replied refused p b = (raise gateway_refused, add_pix (record p { status = failed }) b)

-- With no gateway the transfer is processed locally.
unfoldable pub dispatch :
    Option (Payment → PaymentReply) → PixTransaction → Bank → Outcome PixTransaction
dispatch none p b =
    enter_pending (record p { status = processing }) (add_pix (record p { status = processing }) b)
dispatch (some g) p b = gateway_replied (g (payment_of p)) p (add_dispatch (payment_of p) b)

-- From the new row on: store it, call the gateway for an outbound row with a fee.
unfoldable pub store_pix : Context → PixTransaction → Bank → Outcome PixTransaction
store_pix c p b =
    if is_sent p.type && is_created p.status && ltb 0 (fee_of p)
    then dispatch c.gateway p b
    else enter_pending p (add_pix p b)

-- An external transfer: the available balance, then the limit of the day, then the row.
unfoldable pub create_external :
    Context → PixCreateRequest → Text → ℕ → User → ℕ → Bank → Outcome PixTransaction
create_external c d key correlation_id sender user_id b =
    let fee = calculate_pix_fee sender.cpf_cnpj d.value true false in
    let total_required = d.value + fee in
    let stored = store_pix c (pix_row c d key correlation_id user_id sent created fee) b in
    elim (get_available_balance user_id b) [
      | raise e ↦ (raise e, b)
      | ok available ↦
          if ltb available total_required
          then (raise insufficient_funds, b)
          else if ltb daily_send_limit (get_daily_sent_total c.now user_id b + total_required)
          then (raise daily_limit, b)
          else stored
    ]

abbrev pub sent_side : Outcome (PixTransaction × PixTransaction) → Outcome PixTransaction
sent_side (ok (sent_tx, _), b) = (ok sent_tx, b)
sent_side (raise e, b) = (raise e, b)

-- An immediate payment: to an account of the platform, or outside it.
unfoldable pub create_immediate :
    Context → PixCreateRequest → Text → ℕ → ℕ → User → Bank → Outcome PixTransaction
create_immediate c d key correlation_id user_id sender b =
    elim (find_recipient_user d.pix_key d.key_type b) [
      | some recipient ↦ sent_side (
          execute_internal_transfer c sender recipient d.value d.pix_key d.key_type key
            correlation_id b)
      | none ↦ create_external c d key correlation_id sender user_id b
    ]

unfoldable pub create_new :
    Context → PixCreateRequest → Text → ℕ → ℕ → TransactionType → Bank → Outcome PixTransaction
create_new c d key correlation_id user_id received b =
    store_pix c (pix_row c d key correlation_id user_id received created 0) b
create_new c d key correlation_id user_id sent b = elim d.scheduled_date [
  | some at ↦ store_pix c (pix_row c d key correlation_id user_id sent scheduled 0) b
  | none ↦ elim (find_user user_id b) [
    | none ↦ (raise user_not_found, b)
    | some sender ↦ create_immediate c d key correlation_id user_id sender b
  ]
]

-- `create_pix`
unfoldable pub create_pix :
    Context → PixCreateRequest → Text → ℕ → ℕ → TransactionType → Bank → Outcome PixTransaction
create_pix c d key correlation_id user_id type b = elim (find_by_key key b) [
  | some existing_pix ↦ (ok existing_pix, b)
  | none ↦ create_new c d key correlation_id user_id type b
]
