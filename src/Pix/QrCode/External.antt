-- ===== src/Pix/QrCode/External.antt =====
-- `pay_pix_qrcode` (app/pix/router.py): the payment of a code from elsewhere through the gateway, up
-- to the commit, and a round of the polling that follows.
use payvorax.Base.{
  ℕ, ◌+◌, Option, none, some, ◌++◌, ltb, if◌then◌else◌, length, ◌==◌, take, max, true, false, Bool,
  List, [], ◌∷◌,
}
use payvorax.Base.Int.{pos, pos_part, ◌-ℤ◌}
use payvorax.Base.Text.{Text, codes}
use payvorax.Bank.Money.{find_user, set_balance, get_available_balance}
use payvorax.Bank.{
  User, PixTransaction, Bank, Payment, ok, raise, Outcome, insufficient_funds, gateway_unavailable,
  gateway_failed, sandbox_mode, value_unresolved, random, sent, created, processing, confirmed,
  failed, fee_of, is_processing,
}
use payvorax.Fees.{calculate_pix_fee}
use payvorax.Pix.Create.{add_pix, add_dispatch, create_ledger_entry, pending_debit}
use payvorax.Pix.Lifecycle.{
  find_pix, set_status, with_status, settle_ledger_entries, reverse_ledger_entries, pix_is,
}
use payvorax.Pix.QrCode.{QrRequest, QrReply, QrContext, idempotency_key}
use payvorax.Pix.Webhook.{credit_margin}
use payvorax.Base.Query.{update_first}

-- `data.value or 0.01`
abbrev client_value : QrRequest → ℕ
client_value d = elim d.value [ none ↦ 1 | some v ↦ max 1 v ]

abbrev pub client_sent : QrRequest → ℕ
client_sent d = elim d.value [ none ↦ 0 | some v ↦ v ]

abbrev provisional_value : QrRequest → ℕ → ℕ
provisional_value d emv_value = if ltb 0 emv_value then emv_value else client_value d

abbrev provisional_fee : QrRequest → User → ℕ → ℕ
provisional_fee d sender emv_value =
    if ltb 0 (emv_value + client_sent d)
    then calculate_pix_fee sender.cpf_cnpj (provisional_value d emv_value) true false
    else 0

-- `data.payload[:197] + "..." if len(data.payload) > 200 else data.payload`
abbrev key_reference : Text → Text
key_reference payload =
    if ltb 200 (length payload) then take 197 payload ++ codes "..." else payload

-- The row that is stored before the dispatch.
abbrev pub provisional_row : QrContext → QrRequest → User → ℕ → PixTransaction
provisional_row c d sender emv_value = record {
  id = c.new_id;
  value = provisional_value d emv_value;
  pix_key = key_reference d.payload;
  key_type = random;
  type = sent;
  status = created;
  user_id = sender.id;
  idempotency_key = idempotency_key c d;
  created_at = c.now;
  correlation_id = c.correlation_id;
  scheduled_date = none;
  fee_amount = some (provisional_fee d sender emv_value);
  payload_hash = some d.payload_hash;
}

-- What goes out to the gateway: the whole code, and the client's value.
abbrev pub qr_payment : QrContext → QrRequest → Payment
qr_payment c d = record {
  value = client_sent d;
  pix_key = d.payload;
  key_type = random;
  idempotency_key = idempotency_key c d;
}

abbrev value_or : ℕ → Option ℕ → ℕ
value_or x none = x
value_or x (some y) = y

-- `asaas_value or emv_value`
abbrev pub payment_value : QrReply → ℕ → ℕ
payment_value r emv_value = if r.value == 0 then emv_value else r.value

-- The row after a dispatch that the gateway has accepted.
abbrev pub accepted_row : QrReply → ℕ → ℕ → PixTransaction → PixTransaction
accepted_row r value fee p = record p {
  id = value_or p.id r.payment_id;
  value = value;
  fee_amount = some fee;
  status = processing;
  correlation_id = value_or p.correlation_id r.end_to_end_id;
}

-- The answer of the gateway, with the row not yet among the rows of `b`. An unknown value raises with
-- nothing committed; with too little money the row is committed as `FAILED`.
unfoldable pub qr_replied : QrReply → User → ℕ → PixTransaction → Bank → Outcome PixTransaction
qr_replied r sender emv_value p b =
    let value = payment_value r emv_value in
    let fee = calculate_pix_fee sender.cpf_cnpj value true false in
    let row = accepted_row r value fee p in
    if value == 0 then (raise value_unresolved, b) else elim (get_available_balance sender.id b) [
      | raise e ↦ (raise e, b)
      | ok available ↦
          if ltb available (value + fee)
          then (raise insufficient_funds, add_pix (with_status failed p) b)
          else (ok row, create_ledger_entry (pending_debit row) (add_pix row b))
    ]

unfoldable pub qr_dispatch :
    (QrRequest → Text → Option QrReply)
    → QrContext
    → QrRequest
    → User
    → ℕ
    → Bank
    → Outcome PixTransaction
unfolding qr_replied
qr_dispatch g c d sender emv_value b =
    let p = provisional_row c d sender emv_value in
    let out = add_dispatch (qr_payment c d) b in
    elim (g d (idempotency_key c d)) [
      | none ↦ (raise gateway_failed, add_pix (with_status failed p) out)
      | some r ↦ qr_replied r sender emv_value p out
    ]

-- The gateway's own conditions.
unfoldable pub qr_to_gateway : QrContext → QrRequest → User → ℕ → Bank → Outcome PixTransaction
unfolding qr_dispatch
qr_to_gateway c d sender emv_value b = elim c.pay_qr_code [
  | none ↦ (raise gateway_unavailable, b)
  | some g ↦ if c.use_sandbox then (raise sandbox_mode, b) else qr_dispatch g c d sender emv_value b
]

-- The amount that has to be available before the dispatch: at least one cent.
abbrev pub preflight_total : User → ℕ → ℕ
preflight_total sender emv_value =
    if ltb 0 emv_value
    then emv_value + calculate_pix_fee sender.cpf_cnpj emv_value true false
    else 1

-- The second route of `pay_pix_qrcode`.
unfoldable pub pay_external : QrContext → QrRequest → User → ℕ → Bank → Outcome PixTransaction
unfolding qr_to_gateway
pay_external c d sender emv_value b = elim (get_available_balance sender.id b) [
  | raise e ↦ (raise e, b)
  | ok available ↦
      if ltb available (preflight_total sender emv_value)
      then (raise insufficient_funds, b)
      else qr_to_gateway c d sender emv_value b
]

-- What `get_payment_status` answers in a round of the polling; `poll_error` is an exception.
pub data PollAnswer : Type 0 where
  poll_confirmed : Option ℕ → PollAnswer
  poll_failed poll_other poll_error : PollAnswer

abbrev pub inline_confirmed : Option ℕ → PixTransaction → PixTransaction
inline_confirmed ref p = record p {
  status = confirmed;
  correlation_id = value_or p.correlation_id ref;
}

-- The debit of the polling: below zero the balance is set to zero, and no one takes the shortfall.
unfoldable pub debit_inline : ℕ → PixTransaction → Bank → Bank
debit_inline k p b = elim (find_user k b) [
  | none ↦ b
  | some sender ↦
      credit_margin (fee_of p)
        (set_balance k (pos (pos_part (sender.balance -ℤ pos (p.value + fee_of p)))) b)
]

-- One round, which finds the row as it is by then: another request may have changed it.
unfoldable pub poll_round : ℕ → ℕ → ℕ → PollAnswer → Bank → Bank
unfolding debit_inline
poll_round now k id poll_other b = b
poll_round now k id poll_error b = b
poll_round now k id (poll_confirmed ref) b = elim (find_pix id b) [
  | none ↦ b
  | some p ↦
      if is_processing p.status
      then settle_ledger_entries now id (
          debit_inline k p
            (record b { pix = update_first (pix_is id) (inline_confirmed ref) b.pix }))
      else b
]
poll_round now k id poll_failed b = elim (find_pix id b) [
  | none ↦ b
  | some p ↦
      if is_processing p.status then reverse_ledger_entries now id (set_status id failed b) else b
]

-- The rounds, as many answers as come before the deadline. The result says whether it has passed.
unfoldable poll_loop : ℕ → ℕ → ℕ → List PollAnswer → Bank → Bool × Bank
unfolding poll_round
poll_loop now k id [] b = (true, b)
poll_loop now k id (poll_other ∷ answers) b = poll_loop now k id answers b
poll_loop now k id (a ∷ answers) b = (false, poll_round now k id a b)
