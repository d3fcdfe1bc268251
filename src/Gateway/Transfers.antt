-- ===== src/Gateway/Transfers.antt =====
-- `AsaasAdapter` (app/adapters/asaas_adapter.py): transfers to a key, the status of payments and
-- charges, cancellations and the lookup of a key.
use payvorax.Gateway.Client.{
  Client, World, Body, Answer, returned, status_error, no_answer, make_request_retried, transfer,
  read_payment, read_charge, delete_charge, read_key, TransferBody,
}
use payvorax.Base.{ℕ, Bool, true, false, ◌||◌, Option, none, some, ◌==◌, if◌then◌else◌, take}
use payvorax.Base.Text.{Text, codes, text_eq, strip, truthy}

-- `totp_secret.strip() if totp_secret else None`
abbrev stripped : Option Text → Option Text
stripped none = none
stripped (some s) = some (strip s)

-- `_get_operation_key`: the code of the device, or the static key.
unfoldable pub get_operation_key : Client → World → Option Text
get_operation_key p w = elim (truthy (stripped p.totp_secret)) [
  | none ↦ truthy p.operation_key
  | some secret ↦ elim (p.totp w.tries secret) [
    | none ↦ truthy p.operation_key
    | some code ↦ some code
  ]
]

-- `asaas_key_type_map.get(key_type, "EVP")`
unfoldable pub gateway_key_type : Text → Text
gateway_key_type t =
    if text_eq t (codes "CPF")
    then codes "CPF"
    else if text_eq t (codes "CNPJ")
    then codes "CNPJ"
    else if text_eq t (codes "EMAIL")
    then codes "EMAIL"
    else if text_eq t (codes "TELEFONE")
    then codes "PHONE"
    else if text_eq t (codes "PHONE")
    then codes "PHONE"
    else codes "EVP"

-- The dictionary that a payment gives back.
pub record Receipt : Type 0 where
  pub payment_id : Option Text
  pub status : Text
  pub value : Option ℕ
  pub end_to_end_id : Option Text
  pub receiver_name : Option Text
  pub processed_at : Option ℕ

-- What a payment raises: the error of the HTTP status, a `ValueError` with a message for the user, or
-- another exception.
pub data Fault : Type 0 where
  http_error : ℕ → Fault
  gone expired empty_page invalid_page unreachable_page : Fault
  no_key no_amount : Fault
  unreadable_answer no_connection : Fault

pub data PaymentEnd : Type 0 where
  paid : Receipt → PaymentEnd
  failed : Fault → PaymentEnd

-- `datetime.fromisoformat(date) if date else None`; the outer `none` is its `ValueError`.
abbrev pub processed_at : Client → Option Text → Option (Option ℕ)
processed_at p date = elim (truthy date) [
  | none ↦ some none
  | some s ↦ elim (p.from_iso s) [ none ↦ none | some at ↦ some (some at) ]
]

abbrev pub bank_processing : Text
bank_processing = codes "BANK_PROCESSING"

-- A transfer that waits for the withdrawal webhook counts as processing.
abbrev pub normalized_status : Text → Text
normalized_status s =
    if text_eq s (codes "AWAITING_TRANSFER_AUTHORIZATION") then bank_processing else s

abbrev pub or_text : Option Text → Text → Text
or_text o t = elim (truthy o) [ none ↦ t | some s ↦ s ]

-- The answer to `POST /transfers`.
abbrev pub transferred : Client → ℕ → Body → PaymentEnd
transferred p value x = elim (processed_at p x.date_created) [
  | none ↦ failed unreadable_answer
  | some at ↦ paid (record {
    payment_id = x.id;
    status = normalized_status (or_text x.status bank_processing);
    value = some value;
    end_to_end_id = x.end_to_end_id;
    receiver_name = none;
    processed_at = at;
  })
]

abbrev pub after_transfer : Client → ℕ → Answer → PaymentEnd
after_transfer p value (returned x) = transferred p value x
after_transfer p value (status_error status errors) = failed (http_error status)
after_transfer p value no_answer = failed no_connection

-- `create_pix_payment`
unfoldable pub create_pix_payment :
    Client → ℕ → Text → Text → Text → Option Text → World → PaymentEnd × World
unfolding make_request_retried get_operation_key gateway_key_type
create_pix_payment p value pix_key pix_key_type description idempotency w =
    let body : TransferBody = record {
      value = value;
      pix_key = pix_key;
      pix_key_type = gateway_key_type pix_key_type;
      description = take 140 description;
      operation_key = get_operation_key p w;
    } in
    let o = make_request_retried p (transfer body idempotency) w in
    (after_transfer p value o.0, o.1)

-- What `get_charge_status` makes of the gateway's status.
unfoldable pub charge_status : Option Text → Text
charge_status none = codes "PENDING"
charge_status (some s) =
    if text_eq s (codes "RECEIVED") || text_eq s (codes "CONFIRMED")
    then codes "CONFIRMED"
    else if text_eq s (codes "OVERDUE")
    then codes "EXPIRED"
    else if text_eq s (codes "REFUNDED")
    then codes "CANCELLED"
    else codes "PENDING"

-- What `get_payment_status` makes of the gateway's status.
unfoldable pub payment_status : Option Text → Text
payment_status none = codes "PENDING"
payment_status (some s) =
    if text_eq s (codes "BANK_PROCESSING")
    then codes "PROCESSING"
    else if text_eq s (codes "DONE")
    then codes "CONFIRMED"
    else if text_eq s (codes "CANCELLED") || text_eq s (codes "FAILED")
    then codes "FAILED"
    else codes "PENDING"

-- `get_charge_status` and `get_payment_status`, up to the status; `none` is an exception.
abbrev status_of : (Option Text → Text) → Answer → Option Text
status_of f (returned x) = some (f x.status)
status_of f (status_error status errors) = none
status_of f no_answer = none

unfoldable pub get_charge_status : Client → Text → World → Option Text × World
unfolding make_request_retried charge_status
get_charge_status p id w =
    let o = make_request_retried p (read_charge id) w in (status_of charge_status o.0, o.1)

unfoldable pub get_payment_status : Client → Text → World → Option Text × World
unfolding make_request_retried payment_status
get_payment_status p id w =
    let o = make_request_retried p (read_payment id) w in (status_of payment_status o.0, o.1)

-- `cancel_charge`: a charge that is not found is not cancelled; `none` is an exception.
abbrev cancelled : Answer → Option Bool
cancelled (returned x) = some true
cancelled (status_error status errors) = if status == 404 then some false else none
cancelled no_answer = none

unfoldable pub cancel_charge : Client → Text → World → Option Bool × World
unfolding make_request_retried
cancel_charge p id w = let o = make_request_retried p (delete_charge id) w in (cancelled o.0, o.1)

-- `lookup_pix_key`: the key is in the directory, is not, or has a bad format; or the gateway does not
-- tell, which lets the transfer proceed.
pub data Lookup : Type 0 where
  found : Body → Lookup
  not_in_dict invalid_format : Lookup
  not_told : Lookup

abbrev looked_up : Answer → Lookup
looked_up (returned x) = if x.is_empty then not_told else found x
looked_up (status_error status errors) =
    if status == 404
    then not_in_dict
    else if status == 400 || status == 422
    then invalid_format
    else not_told
looked_up no_answer = not_told

unfoldable pub lookup_pix_key : Client → Text → Text → World → Lookup × World
unfolding make_request_retried gateway_key_type
lookup_pix_key p pix_key key_type w =
    let o = make_request_retried p (read_key pix_key (gateway_key_type key_type)) w in
    (looked_up o.0, o.1)
