-- ===== src/Gateway/PayCode.antt =====
-- `AsaasAdapter.pay_qr_code` (app/adapters/asaas_adapter.py): the payment of a scanned code and its
-- fallbacks. Amounts are whole cents.
pub mod Keys
pub mod Once
use payvorax.Gateway.CodePage.{
  PageCharge, Libraries, Loaded, loaded, not_loaded, page_data, is_closed,
}
use payvorax.Gateway.Client.{
  Client, World, Body, Answer, returned, status_error, no_answer, make_request_retried, CodeBody,
  pay_code,
}
use payvorax.Gateway.Transfers.{
  PaymentEnd, paid, failed, expired, no_key, Receipt, no_amount, unreadable_answer, no_connection,
  http_error, processed_at, bank_processing, normalized_status, or_text, create_pix_payment,
  get_operation_key,
}
use payvorax.Emv.Keys.{KeyKind, email_key, cnpj_key, cpf_key, phone_key, evp_key, key_kind}
use payvorax.Base.{
  ℕ, zero, suc, Bool, false, ◌&&◌, ◌||◌, Option, none, some, List, [], ◌∷◌, ◌++◌, ltb, ◌==◌,
  if◌then◌else◌, length, take,
}
use payvorax.Base.Text.{Text, codes, text_eq, strip, truthy}

-- What `parse_emv_pix_key`, `parse_emv_amount` and `parse_emv_payload_url` read in the code.
pub record CodeReading : Type 0 where
  pub key : Option (Text × KeyKind)
  pub amount : ℕ
  pub payload_url : Option Text

-- The arguments of `pay_qr_code`.
pub record CodeOrder : Type 0 where
  pub payload : Text
  pub description : Text
  pub idempotency : Option Text
  pub value : Option ℕ

-- `description or "BioCodeTechPay QR Code Payment"`
abbrev pub description_of : CodeOrder → Text
description_of d = or_text (some d.description) (codes "BioCodeTechPay QR Code Payment")

-- A key that only depends on the text, where the caller gives none.
abbrev pub key_for : Libraries → CodeOrder → Text → Text → Option Text
key_for m d prefix text = some (or_text d.idempotency (prefix ++ take 20 (m.sha256 text)))

-- The first amount that is there and not zero.
abbrev pub or_amount : Option ℕ → Option ℕ → Option ℕ
or_amount none b = b
or_amount (some zero) b = b
or_amount (some (suc n)) b = some (suc n)

-- `value or pixTransaction.value` of an answer, if that is not zero.
abbrev pub amount_in : Body → Option ℕ
amount_in x = or_amount x.value (or_amount x.pix_value none)

-- `float(raw) if raw else amount`; `none` is a `ValueError`.
abbrev amount_or : Libraries → Option Text → ℕ → Option ℕ
amount_or m raw amount = elim (truthy raw) [ none ↦ some amount | some s ↦ m.float_of s ]

-- The amount of a payment by the canonical code.
abbrev canonical_value : Libraries → PageCharge → ℕ → Body → Option ℕ
canonical_value m charge amount x = elim (amount_in x) [
  | none ↦ amount_or m charge.original amount
  | some value ↦ some value
]

abbrev pub status_or_processing : Option Text → Text
status_or_processing none = bank_processing
status_or_processing (some s) = normalized_status s

abbrev pub receipt : Body → Option ℕ → Option ℕ → Receipt
receipt x value at = record {
  payment_id = x.id;
  status = status_or_processing x.status;
  value = value;
  end_to_end_id = x.end_to_end_id;
  receiver_name = some (or_text x.pix_receiver []);
  processed_at = at;
}

abbrev canonical_receipt : Client → Body → Option ℕ → Option Receipt
canonical_receipt p x none = none
canonical_receipt p x (some value) = elim (processed_at p x.date_created) [
  | none ↦ none
  | some at ↦ some (receipt x (some value) at)
]

-- Every exception of this payment is caught, `none`.
abbrev pub after_canonical : Client → Libraries → PageCharge → ℕ → Answer → Option Receipt
after_canonical p m charge amount (returned x) =
    canonical_receipt p x (canonical_value m charge amount x)
after_canonical p m charge amount (status_error status errors) = none
after_canonical p m charge amount no_answer = none

-- The second payment request, with the code that the page gives, if it gives one.
unfoldable pub pay_canonical :
    Client → Libraries → CodeOrder → PageCharge → ℕ → World → Option Receipt × World
unfolding make_request_retried get_operation_key
pay_canonical p m d charge amount w =
    let emv = strip (or_text charge.copia_e_cola []) in
    let body : CodeBody = record {
      qr_code = emv;
      description = take 140 (description_of d);
      value = none;
      operation_key = get_operation_key p w;
    } in
    let o = make_request_retried p (pay_code body (key_for m d (codes "qrcanon-") emv)) w in
    if ltb (length emv) 20 then (none, w) else (after_canonical p m charge amount o.0, o.1)

abbrev pub key_type_text : KeyKind → Text
key_type_text email_key = codes "EMAIL"
key_type_text cnpj_key = codes "CNPJ"
key_type_text cpf_key = codes "CPF"
key_type_text phone_key = codes "PHONE"
key_type_text evp_key = codes "EVP"

-- The amount that the page gives, or else the code; `none` is a `ValueError`.
abbrev pub resolved_amount : Libraries → PageCharge → ℕ → Option ℕ
resolved_amount m charge amount = elim (truthy charge.original) [
  | some raw ↦ m.float_of raw
  | none ↦ amount_or m charge.modalidade amount
]

unfoldable pub transfer_resolved :
    Client → Libraries → CodeOrder → Text → Option ℕ → World → PaymentEnd × World
unfolding create_pix_payment
transfer_resolved p m d key none w = (failed unreadable_answer, w)
transfer_resolved p m d key (some zero) w = (failed no_amount, w)
transfer_resolved p m d key (some (suc n)) w =
    create_pix_payment p (suc n) key (key_type_text (key_kind key)) (description_of d)
      (key_for m d (codes "qrfallback-") d.payload) w

-- The last resort for a dynamic code: a transfer to the key that the page gives.
unfoldable pub pay_resolved :
    Client → Libraries → CodeOrder → PageCharge → ℕ → World → PaymentEnd × World
unfolding transfer_resolved
pay_resolved p m d charge amount w =
    let key = strip (or_text charge.chave []) in
    let done = transfer_resolved p m d key (resolved_amount m charge amount) w in
    if text_eq key [] then (failed no_key, w) else done

unfoldable pub or_resolved :
    Client → Libraries → CodeOrder → PageCharge → ℕ → Option Receipt × World → PaymentEnd × World
unfolding pay_resolved
or_resolved p m d charge amount (some x, w) = (paid x, w)
or_resolved p m d charge amount (none, w) = pay_resolved p m d charge amount w

-- What follows the page of a dynamic code.
unfoldable pub pay_dynamic :
    Client → Libraries → CodeOrder → ℕ → Loaded → World → PaymentEnd × World
unfolding pay_canonical is_closed or_resolved
pay_dynamic p m d amount (not_loaded e) w = (failed e, w)
pay_dynamic p m d amount (loaded charge) w =
    let done = or_resolved p m d charge amount (pay_canonical p m d charge amount w) in
    if is_closed charge.status then (failed expired, w) else done

-- A static code: a transfer to the key in the code.
unfoldable pub pay_static :
    Client → Libraries → CodeOrder → Text × KeyKind → ℕ → World → PaymentEnd × World
unfolding create_pix_payment
pay_static p m d key amount w =
    create_pix_payment p amount key.0 (key_type_text key.1) (description_of d)
      (key_for m d (codes "qrstatic-") d.payload) w

unfoldable pub pay_by_url :
    Client → Libraries → CodeOrder → CodeReading → World → PaymentEnd × World
unfolding pay_dynamic page_data
pay_by_url p m d r w = elim r.payload_url [
  | none ↦ (failed (http_error 400), w)
  | some url ↦ pay_dynamic p m d r.amount (page_data m (m.fetch url)) w
]

-- The fallbacks for a code that the gateway cannot parse.
unfoldable pub pay_fallback :
    Client → Libraries → CodeOrder → CodeReading → World → PaymentEnd × World
unfolding pay_static pay_by_url
pay_fallback p m d r w = elim r.key [
  | none ↦ pay_by_url p m d r w
  | some key ↦ elim r.amount [
    | zero ↦ pay_by_url p m d r w
    | suc n ↦ pay_static p m d key (suc n) w
  ]
]

-- `parse_error`, `invalid_action` or `invalid_qrCode`
abbrev is_fallback_code : Text → Bool
is_fallback_code s =
    text_eq s (codes "parse_error")
    || text_eq s (codes "invalid_action")
    || text_eq s (codes "invalid_qrCode")

abbrev any_fallback : List Text → Bool
any_fallback [] = false
any_fallback (s ∷ ss) = is_fallback_code s || any_fallback ss

unfoldable pub has_parse_error : ℕ → Option (List Text) → Bool
has_parse_error status none = false
has_parse_error status (some errors) = status == 400 && any_fallback errors

abbrev pub after_code : Client → Body → PaymentEnd
after_code p x = elim (processed_at p x.date_created) [
  | none ↦ failed unreadable_answer
  | some at ↦ paid (receipt x (or_amount x.value x.pix_value) at)
]

unfoldable pub after_first :
    Client → Libraries → CodeOrder → CodeReading → Answer × World → PaymentEnd × World
unfolding pay_fallback has_parse_error
after_first p m d r (returned x, w) = (after_code p x, w)
after_first p m d r (no_answer, w) = (failed no_connection, w)
after_first p m d r (status_error status errors, w) =
    let done = pay_fallback p m d r w in
    if has_parse_error status errors then done else (failed (http_error status), w)

-- `pay_qr_code`
unfoldable pub pay_qr_code :
    Client → Libraries → CodeOrder → CodeReading → World → PaymentEnd × World
unfolding make_request_retried get_operation_key after_first
pay_qr_code p m d r w =
    let body : CodeBody = record {
      qr_code = d.payload;
      description = take 140 (description_of d);
      value = or_amount d.value (or_amount (some r.amount) none);
      operation_key = get_operation_key p w;
    } in
    after_first p m d r (make_request_retried p (pay_code body d.idempotency) w)
