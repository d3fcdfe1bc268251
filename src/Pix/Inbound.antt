-- ===== src/Pix/Inbound.antt =====
-- The payment events of `_process_asaas_webhook_event` (app/pix/router.py): a charge that is paid, or
-- money that arrives for a key and whose receiver is looked for in layers.
pub mod Once
use payvorax.Base.Query.{find_first}
use payvorax.Base.Digits.{keep_digits}
use payvorax.Base.{
  ℕ, Bool, true, false, not, ◌&&◌, ◌||◌, Option, none, some, [], ◌∷◌, ◌++◌, ◌==◌, if◌then◌else◌,
  length, List,
}
use payvorax.Base.Text.{contains, Text, codes, text_eq, is_space}
use payvorax.Bank.{
  PixKeyType, User, PixTransaction, Bank, confirmed, received, cpf, cnpj, email, random,
}
use payvorax.Pix.Create.{add_pix}
use payvorax.Pix.Lifecycle.{find_pix}
use payvorax.Pix.Receipt.{credit_pix_receipt, ChargeAction, on_charge_paid}
use payvorax.Pix.Transfer.{by_document}

-- An event, with what the gateway has been asked for in addition: the destination key as the event
-- had it and as it is known in the end, both stripped and in small letters, the payer's document as
-- digits, the masked document as it came. An absent text is empty.
pub record PaymentEvent : Type 0 where
  pub now : ℕ
  pub payment_id : ℕ
  pub payment_text : Text
  pub event_key : Text
  pub dest_key : Text
  pub payer_doc : Text
  pub customer_id : Text
  pub masked_doc : Text
  pub value : ℕ
  pub spi_ref : Option ℕ

-- `_PLATFORM_PIX_KEY` and `settings.ADMIN_EMAIL`.
pub record PlatformSettings : Type 0 where
  pub platform_key : Text
  pub admin_email : Text

abbrev nullable_is : Option Text → Text → Bool
nullable_is none s = false
nullable_is (some t) s = text_eq t s

abbrev has_virtual_key : Text → User → Bool
has_virtual_key key u = nullable_is u.pix_random_key key || nullable_is u.pix_email_key key

abbrev is_document : Text → Bool
is_document s = length s == 11 || length s == 14

-- The layers in their order: each is tried under its condition, where those before have found nobody.
unfoldable pub first_layer : List (Bool × (User → Bool)) → List User → Option User
first_layer [] us = none
first_layer (l ∷ ls) us =
    let rest = first_layer ls us in
    if l.0 then elim (find_first l.1 us) [ some u ↦ some u | none ↦ rest ] else rest

-- `re.sub(r"[.\-\s]", "", s)`
abbrev strip_mask : Text → Text
strip_mask [] = []
strip_mask (c ∷ s) = if c == b'.' || c == b'-' || is_space c then strip_mask s else c ∷ strip_mask s

-- `LIKE` with every `*` of the mask standing for any one character.
abbrev like_mask : Text → Text → Bool
like_mask [] [] = true
like_mask [] (c ∷ s) = false
like_mask (m ∷ mask) [] = false
like_mask (m ∷ mask) (c ∷ s) = (m == b'*' || m == c) && like_mask mask s

abbrev is_empty : Text → Bool
is_empty [] = true
is_empty (c ∷ s) = false

-- Decided before the gateway is asked.
abbrev is_platform_deposit : PlatformSettings → PaymentEvent → Bool
is_platform_deposit g e = text_eq e.event_key g.platform_key

-- The layers 1 to 5.
abbrev pub inbound_layers : PlatformSettings → PaymentEvent → List (Bool × (User → Bool))
inbound_layers g e =
    let virtual = not (is_platform_deposit g e) && not (is_empty e.dest_key) in
    let digits = keep_digits e.dest_key in
    let mask = strip_mask e.masked_doc in
    (virtual, has_virtual_key e.dest_key)
    ∷ (virtual && is_document digits, by_document digits)
    ∷ (is_document e.payer_doc, by_document e.payer_doc)
    ∷ (not (is_empty e.customer_id), λ (u : User). nullable_is u.asaas_customer_id e.customer_id)
    ∷ (length mask == 11, λ (u : User). like_mask mask u.cpf_cnpj)
    ∷ (is_platform_deposit g e, λ (u : User). text_eq u.email g.admin_email)
    ∷ []

unfoldable pub find_inbound_user : PlatformSettings → PaymentEvent → Bank → Option User
unfolding first_layer
find_inbound_user g e b = first_layer (inbound_layers g e) b.users

-- `dest_key or payer_doc or "unknown"`
abbrev effective_key : PaymentEvent → Text
effective_key e =
    if is_empty e.dest_key
    then (if is_empty e.payer_doc then codes "unknown" else e.payer_doc)
    else e.dest_key

abbrev effective_key_type : Text → PixKeyType
effective_key_type key =
    if length key == 36 && contains (codes "-") key
    then random
    else if length (keep_digits key) == 11
    then cpf
    else if length (keep_digits key) == 14
    then cnpj
    else email

abbrev pub inbound_row : PaymentEvent → User → ℕ → ℕ → PixTransaction
inbound_row e receiver net fee = record {
  id = e.payment_id;
  value = net;
  pix_key = effective_key e;
  key_type = effective_key_type (effective_key e);
  type = received;
  status = confirmed;
  user_id = receiver.id;
  idempotency_key = codes "inbound-" ++ e.payment_text;
  created_at = e.now;
  correlation_id = elim e.spi_ref [ none ↦ e.payment_id | some ref ↦ ref ];
  scheduled_date = none;
  fee_amount = some fee;
  payload_hash = none;
}

-- The field `action` of the answer.
pub data PaymentAction : Type 0 where
  no_matching_user inbound_key_credited : PaymentAction
  charge_event : ChargeAction → PaymentAction

unfoldable pub credit_inbound : PaymentEvent → User → Bank → Bank
credit_inbound e receiver b =
    let paid = credit_pix_receipt receiver e.value none b in
    add_pix (inbound_row e receiver paid.0.0 paid.0.1) paid.1

-- Money for no charge that is known.
unfoldable pub on_inbound : PlatformSettings → PaymentEvent → Bank → PaymentAction × Bank
unfolding find_inbound_user credit_inbound
on_inbound g e b = if e.value == 0 then (no_matching_user, b) else elim (find_inbound_user g e b) [
  | none ↦ (no_matching_user, b)
  | some receiver ↦ (inbound_key_credited, credit_inbound e receiver b)
]

-- `PAYMENT_RECEIVED` or `PAYMENT_CONFIRMED`.
unfoldable pub on_payment_event : PlatformSettings → PaymentEvent → Bank → PaymentAction × Bank
unfolding on_inbound
on_payment_event g e b = elim (find_pix e.payment_id b) [
  | none ↦ on_inbound g e b
  | some p ↦ let o = on_charge_paid e.payment_id b in (charge_event o.0, o.1)
]
