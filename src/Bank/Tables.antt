-- ===== src/Bank/Tables.antt =====
-- app/auth/models.py, app/pix/models.py, app/pix/schemas.py, app/boleto/models.py,
-- app/cards/models.py, app/minha_conta/models.py: the rows that the services read and write.
-- Amounts are whole cents. Identifiers (UUIDs, gateway ids) are numbers, which are only compared.
use payvorax.Base.{ℕ, Bool, true, false, Option, none, some, List}
use payvorax.Base.Int.{ℤ}
use payvorax.Base.Text.{Text}

-- `PixStatus`
pub data PixStatus : Type 0 where
  created processing confirmed failed canceled scheduled : PixStatus

-- `TransactionType`
pub data TransactionType : Type 0 where
  sent received : TransactionType

-- `LedgerEntryType`
pub data LedgerEntryType : Type 0 where
  debit credit : LedgerEntryType

-- `LedgerEntryStatus`
pub data LedgerEntryStatus : Type 0 where
  pending settled reversed : LedgerEntryStatus

-- `PixKeyType`
pub data PixKeyType : Type 0 where
  cpf cnpj email phone random : PixKeyType

-- `CardType`
pub data CardType : Type 0 where
  physical virtual_multuse virtual_temp : CardType

-- `SubscriptionStatus`
pub data SubscriptionStatus : Type 0 where
  active inactive expired : SubscriptionStatus

-- `PaymentMethod`, with the two values that the service writes as plain text.
pub data PaymentMethod : Type 0 where
  balance credit_card trial admin_grant : PaymentMethod

pub record User : Type 0 where
  pub id : ℕ
  pub cpf_cnpj : Text
  pub email : Text
  pub balance : ℤ
  pub credit_limit : ℕ
  pub hashed_password : Text
  pub email_verified : Bool
  pub email_verification_token : Option Text
  pub email_verification_sent_at : Option ℕ
  pub document_verified : Bool
  pub pix_random_key : Option Text
  pub pix_email_key : Option Text
  pub asaas_customer_id : Option Text
  pub is_active : Bool
  pub is_admin : Bool
  pub password_reset_token : Option Text
  pub password_reset_sent_at : Option ℕ

-- A `correlation_id` that is `NULL` is 0 here, which is no identifier.
pub record PixTransaction : Type 0 where
  pub id : ℕ
  pub value : ℕ
  pub pix_key : Text
  pub key_type : PixKeyType
  pub type : TransactionType
  pub status : PixStatus
  pub user_id : ℕ
  pub idempotency_key : Text
  pub created_at : ℕ
  pub correlation_id : ℕ
  pub scheduled_date : Option ℕ
  pub fee_amount : Option ℕ
  pub payload_hash : Option ℕ

pub record LedgerEntry : Type 0 where
  pub account_id : ℕ
  pub entry_type : LedgerEntryType
  pub amount : ℕ
  pub status : LedgerEntryStatus
  pub tx_id : ℕ
  pub settled_at : Option ℕ

pub record BoletoTransaction : Type 0 where
  pub id : ℕ
  pub value : ℕ
  pub barcode : Text
  pub user_id : ℕ
  pub fee_amount : ℕ

pub record CreditCard : Type 0 where
  pub id : ℕ
  pub user_id : ℕ
  pub type : CardType
  pub is_blocked : Bool
  pub limit : ℕ
  pub expires_at : Option ℕ

pub record UserSubscription : Type 0 where
  pub user_id : ℕ
  pub status : SubscriptionStatus
  pub plan_amount : ℕ
  pub payment_method : Option PaymentMethod
  pub card_id : Option ℕ
  pub subscribed_at : Option ℕ
  pub expires_at : Option ℕ
  pub last_renewed_at : Option ℕ
  pub auto_renew : Bool
  pub trial_used : Bool

-- A request to the payment gateway, `gateway.create_pix_payment(...)`.
pub record Payment : Type 0 where
  pub value : ℕ
  pub pix_key : Text
  pub key_type : PixKeyType
  pub idempotency_key : Text

-- The tables, and the requests that have gone out to the gateway, latest first. No rollback takes
-- those back.
pub record Bank : Type 0 where
  pub users : List User
  pub pix : List PixTransaction
  pub ledger : List LedgerEntry
  pub boletos : List BoletoTransaction
  pub cards : List CreditCard
  pub subscriptions : List UserSubscription
  pub dispatched : List Payment

abbrev pub is_sent : TransactionType → Bool
is_sent sent = true
is_sent received = false

abbrev pub is_processing : PixStatus → Bool
is_processing processing = true
is_processing _ = false

abbrev pub is_confirmed : PixStatus → Bool
is_confirmed confirmed = true
is_confirmed _ = false

abbrev pub is_failed : PixStatus → Bool
is_failed failed = true
is_failed _ = false

abbrev pub is_created : PixStatus → Bool
is_created created = true
is_created _ = false

abbrev pub is_scheduled : PixStatus → Bool
is_scheduled scheduled = true
is_scheduled _ = false

abbrev pub is_pending : LedgerEntryStatus → Bool
is_pending pending = true
is_pending _ = false

-- `func.coalesce(fee_amount, 0)`
abbrev pub fee_of : PixTransaction → ℕ
fee_of p = elim p.fee_amount [ none ↦ 0 | some f ↦ f ]
