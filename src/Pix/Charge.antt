-- ===== src/Pix/Charge.antt =====
-- Charges: how they are made (`ensure_asaas_customer`, `create_pix_charge_with_qrcode` of
-- app/pix/service.py, `generate_pix_charge` of app/pix/router.py) and how they are found to be paid
-- (`process_pix_receipt`, `verify_pix_charge_payment` of app/pix/router.py, `sync_pix_charge_status`
-- of app/pix/service.py).
pub mod Paid
use payvorax.Base.{
  ℕ, Bool, not, ◌&&◌, Option, none, some, ◌++◌, leb, ◌==◌, if◌then◌else◌, take, true, false,
}
use payvorax.Base.Text.{truthy, Text, codes}
use payvorax.Base.Query.{find_first, update_first}
use payvorax.Bank.Money.{user_is, find_user}
use payvorax.Bank.{
  Result, Outcome, user_not_found, charge_not_found, charge_already_paid, invalid_charge_status,
  gateway_unavailable, payment_not_confirmed, gateway_failed, ok, raise, PixStatus, User,
  PixTransaction, Bank, is_sent, is_confirmed, is_created, created, confirmed, failed, canceled,
  received, random,
}
use payvorax.Pix.Create.{add_pix}
use payvorax.Pix.Lifecycle.{with_status, find_pix, set_status, get_pix}
use payvorax.Pix.Receipt.{credit_receiver}

-- What the gateway answers to `create_pix_charge`.
pub record ChargeData : Type 0 where
  pub charge_id : ℕ
  pub qr_code : Text

-- The statuses that `get_charge_status` answers with, after the adapter's own translation.
pub data RemoteStatus : Type 0 where
  remote_pending remote_confirmed remote_expired remote_cancelled remote_other : RemoteStatus

-- The gateway's calls on charges; `none` is an exception.
pub record ChargeGateway : Type 0 where
  pub create_customer : User → Option Text
  pub create_pix_charge : Text → ℕ → Option ChargeData
  pub get_charge_status : ℕ → Option RemoteStatus

-- A new charge: the clock, a fresh id and its text, and the correlation id and its text.
pub record ChargeContext : Type 0 where
  pub now : ℕ
  pub new_id : ℕ
  pub id_text : Text
  pub correlation_id : ℕ
  pub correlation_text : Text

abbrev with_customer : Text → User → User
with_customer id u = record u { asaas_customer_id = some id }

abbrev set_customer : ℕ → Text → Bank → Bank
set_customer k id b = record b { users = update_first (user_is k) (with_customer id) b.users }

-- `ensure_asaas_customer`: a new customer's id is committed.
unfoldable ensure_asaas_customer : Option ChargeGateway → ℕ → Bank → Outcome (Option Text)
ensure_asaas_customer none k b = (ok none, b)
ensure_asaas_customer (some g) k b = elim (find_user k b) [
  | none ↦ (raise user_not_found, b)
  | some u ↦ elim (truthy u.asaas_customer_id) [
    | some id ↦ (ok (some id), b)
    | none ↦ elim (g.create_customer u) [
      | none ↦ (raise gateway_failed, b)
      | some id ↦ (ok (some id), set_customer k id b)
    ]
  ]
]

-- The row of a charge: `RECEIVED` and `CREATED`.
abbrev pub charge_row : ℕ → ℕ → ℕ → Text → Text → ℕ → ℕ → PixTransaction
charge_row id now value pix_key key correlation_id k = record {
  id = id;
  value = value;
  pix_key = pix_key;
  key_type = random;
  type = received;
  status = created;
  user_id = k;
  idempotency_key = key;
  created_at = now;
  correlation_id = correlation_id;
  scheduled_date = none;
  fee_amount = none;
  payload_hash = none;
}

-- `[:200]`
abbrev key_column : Text → Text
key_column s = take 200 s

-- A charge that the gateway has registered.
abbrev gateway_charge : ChargeContext → ChargeData → ℕ → Text → ℕ → PixTransaction
gateway_charge c d value key k =
    charge_row d.charge_id c.now value (key_column d.qr_code) key c.correlation_id k

-- A charge known to the platform only.
abbrev local_charge : ChargeContext → ℕ → Text → Text → ℕ → PixTransaction
local_charge c value pix_key key k = charge_row c.new_id c.now value pix_key key c.correlation_id k

-- The second half of `create_pix_charge_with_qrcode`: the customer is known, or there is no gateway.
unfoldable charge_customer :
    ChargeContext
    → Option ChargeGateway
    → Option Text
    → ℕ
    → Text
    → ℕ
    → Bank
    → Outcome PixTransaction
charge_customer c (some g) (some id) value key k b = elim (g.create_pix_charge id value) [
  | none ↦ (raise gateway_failed, b)
  | some d ↦ (ok (gateway_charge c d value key k), add_pix (gateway_charge c d value key k) b)
]
charge_customer c g customer value key k b =
    let p = local_charge c value (codes "local-charge-" ++ c.id_text) key k in (ok p, add_pix p b)

abbrev with_known_customer :
    ChargeContext
    → Option ChargeGateway
    → ℕ
    → Text
    → ℕ
    → Outcome (Option Text)
    → Outcome PixTransaction
with_known_customer c g value key k (raise e, b) = (raise e, b)
with_known_customer c g value key k (ok customer, b) =
    charge_customer c g (truthy customer) value key k b

-- `create_pix_charge_with_qrcode`
unfoldable create_pix_charge_with_qrcode :
    ChargeContext → Option ChargeGateway → ℕ → Text → ℕ → Bank → Outcome PixTransaction
create_pix_charge_with_qrcode c g value key k b =
    with_known_customer c g value key k (ensure_asaas_customer g k b)

-- The fallback of `generate_pix_charge`.
unfoldable simulate_charge : ChargeContext → ℕ → ℕ → Bank → PixTransaction × Bank
simulate_charge c value k b =
    let p = local_charge c value c.id_text (codes "charge-" ++ c.id_text) k in (p, add_pix p b)

-- The try block of `generate_pix_charge`: any exception rolls back and falls back.
unfoldable charge_or_simulate :
    ChargeContext → ChargeGateway → ℕ → ℕ → Result (Option Text) × Bank → PixTransaction × Bank
unfolding simulate_charge
charge_or_simulate c g value k (raise e, b) = simulate_charge c value k b
charge_or_simulate c g value k (ok customer, b) = elim (truthy customer) [
  | none ↦ simulate_charge c value k b
  | some id ↦ elim (g.create_pix_charge id value) [
    | none ↦ simulate_charge c value k b
    | some d ↦
        let p = gateway_charge c d value (codes "cobrar-" ++ c.correlation_text) k in
        (p, add_pix p b)
  ]
]

-- `generate_pix_charge`: values are at least one cent, the gateway's minimum.
unfoldable generate_pix_charge :
    ChargeContext → Option ChargeGateway → ℕ → ℕ → Bank → PixTransaction × Bank
unfolding charge_or_simulate ensure_asaas_customer simulate_charge
generate_pix_charge c none value k b = simulate_charge c value k b
generate_pix_charge c (some g) value k b =
    if leb 1 value
    then charge_or_simulate c g value k (ensure_asaas_customer (some g) k b)
    else simulate_charge c value k b

-- The status and the credit that go with a paid charge.
unfoldable pub settle_charge : PixTransaction → Bank → Bank
settle_charge p b = credit_receiver p (set_status p.id confirmed b)

-- `process_pix_receipt`: a raise inside rolls back. Whoever is logged in may call it, for any charge.
unfoldable pub process_pix_receipt : ℕ → Bank → Outcome PixTransaction
process_pix_receipt charge_id b = elim (find_pix charge_id b) [
  | none ↦ (raise charge_not_found, b)
  | some p ↦
      if is_confirmed p.status
      then (raise charge_already_paid, b)
      else if not (is_created p.status)
      then (raise invalid_charge_status, b)
      else (ok (with_status confirmed p), settle_charge p b)
]

abbrev pub pays : Option RemoteStatus → Bool
pays (some remote_confirmed) = true
pays _ = false

abbrev pub says_confirmed : Option ChargeGateway → ℕ → Bool
says_confirmed none id = false
says_confirmed (some g) id = pays (g.get_charge_status id)

-- The gateway's answer in `verify_pix_charge_payment`.
unfoldable pub charge_answered :
    Option RemoteStatus → PixTransaction → Bank → Outcome PixTransaction
charge_answered none p b = (raise gateway_failed, b)
charge_answered (some remote_confirmed) p b = (ok (with_status confirmed p), settle_charge p b)
charge_answered (some _) p b = (raise payment_not_confirmed, b)

-- `verify_pix_charge_payment`
unfoldable pub verify_pix_charge_payment :
    Option ChargeGateway → ℕ → ℕ → Bank → Outcome PixTransaction
verify_pix_charge_payment g charge_id k b = elim (get_pix charge_id k b) [
  | none ↦ (raise charge_not_found, b)
  | some p ↦
      if is_confirmed p.status
      then (ok p, b)
      else if not (is_created p.status)
      then (raise invalid_charge_status, b)
      else elim g [
        | none ↦ (raise gateway_unavailable, b)
        | some gw ↦ charge_answered (gw.get_charge_status charge_id) p b
      ]
]

-- `get_pix_transaction`: the owner's look at an open charge asks the gateway, and settles the charge if
-- it has been paid; an exception of the gateway is swallowed.
unfoldable pub get_pix_transaction :
    Option ChargeGateway → ℕ → ℕ → Bank → Option PixTransaction × Bank
get_pix_transaction g pix_id k b = elim (get_pix pix_id k b) [
  | none ↦ (none, b)
  | some p ↦
      if not (is_sent p.type) && is_created p.status && says_confirmed g pix_id
      then (some (with_status confirmed p), settle_charge p b)
      else (some p, b)
]

-- `status_map`, with `CREATED` for every status that it does not hold.
abbrev synced_status : RemoteStatus → PixStatus
synced_status remote_pending = created
synced_status remote_confirmed = confirmed
synced_status remote_expired = failed
synced_status remote_cancelled = canceled
synced_status remote_other = created

abbrev pub is_charge : ℕ → PixTransaction → Bool
is_charge id p = id == p.id && not (is_sent p.type)

-- `sync_pix_charge_status`: the status alone is written. An exception of the gateway is swallowed.
unfoldable pub sync_pix_charge_status :
    Option ChargeGateway → ℕ → Bank → Option PixTransaction × Bank
sync_pix_charge_status none charge_id b = (none, b)
sync_pix_charge_status (some g) charge_id b = elim (find_first (is_charge charge_id) b.pix) [
  | none ↦ (none, b)
  | some p ↦ elim (g.get_charge_status charge_id) [
    | none ↦ (none, b)
    | some remote ↦ (
      some (with_status (synced_status remote) p),
      record b {
        pix = update_first (is_charge charge_id) (with_status (synced_status remote)) b.pix;
      },
    )
  ]
]
