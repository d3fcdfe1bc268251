-- ===== src/Pix/QrCode.antt =====
-- `pay_pix_qrcode` (app/pix/router.py): what it is given, and `_find_internal_qrcode_charge`.
pub mod Internal
pub mod External
pub mod Pay
pub mod Returns
pub mod Open
pub mod Repeats
pub mod Conserves
pub mod Race
use payvorax.Base.{
  ℕ, Bool, not, ◌&&◌, Option, none, some, List, [], ◌∷◌, ◌++◌, ◌==◌, if◌then◌else◌, take,
}
use payvorax.Base.Text.{contains, Text, codes, text_eq}
use payvorax.Base.Query.{find_first}
use payvorax.Bank.{PixTransaction, Bank, is_sent, is_confirmed, is_created}

-- `PixQrCodePayRequest` and the header with the idempotency key; the value that a client sends is not
-- zero. `uuids` and `asaas_ids` are what the two regular expressions find in the payload, as
-- identifiers and as text, and `payload_hash` is the digest of the stripped payload.
pub record QrRequest : Type 0 where
  pub payload : Text
  pub value : Option ℕ
  pub header_key : Option Text
  pub uuids : List (ℕ × Text)
  pub asaas_ids : List (ℕ × Text)
  pub payload_hash : ℕ

-- The answer to `pay_qr_code`.
pub record QrReply : Type 0 where
  pub value : ℕ
  pub payment_id : Option ℕ
  pub end_to_end_id : Option ℕ

-- The surroundings: the clock and the hour, fresh identifiers, the gateway (`none` without one, and
-- within it `none` for an exception), the mode, and Python's `float` of a text, in cents.
pub record QrContext : Type 0 where
  pub now : ℕ
  pub hour : ℕ
  pub new_id : ℕ
  pub fresh_key : Text
  pub correlation_id : ℕ
  pub pay_qr_code : Option (QrRequest → Text → Option QrReply)
  pub use_sandbox : Bool
  pub float_of : Text → Option ℕ

-- `x_idempotency_key or str(uuid4())`
abbrev pub idempotency_key : QrContext → QrRequest → Text
idempotency_key c d = elim d.header_key [
  | none ↦ c.fresh_key
  | some [] ↦ c.fresh_key
  | some (x ∷ s) ↦ x ∷ s
]

pub data Looked : Type 0 where
  charge_open : PixTransaction → Looked
  already_paid not_internal : Looked

abbrev pub is_open_charge : PixTransaction → Bool
is_open_charge p = not (is_sent p.type) && is_created p.status

abbrev is_paid_charge : PixTransaction → Bool
is_paid_charge p = not (is_sent p.type) && is_confirmed p.status

-- A query of the function: a condition on the state, and one on the id or the key.
abbrev pub by_id : ℕ → PixTransaction → Bool
by_id id p = id == p.id

-- `LIKE '%text%'`, which for the hexadecimal text of a UUID is containment.
abbrev pub by_like : Text → PixTransaction → Bool
by_like s p = contains s p.pix_key

abbrev pub or_else : Option PixTransaction → Option PixTransaction → Option PixTransaction
or_else (some p) q = some p
or_else none q = q

-- The first row that a candidate's query finds, over the candidates in their order.
unfoldable pub first_by_id :
    (PixTransaction → Bool) → List (ℕ × Text) → List PixTransaction → Option PixTransaction
first_by_id state [] ps = none
first_by_id state (id ∷ ids) ps =
    let rest = first_by_id state ids ps in
    or_else (find_first (λ p. by_id id.0 p && state p) ps) rest

unfoldable pub first_by_like :
    (PixTransaction → Bool) → List (ℕ × Text) → List PixTransaction → Option PixTransaction
first_by_like state [] ps = none
first_by_like state (id ∷ ids) ps =
    let rest = first_by_like state ids ps in
    or_else (find_first (λ p. by_like id.1 p && state p) ps) rest

-- The route 1c: the key column holds the first 200 characters of the code.
unfoldable pub by_payload : Text → List PixTransaction → Option PixTransaction
by_payload [] ps = none
by_payload (c ∷ s) ps =
    find_first (λ p. text_eq p.pix_key (take 200 (c ∷ s)) && is_open_charge p) ps

-- The route 1d and its repetition for paid charges ask for the gateway's domain.
unfoldable pub by_domain :
    (PixTransaction → Bool) → QrRequest → List PixTransaction → Option PixTransaction
unfolding first_by_like
by_domain state d ps =
    if contains (codes "asaas.com") d.payload then first_by_like state d.uuids ps else none

-- The routes 1a to 1d.
unfoldable pub open_charge : QrRequest → List PixTransaction → Option PixTransaction
unfolding first_by_id by_payload by_domain
open_charge d ps = or_else (first_by_id is_open_charge d.uuids ps) (
    or_else (first_by_id is_open_charge d.asaas_ids ps)
      (or_else (by_payload d.payload ps) (by_domain is_open_charge d ps)))

-- The guard at the end, for charges that are paid.
unfoldable pub paid_charge : QrRequest → List PixTransaction → Option PixTransaction
unfolding first_by_id by_domain
paid_charge d ps =
    or_else (first_by_id is_paid_charge (d.uuids ++ d.asaas_ids) ps) (by_domain is_paid_charge d ps)

abbrev pub looked : Option PixTransaction → Option PixTransaction → Looked
looked (some p) q = charge_open p
looked none (some p) = already_paid
looked none none = not_internal

-- `_find_internal_qrcode_charge`
unfoldable pub find_internal_qrcode_charge : QrRequest → Bank → Looked
unfolding open_charge paid_charge
find_internal_qrcode_charge d b = looked (open_charge d b.pix) (paid_charge d b.pix)
