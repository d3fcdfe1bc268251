-- ===== src/Pix/QrCode/Pay.antt =====
-- `pay_pix_qrcode` (app/pix/router.py): its guards, and the two routes.
use payvorax.Base.{ℕ, Bool, ◌&&◌, ◌||◌, Option, none, some, [], ◌∷◌, ◌==◌, if◌then◌else◌, false}
use payvorax.Base.Query.{find_first}
use payvorax.Bank.Money.{find_user}
use payvorax.Bank.{
  User, PixTransaction, Bank, ok, raise, Outcome, user_not_found, invalid_checksum,
  charge_already_paid, is_confirmed, is_processing,
}
use payvorax.Emv.{validate_pix_crc}
use payvorax.Emv.TopLevel.{parse_emv_value}
use payvorax.Pix.Create.{find_by_key}
use payvorax.Pix.QrCode.{
  QrRequest, QrContext, find_internal_qrcode_charge, charge_open, already_paid, not_internal,
  Looked,
}
use payvorax.Pix.QrCode.External.{client_sent, pay_external}
use payvorax.Pix.QrCode.Internal.{pay_internal}
use payvorax.Pix.Screen.{screen_antifraud}

abbrev hash_is : Option ℕ → ℕ → Bool
hash_is none h = false
hash_is (some x) h = x == h

-- The user's own payment of the same code, on its way or done.
abbrev pub same_payload : ℕ → ℕ → PixTransaction → Bool
same_payload k hash p =
    k == p.user_id
    && hash_is p.payload_hash hash
    && (is_confirmed p.status || is_processing p.status)

-- The row that the idempotency key of the header, or the payload, has already made.
abbrev pub find_duplicate : QrRequest → ℕ → Bank → Option PixTransaction
find_duplicate d k b = elim d.header_key [
  | none ↦ find_first (same_payload k d.payload_hash) b.pix
  | some [] ↦ find_first (same_payload k d.payload_hash) b.pix
  | some (x ∷ s) ↦ elim (find_by_key (x ∷ s) b) [
    | some p ↦ some p
    | none ↦ find_first (same_payload k d.payload_hash) b.pix
  ]
]

-- The two routes. `none`: the reader of the code's fields does not stop on the given fuel.
unfoldable pub pay_looked :
    QrContext → QrRequest → ℕ → User → Looked → Bank → Option (Outcome PixTransaction)
pay_looked c d fuel sender already_paid b = some (raise charge_already_paid, b)
pay_looked c d fuel sender (charge_open charge) b = some (pay_internal c d charge sender b)
pay_looked c d fuel sender not_internal b = elim (parse_emv_value c.float_of fuel d.payload) [
  | none ↦ none
  | some emv_value ↦ some (pay_external c d sender emv_value b)
]

-- Only a value that the client sends is screened.
unfoldable pub pay_screened :
    QrContext → QrRequest → ℕ → User → Bank → Option (Outcome PixTransaction)
unfolding pay_looked
pay_screened c d fuel sender b =
    let routed = pay_looked c d fuel sender (find_internal_qrcode_charge d b) b in
    if client_sent d == 0
    then routed
    else elim (screen_antifraud c.now c.hour (client_sent d) sender.id b) [
      | some e ↦ some (raise e, b)
      | none ↦ routed
    ]

-- `pay_pix_qrcode`, up to the commit of the new row.
unfoldable pub pay_pix_qrcode :
    QrContext → QrRequest → ℕ → ℕ → Bank → Option (Outcome PixTransaction)
unfolding pay_screened
pay_pix_qrcode c d fuel k b =
    if validate_pix_crc d.payload
    then elim (find_duplicate d k b) [
      | some p ↦ some (ok p, b)
      | none ↦ elim (find_user k b) [
        | none ↦ some (raise user_not_found, b)
        | some sender ↦ pay_screened c d fuel sender b
      ]
    ]
    else some (raise invalid_checksum, b)
