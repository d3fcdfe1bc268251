-- ===== src/Pix/QrCode/Returns.antt =====
-- `pay_pix_qrcode` returns.
use payvorax.Base.{ℕ, ◌<◌, ◌≡◌, Option, none, some, length, refl, ◌==◌, if-holds, option-holds}
use payvorax.Base.Text.{strip}
use payvorax.Bank.{Outcome, PixTransaction, User, Bank}
use payvorax.Emv.TopLevel.Stops.{HasNoMinus, parse_emv_value-stops}
use payvorax.Pix.QrCode.{
  QrRequest, QrContext, find_internal_qrcode_charge, charge_open, already_paid, not_internal,
  Looked,
}
use payvorax.Pix.QrCode.Pay.{pay_looked, pay_screened, pay_pix_qrcode, find_duplicate}
use payvorax.Bank.Money.{find_user}
use payvorax.Emv.{validate_pix_crc}
use payvorax.Pix.QrCode.External.{client_sent}
use payvorax.Pix.Screen.{screen_antifraud}

-- A call that has ended.
abbrev HasReturned : Option (Outcome PixTransaction) → Type 0
HasReturned none = ⊥
HasReturned (some o) = Unit

module _ (c : QrContext) (d : QrRequest) (fuel : ℕ) (sender : User) (b : Bank) where
  looked-HasReturned :
      (found : Looked)
      → HasNoMinus d.payload
      → length (strip d.payload) < fuel
      → HasReturned (pay_looked c d fuel sender found b)
  unfolding pay_looked
  looked-HasReturned already_paid h lt = tt
  looked-HasReturned (charge_open charge) h lt = tt
  looked-HasReturned not_internal h lt =
      let cents = parse_emv_value-stops c.float_of fuel d.payload h lt in
      rw (cents.1, pay_looked) tt

  screened-HasReturned :
      HasNoMinus d.payload
      → length (strip d.payload) < fuel
      → HasReturned (pay_screened c d fuel sender b)
  unfolding pay_screened
  screened-HasReturned h lt =
      let routed = looked-HasReturned (find_internal_qrcode_charge d b) h lt in
      if-holds HasReturned (client_sent d == 0) _ _ (λ _. routed)
        (λ _.
          option-holds HasReturned (screen_antifraud c.now c.hour (client_sent d) sender.id b) _ _
            (λ _. routed) (λ _ _. tt))

has_returned :
    (o : Option (Outcome PixTransaction))
    → HasReturned o
    → (x : Outcome PixTransaction) × (o ≡ some x)
has_returned none h = absurd h
has_returned (some x) h = (x, refl)

-- The handler's own readers of the fields of a code come to an end on a code that has no minus sign:
-- with more rounds for them than the stripped code has characters, the handler returns. The call of
-- the gateway, in which the adapter walks over the code once more, is a parameter that returns.
pub pay_pix_qrcode-returns :
    (c : QrContext) (d : QrRequest) (fuel k : ℕ) (b : Bank)
    → HasNoMinus d.payload
    → length (strip d.payload) < fuel
    → (o : Outcome PixTransaction) × (pay_pix_qrcode c d fuel k b ≡ some o)
unfolding pay_pix_qrcode
pay_pix_qrcode-returns c d fuel k b h lt = has_returned (pay_pix_qrcode c d fuel k b) (
    if-holds HasReturned (validate_pix_crc d.payload) _ _
      (λ _.
        option-holds HasReturned (find_duplicate d k b) _ _
          (λ _.
            option-holds HasReturned (find_user k b) _ _ (λ _. tt)
              (λ sender _. screened-HasReturned c d fuel sender b h lt))
          (λ _ _. tt))
      (λ _. tt))
