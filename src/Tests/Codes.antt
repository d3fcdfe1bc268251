-- ===== src/Tests/Codes.antt =====
-- Codes that are paid, keys, accounts and the breaker.
use payvorax.Tests.Fixtures.{
  alice, bob, platform, bank, platform_found, alice-IsCustomer, bob-IsCustomer,
}
use payvorax.Base.{ℕ, ◌≡◌, refl, false, none, some, List, [], ◌∷◌, arith}
use payvorax.Base.Int.{pos, ◌-ℤ◌, ◌≤ℤ◌, ◌<ℤ◌}
use payvorax.Base.Text.{codes, text_eq}
use payvorax.Bank.Money.{find_user}
use payvorax.Bank.{Outcome, insufficient_funds, ok, raise, PixTransaction, Bank}
use payvorax.Emv.{split_last, validate_pix_crc}
use payvorax.Gateway.Breaker.{new_breaker, Reply, make_requests, answered, unavailable}
use payvorax.Gateway.Breaker.States.{IsSound, make_requests-IsSound}
use payvorax.Pix.Charge.{charge_row}
use payvorax.Pix.Create.{add_pix}
use payvorax.Pix.Keys.{with_email_key, register_email_pix_key, registered}
use payvorax.Pix.Keys.Unique.{BelongsTo, register_email_pix_key-BelongsTo}
use payvorax.Pix.QrCode.{
  QrRequest, QrContext, first_by_id, open_charge, find_internal_qrcode_charge,
}
use payvorax.Pix.QrCode.Conserves.{Paid, pay_internal-Paid}
use payvorax.Pix.QrCode.Internal.{
  internal_row, settle_internal, debit_payer, pay_other, pay_internal,
}
use payvorax.Pix.QrCode.Pay.{pay_looked, pay_screened, pay_pix_qrcode, find_duplicate}
use payvorax.Pix.QrCode.Repeats.{paid_code_is_not_paid_again}
use payvorax.Pix.QrCode.Returns.{pay_pix_qrcode-returns}

abbrev internal_charge : PixTransaction
internal_charge = charge_row 20 900 10000 (codes "qr-20") (codes "cobrar-20") 21 2

abbrev code_bank : Bank
code_bank = record bank { pix = internal_charge ∷ [] }

abbrev qr_context : QrContext
qr_context = record {
  now = 1000;
  hour = 12;
  new_id = 40;
  fresh_key = codes "f-1";
  correlation_id = 41;
  pay_qr_code = none;
  use_sandbox = false;
  float_of = λ s. none;
}

-- A code with the charge's id in it.
abbrev qr_request : QrRequest
qr_request = record {
  payload = codes "00020126pixcodecharge20";
  value = none;
  header_key = none;
  uuids = (20, codes "20") ∷ [];
  asaas_ids = [];
  payload_hash = 99;
}

pay_internal-Paid_example :
    (pos 10100 ≤ℤ pos 100000
      → Paid internal_charge alice bob platform code_bank
          (pay_internal qr_context qr_request internal_charge alice code_bank).1)
    × (pos 100000 <ℤ pos 10100
        → pay_internal qr_context qr_request internal_charge alice code_bank
          ≡ (raise insufficient_funds, code_bank))
pay_internal-Paid_example =
    pay_internal-Paid internal_charge alice bob platform code_bank refl refl platform_found
      (λ h. cc) alice-IsCustomer bob-IsCustomer qr_context qr_request

abbrev paid_row : PixTransaction
paid_row = internal_row qr_context qr_request internal_charge alice

abbrev paid_bank : Bank
paid_bank =
    add_pix paid_row (settle_internal internal_charge (debit_payer alice internal_charge code_bank))

code_paid : pay_pix_qrcode qr_context qr_request 30 1 code_bank ≡ some (ok paid_row, paid_bank)
unfolding pay_pix_qrcode pay_screened pay_looked pay_internal pay_other find_internal_qrcode_charge
    open_charge first_by_id validate_pix_crc split_last ◌-ℤ◌ text_eq
code_paid = refl

abbrev second_request : QrRequest
second_request = record qr_request { header_key = some (codes "new") }

paid_code_is_not_paid_again_example :
    (q : PixTransaction) × (find_duplicate second_request 1 paid_bank ≡ some q)
    × (pay_pix_qrcode qr_context second_request 30 1 paid_bank ≡ some (ok q, paid_bank))
paid_code_is_not_paid_again_example =
    paid_code_is_not_paid_again qr_context qr_context qr_request second_request 30 30 1 paid_row
      code_bank paid_bank code_paid refl refl refl refl

pay_pix_qrcode-returns_example :
    (o : Outcome PixTransaction) × (pay_pix_qrcode qr_context
        (record qr_request { uuids = [] })
        30
        1
        code_bank
      ≡ some o)
pay_pix_qrcode-returns_example =
    pay_pix_qrcode-returns qr_context (record qr_request { uuids = [] }) 30 1 code_bank
      (
        refl,
        (
          refl,
          (
            refl,
            (
              refl,
              (
                refl,
                (
                  refl,
                  (
                    refl,
                    (
                      refl,
                      (
                        refl,
                        (
                          refl,
                          (
                            refl,
                            (
                              refl,
                              (
                                refl,
                                (
                                  refl,
                                  (
                                    refl,
                                    (
                                      refl,
                                      (refl, (refl, (refl, (refl, (refl, (refl, (refl, tt))))))),
                                    ),
                                  ),
                                ),
                              ),
                            ),
                          ),
                        ),
                      ),
                    ),
                  ),
                ),
              ),
            ),
          ),
        ),
      )
      (omega arith)

abbrev attempts : List (ℕ × Reply)
attempts = (1, unavailable) ∷ (2, unavailable) ∷ (3, answered) ∷ (40, unavailable) ∷ []

new_breaker-IsSound : IsSound (new_breaker 2 30)
new_breaker-IsSound = record {
  closed_below = λ _. omega arith;
  tripped_above = λ ne. absurd (ne refl);
  positive = omega arith;
}

make_requests-IsSound_example : IsSound (make_requests attempts (new_breaker 2 30))
make_requests-IsSound_example =
    make_requests-IsSound attempts (new_breaker 2 30) new_breaker-IsSound

abbrev key_bank : Bank
key_bank = (register_email_pix_key 1 bank).1

key_registered : register_email_pix_key 1 bank ≡ (ok registered, key_bank)
unfolding register_email_pix_key text_eq
key_registered = refl

register_email_pix_key-BelongsTo_example :
    BelongsTo 1 (codes "alice@example.com") key_bank.users
    × (find_user 1 key_bank ≡ some (with_email_key (some (codes "alice@example.com")) alice))
register_email_pix_key-BelongsTo_example =
    register_email_pix_key-BelongsTo 1 alice bank key_bank refl key_registered
