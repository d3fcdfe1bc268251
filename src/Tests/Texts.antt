-- ===== src/Tests/Texts.antt =====
-- Risk scores, documents, barcodes and payloads.
use payvorax.Base.{◌≡◌, ◌↔◌, ◌⊎◌, refl, true, false, none, some, [], arith, ◌<◌}
use payvorax.Base.Digits.{IsDigits-of_test}
use payvorax.Barcode.Line.{validate_line_iff}
use payvorax.Base.Text.{codes, Text, text_eq}
use payvorax.Antifraud.{AntifraudTransaction, analyze}
use payvorax.Antifraud.Decision.{rejected_exactly, AtNight, AboveProfile}
use payvorax.Barcode.{validate_barcode}
use payvorax.Emv.Keys.{
  build_pix_static_emv_no_amount, is_payload_url, key_kind, parse_emv_pix_key,
  parse_emv_payload_url, evp_key,
}
use payvorax.Emv.Keys.Reads.{deposit_code-read}
use payvorax.Barcode.Luhn.{IsChecked}

abbrev risky : AntifraudTransaction
risky = record {
  value = 50000;
  hour = 23;
  attempts_last_24h = 4;
  account_age_days = 10;
  total_transactions_30d = 2;
}

abbrev riskier : AntifraudTransaction
riskier = record risky { value = 3000000; attempts_last_24h = 9 }

rejected_exactly_example : ((analyze risky).approved ≡ false) ↔ (
    (2000000 < risky.value) ⊎ (3 < risky.attempts_last_24h) × (AtNight risky ⊎ AboveProfile risky))
rejected_exactly_example = rejected_exactly risky

abbrev tail : Text
tail = codes "829107002600001"

abbrev typed : Text
typed = codes "34191790011010435100147910201509829107002600001"

validate_line_iff_example : (validate_barcode typed ≡ true) ↔ (
    IsChecked (codes "341917900") b'1'
    × IsChecked (codes "1010435100") b'1'
    × IsChecked (codes "4791020150") b'9')
validate_line_iff_example =
    validate_line_iff (codes "341917900") (codes "1010435100") (codes "4791020150") tail b'1' b'1'
      b'9'
      (record {
        digits = IsDigits-of_test typed refl;
        first = refl;
        second = refl;
        third = refl;
        last = refl;
      })

abbrev deposit_key : Text
deposit_key = codes "1a923d7b-3230-46d4-a670-87bf7ee54817"

deposit_key_filled : text_eq deposit_key [] ≡ false
unfolding text_eq
deposit_key_filled = refl

deposit_key_no_url : is_payload_url (λ s. false) deposit_key ≡ false
unfolding is_payload_url text_eq
deposit_key_no_url = refl

deposit_key_kind : key_kind deposit_key ≡ evp_key
unfolding text_eq
deposit_key_kind = refl

deposit_code-read_example :
    (parse_emv_pix_key
        (λ s. false)
        3
        11
        (build_pix_static_emv_no_amount deposit_key (codes "Bio Tech Pay"))
      ≡ some (some (deposit_key, key_kind deposit_key)))
    × (parse_emv_payload_url
          (λ s. false)
          3
          11
          (build_pix_static_emv_no_amount deposit_key (codes "Bio Tech Pay"))
        ≡ some none)
deposit_code-read_example =
    deposit_code-read (λ s. false) deposit_key (codes "Bio Tech Pay") (omega arith)
      deposit_key_filled deposit_key_no_url
