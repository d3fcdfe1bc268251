-- ===== src/Tests/Receipts.antt =====
-- Receipts, boletos, the audit, and fees.
use payvorax.Tests.Fixtures.{
  alice, bob, platform, bank, on_way, platform_found, alice-IsCustomer, bob-IsCustomer,
}
use payvorax.Pix.Receipt.Credits.{credit_pix_receipt-Credits}
use payvorax.Base.{◌≡◌, refl, none, some, [], ◌∷◌}
use payvorax.Base.Int.{pos, ◌+ℤ◌}
use payvorax.Base.Text.{codes}
use payvorax.Audit.{AuditResult, run_single_audit}
use payvorax.Bank.Money.{find_user, with_balance, total_balance}
use payvorax.Bank.{PixTransaction, Bank, created, received}
use payvorax.Boleto.{BoletoPaymentRequest, process_payment}
use payvorax.Boleto.Pays.{Pays, process_payment-Pays}
use payvorax.Fees.{calculate_pix_receive_fee, calculate_pix_fee}
use payvorax.Matrix.{get_matrix_user}
use payvorax.Pix.Receipt.{receipt_fee, raised_limit, credited_row, credit_pix_receipt}

abbrev received_bank : Bank
received_bank = (credit_pix_receipt bob 2000 none bank).1

credit_pix_receipt-Credits_example :
    (find_user 2 received_bank
      ≡ some (credited_row (pos 300 +ℤ pos 1600) (raised_limit 50000 2000) bob))
    × (get_matrix_user received_bank ≡ some (with_balance (pos 5000 +ℤ pos 400) platform))
    × (total_balance received_bank ≡ total_balance bank +ℤ pos 2000)
unfolding receipt_fee calculate_pix_fee calculate_pix_receive_fee
credit_pix_receipt-Credits_example =
    credit_pix_receipt-Credits bob platform 2000 none bank refl platform_found bob-IsCustomer

abbrev charge : PixTransaction
charge = record on_way { type = received; status = created; user_id = 2 }

abbrev bank_charged : Bank
bank_charged = record bank { pix = charge ∷ [] }

abbrev bill : BoletoPaymentRequest
bill = record {
  barcode = codes "34191790010104351004791020150008291070026000";
  value = 26000;
  new_id = 3;
}

process_payment-Pays_example : Pays bill 1 alice platform bank (process_payment bill 1 bank)
process_payment-Pays_example =
    process_payment-Pays bill 1 alice platform bank refl platform_found alice-IsCustomer

-- The accounts hold R$1,053.00 and the gateway reports R$1,048.00.
abbrev audited : AuditResult × Bank
audited = run_single_audit (some (pos 104800)) bank
