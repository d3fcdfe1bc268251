-- ===== src/Tests/Charges.antt =====
-- Charges, codes that are paid, deposits, and the races about them.
use payvorax.Tests.Fixtures.{bank, on_way, bank_on_way}
use payvorax.Base.{◌≡◌, refl, ◌⊎◌, none, some, List, [], ◌∷◌, ◌++◌, ℕ, ◌+◌}
use payvorax.Base.Text.{codes, text_eq, Text}
use payvorax.Bank.{failed, ok, PixTransaction, Bank}
use payvorax.Fees.{calculate_pix_receive_fee, calculate_pix_fee}
use payvorax.Matrix.{is_matrix, credit_fee}
use payvorax.Pix.Charge.{ChargeGateway, charge_row, settle_charge, remote_confirmed}
use payvorax.Pix.Charge.Paid.{
  ChargeCall, perform_charges, charge_is_credited_at_most_once, by_webhook, by_receipt, by_verify,
  by_look,
}
use payvorax.Pix.Deposit.{
  PixCredit, sender_matches, is_processed, is_wanted, credit_deposit, verify_loop,
  verify_static_deposit,
}
use payvorax.Pix.Deposit.Idempotent.{verify_static_deposit-idempotent}
use payvorax.Pix.Inbound.{PaymentEvent, PlatformSettings, on_payment_event}
use payvorax.Pix.Inbound.Once.{payment_event-once}
use payvorax.Pix.Lifecycle.{find_pix}
use payvorax.Pix.Machine.{
  Move, carry_out_all, move_rows_all, transfer_event, charge_paid, cancelled,
}
use payvorax.Pix.Machine.Refines.{carry_out_all-refines}
use payvorax.Pix.QrCode.External.{poll_confirmed, poll_other}
use payvorax.Pix.QrCode.Race.{
  Step, perform_steps, first_decision, first_decision_counts, payment_is_settled, by_event, by_poll,
}
use payvorax.Pix.Receipt.{receipt_fee, credit_pix_receipt}
use payvorax.Pix.Webhook.{transfer_done, transfer_failed}
use payvorax.Base.Digits.{keep_digits}

-- A charge of R$100.00 that the second customer has made.
abbrev open_row : PixTransaction
open_row = charge_row 20 900 10000 (codes "qr-20") (codes "cobrar-20") 21 2

abbrev charged_bank : Bank
charged_bank = record bank { pix = open_row ∷ [] }

abbrev paying_gateway : ChargeGateway
paying_gateway = record {
  create_customer = λ u. none;
  create_pix_charge = λ c v. none;
  get_charge_status = λ id. some remote_confirmed;
}

abbrev charge_calls : List ChargeCall
charge_calls = by_verify none ∷ by_receipt ∷ by_webhook ∷ by_look (some paying_gateway) ∷ []

charge_is_credited_at_most_once_example :
    (perform_charges 20 2 charge_calls charged_bank ≡ charged_bank)
    ⊎ (perform_charges 20 2 charge_calls charged_bank ≡ settle_charge open_row charged_bank)
charge_is_credited_at_most_once_example =
    charge_is_credited_at_most_once 20 open_row charged_bank charge_calls refl refl

abbrev transfer_steps : List Step
transfer_steps = by_poll poll_other ∷ by_poll (poll_confirmed none) ∷ by_event transfer_failed ∷ []

first_decision_counts_example :
    perform_steps 1001 7 1 transfer_steps bank_on_way
    ≡ first_decision 1001 7 1 transfer_steps bank_on_way
first_decision_counts_example =
    first_decision_counts 1001 7 1 on_way bank_on_way transfer_steps refl refl

payment_is_settled_example :
    (q : PixTransaction) × (find_pix 7 (
        perform_steps 1001 7 1
          ((by_poll poll_other ∷ []) ++ by_event transfer_failed ∷ [])
          bank_on_way)
      ≡ some q)
    × (q.status ≡ failed)
payment_is_settled_example =
    payment_is_settled 1001 7 1 on_way bank_on_way (by_poll poll_other ∷ []) []
      (by_event transfer_failed) refl refl (refl, tt) refl

abbrev moves : List Move
moves = charge_paid 20 ∷ cancelled 20 2 ∷ transfer_event transfer_done 1001 7 ∷ []

carry_out_all-refines_example :
    (carry_out_all moves charged_bank).pix ≡ move_rows_all moves (open_row ∷ [])
carry_out_all-refines_example = carry_out_all-refines moves charged_bank

abbrev settings : PlatformSettings
settings = record { platform_key = codes "evp"; admin_email = codes "owner@example.com" }

-- R$50.00 for the shared key, from the first customer's own account elsewhere.
abbrev deposit_event : PaymentEvent
deposit_event = record {
  now = 1000;
  payment_id = 30;
  payment_text = codes "30";
  event_key = codes "evp";
  dest_key = codes "evp";
  payer_doc = codes "52998224725";
  customer_id = [];
  masked_doc = [];
  value = 5000;
  spi_ref = none;
}

payment_event-once_example :
    (on_payment_event settings deposit_event (on_payment_event settings deposit_event bank).1).1
    ≡ (on_payment_event settings deposit_event bank).1
payment_event-once_example = payment_event-once settings deposit_event bank

abbrev deposits : List PixCredit
deposits =
    record {
      id = some (31, codes "31");
      sender_doc = codes "***.982.247-**";
      value = 5000;
      payment = some (30, codes "30");
    }
    ∷ []

-- The identifiers that the first call and the second call would make up.
abbrev first_ids : ℕ → ℕ × Text
first_ids i = (900 + i, codes "a")

abbrev second_ids : ℕ → ℕ × Text
second_ids i = (950 + i, codes "b")

abbrev deposit_bank : Bank
deposit_bank = (verify_static_deposit 1000 (codes "evp") first_ids (some deposits) 1 bank).1

deposit_verified :
    verify_static_deposit 1000 (codes "evp") first_ids (some deposits) 1 bank ≡ (ok 1, deposit_bank)
unfolding verify_static_deposit verify_loop credit_deposit is_processed is_wanted sender_matches
    credit_pix_receipt receipt_fee credit_fee calculate_pix_fee calculate_pix_receive_fee is_matrix
    text_eq keep_digits
deposit_verified = refl

verify_static_deposit-idempotent_example :
    (verify_static_deposit 2000 (codes "evp") second_ids (some deposits) 1 deposit_bank).1
    ≡ deposit_bank
verify_static_deposit-idempotent_example =
    verify_static_deposit-idempotent 1000 2000 (codes "evp") first_ids second_ids deposits 1 1 bank
      deposit_bank ((λ e. cc), tt) deposit_verified
