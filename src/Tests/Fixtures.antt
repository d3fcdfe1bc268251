-- ===== src/Tests/Fixtures.antt =====
-- A small bank: two customers and the platform, and a payment that one of them makes.
use payvorax.Base.{false, ◌≡◌, refl, true, none, some, [], ◌∷◌}
use payvorax.Base.Int.{pos, ◌-ℤ◌}
use payvorax.Base.Text.{Text, codes, text_eq}
use payvorax.Bank.Money.{pending_outbound, get_available_balance, get_daily_sent_total}
use payvorax.Bank.{ok, User, PixTransaction, Bank, created, sent, phone}
use payvorax.Fees.{calculate_pix_outbound_fee, calculate_pix_fee}
use payvorax.Matrix.{matrix_account_email, is_matrix, get_matrix_user}
use payvorax.Matrix.Credit.{IsCustomer}
use payvorax.Pix.Create.{
  pix_row, payment_of, pending_debit, create_ledger_entry, enter_pending, dispatched_row,
  gateway_replied, dispatch, store_pix, create_external, create_immediate, create_new, create_pix,
}
use payvorax.Pix.Request.{PixCreateRequest, Context, accepted}
use payvorax.Pix.Transfer.{find_recipient_user}

abbrev pub alice : User
alice = record {
  id = 1;
  cpf_cnpj = codes "52998224725";
  email = codes "alice@example.com";
  balance = pos 100000;
  credit_limit = 50000;
  hashed_password = codes "#secret";
  email_verified = true;
  email_verification_token = none;
  email_verification_sent_at = none;
  document_verified = true;
  pix_random_key = none;
  pix_email_key = none;
  asaas_customer_id = none;
  is_active = true;
  is_admin = false;
  password_reset_token = none;
  password_reset_sent_at = none;
}

abbrev pub bob : User
bob = record alice {
  id = 2;
  cpf_cnpj = codes "11144477735";
  email = codes "bob@example.com";
  balance = pos 300;
}

abbrev pub platform : User
platform = record alice {
  id = 9;
  cpf_cnpj = codes "00000000000191";
  email = matrix_account_email;
  balance = pos 5000;
}

abbrev pub bank : Bank
bank = record {
  users = alice ∷ bob ∷ platform ∷ [];
  pix = [];
  ledger = [];
  boletos = [];
  cards = [];
  subscriptions = [];
  dispatched = [];
}

-- A payment of R$100.00 to a telephone number, with a gateway that accepts it.
abbrev pub context : Context
context = record {
  now = 1000;
  new_id = 7;
  second_id = 8;
  gateway = some (λ p. accepted none (some 70));
}

abbrev pub request : PixCreateRequest
request = record {
  value = 10000;
  key_type = phone;
  pix_key = codes "+5561999990000";
  scheduled_date = none;
}

abbrev pub request_key : Text
request_key = codes "k-1"

abbrev new_row : PixTransaction
new_row = pix_row context request request_key 5 1 sent created 400

abbrev pub on_way : PixTransaction
on_way = dispatched_row (some 70) new_row

abbrev pub bank_on_way : Bank
bank_on_way = record bank {
  pix = on_way ∷ [];
  ledger = pending_debit on_way ∷ [];
  dispatched = payment_of new_row ∷ [];
}

-- The same payment where the sender's balance has gone in the meantime.
abbrev pub poor_alice : User
poor_alice = record alice { balance = pos 9000 }

abbrev pub bank_short : Bank
bank_short = record bank_on_way { users = poor_alice ∷ bob ∷ platform ∷ [] }

pub payment_made : create_pix context request request_key 5 1 sent bank ≡ (ok on_way, bank_on_way)
unfolding create_pix create_new create_immediate create_external find_recipient_user
    get_available_balance pending_outbound get_daily_sent_total calculate_pix_fee
    calculate_pix_outbound_fee store_pix dispatch gateway_replied enter_pending create_ledger_entry
    ◌-ℤ◌ text_eq
payment_made = refl

pub platform_found : get_matrix_user bank ≡ some platform
unfolding is_matrix text_eq
platform_found = refl

pub alice-IsCustomer : IsCustomer 1 bank
unfolding is_matrix text_eq
alice-IsCustomer = (λ h. cc, (λ h. cc, (λ h. refl, tt)))

pub poor_alice-IsCustomer : IsCustomer 1 bank_short
unfolding is_matrix text_eq
poor_alice-IsCustomer = (λ h. cc, (λ h. cc, (λ h. refl, tt)))

pub bob-IsCustomer : IsCustomer 2 bank
unfolding is_matrix text_eq
bob-IsCustomer = (λ h. cc, (λ h. cc, (λ h. refl, tt)))
