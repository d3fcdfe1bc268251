-- ===== src/Solvency/Run.antt =====
-- Any sequence of calls of the services that move money keeps every balance at zero or above.
use payvorax.Base.{ℕ, Option, List, [], ◌∷◌, none, some}
use payvorax.Base.Int.{ℤ}
use payvorax.Base.Text.{Text}
use payvorax.Audit.{run_single_audit}
use payvorax.Auth.Accounts.{AuthContext}
use payvorax.Auth.Accounts.Calls.{AuthOp, apply_auth}
use payvorax.Solvency.Accounts.{apply_auth-Solvent}
use payvorax.Bank.{TransactionType, Bank, Outcome, PixTransaction, PixKeyType}
use payvorax.Boleto.{BoletoPaymentRequest, process_payment}
use payvorax.Pix.Create.{create_pix}
use payvorax.Pix.Lifecycle.{confirm_pix, cancel_pix, deposit_funds}
use payvorax.Pix.Receipt.{on_charge_paid}
use payvorax.Pix.Request.{PixCreateRequest, Context}
use payvorax.Pix.Webhook.{TransferEvent, process_transfer_event}
use payvorax.Solvency.{Solvent}
use payvorax.Solvency.Payments.{same_users, create_pix-Solvent}
use payvorax.Solvency.Events.{process_transfer_event-Solvent}
use payvorax.Solvency.Services.{
  on_charge_paid-Solvent, deposit_funds-Solvent, process_payment-Solvent, get_subscription-Solvent,
  run_single_audit-Solvent, users-status,
}
use payvorax.Subscription.{get_subscription}
use payvorax.Pix.Charge.{
  ChargeGateway, process_pix_receipt, verify_pix_charge_payment, get_pix_transaction,
}
use payvorax.Pix.Deposit.{PixCredit, verify_static_deposit}
use payvorax.Pix.Inbound.{PaymentEvent, PlatformSettings, on_payment_event}
use payvorax.Pix.QrCode.{QrRequest, QrContext}
use payvorax.Pix.QrCode.External.{PollAnswer, poll_round}
use payvorax.Pix.QrCode.Pay.{pay_pix_qrcode}
use payvorax.Solvency.Charges.{
  process_pix_receipt-Solvent, verify_pix_charge_payment-Solvent, get_pix_transaction-Solvent,
  on_payment_event-Solvent, verify_static_deposit-Solvent,
}
use payvorax.Solvency.Codes.{poll_round-Solvent, IsSolventEnd, pay_pix_qrcode-Solvent}
use payvorax.Admin.{
  delete_user, matrix_transfer, Destination, asaas_transfer, matrix_to_asaas, matrix_to_owner,
}
use payvorax.Solvency.Admins.{
  delete_user-Solvent, matrix_to_asaas-Solvent, matrix_to_owner-Solvent, matrix_transfer-Solvent,
  asaas_transfer-Solvent,
}

-- A call of a service, by a user who is read from the database where it needs one.
pub data Call : Type 0 where
  call_pix : Context → PixCreateRequest → Text → ℕ → ℕ → TransactionType → Call
  call_event : TransferEvent → ℕ → ℕ → Call
  call_charge_paid : ℕ → Call
  call_confirm : ℕ → Call
  call_cancel : ℕ → ℕ → Call
  call_deposit : ℕ → ℕ → Call
  call_boleto : BoletoPaymentRequest → ℕ → Call
  call_renewal : ℕ → ℕ → Call
  call_audit : Option ℤ → Call
  call_qr_code : QrContext → QrRequest → ℕ → ℕ → Call
  call_poll : ℕ → ℕ → ℕ → PollAnswer → Call
  call_payment_event : PlatformSettings → PaymentEvent → Call
  call_deposits : ℕ → Text → (ℕ → ℕ × Text) → Option (List PixCredit) → ℕ → Call
  call_receipt : ℕ → Call
  call_delete : ℕ → ℕ → Call
  call_matrix_transfer : Context → Text → Option PixKeyType → ℕ → Text → ℕ → Call
  call_asaas_transfer : Context → Destination → ℕ → Text → Call
  call_to_asaas : ℕ → Call
  call_to_owner : Text → ℕ → Call
  call_auth : AuthContext → AuthOp → Call
  call_verify call_look : Option ChargeGateway → ℕ → ℕ → Call

-- A payment of a code that has not ended has committed nothing.
abbrev after_payment : Bank → Option (Outcome PixTransaction) → Bank
after_payment b none = b
after_payment b (some o) = o.1

abbrev perform : Call → Bank → Bank
perform (call_pix c d key corr k type) b = (create_pix c d key corr k type b).1
perform (call_event ev now id) b = (process_transfer_event ev now id b).1
perform (call_charge_paid id) b = (on_charge_paid id b).1
perform (call_confirm id) b = (confirm_pix id b).1
perform (call_cancel id k) b = (cancel_pix id k b).1
perform (call_deposit k amount) b = (deposit_funds k amount b).1
perform (call_boleto r k) b = (process_payment r k b).1
perform (call_renewal now k) b = (get_subscription now k b).1
perform (call_audit asaas) b = (run_single_audit asaas b).1
perform (call_qr_code c d fuel k) b = after_payment b (pay_pix_qrcode c d fuel k b)
perform (call_poll now k id a) b = poll_round now k id a b
perform (call_payment_event g e) b = (on_payment_event g e b).1
perform (call_deposits now key fresh credits k) b =
    (verify_static_deposit now key fresh credits k b).1
perform (call_receipt id) b = (process_pix_receipt id b).1
perform (call_delete admin_id k) b = (delete_user admin_id k b).1
perform (call_matrix_transfer c pix_key t amount key corr) b =
    (matrix_transfer c pix_key t amount key corr b).1
perform (call_asaas_transfer c to amount key) b = (asaas_transfer c to amount key b).1
perform (call_to_asaas amount) b = (matrix_to_asaas amount b).1
perform (call_to_owner admin_email amount) b = (matrix_to_owner admin_email amount b).1
perform (call_auth c o) b = apply_auth c o b
perform (call_verify g id k) b = (verify_pix_charge_payment g id k b).1
perform (call_look g id k) b = (get_pix_transaction g id k b).1

abbrev pub perform_all : List Call → Bank → Bank
perform_all [] b = b
perform_all (c ∷ cs) b = perform_all cs (perform c b)

after_payment-Solvent :
    (b : Bank) (o : Option (Outcome PixTransaction))
    → Solvent b
    → IsSolventEnd o
    → Solvent (after_payment b o)
after_payment-Solvent b none s h = s
after_payment-Solvent b (some o) s h = h

perform-Solvent : (c : Call) (b : Bank) → Solvent b → Solvent (perform c b)
perform-Solvent (call_pix c d key corr k type) b s = create_pix-Solvent c d key corr k type b s
perform-Solvent (call_event ev now id) b s = process_transfer_event-Solvent ev now id b s
perform-Solvent (call_charge_paid id) b s = on_charge_paid-Solvent id b s
perform-Solvent (call_confirm id) b s = same_users b (confirm_pix id b).1 (users-status id 0 b).0 s
perform-Solvent (call_cancel id k) b s =
    same_users b (cancel_pix id k b).1 (users-status id k b).1 s
perform-Solvent (call_deposit k amount) b s = deposit_funds-Solvent k amount b s
perform-Solvent (call_boleto r k) b s = process_payment-Solvent r k b s
perform-Solvent (call_renewal now k) b s = get_subscription-Solvent now k b s
perform-Solvent (call_audit asaas) b s = run_single_audit-Solvent asaas b s
perform-Solvent (call_qr_code c d fuel k) b s =
    after_payment-Solvent b (pay_pix_qrcode c d fuel k b) s (pay_pix_qrcode-Solvent c d fuel k b s)
perform-Solvent (call_poll now k id a) b s = poll_round-Solvent now k id a b s
perform-Solvent (call_payment_event g e) b s = on_payment_event-Solvent g e b s
perform-Solvent (call_deposits now key fresh credits k) b s =
    verify_static_deposit-Solvent now key fresh credits k b s
perform-Solvent (call_receipt id) b s = process_pix_receipt-Solvent id b s
perform-Solvent (call_delete admin_id k) b s = delete_user-Solvent admin_id k b s
perform-Solvent (call_matrix_transfer c pix_key t amount key corr) b s =
    matrix_transfer-Solvent c pix_key t amount key corr b s
perform-Solvent (call_asaas_transfer c to amount key) b s =
    asaas_transfer-Solvent c to amount key b s
perform-Solvent (call_to_asaas amount) b s = matrix_to_asaas-Solvent amount b s
perform-Solvent (call_to_owner admin_email amount) b s =
    matrix_to_owner-Solvent admin_email amount b s
perform-Solvent (call_auth c o) b s = apply_auth-Solvent c o b s
perform-Solvent (call_verify g id k) b s = verify_pix_charge_payment-Solvent g id k b s
perform-Solvent (call_look g id k) b s = get_pix_transaction-Solvent g id k b s

-- If no balance is negative, then none is after any sequence of payments, by key or by QR code, with
-- their polling, transfer and payment events in any order and number, charges however they are found
-- to be paid, verified deposits, confirmations, cancellations, deposits, boletos, renewals, audit
-- cycles, registrations and recoveries of accounts, and the administrator's transfers and deletions of
-- accounts, whatever their arguments and whatever the gateway answers.
pub perform_all-Solvent : (cs : List Call) (b : Bank) → Solvent b → Solvent (perform_all cs b)
perform_all-Solvent [] b s = s
perform_all-Solvent (c ∷ cs) b s = perform_all-Solvent cs (perform c b) (perform-Solvent c b s)
