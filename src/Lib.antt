-- ===== src/Lib.antt =====
-- The money of payvorax: accounts that pay and receive by Pix, pay boletos and hold a monthly plan,
-- on a platform that has an account of its own ("matrix") for the fees. This library models the
-- services that move money or decide about it, and proves what they promise.
--
-- The parts, and the code that they follow:
-- - Bank: the tables that the services share (app/auth/models.py, app/pix/models.py and the models
--   of boletos, cards and subscriptions) as one state, what a service call returns (Bank.Results),
--   and the balance queries of app/pix/service.py (Bank.Money: get_balance, get_available_balance,
--   get_daily_sent_total, get_daily_received_total).
-- - Fees (app/core/fees.py) and Matrix (app/core/matrix.py): what a client pays, and credit_fee.
-- - Pix.Transfer (app/pix/internal_transfer.py): find_recipient_user and execute_internal_transfer.
-- - Pix.Create (create_pix of app/pix/service.py). The early returns of create_pix cut it into
--   create_new (scheduled, incoming or immediate), create_immediate (internal or external),
--   create_external (the two guards), store_pix (from the new row on), dispatch and gateway_replied
--   (the call of the gateway) and enter_pending (the ledger entry and the commit).
-- - Pix.Lifecycle (app/pix/service.py): confirm_pix, cancel_pix, get_pix, the ledger entries, and
--   deposit_funds.
-- - Pix.Charge: the charges, from create_pix_charge_with_qrcode, ensure_asaas_customer and
--   sync_pix_charge_status (app/pix/service.py) and generate_pix_charge, process_pix_receipt,
--   verify_pix_charge_payment and get_pix_transaction (app/pix/router.py). Pix.Receipt:
--   credit_pix_receipt (app/pix/service.py) and the confirmation of a known charge.
-- - Pix.QrCode: pay_pix_qrcode (app/pix/router.py). Pix.QrCode holds the search for a charge of the
--   platform, Internal and External its two routes and the polling, Pay the handler; Pix.Screen is
--   the antifraud screening before it and Emv.TopLevel the readers of fields.
-- - Pix.Webhook: the branch of _process_asaas_webhook_event (app/pix/router.py) for TRANSFER_DONE
--   and TRANSFER_FAILED. An external payment reserves its amount through the row with the status
--   PROCESSING; the balance falls when this event arrives, or when the polling of pay_pix_qrcode
--   comes first. Pix.Machine forgets the balances and keeps the statuses.
-- - Pix.Inbound: the payment events of _process_asaas_webhook_event, with the layers that look for
--   the receiver. Pix.Deposit: verify_static_deposit (app/pix/router.py).
-- - Pix.Send (create_pix_transaction), Pix.Keys (the email key and _normalize_pix_key) and
--   Pix.Withdrawal (asaas_withdrawal_validation), all of app/pix/router.py.
-- - Gateway (app/adapters/asaas_adapter.py): Gateway.Breaker has CircuitBreaker, Gateway.Client
--   _make_request with its retries, Gateway.Transfers create_pix_payment, the statuses,
--   cancel_charge and lookup_pix_key, Gateway.CodePage the page behind a dynamic code, and
--   Gateway.PayCode pay_qr_code with its fallbacks. Pix.Execute is execute_pix_payment_real
--   (app/pix/service.py) and its endpoint (app/pix/router.py) on top of it.
-- - Auth: Auth.RateLimit (_rate_limit), Auth.Sessions (the tokens of app/auth/service.py, the
--   guards of app/auth/dependencies.py and refresh_token), and of app/auth/router.py Auth.Accounts
--   (registration, login and the confirmation of an email) and Auth.Reset (the recovery of a
--   password); the calls that write accounts, as a sequence, are in Auth.Accounts.Calls.
--   Auth.Profiles has edit_user and admin_send_verification (app/web_routes.py).
-- - Admin: the administrator's operations on accounts and balances (app/web_routes.py).
-- - Boleto and Barcode (app/boleto/service.py), Subscription (app/minha_conta/service.py), Audit
--   (app/core/audit_worker.py: _run_single_audit, and in Audit.Loop the end of the day and the
--   loop), Antifraud (app/antifraude/rules.py), Cards (app/cards/service.py), Document
--   (app/core/document_validator.py), Emv (app/core/pix_emv.py, and _validate_pix_crc of
--   app/pix/router.py; Emv.Keys has the code for deposits and the readers of its key).
-- - Solvency: the calls that change balances or accounts together, as a sequence (Solvency.Run),
--   and the balances under it.
-- - Base holds what they share: Boolean tests, signed amounts, texts, lists and rows of a table.
--   Tests applies the results to a small bank.
--
-- How the code is read:
-- - Amounts are whole cents, as the columns store them (two decimals). A balance is signed, since
--   it is compared before it is guarded. Rounding to cents then changes nothing, but for the credit
--   limit, which is computed in half cents and rounded half up.
-- - Identifiers are numbers that are only compared; times are seconds. Texts are lists of ASCII
--   codes. Rows that the code finds with a filter and `first` are found in the order of the list.
-- - A call is one step: row locks and interleavings inside a call are not modelled. A raise comes
--   back with the state last committed, since the session is closed without a commit. Failures of
--   the database (foreign keys among them) are not modelled, nor is logging. The rounds of a
--   polling are steps of their own, since other calls come between them.
-- - For the services the gateway is a parameter, a function from a payment to a reply or a refusal,
--   and may be missing. For the adapter what is sent over HTTP is recorded with what it met, and
--   the answer to the next request is a function of that record. What was sent to it is recorded,
--   since no rollback takes it back. New identifiers and the clock are parameters too. Settings
--   stand at their defaults, but for the platform's key and the administrator's address, which are
--   given. What regular expressions find in a code, its digest, Python's float of a text and the
--   answers of the gateway come with a call. The libraries for tokens (jose), passwords (argon2),
--   one-time codes (pyotp), JSON and dates are parameters; what is asked of them stands as a
--   hypothesis (IsCodec) or in the theorem.
-- - The walk over a QR code runs on fuel, where running out is an answer of its own (`none`); the
--   decimal digits of a number run on the number itself, which has no more digits than that. The
--   readers of scanned fields run on fuel in the same way: without a minus sign every field takes
--   four characters at least, so more fuel than there are characters is enough. A length with a
--   minus sign can lead the walk to a position before the start of the text, where Python counts
--   from the end; such a position is written as a number beyond the end of the text. The adapter's
--   own walk over a scanned code belongs to the gateway parameter of pay_pix_qrcode, whose calls
--   return.
-- - An optional identifier column that stays NULL is 0.
--
-- Not modelled: the statement, the lookup of a code, the parsing of requests and events, the adapter's
-- calls that pass fields on (charges, customers, sub-accounts, boletos, credits), the snapshots,
-- instalments, forecasts and the financial health report (floating point), the pages of
-- app/web_routes.py, and the infrastructure (settings, sessions of the database, mail, logging).
pub mod Base
pub mod Bank
pub mod Fees
pub mod Matrix
pub mod Pix
pub mod Boleto
pub mod Barcode
pub mod Subscription
pub mod Audit
pub mod Antifraud
pub mod Cards
pub mod Document
pub mod Emv
pub mod Gateway
pub mod Auth
pub mod Admin
pub mod Solvency
pub mod Tests
