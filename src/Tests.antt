-- ===== src/Tests.antt =====
-- The theorems at work: each is applied to a small bank, a document, a barcode or a payload.
mod Fixtures
mod Payments
mod Receipts
mod Accounts
mod Texts
mod Charges
mod Codes
mod Gateway
mod Sessions
