-- ===== src/Pix.antt =====
-- The Pix services: app/pix/service.py, app/pix/internal_transfer.py and the transfer events of
-- app/pix/router.py.
pub mod Request
pub mod Transfer
pub mod Create
pub mod Lifecycle
pub mod Receipt
pub mod Charge
pub mod Screen
pub mod QrCode
pub mod Keys
pub mod Send
pub mod Withdrawal
pub mod Execute
pub mod Inbound
pub mod Deposit
pub mod Machine
pub mod Webhook
