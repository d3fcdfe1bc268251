-- ===== src/Gateway.antt =====
-- app/adapters/asaas_adapter.py: the circuit breaker, the requests that go through it, and the
-- payments that are made of them.
pub mod Breaker
pub mod Client
pub mod CodePage
pub mod PayCode
pub mod Transfers
