-- ===== src/Bank.antt =====
-- The database as the services see it (app/auth/models.py, app/pix/models.py and the models of
-- boletos, cards and subscriptions), the results of a service call, and the queries on balances.
mod Tables
mod Results
pub mod Money
pub use Tables.*
pub use Results.*
