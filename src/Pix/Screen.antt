-- ===== src/Pix/Screen.antt =====
-- `_screen_antifraud` (app/pix/router.py): the check of an outgoing payment.
use payvorax.Antifraud.{AntifraudTransaction, analyze}
use payvorax.Base.{ℕ, ◌-◌, Bool, ◌&&◌, Option, none, some, ltb, leb, ◌==◌, if◌then◌else◌}
use payvorax.Base.Query.{sum_where}
use payvorax.Bank.{Error, blocked_by_risk, too_many_attempts, PixTransaction, Bank, is_sent}

abbrev is_recent_attempt : ℕ → ℕ → PixTransaction → Bool
is_recent_attempt now k p = k == p.user_id && is_sent p.type && leb (now - 86400) p.created_at

-- The sent transactions of the last 24 hours, whatever their status.
abbrev pub attempts_last_24h : ℕ → ℕ → Bank → ℕ
attempts_last_24h now k b = sum_where (is_recent_attempt now k) (λ p. 1) b.pix

-- The account's age and history keep their defaults, 0.
abbrev fraud_transaction : ℕ → ℕ → ℕ → ℕ → Bank → AntifraudTransaction
fraud_transaction now hour value k b = record {
  value = value;
  hour = hour;
  attempts_last_24h = attempts_last_24h now k b;
  account_age_days = 0;
  total_transactions_30d = 0;
}

-- What is raised, if anything. The schema refuses a count above 100 (`validate_attempts`).
unfoldable pub screen_antifraud : ℕ → ℕ → ℕ → ℕ → Bank → Option Error
screen_antifraud now hour value k b =
    if ltb 100 (attempts_last_24h now k b)
    then some too_many_attempts
    else if (analyze (fraud_transaction now hour value k b)).approved
    then none
    else some blocked_by_risk
