-- ===== src/Antifraud/Decision.antt =====
-- Which transactions the engine rejects, and how its answer changes with its input.
use payvorax.Base.{ℕ, ◌+◌, ◌≤◌, ◌≡◌, ◌↔◌, ◌⊎◌, true, false, arith, if◌then◌else◌, ◌<◌}
use payvorax.Antifraud.{
  AntifraudTransaction, Rule, points, threshold, evaluate, rules, tally, analyze, night_time,
  high_value, excessive_attempts, extreme_value,
}

abbrev fires : Rule → AntifraudTransaction → ℕ
fires r t = if evaluate r t then points r else 0

tally-shift :
    (t : AntifraudTransaction)
    → tally t rules 0
      ≡ fires night_time t + fires high_value t + fires excessive_attempts t + fires extreme_value t
unfolding tally points
tally-shift t = ground arith

-- More risk in each field: a higher value, more attempts, a younger account with fewer transactions,
-- at the same hour.
pub record Riskier (t t' : AntifraudTransaction) : Type 0 where
  pub value : t.value ≤ t'.value
  pub hour : t.hour ≡ t'.hour
  pub attempts : t.attempts_last_24h ≤ t'.attempts_last_24h
  pub age : t'.account_age_days ≤ t.account_age_days
  pub history : t'.total_transactions_30d ≤ t.total_transactions_30d

threshold-anti : (t t' : AntifraudTransaction) → Riskier t t' → threshold t' ≤ threshold t
unfolding threshold
threshold-anti t t' r = ground arith

fires_mono : (x : Rule) (t t' : AntifraudTransaction) → Riskier t t' → fires x t ≤ fires x t'
unfolding evaluate
fires_mono night_time t t' r = ground arith
fires_mono high_value t t' r = ground (arith, threshold-anti t t' r)
fires_mono excessive_attempts t t' r = ground arith
fires_mono extreme_value t t' r = ground arith

-- A transaction at the same hour as a rejected one, with no lower value, no fewer attempts, and an
-- account that is no older and has no more transactions, is rejected too, with a score that is no
-- less.
analyze-Riskier :
    (t t' : AntifraudTransaction)
    → Riskier t t'
    → (analyze t).approved ≡ false
    → ((analyze t').approved ≡ false) × ((analyze t).score ≤ (analyze t').score)
unfolding analyze
analyze-Riskier t t' r h = ground (
  arith,
  tally-shift t,
  tally-shift t',
  fires_mono night_time t t' r,
  fires_mono high_value t t' r,
  fires_mono excessive_attempts t t' r,
  fires_mono extreme_value t t' r,
)

extreme-high :
    (t : AntifraudTransaction) → evaluate extreme_value t ≡ true → evaluate high_value t ≡ true
unfolding evaluate threshold
extreme-high t h = ground arith

-- The hours from 22 to 5.
abbrev pub AtNight : AntifraudTransaction → Type 0
AtNight t = (22 ≤ t.hour) ⊎ (t.hour < 6)

-- An account of at least `days` days with at least `count` transactions in the last thirty.
abbrev pub Known : ℕ → ℕ → AntifraudTransaction → Type 0
Known days count t = (days ≤ t.account_age_days) × (count ≤ t.total_transactions_30d)

-- A value above R$10,000.00; above R$2,000.00 for an account that is not known for 180 days with 30
-- transactions; above R$300.00 for one that is not even known for 90 days with 10.
abbrev pub AboveProfile : AntifraudTransaction → Type 0
AboveProfile t =
    (1000000 < t.value)
    ⊎ ((200000 < t.value) × ¬ (Known 180 30 t) ⊎ (30000 < t.value) × ¬ (Known 90 10 t))

night_exactly : (t : AntifraudTransaction) → (evaluate night_time t ≡ true) ↔ AtNight t
unfolding evaluate
night_exactly t = (λ h. ground arith, λ h. ground arith)

high_exactly : (t : AntifraudTransaction) → (evaluate high_value t ≡ true) ↔ AboveProfile t
unfolding evaluate threshold
high_exactly t = (λ h. ground arith, λ h. ground arith)

often_exactly :
    (t : AntifraudTransaction) → (evaluate excessive_attempts t ≡ true) ↔ (3 < t.attempts_last_24h)
unfolding evaluate
often_exactly t = (λ h. ground arith, λ h. ground arith)

huge_exactly : (t : AntifraudTransaction) → (evaluate extreme_value t ≡ true) ↔ (2000000 < t.value)
unfolding evaluate
huge_exactly t = (λ h. ground arith, λ h. ground arith)

-- The engine rejects exactly the transactions of more than R$20,000.00, and those with more than
-- three attempts in the last day that come between 22:00 and 6:00 or have a value above what is usual
-- for the account: R$10,000.00 for one of 180 days with 30 transactions, R$2,000.00 for another one of
-- 90 days with 10 transactions, R$300.00 for all else.
pub rejected_exactly :
    (t : AntifraudTransaction)
    → ((analyze t).approved ≡ false)
      ↔ ((2000000 < t.value) ⊎ (3 < t.attempts_last_24h) × (AtNight t ⊎ AboveProfile t))
unfolding analyze points
rejected_exactly t =
    let (night, night') = night_exactly t in
    let (above, above') = high_exactly t in
    let (often, often') = often_exactly t in
    let (huge, huge') = huge_exactly t in
    (
      λ h. ground (arith, tally-shift t, extreme-high t, night, above, often, huge),
      λ h. ground (arith, tally-shift t, extreme-high t, night', above', often', huge'),
    )
