-- ===== src/Antifraud.antt =====
-- app/antifraude/rules.py: the rules and the engine. The hour is what `validate_time` leaves of the
-- time's text; amounts are cents.
pub mod Decision
use payvorax.Base.{ℕ, ◌+◌, min, Bool, ◌&&◌, ◌||◌, List, [], ◌∷◌, ltb, leb, if◌then◌else◌}

pub record AntifraudTransaction : Type 0 where
  pub value : ℕ
  pub hour : ℕ
  pub attempts_last_24h : ℕ
  pub account_age_days : ℕ
  pub total_transactions_30d : ℕ

pub data Rule : Type 0 where
  night_time high_value excessive_attempts extreme_value : Rule

unfoldable pub points : Rule → ℕ
points night_time = 40
points high_value = 30
points excessive_attempts = 50
points extreme_value = 60

-- `HighValueRule._threshold`
unfoldable pub threshold : AntifraudTransaction → ℕ
threshold t =
    if leb 180 t.account_age_days && leb 30 t.total_transactions_30d
    then 1000000
    else if leb 90 t.account_age_days && leb 10 t.total_transactions_30d
    then 200000
    else 30000

unfoldable pub evaluate : Rule → AntifraudTransaction → Bool
unfolding threshold
evaluate night_time t = leb 22 t.hour || ltb t.hour 6
evaluate high_value t = ltb (threshold t) t.value
evaluate excessive_attempts t = ltb 3 t.attempts_last_24h
evaluate extreme_value t = ltb 2000000 t.value

-- The rules in the order of the engine.
abbrev pub rules : List Rule
rules = night_time ∷ high_value ∷ excessive_attempts ∷ extreme_value ∷ []

pub data RiskLevel : Type 0 where
  low medium high : RiskLevel

pub record Analysis : Type 0 where
  pub score : ℕ
  pub approved : Bool
  pub triggered_rules : List Rule
  pub risk_level : RiskLevel

-- The loop of `analyze`: the score and the triggered rules so far.
unfoldable pub tally : AntifraudTransaction → List Rule → ℕ → ℕ
tally t [] score = score
tally t (r ∷ rs) score = tally t rs (if evaluate r t then score + points r else score)

unfoldable pub triggered : AntifraudTransaction → List Rule → List Rule
triggered t [] = []
triggered t (r ∷ rs) = if evaluate r t then r ∷ triggered t rs else triggered t rs

abbrev approval_limit : ℕ
approval_limit = 80

unfoldable pub risk_of : ℕ → RiskLevel
risk_of score = if ltb score 30 then low else if ltb score 60 then medium else high

-- `AntifraudEngine.analyze`
unfoldable pub analyze : AntifraudTransaction → Analysis
analyze t =
    let score = min (tally t rules 0) 100 in
    record {
      score = score;
      approved = ltb score approval_limit;
      triggered_rules = triggered t rules;
      risk_level = risk_of score;
    }
