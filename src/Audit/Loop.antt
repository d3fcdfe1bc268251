-- ===== src/Audit/Loop.antt =====
-- `_run_end_of_day_reconciliation` and `balance_audit_loop` (app/core/audit_worker.py). The rounding of
-- the balances to cents is the identity here; the analysis by a language model is left out.
pub mod Daily
use payvorax.Base.Int.{ℤ}
use payvorax.Bank.{Bank}
use payvorax.Audit.{AuditResult, run_single_audit}
use payvorax.Base.{
  ℕ, Bool, false, not, ◌&&◌, Option, none, some, List, [], ◌∷◌, ltb, ◌==◌, if◌then◌else◌,
}

-- A cycle of the loop: the UTC date (as a number of days), hour and minute, what the gateway reports,
-- and whether the audit fails, on a database error before it writes.
pub record Tick : Type 0 where
  pub day : ℕ
  pub hour : ℕ
  pub minute : ℕ
  pub asaas_balance : Option ℤ
  pub audit_fails : Bool

-- `last_eod_date`, and the dates of the end-of-day runs that have completed, latest first.
pub record LoopState : Type 0 where
  pub last_eod_date : Option ℕ
  pub reconciled : List ℕ
  pub bank : Bank

abbrev pub start : Bank → LoopState
start b = record { last_eod_date = none; reconciled = []; bank = b }

-- `_run_single_audit` never raises: a failure is a result with no figures, `none`.
unfoldable pub audited : Tick → Bank → Option AuditResult × Bank
unfolding run_single_audit
audited t b =
    if t.audit_fails
    then (none, b)
    else (let o = run_single_audit t.asaas_balance b in (some o.0, o.1))

-- The end of the day is between 03:00 and 03:05 UTC.
abbrev pub is_end_of_day : Tick → Bool
is_end_of_day t = t.hour == 3 && ltb t.minute 5

abbrev pub is_last : ℕ → Option ℕ → Bool
is_last day none = false
is_last day (some d) = d == day

-- The end of `_run_end_of_day_reconciliation` reads the figures of the audit, which raises a `KeyError`
-- where there are none; the loop catches it and leaves the date.
abbrev pub end_of_day : Tick → Option AuditResult × Bank → LoopState → LoopState
end_of_day t (none, b) s = record s { bank = b }
end_of_day t (some r, b) s = record {
  last_eod_date = some t.day;
  reconciled = t.day ∷ s.reconciled;
  bank = b;
}

unfoldable pub audit_cycle : Tick → LoopState → LoopState
unfolding audited
audit_cycle t s =
    let o = audited t s.bank in
    if is_end_of_day t && not (is_last t.day s.last_eod_date)
    then end_of_day t o s
    else record s { bank = o.1 }

-- `balance_audit_loop`, for the cycles of a list.
unfoldable pub audit_loop : List Tick → LoopState → LoopState
unfolding audit_cycle
audit_loop [] s = s
audit_loop (t ∷ ts) s = audit_loop ts (audit_cycle t s)
