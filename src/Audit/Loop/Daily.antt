-- ===== src/Audit/Loop/Daily.antt =====
-- The end of the day is reconciled once.
use payvorax.Bank.{Bank}
use payvorax.Audit.Loop.{
  Tick, LoopState, is_last, end_of_day, audit_cycle, is_end_of_day, audited, audit_loop, start,
}
use payvorax.Base.{
  ℕ, ◌+◌, ◌≤◌, ◌<◌, ◌≡◌, ◌⊎◌, true, false, Option, none, some, List, [], ◌∷◌, ◌==◌, if◌then◌else◌,
  inl, inr, not, ◌&&◌, arith, if-holds, refl, ◌++◌,
}
use payvorax.Audit.{AuditResult}

-- The dates of the cycles never go back.
abbrev pub Ordered : ℕ → List Tick → Type 0
Ordered n [] = Unit
Ordered n (t ∷ ts) = (n ≤ t.day) × Ordered t.day ts

-- How often the end of a day has been reconciled.
unfoldable pub times_reconciled : ℕ → List ℕ → ℕ
times_reconciled d [] = 0
times_reconciled d (x ∷ xs) = (if x == d then 1 else 0) + times_reconciled d xs

-- Up to the day `n`: the day `d` is not reconciled, or it was once, today or before.
abbrev Once : ℕ → ℕ → LoopState → Type 0
Once d n s =
    ((times_reconciled d s.reconciled ≡ 0) × (is_last d s.last_eod_date ≡ false))
    ⊎ ((times_reconciled d s.reconciled ≡ 1)
        × ((d < n) ⊎ ((d ≡ n) × (is_last d s.last_eod_date ≡ true))))

module _ (d : ℕ) where
  later-Once : (n k : ℕ) (s : LoopState) → Once d n s → n ≤ k → Once d k s
  later-Once n k s (inl h) le = inl h
  later-Once n k s (inr (one, inl past)) le = inr (one, inl (ground arith))
  later-Once n k s (inr (one, inr today)) le = inr (one, ground arith)

  eod-Once :
      (n : ℕ) (t : Tick) (o : Option AuditResult × Bank) (s : LoopState)
      → Once d n s
      → n ≤ t.day
      → is_last t.day s.last_eod_date ≡ false
      → Once d t.day (end_of_day t o s)
  unfolding times_reconciled
  eod-Once n t (none, b) s h le new = later-Once n t.day s h le
  eod-Once n t (some r, b) s (inl h) le new = ground arith
  eod-Once n t (some r, b) s (inr (one, past)) le new = ground arith

  cycle-Once :
      (n : ℕ) (t : Tick) (s : LoopState) → Once d n s → n ≤ t.day → Once d t.day (audit_cycle t s)
  unfolding audit_cycle
  cycle-Once n t s h le =
      if-holds (Once d t.day) (is_end_of_day t && not (is_last t.day s.last_eod_date)) _ _
        (λ due. eod-Once n t _ s h le (ground (arith, due))) (λ _. later-Once n t.day s h le)

  eod-grows :
      (t : Tick) (o : Option AuditResult × Bank) (s : LoopState)
      → times_reconciled d s.reconciled ≤ times_reconciled d (end_of_day t o s).reconciled
  unfolding times_reconciled
  eod-grows t (none, b) s = ground arith
  eod-grows t (some r, b) s = ground arith

  cycle-grows :
      (t : Tick) (s : LoopState)
      → times_reconciled d s.reconciled ≤ times_reconciled d (audit_cycle t s).reconciled
  unfolding audit_cycle
  cycle-grows t s =
      if-holds
        (λ (x : LoopState). times_reconciled d s.reconciled ≤ times_reconciled d x.reconciled)
        (is_end_of_day t && not (is_last t.day s.last_eod_date)) _ _ (λ _. eod-grows t _ s)
        (λ _. ground arith)

  -- The cycles keep what has been reconciled, and reconcile no day twice.
  loop-Once :
      (n : ℕ) (ts : List Tick) (s : LoopState)
      → Ordered n ts
      → Once d n s
      → (times_reconciled d s.reconciled ≤ times_reconciled d (audit_loop ts s).reconciled)
        × (times_reconciled d (audit_loop ts s).reconciled ≤ 1)
  unfolding audit_loop
  loop-Once n [] s order (inl h) = (ground arith, ground (arith, h.0))
  loop-Once n [] s order (inr h) = (ground arith, ground (arith, h.0))
  loop-Once n (t ∷ ts) s order h =
      let rest = loop-Once t.day ts (audit_cycle t s) order.1 (cycle-Once n t s h order.0) in
      (ground (arith, cycle-grows t s, rest.0), rest.1)

  -- A cycle at the end of the day `d`.
  due-reconciled :
      (n : ℕ) (t : Tick) (s : LoopState)
      → Once d n s
      → t.day ≡ d
      → is_end_of_day t ≡ true
      → t.audit_fails ≡ false
      → 1 ≤ times_reconciled d (audit_cycle t s).reconciled
  unfolding audit_cycle audited times_reconciled
  due-reconciled n t s (inl h) at due fine = ground arith
  due-reconciled n t s (inr h) at due fine = ground (arith, h.0)

day-Once :
    (before after : List Tick) (t : Tick) (n : ℕ) (s : LoopState)
    → Ordered n (before ++ t ∷ after)
    → Once t.day n s
    → is_end_of_day t ≡ true
    → t.audit_fails ≡ false
    → times_reconciled t.day (audit_loop (before ++ t ∷ after) s).reconciled ≡ 1
unfolding audit_loop
day-Once [] after t n s order h due fine =
    let rest =
      loop-Once t.day t.day after (audit_cycle t s) order.1 (cycle-Once t.day n t s h order.0) in
    ground (arith, due-reconciled t.day n t s h refl due fine, rest.0, rest.1)
day-Once (x ∷ before) after t n s order h due fine =
    day-Once before after t x.day (audit_cycle x s) order.1 (cycle-Once t.day n x s h order.0) due
      fine

-- A day on which some cycle falls between 03:00 and 03:05 UTC and its audit does not fail is
-- reconciled exactly once, whatever the other cycles meet, if the dates of the cycles never go back.
pub audit_loop-reconciles_once :
    (before after : List Tick) (t : Tick) (b : Bank)
    → Ordered 0 (before ++ t ∷ after)
    → is_end_of_day t ≡ true
    → t.audit_fails ≡ false
    → times_reconciled t.day (audit_loop (before ++ t ∷ after) (start b)).reconciled ≡ 1
unfolding times_reconciled
audit_loop-reconciles_once before after t b order due fine =
    day-Once before after t 0 (start b) order (inl (refl, refl)) due fine
