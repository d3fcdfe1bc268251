-- ===== src/Pix/Lifecycle/Status.antt =====
-- Status changes and ledger entries: what they touch, and where they end.
use payvorax.Base.{
  ℕ, ◌≡◌, ◌≢◌, true, false, Option, none, some, List, [], ◌∷◌, arith, refl, sym, subst, ap, inl,
  inr, Bool-cases, Option-cases, ◌==◌, if◌then◌else◌, ◌++◌,
}
use payvorax.Base.Query.{
  All, All-map, update_first, find_first-holds, find_first-split, find_first-none,
}
use payvorax.Bank.{
  Outcome, not_scheduled, ok, raise, LedgerEntryStatus, PixTransaction, LedgerEntry, Bank,
  is_pending, canceled, scheduled, PixStatus, is_scheduled, settled, reversed,
}
use payvorax.Pix.Lifecycle.{
  with_status, get_pix, cancel_pix, awaits, close_entries, pix_of_user, settle_ledger_entries,
  reverse_ledger_entries,
}

-- No entry of the transaction is left pending.
pub close_entries-none_awaits :
    (st : LedgerEntryStatus) (now id : ℕ) (es : List LedgerEntry)
    → is_pending st ≡ false
    → All (λ e. awaits id e ≡ false) (close_entries st now id es)
unfolding close_entries
close_entries-none_awaits st now id [] h = tt
close_entries-none_awaits st now id (e ∷ es) h =
    (ground arith, close_entries-none_awaits st now id es h)

is_scheduled→eq : (st : PixStatus) → is_scheduled st ≡ true → st ≡ scheduled
is_scheduled→eq st h = ground arith

-- The row is transaction `id` and belongs to the user `k`.
abbrev pub IsOf : ℕ → ℕ → PixTransaction → Type 0
IsOf id k p = (p.id ≡ id) × (p.user_id ≡ k)

-- `p` is the first row of the table that is transaction `id` of the user `k`, between `pre` and
-- `post`.
pub record Stands (id k : ℕ) (p : PixTransaction) (pre post all : List PixTransaction)
    : Type 0 where
  pub matches : IsOf id k p
  pub place : all ≡ pre ++ p ∷ post
  pub earlier : All (λ q. ¬ (IsOf id k q)) pre

-- What a cancellation of user `k`'s transaction `id` has done, by how it ended.
abbrev pub Cancels : ℕ → ℕ → Bank → Outcome (Option PixTransaction) → Type 0
Cancels id k b (ok none, b') = All (λ q. ¬ (IsOf id k q)) b.pix × (b' ≡ b)
Cancels id k b (ok (some p), b') =
    (q : PixTransaction) × (pre post : List PixTransaction) × Stands id k q pre post b.pix
    × (q.status ≡ scheduled)
    × (p ≡ with_status canceled q)
    × (b' ≡ record b { pix = pre ++ p ∷ post })
Cancels id k b (raise e, b') =
    (b' ≡ b)
    × (e ≡ not_scheduled)
    × (q : PixTransaction) × (pre post : List PixTransaction) × Stands id k q pre post b.pix
    × (q.status ≢ scheduled)

matching-IsOf : (id k : ℕ) (p : PixTransaction) → pix_of_user id k p ≡ true → IsOf id k p
matching-IsOf id k p h = ground arith

not_matching-IsOf : (id k : ℕ) (p : PixTransaction) → pix_of_user id k p ≡ false → ¬ (IsOf id k p)
not_matching-IsOf id k p h (same, own) = ground arith

-- A cancellation of the user `k`'s transaction `id` ends in one of three ways. No row has that id and
-- that user: then it returns nothing and changes nothing. Or the first row with both is `SCHEDULED`:
-- then it is stored as `CANCELED` in its place, with every other field as it was, and every other row
-- of every table is as before. Or that row has another status: then the cancellation raises and
-- changes nothing.
pub cancel_pix-Cancels : (id k : ℕ) (b : Bank) → Cancels id k b (cancel_pix id k b)
unfolding cancel_pix
cancel_pix-Cancels id k b = elim (Option-cases (get_pix id k b)) [
  | inl missing ↦
      let e : cancel_pix id k b ≡ (ok none, b) = ground arith in
      subst (Cancels id k b) (sym e) (
        All-map (λ q. pix_of_user id k q ≡ false) (λ q. ¬ (IsOf id k q)) b.pix
            (not_matching-IsOf id k) (find_first-none (pix_of_user id k) b.pix missing),
        refl,
      )
  | inr (p, found) ↦
      let (pre, post, place, updated, apart) =
        find_first-split (pix_of_user id k) (with_status canceled) b.pix p found in
      let stands : Stands id k p pre post b.pix = record {
        matches = matching-IsOf id k p (find_first-holds (pix_of_user id k) b.pix p found);
        place = place;
        earlier =
            All-map (λ q. pix_of_user id k q ≡ false) (λ q. ¬ (IsOf id k q)) pre
              (not_matching-IsOf id k) apart;
      } in
      elim (Bool-cases (is_scheduled p.status)) [
        | inl waiting ↦
            let b' : Bank = record b {
              pix = update_first (pix_of_user id k) (with_status canceled) b.pix;
            } in
            let e : cancel_pix id k b ≡ (ok (some (with_status canceled p)), b') = ground arith in
            subst (Cancels id k b) (sym e) (
              p,
              pre,
              post,
              stands,
              is_scheduled→eq p.status waiting,
              refl,
              ap (λ (l : List PixTransaction). record b { pix = l }) updated,
            )
        | inr other ↦
            let e : cancel_pix id k b ≡ (raise not_scheduled, b) = ground arith in
            subst (Cancels id k b) (sym e) (refl, refl, p, pre, post, stands, (λ x. ground arith))
      ]
]

-- The ledger entries of transaction `j`.
unfoldable entries_of : ℕ → List LedgerEntry → List LedgerEntry
entries_of j [] = []
entries_of j (e ∷ es) = if j == e.tx_id then e ∷ entries_of j es else entries_of j es

close_entries-others :
    (st : LedgerEntryStatus) (now id j : ℕ) (es : List LedgerEntry)
    → j ≢ id
    → entries_of j (close_entries st now id es) ≡ entries_of j es
unfolding entries_of close_entries
close_entries-others st now id j [] ne = refl
close_entries-others st now id j (e ∷ es) ne =
    ground (arith, ne, close_entries-others st now id j es ne)

-- Settling or reversing the entries of one transaction leaves none of them pending, and leaves the
-- entries of every other transaction, and every row of the other tables, as they were.
ledger_entries_are_separate :
    (now id j : ℕ) (b : Bank)
    → j ≢ id
    → All (λ e. awaits id e ≡ false) (settle_ledger_entries now id b).ledger
      × All (λ e. awaits id e ≡ false) (reverse_ledger_entries now id b).ledger
      × (entries_of j (settle_ledger_entries now id b).ledger ≡ entries_of j b.ledger)
      × (entries_of j (reverse_ledger_entries now id b).ledger ≡ entries_of j b.ledger)
      × (settle_ledger_entries now id b
          ≡ record b { ledger = (settle_ledger_entries now id b).ledger })
      × (reverse_ledger_entries now id b
          ≡ record b { ledger = (reverse_ledger_entries now id b).ledger })
unfolding settle_ledger_entries reverse_ledger_entries
ledger_entries_are_separate now id j b ne = (
  close_entries-none_awaits settled now id b.ledger refl,
  close_entries-none_awaits reversed now id b.ledger refl,
  close_entries-others settled now id j b.ledger ne,
  close_entries-others reversed now id j b.ledger ne,
  refl,
  refl,
)
