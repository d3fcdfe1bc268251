-- ===== src/Bank/Money.antt =====
-- Users by their keys, and the balance queries of app/pix/service.py.
use payvorax.Base.{ℕ, ◌+◌, ◌-◌, ◌%◌, Bool, not, ◌&&◌, ◌||◌, Option, none, some, ◌==◌, ltb, leb}
use payvorax.Base.Int.{ℤ, pos, pos_part, ◌-ℤ◌}
use payvorax.Base.Query.{find_first, update_first, sum_where, sum_of}
use payvorax.Bank.Tables.{
  User, PixTransaction, Bank, is_sent, is_processing, is_confirmed, is_created, fee_of,
}
use payvorax.Bank.Results.{Result, ok, raise, user_not_found}

abbrev pub user_is : ℕ → User → Bool
user_is k u = k == u.id

-- `db.query(User).filter(User.id == k).first()`
abbrev pub find_user : ℕ → Bank → Option User
find_user k b = find_first (user_is k) b.users

abbrev pub with_balance : ℤ → User → User
with_balance v u = record u { balance = v }

-- `user.balance = v; db.add(user)`
abbrev pub set_balance : ℕ → ℤ → Bank → Bank
set_balance k v b = record b { users = update_first (user_is k) (with_balance v) b.users }

-- The sum of all balances, the platform's account among them.
abbrev pub total_balance : Bank → ℤ
total_balance b = sum_of (λ (u : User). u.balance) b.users

-- `get_balance`, which `get_user_balance` repeats.
unfoldable get_balance : ℕ → Bank → Result ℤ
get_balance k b = elim (find_user k b) [ none ↦ raise user_not_found | some u ↦ ok u.balance ]

abbrev is_pending_outbound : ℕ → PixTransaction → Bool
is_pending_outbound k p = k == p.user_id && is_sent p.type && is_processing p.status

abbrev value_and_fee : PixTransaction → ℕ
value_and_fee p = p.value + fee_of p

unfoldable pub pending_outbound : ℕ → Bank → ℕ
pending_outbound k b = sum_where (is_pending_outbound k) value_and_fee b.pix

-- `max(Decimal("0.00"), available)`
unfoldable pub get_available_balance : ℕ → Bank → Result ℕ
get_available_balance k b = elim (find_user k b) [
  | none ↦ raise user_not_found
  | some u ↦ ok (pos_part (u.balance -ℤ pos (pending_outbound k b)))
]

-- `_today_utc_range`, in seconds.
abbrev today_utc_range : ℕ → ℕ × ℕ
today_utc_range now = let start = now - now % 86400 in (start, start + 86400)

abbrev created_today : ℕ → PixTransaction → Bool
created_today now p =
    leb (today_utc_range now).0 p.created_at && ltb p.created_at (today_utc_range now).1

abbrev is_sent_today : ℕ → ℕ → PixTransaction → Bool
is_sent_today now k p =
    k == p.user_id
    && is_sent p.type
    && (is_created p.status || is_processing p.status || is_confirmed p.status)
    && created_today now p

unfoldable pub get_daily_sent_total : ℕ → ℕ → Bank → ℕ
get_daily_sent_total now k b = sum_where (is_sent_today now k) value_and_fee b.pix

abbrev is_received_today : ℕ → ℕ → PixTransaction → Bool
is_received_today now k p =
    k == p.user_id && not (is_sent p.type) && is_confirmed p.status && created_today now p

unfoldable get_daily_received_total : ℕ → ℕ → Bank → ℕ
get_daily_received_total now k b =
    sum_where (is_received_today now k) (λ (p : PixTransaction). p.value) b.pix
