-- ===== src/Auth/RateLimit.antt =====
-- `_rate_limit` (app/auth/router.py) and `_check_rate_limit` (app/web_routes.py): a sliding window of
-- the times of the last requests from each address. Times are those of a monotonic clock.
pub mod Window
use payvorax.Base.{ℕ, ◌+◌, Bool, true, false, List, [], ◌∷◌, ◌++◌, ltb, leb, if◌then◌else◌, length}
use payvorax.Base.Text.{Text, text_eq}

-- The times of the requests that were let through, oldest first, for each address.
abbrev pub Store : Type 0
Store = List (Text × List ℕ)

abbrev pub times_of : Text → Store → List ℕ
times_of ip [] = []
times_of ip (e ∷ es) = if text_eq e.0 ip then e.1 else times_of ip es

abbrev pub put_times : Text → List ℕ → Store → Store
put_times ip ts [] = (ip, ts) ∷ []
put_times ip ts (e ∷ es) = if text_eq e.0 ip then (ip, ts) ∷ es else e ∷ put_times ip ts es

-- `while ts and ts[0] < now - window: ts.popleft()`
abbrev pub evict : ℕ → ℕ → List ℕ → List ℕ
evict now window [] = []
evict now window (t ∷ ts) = if ltb (t + window) now then evict now window ts else t ∷ ts

-- `false` stands for the answer 429.
unfoldable pub rate_limit : ℕ → Text → ℕ → ℕ → Store → Bool × Store
rate_limit now ip max_req window store =
    let ts = evict now window (times_of ip store) in
    if leb max_req (length ts)
    then (false, put_times ip ts store)
    else (true, put_times ip (ts ++ now ∷ []) store)

-- `_LOGIN_MAX`, `_LOGIN_WINDOW`, `_REG_MAX`, `_REG_WINDOW`
abbrev pub login_max : ℕ
login_max = 5

abbrev pub login_window : ℕ
login_window = 60

abbrev pub reg_max : ℕ
reg_max = 3

abbrev pub reg_window : ℕ
reg_window = 300
