-- ===== src/Auth/Sessions.antt =====
-- app/auth/service.py (the tokens), app/auth/dependencies.py and `refresh_token`
-- (app/auth/router.py): who a request comes from. The library for tokens (jose) is a parameter.
pub mod Access
use payvorax.Pix.Transfer.{by_document}
use payvorax.Pix.Send.{is_deposit_of}
use payvorax.Base.{
  ℕ, ◌+◌, Bool, true, false, not, ◌||◌, Option, none, some, [], ◌∷◌, ◌++◌, ◌==◌, if◌then◌else◌,
}
use payvorax.Base.Text.{Text, codes, truthy}
use payvorax.Base.Query.{find_first}
use payvorax.Bank.{
  Result, inactive_account, not_authenticated, email_unverified, invalid_token, invalid_session,
  admin_only, ok, raise, User, Bank,
}

-- The payload of a token: `sub`, whether `type` is "refresh", and `exp`.
pub record Claims : Type 0 where
  pub sub : Option Text
  pub is_refresh : Bool
  pub exp : ℕ

-- `jwt.encode` and `jwt.decode` with the secret and the algorithm of the settings. A `JWTError`, for
-- an expired token too, is `none`.
pub record Codec : Type 0 where
  pub encode : Claims → Text
  pub decode : ℕ → Text → Option Claims

-- `ACCESS_TOKEN_EXPIRE_MINUTES` and `REFRESH_TOKEN_EXPIRE_MINUTES`, in seconds.
abbrev pub access_seconds : ℕ
access_seconds = 900

abbrev pub refresh_seconds : ℕ
refresh_seconds = 604800

-- `create_access_token` and `create_refresh_token`
abbrev pub access_claims : ℕ → User → Claims
access_claims now u = record {
  sub = some u.cpf_cnpj;
  is_refresh = false;
  exp = now + access_seconds;
}

abbrev pub refresh_claims : ℕ → User → Claims
refresh_claims now u = record {
  sub = some u.cpf_cnpj;
  is_refresh = true;
  exp = now + refresh_seconds;
}

-- The two cookies of a session.
pub record Cookies : Type 0 where
  pub access_token : Option Text
  pub refresh_token : Option Text

abbrev pub issue : Codec → ℕ → User → Cookies
issue j now u = record {
  access_token = some (codes "Bearer " ++ j.encode (access_claims now u));
  refresh_token = some (j.encode (refresh_claims now u));
}

abbrev pub before_space : Text → Text
before_space [] = []
before_space (c ∷ s) = if c == 32 then [] else c ∷ before_space s

abbrev pub after_space : Text → Text
after_space [] = []
after_space (c ∷ s) = if c == 32 then s else after_space s

-- `token = param if param else scheme`
abbrev pub bearer_token : Text → Text
bearer_token raw = elim (after_space raw) [ [] ↦ before_space raw | c ∷ s ↦ c ∷ s ]

-- A refresh token does not serve as an access token.
abbrev pub access_only : Option Claims → Option Claims
access_only none = none
access_only (some c) = if c.is_refresh then none else some c

-- `_decode_access_token`
unfoldable pub decode_access_token : Codec → ℕ → Text → Option Claims
decode_access_token j now raw = access_only (j.decode now (bearer_token raw))

-- The account that a token names.
abbrev pub user_named : Bank → Option Text → Option User
user_named b none = none
user_named b (some key) = find_first (by_document key) b.users

abbrev pub user_of : Claims → Bank → Option User
user_of c b = user_named b (truthy c.sub)

abbrev pub user_from : Option Claims → Bank → Option User
user_from none b = none
user_from (some c) b = user_of c b

-- A session is renewed for a verified account that is not suspended.
abbrev pub renewable : Option User → Option User
renewable none = none
renewable (some u) = if not u.email_verified || not u.is_active then none else some u

abbrev pub refreshed : Option Claims → Bank → Option User
refreshed none b = none
refreshed (some c) b = if not c.is_refresh then none else renewable (user_of c b)

-- `_try_refresh`; the cookies that it sets are `issue j now u`.
unfoldable pub try_refresh : Codec → ℕ → Text → Bank → Option User
try_refresh j now raw b = refreshed (j.decode now raw) b

abbrev pub access_user : Codec → ℕ → Cookies → Bank → Option User
access_user j now k b = elim (truthy k.access_token) [
  | none ↦ none
  | some raw ↦ user_from (decode_access_token j now raw) b
]

-- The end of `get_current_user`.
abbrev pub admitted : User → Option Cookies → Result (User × Option Cookies)
admitted u set = if not u.email_verified then raise email_unverified else ok (u, set)

abbrev pub by_refresh : Codec → ℕ → Option User → Result (User × Option Cookies)
by_refresh j now none = raise not_authenticated
by_refresh j now (some u) = admitted u (some (issue j now u))

-- The fallback to the refresh token.
abbrev pub renewed : Codec → ℕ → Bank → Option Text → Result (User × Option Cookies)
renewed j now b none = raise not_authenticated
renewed j now b (some raw) = by_refresh j now (try_refresh j now raw b)

abbrev pub authenticated : Codec → ℕ → Cookies → Bank → Option User → Result (User × Option Cookies)
authenticated j now k b (some u) = admitted u none
authenticated j now k b none = renewed j now b (truthy k.refresh_token)

-- `get_current_user`: the account, and the cookies that are set with the answer.
unfoldable pub get_current_user : Codec → ℕ → Cookies → Bank → Result (User × Option Cookies)
unfolding try_refresh decode_access_token
get_current_user j now k b = authenticated j now k b (access_user j now k b)

-- `require_active_account`
unfoldable pub require_active_account : User → Bank → Result User
require_active_account u b = elim (find_first (is_deposit_of u.id) b.pix) [
  | none ↦ raise inactive_account
  | some p ↦ ok u
]

-- `require_admin`
unfoldable pub require_admin : User → Result User
require_admin u = if not u.is_admin then raise admin_only else ok u

-- `refresh_token`
unfoldable pub refresh_token : Codec → ℕ → Cookies → Bank → Result Cookies
refresh_token j now k b = elim (truthy k.refresh_token) [
  | none ↦ raise not_authenticated
  | some raw ↦ elim (j.decode now raw) [
    | none ↦ raise invalid_token
    | some c ↦ if not c.is_refresh then raise invalid_token else elim (truthy c.sub) [
      | none ↦ raise invalid_token
      | some key ↦ elim (find_first (by_document key) b.users) [
        | none ↦ raise invalid_session
        | some u ↦
            if not u.email_verified || not u.is_active
            then raise invalid_session
            else ok (issue j now u)
      ]
    ]
  ]
]
