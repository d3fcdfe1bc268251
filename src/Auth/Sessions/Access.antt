-- ===== src/Auth/Sessions/Access.antt =====
-- Who gets in with which cookies, and for how long.
use payvorax.Auth.Sessions.{
  Codec, Claims, issue, bearer_token, decode_access_token, try_refresh, access_user,
  get_current_user, access_claims, refresh_claims, access_seconds, refresh_seconds, access_only,
  user_of, user_named, renewed, authenticated, by_refresh, user_from, renewable, refreshed,
}
use payvorax.Base.{
  ℕ, ◌+◌, ◌≡◌, refl, true, false, ◌&&◌, none, some, [], ◌∷◌, ◌++◌, leb, if◌then◌else◌, ap, ◌∙◌, inl,
  inr, Bool, arith, Bool-cases,
}
use payvorax.Base.Text.{Text, codes, text_eq, truthy}
use payvorax.Base.Query.{find_first}
use payvorax.Bank.{not_authenticated, ok, raise, User, Bank}
use payvorax.Pix.Transfer.{by_document}

-- What the library for tokens promises: a token is not empty, and gives its claims back until it
-- expires.
pub record IsCodec (j : Codec) : Type 0 where
  pub decode-encode :
      (now : ℕ) (c : Claims) → j.decode now (j.encode c) ≡ (if leb now c.exp then some c else none)
  pub encode-filled : (c : Claims) → text_eq (j.encode c) [] ≡ false

truthy-filled : (s : Text) → text_eq s [] ≡ false → truthy (some s) ≡ some s
unfolding text_eq
truthy-filled [] h = cc
truthy-filled (c ∷ s) h = refl

-- The token behind "Bearer ".
bearer_token-Bearer : (s : Text) → text_eq s [] ≡ false → bearer_token (codes "Bearer " ++ s) ≡ s
unfolding text_eq
bearer_token-Bearer [] h = cc
bearer_token-Bearer (c ∷ s) h = refl

module _ (j : Codec) (law : IsCodec j) (now later : ℕ) (u : User) (b : Bank)
    (found : find_first (by_document u.cpf_cnpj) b.users ≡ some u)
    (filled : text_eq u.cpf_cnpj [] ≡ false) (verified : u.email_verified ≡ true) where
  own-user_of :
      (refresh : Bool) (at : ℕ)
      → user_of (record { sub = some u.cpf_cnpj; is_refresh = refresh; exp = at }) b ≡ some u
  own-user_of refresh at = ap (user_named b) (truthy-filled u.cpf_cnpj filled) ∙ found

  issued-decode :
      decode_access_token j later (codes "Bearer " ++ j.encode (access_claims now u))
      ≡ (if leb later (now + access_seconds) then some (access_claims now u) else none)
  unfolding decode_access_token
  issued-decode =
      let c = access_claims now u in
      ap (λ t. access_only (j.decode later t))
        (bearer_token-Bearer (j.encode c) (law.encode-filled c))
      ∙ ap access_only (law.decode-encode later c)
      ∙ elim (Bool-cases (leb later (now + access_seconds))) [
        | inl h ↦ rw h refl
        | inr h ↦ rw h refl
      ]

  issued-access_user :
      access_user j later (issue j now u) b
      ≡ (if leb later (now + access_seconds) then some u else none)
  issued-access_user =
      ap (λ o. user_from o b) issued-decode ∙ elim (Bool-cases (leb later (now + access_seconds))) [
        | inl h ↦ rw h (own-user_of false (now + access_seconds))
        | inr h ↦ rw h refl
      ]

  issued-try_refresh :
      try_refresh j later (j.encode (refresh_claims now u)) b
      ≡ (if u.is_active && leb later (now + refresh_seconds) then some u else none)
  unfolding try_refresh
  issued-try_refresh =
      ap (λ o. refreshed o b) (law.decode-encode later (refresh_claims now u))
      ∙ elim (Bool-cases (leb later (now + refresh_seconds))) [
        | inl h ↦
            rw h
              (ap renewable (own-user_of true (now + refresh_seconds)) ∙ ground (arith, verified))
        | inr h ↦ rw h (ground arith)
      ]

  renewal :
      (t : Bool)
      → by_refresh j later (if t then some u else none)
        ≡ (if t then ok (u, some (issue j later u)) else raise not_authenticated)
  renewal true = ground (arith, verified)
  renewal false = refl

  -- The session that is opened for a verified account with a document of its own: for 15 minutes its
  -- access token gives the account, whether it is suspended or not; after that and until 7 days have
  -- passed its refresh token gives the account and a new session, if the account is not suspended;
  -- otherwise the request is refused.
  pub session_lasts : get_current_user j later (issue j now u) b ≡ (
      if leb later (now + access_seconds)
      then ok (u, none)
      else if u.is_active && leb later (now + refresh_seconds)
      then ok (u, some (issue j later u))
      else raise not_authenticated)
  unfolding get_current_user
  session_lasts =
      ap (authenticated j later (issue j now u) b) issued-access_user
      ∙ elim (Bool-cases (leb later (now + access_seconds))) [
        | inl h ↦ ground (arith, verified, h)
        | inr h ↦
            let c = refresh_claims now u in
            rw h (
              ap (renewed j later b) (truthy-filled (j.encode c) (law.encode-filled c))
              ∙ ap (by_refresh j later) issued-try_refresh
              ∙ renewal (u.is_active && leb later (now + refresh_seconds)))
      ]
