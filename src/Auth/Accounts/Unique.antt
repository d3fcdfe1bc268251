-- ===== src/Auth/Accounts/Unique.antt =====
-- Documents and emails belong to one account each.
use payvorax.Bank.{Bank, User}
use payvorax.Auth.Accounts.{AuthContext, new_user, has_email_or_document}
use payvorax.Auth.Accounts.Calls.{AuthOp, KeepsAccount, auth_run, auth_run-keeps}
use payvorax.Pix.Transfer.{by_document}
use payvorax.Base.Query.{All-find_first, All, All-update, All-append, update_first, find_first}
use payvorax.Base.{
  ◌≡◌, ap, ◌∙◌, Bool, false, none, List, [], ◌∷◌, ◌++◌, arith, if-holds, subst, inl, inr, some,
  Bool-cases,
}
use payvorax.Base.Text.{text_eq, text_eq_refl}

abbrev pub Apart : User → User → Type 0
Apart u x = (text_eq u.email x.email ≡ false) × (text_eq u.cpf_cnpj x.cpf_cnpj ≡ false)

-- No two accounts have the same email, and none the same document.
abbrev pub AllApart : List User → Type 0
AllApart [] = Unit
AllApart (u ∷ us) = All (Apart u) us × AllApart us

append-AllApart :
    (u : User) (us : List User)
    → find_first (has_email_or_document u.email u.cpf_cnpj) us ≡ none
    → AllApart us
    → AllApart (us ++ u ∷ [])
append-AllApart u [] none_found h = (tt, tt)
append-AllApart u (x ∷ us) none_found h = (
  All-append (Apart x) us u h.0 (ground (arith, none_found), ground (arith, none_found)),
  append-AllApart u us (ground (arith, none_found)) h.1,
)

-- A write that leaves email and document alone.
module _ (p : User → Bool) (f : User → User) (keeps : KeepsAccount f) where
  update-Apart :
      (u : User) (us : List User) → All (Apart u) us → All (Apart u) (update_first p f us)
  update-Apart u us =
      All-update (Apart u) p f us
        (λ x h. (ap (text_eq u.email) (keeps x).0 ∙ h.0, ap (text_eq u.cpf_cnpj) (keeps x).1 ∙ h.1))

  write-Apart : (u : User) (us : List User) → All (Apart u) us → All (Apart (f u)) us
  write-Apart u [] h = tt
  write-Apart u (x ∷ us) h = (
    (
      ap (λ t. text_eq t x.email) (keeps u).0 ∙ h.0.0,
      ap (λ t. text_eq t x.cpf_cnpj) (keeps u).1 ∙ h.0.1,
    ),
    write-Apart u us h.1,
  )

  update-AllApart : (us : List User) → AllApart us → AllApart (update_first p f us)
  update-AllApart [] h = tt
  update-AllApart (u ∷ us) h =
      if-holds AllApart (p u) _ _ (λ at. (write-Apart u us h.0, h.1))
        (λ _. (update-Apart u us h.0, update-AllApart us h.1))

-- Of such accounts, the one that any query finds is the one that its document finds.
pub AllApart-by_document :
    (p : User → Bool) (us : List User) (u : User)
    → AllApart us
    → find_first p us ≡ some u
    → find_first (by_document u.cpf_cnpj) us ≡ some u
AllApart-by_document p [] u h e = cc
AllApart-by_document p (x ∷ us) u h e = elim (Bool-cases (p x)) [
  | inl here ↦
      let same : x ≡ u = ground (arith, here) in
      subst (λ (v : User). find_first (by_document v.cpf_cnpj) (x ∷ us) ≡ some v) same
        (ground (arith, text_eq_refl x.cpf_cnpj))
  | inr there ↦
      let later : find_first p us ≡ some u = ground (arith, there) in
      ground (
        arith,
        (All-find_first (Apart x) p us u h.0 later).1,
        AllApart-by_document p us u h.1 later,
      )
]

-- If no two accounts have the same email or the same document, none have after any sequence of
-- registrations, links that are followed, requests for a mail or a recovery code, changes of password,
-- and the administrator's mails and edits of a profile, whatever their arguments.
pub auth_run-AllApart :
    (os : List (AuthContext × AuthOp)) (b : Bank)
    → AllApart b.users
    → AllApart (auth_run os b).users
auth_run-AllApart =
    auth_run-keeps AllApart (λ c d us free h. append-AllApart (new_user c d) us free h)
      (λ p f us keeps h. update-AllApart p f keeps us h)
