-- ===== src/Schema/Users.antt =====
-- The effect of the queries that the program builds on `User`, `Wallet` and `RefreshToken`.
use mzl_payment_app.Common.{
  ℕ, String, Bool, true, false, none, some, [], ◌∷◌, ◌++◌, ◌==◌, ◌&&◌, ◌||◌, not, if◌then◌else◌,
  is_some, ltb,
}
use mzl_payment_app.Common.Table.{find, update}
use mzl_payment_app.External.{Externals}
use mzl_payment_app.Schema.Tables.{Tables, User, Wallet, RefreshToken}
use mzl_payment_app.Schema.Query.{Query, done, violates, Violation}

module _ ⦃x : Externals⦄ where
  abbrev pub has_user_id : String → User → Bool
  has_user_id id u = u.id == id

  abbrev pub has_email : String → User → Bool
  has_email email u = u.email == email

  abbrev pub new_user : String → String → String → Tables x.F → User
  new_user email password name t = record {
    id = x.uuid t;
    email = email;
    password = password;
    name = name;
    transaction_pin = none;
  }

  -- `User.CreateOne`: `email` and the id are unique.
  unfoldable pub create_user : String → String → String → Query x.F User
  create_user email password name t =
      if is_some (find (has_email email) t.users)
      then violates Violation.unique
      else if is_some (find (has_user_id (x.uuid t)) t.users)
      then violates Violation.unique
      else done (new_user email password name t)
          (record t { users = t.users ++ new_user email password name t ∷ [] })

  abbrev pub new_wallet : String → String → Tables x.F → Wallet
  new_wallet number user_id t = record {
    id = x.uuid t;
    account_number = number;
    user_id = user_id;
    created_at = x.now_default t;
  }

  abbrev pub collides : String → String → String → Wallet → Bool
  collides id number user_id w = w.id == id || w.account_number == number || w.user_id == user_id

  -- `Wallet.CreateOne`: the id, the account number and the user are unique, and the user has to
  -- be there.
  unfoldable pub create_wallet : String → String → Query x.F Wallet
  create_wallet number user_id t =
      if is_some (find (collides (x.uuid t) number user_id) t.wallets)
      then violates Violation.unique
      else if is_some (find (has_user_id user_id) t.users)
      then done (new_wallet number user_id t)
          (record t { wallets = t.wallets ++ new_wallet number user_id t ∷ [] })
      else violates Violation.missing

  abbrev pub with_pin : String → User → User
  with_pin pin u = record u { transaction_pin = some pin }

  -- `User.FindUnique(ID).Update(TransactionPin.Set)`
  unfoldable pub update_pin : String → String → Query x.F (Unit {0})
  update_pin user_id pin t =
      if is_some (find (has_user_id user_id) t.users)
      then done tt (record t { users = update (has_user_id user_id) (with_pin pin) t.users })
      else violates Violation.missing

  abbrev pub has_token : String → RefreshToken → Bool
  has_token token r = r.token == token

  abbrev pub new_token : String → String → ℕ → Tables x.F → RefreshToken
  new_token user_id token expires_at t = record {
    id = x.uuid t;
    token = token;
    user_id = user_id;
    expires_at = expires_at;
    revoked = false;
    created_at = x.now_default t;
  }

  -- `RefreshToken.CreateOne`: `token` and the id are unique, and the user has to be there.
  unfoldable pub create_token : String → String → ℕ → Query x.F (Unit {0})
  create_token user_id token expires_at t =
      if is_some (find (has_token token) t.refresh_tokens)
      then violates Violation.unique
      else if is_some (find (λ (r : RefreshToken). r.id == x.uuid t) t.refresh_tokens)
      then violates Violation.unique
      else if is_some (find (has_user_id user_id) t.users)
      then done tt (record t {
        refresh_tokens = t.refresh_tokens ++ new_token user_id token expires_at t ∷ [];
      })
      else violates Violation.missing

  -- `Token.Equals(token), Revoked.Equals(false), ExpiresAt.After(now)`
  abbrev pub is_valid_token : String → ℕ → RefreshToken → Bool
  is_valid_token token now r = has_token token r && not r.revoked && ltb now r.expires_at

  abbrev pub with_revoked : RefreshToken → RefreshToken
  with_revoked r = record r { revoked = true }

  -- `RefreshToken.FindUnique(Token).Update(Revoked.Set(true))`
  unfoldable pub revoke_token : String → Query x.F (Unit {0})
  revoke_token token t =
      if is_some (find (has_token token) t.refresh_tokens)
      then done tt
          (record t { refresh_tokens = update (has_token token) with_revoked t.refresh_tokens })
      else violates Violation.missing
