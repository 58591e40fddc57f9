-- ===== src/Repository/User.antt =====
-- internals/repository/user_repository.go: `userRepo`, method by method.
pub mod Tokens
pub mod Keys
pub mod Registration
use mzl_payment_app.Common.{
  ℕ, String, Bool, true, false, Option, none, some, List, [], ◌∷◌, ◌==◌, ◌||◌, is_some,
}
use mzl_payment_app.Common.Table.{find}
use mzl_payment_app.Go.{GoError, Result, ok, err}
use mzl_payment_app.External.{Externals}
use mzl_payment_app.World.{Action, pure, fail, ◌>>=◌, ◌>>◌, attempt, run_query, now, wrapped_as}
use mzl_payment_app.Schema.Tables.{Tables, User, Wallet, RefreshToken}
use mzl_payment_app.Schema.Query.{Query, find_query}
use mzl_payment_app.Schema.Assets.{create_asset}
use mzl_payment_app.Schema.Users.{
  create_user, create_wallet, update_pin, create_token, revoke_token, is_valid_token, has_email,
  has_user_id,
}
use mzl_payment_app.Repository.Wallet.{attach, wallet_of}
use mzl_payment_app.Utils.{generate_account_number}

module _ ⦃x : Externals⦄ where
  abbrev pub number_or : Result ℕ → Action ℕ
  number_or (ok n) = pure n
  number_or (err _) = fail (GoError.new "failed to create account number")

  -- Three queries, each on its own.
  unfoldable pub create_user_with_wallet : String → String → String → Action User
  create_user_with_wallet email password name = do
    user ← wrapped_as "failed to create user" (run_query (create_user email password name))
    drawn ← attempt generate_account_number
    number ← number_or drawn
    wallet ←
        wrapped_as "failed to create wallet" (run_query (create_wallet (x.show_int number) user.id))
    wrapped_as "failed to create default asset" (run_query (create_asset wallet.id "NGN" x.zero_f))
    pure user

  unfoldable pub find_user_by_email : String → Action (Option User)
  find_user_by_email email = run_query (find_query λ t. find (has_email email) t.users)

  unfoldable pub find_user_by_id : String → Action (Option User)
  find_user_by_id user_id = run_query (find_query λ t. find (has_user_id user_id) t.users)

  unfoldable pub update_transaction_pin : String → String → Action (Unit {0})
  update_transaction_pin user_id hashed_pin = run_query (update_pin user_id hashed_pin)

  -- `user.TransactionPin()`; no pin is the empty text
  abbrev pub pin_or_empty : Option String → String
  pin_or_empty none = ""
  pin_or_empty (some pin) = pin

  -- The client returns no nil user without an error, and the code reads it unguarded.
  abbrev pub pin_of : Option User → Action String
  pin_of none = fail (GoError.panicked "nil pointer dereference")
  pin_of (some u) = pure (pin_or_empty u.transaction_pin)

  unfoldable pub get_transaction_pin : String → Action String
  get_transaction_pin user_id = do
    user ← run_query (find_query λ t. find (has_user_id user_id) t.users)
    pin_of user

  unfoldable pub save_refresh_token : String → String → ℕ → Action (Unit {0})
  save_refresh_token user_id token expires_at = run_query (create_token user_id token expires_at)

  unfoldable pub validate_refresh_token : String → Action Bool
  validate_refresh_token token = do
    time ← now
    found ← run_query (find_query λ t. find (is_valid_token token time) t.refresh_tokens)
    pure (is_some found)

  unfoldable pub revoke_refresh_token : String → Action (Unit {0})
  revoke_refresh_token token = run_query (revoke_token token)

  -- `User.Or(Email.Equals(query), Wallet.Where(AccountNumber.Equals(query)))`
  abbrev pub has_number : String → Option Wallet → Bool
  has_number number none = false
  has_number number (some w) = w.account_number == number

  abbrev pub matches : String → Tables x.F → User → Bool
  matches query t u = u.email == query || has_number query (wallet_of u t)

  abbrev pub user_by_query : String → Tables x.F → Option (User × Option Wallet)
  user_by_query query t = attach wallet_of t (find (matches query t) t.users)

  unfoldable pub find_user_by_email_or_account : String → Action (Option (User × Option Wallet))
  find_user_by_email_or_account query = run_query (find_query (user_by_query query))
