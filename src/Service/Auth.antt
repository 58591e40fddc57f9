-- ===== src/Service/Auth.antt =====
-- internals/service/auth_service.go: `authService`, method by method, but for `RevokeRefreshToken`,
-- which is the method of the repository that it calls; and internals/utils/jwt.go.
pub mod Rotation
pub mod Pins
pub mod Accounts
pub mod PinRoundtrip
use mzl_payment_app.Common.{
  ℕ, suc, ◌+◌, String, Bool, true, false, not, Option, none, some, ◌==◌, ◌||◌, eqb, if◌then◌else◌,
}
use mzl_payment_app.Common.Text.{◌+++◌}
use mzl_payment_app.Go.{GoError, Result, ok, err}
use mzl_payment_app.External.{Externals}
use mzl_payment_app.External.Messages.{UserCacheDto}
use mzl_payment_app.World.{
  World, Action, pure, fail, ◌>>=◌, ◌>>◌, attempt, ignore, fail_if, lift, now,
}
use mzl_payment_app.Schema.Tables.{User}
use mzl_payment_app.Queue.{delete, get_value, set_value}
use mzl_payment_app.Repository.User.{
  create_user_with_wallet, find_user_by_email, find_user_by_id, update_transaction_pin,
  get_transaction_pin, save_refresh_token, validate_refresh_token, revoke_refresh_token,
  pin_or_empty,
}
use mzl_payment_app.Service.Payment.Paystack.{getenv}

pub record TokenPair : Type 0 where
  pub access_token : String
  pub refresh_token : String

-- 15 minutes and 7 days, in nanoseconds.
abbrev pub access_time : ℕ
access_time = 900000000000

abbrev pub refresh_time : ℕ
refresh_time = 604800000000000

abbrev pub profile_key : String → String
profile_key user_id = "user_profile:" +++ user_id

-- The password is not cached, and the pin of the result is set even where it is empty.
abbrev pub from_user_cache : UserCacheDto → User
from_user_cache c = record {
  id = c.id;
  email = c.email;
  password = "";
  name = c.full_name;
  transaction_pin = some c.transaction_pin;
}

module _ ⦃x : Externals⦄ where
  abbrev pub to_user_cache : User → UserCacheDto
  to_user_cache u = record {
    id = u.id;
    email = u.email;
    full_name = u.name;
    transaction_pin = pin_or_empty u.transaction_pin;
  }

  unfoldable pub generate_token_pair : String → Action TokenPair
  generate_token_pair user_id = do
    t ← now
    access ←
        lift (x.sign_token (getenv "JWT_ACCESS_SECRET") user_id (x.unix (t + access_time)) none)
    u ← now
    refresh ← lift (
        x.sign_token (getenv "JWT_REFRESH_SECRET") user_id (x.unix (u + refresh_time))
          (some "refresh"))
    pure (record { access_token = access; refresh_token = refresh })

  -- `existingUser, _ := FindUserByEmail(…)`
  abbrev pub is_found : {A : Type 0} → Result (Option A) → Bool
  is_found (ok (some _)) = true
  is_found (ok none) = false
  is_found (err _) = false

  -- `bcrypt.GenerateFromPassword`
  unfoldable pub hash_password : String → Action String
  hash_password password w = (x.bcrypt_hash w.calls password, record w { calls = suc w.calls })

  abbrev pub user_or_exists : Result User → Action User
  user_or_exists (ok user) = pure user
  user_or_exists (err e) =
      if x.is_err_unique_constraint e then fail GoError.user_already_exists else fail e

  unfoldable pub register : String → String → String → Action User
  register email password full_name = do
    existing ← attempt (find_user_by_email email)
    fail_if (is_found existing) GoError.user_already_exists
    hashed ← hash_password password
    created ← attempt (create_user_with_wallet email hashed full_name)
    user_or_exists created

  abbrev pub user_or_invalid : Result (Option User) → Action User
  user_or_invalid (ok (some user)) = pure user
  user_or_invalid (ok none) = fail (GoError.panicked "nil pointer dereference")
  user_or_invalid (err _) = fail (GoError.new "invalid credentials")

  unfoldable pub login : String → String → Action TokenPair
  login email password = do
    found ← attempt (find_user_by_email email)
    user ← user_or_invalid found
    fail_if (not (x.bcrypt_matches user.password password)) (GoError.new "invalid credentials")
    tokens ← generate_token_pair user.id
    t ← now
    save_refresh_token user.id tokens.refresh_token (t + refresh_time)
    pure tokens

  -- `jwt.Parse` and the claim `sub`, taken as a text without a test
  abbrev pub subject_or_fail : Result (Option String) → Action String
  subject_or_fail (ok (some user_id)) = pure user_id
  subject_or_fail (ok none) = fail (GoError.panicked "interface conversion")
  subject_or_fail (err _) = fail (GoError.new "invalid refresh token")

  -- `if err != nil || !isValid { … }`
  abbrev pub valid_or_revoke : String → Result Bool → Action (Unit {0})
  valid_or_revoke old (ok true) = pure tt
  valid_or_revoke old (ok false) = do
    revoke_refresh_token old
    fail (GoError.new "token has been revoked or used")
  valid_or_revoke old (err _) = do
    revoke_refresh_token old
    fail (GoError.new "token has been revoked or used")

  unfoldable pub rotate_refresh_token : String → Action TokenPair
  rotate_refresh_token old = do
    time ← now
    user_id ← subject_or_fail (x.parse_token (getenv "JWT_REFRESH_SECRET") time old)
    valid ← attempt (validate_refresh_token old)
    valid_or_revoke old valid
    tokens ← generate_token_pair user_id
    revoke_refresh_token old
    t ← now
    save_refresh_token user_id tokens.refresh_token (t + refresh_time)
    pure tokens

  abbrev pub user_or_panic : Option User → Action User
  user_or_panic (some user) = pure user
  user_or_panic none = fail (GoError.panicked "nil pointer dereference")

  unfoldable pub read_profile : String → Action User
  read_profile user_id = do
    found ← find_user_by_id user_id
    user ← user_or_panic found
    ignore (set_value x.user_codec (profile_key user_id) (to_user_cache user) 1800)
    pure user

  abbrev pub profile_or_read : String → Result UserCacheDto → Action User
  profile_or_read user_id (ok c) = pure (from_user_cache c)
  profile_or_read user_id (err _) = read_profile user_id

  unfoldable pub get_user_by_id : String → Action User
  get_user_by_id user_id = do
    cached ← attempt (get_value x.user_codec (profile_key user_id))
    profile_or_read user_id cached

  unfoldable pub verify_transaction_pin : String → String → Action (Unit {0})
  verify_transaction_pin user_id plain_pin = do
    hashed ← get_transaction_pin user_id
    fail_if (hashed == "") (GoError.new "transaction pin not set")
    fail_if (not (x.bcrypt_matches hashed plain_pin)) (GoError.new "invalid transaction pin")

  unfoldable pub set_transaction_pin : String → String → Action (Unit {0})
  set_transaction_pin user_id plain_pin = do
    fail_if (not (eqb (x.byte_length plain_pin) 4)) (GoError.new "pin must be 4 digits")
    hashed ← hash_password plain_pin
    ignore (delete (profile_key user_id))
    update_transaction_pin user_id hashed
