-- ===== src/Go.antt =====
-- Go's `error` values and the pair `(value, error)` that a fallible function returns.
use mzl_payment_app.Common.{
  String, Bool, true, false, contains, Option, none, some, ◌≡◌, refl, ◌⊎◌, inl, inr,
}
use mzl_payment_app.Common.Text.{◌+++◌}

-- `new` is `errors.New`, or `fmt.Errorf` with no `%w`; `wrapped` is `fmt.Errorf(prefix + ": %w")`;
-- `client` is an error that a client library returned, with its text. The others are the
-- sentinels that `errors.Is` compares by identity, `db.ErrNotFound` and those of the services, and
-- a panic, which ends the request like an error.
pub data GoError : Type 0 where
  new : String → GoError
  wrapped : String → GoError → GoError
  client : String → GoError
  not_found : GoError
  transaction_already_processed : GoError
  wallet_not_found : GoError
  user_already_exists : GoError
  panicked : String → GoError

-- `err.Error()`
abbrev pub message : GoError → String
message (GoError.new s) = s
message (GoError.wrapped s e) = s +++ ": " +++ message e
message (GoError.client s) = s
message GoError.not_found = "ErrNotFound"
message GoError.transaction_already_processed = "transaction with this reference already exists"
message GoError.wallet_not_found = "wallet not found for this currency"
message GoError.user_already_exists = "email already in use"
message (GoError.panicked s) = s

-- `strings.Contains(err.Error(), part)`
abbrev pub mentions : GoError → String → Bool
mentions e part = contains (message e) part

-- `errors.Is(err, ErrTransactionAlreadyProcessed)`
abbrev pub is_already_processed : GoError → Bool
is_already_processed GoError.transaction_already_processed = true
is_already_processed (GoError.wrapped s e) = is_already_processed e
is_already_processed _ = false

-- `errors.Is(err, ErrWalletNotFound)`
abbrev pub is_wallet_not_found : GoError → Bool
is_wallet_not_found GoError.wallet_not_found = true
is_wallet_not_found (GoError.wrapped s e) = is_wallet_not_found e
is_wallet_not_found _ = false

-- `errors.Is(err, db.ErrNotFound)`
abbrev pub is_not_found : GoError → Bool
is_not_found GoError.not_found = true
is_not_found (GoError.wrapped s e) = is_not_found e
is_not_found _ = false

-- `errors.Is(err, ErrUserAlreadyExists)`
abbrev pub is_user_already_exists : GoError → Bool
is_user_already_exists GoError.user_already_exists = true
is_user_already_exists (GoError.wrapped s e) = is_user_already_exists e
is_user_already_exists _ = false

-- The request ended in a panic.
abbrev pub is_panic : GoError → Bool
is_panic (GoError.panicked s) = true
is_panic (GoError.wrapped s e) = is_panic e
is_panic _ = false

pub data Result (A : Type 0) : Type 0 where
  ok : A → Result A
  err : GoError → Result A

-- What a function that returns `(*T, error)` came back with.
pub Found-cases :
    {A : Type 0} (r : Result (Option A))
    → ((a : A) × (r ≡ ok (some a))) ⊎ (r ≡ ok none) ⊎ ((e : GoError) × (r ≡ err e))
Found-cases (ok (some a)) = inl (a, refl)
Found-cases (ok none) = inr (inl refl)
Found-cases (err e) = inr (inr (e, refl))
