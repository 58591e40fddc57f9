-- ===== src/Repository/Wallet/Quiet.antt =====
-- internals/repository/wallet_repo.go and the keys of Redis.
use mzl_payment_app.Common.{
  String, List, Option, none, some, refl, Bool, true, false, if◌then◌else◌,
}
use mzl_payment_app.Go.{GoError, Result, ok, err, mentions}
use mzl_payment_app.External.{Externals}
use mzl_payment_app.World.{World, Action, attempt, fail, run_query}
use mzl_payment_app.World.Laws.{run_find-tables}
use mzl_payment_app.World.Keeps.{Keeps, keys_of, tables_of, bind-Keeps, run_query-Keeps}
use mzl_payment_app.Schema.Tables.{TransactionType}
use mzl_payment_app.Schema.Query.{Query, transaction}
use mzl_payment_app.Repository.Wallet.{
  found_or, row_or, exec_checked, check_as_race, get_asset_by_currency,
  get_wallet_by_account_number, get_user_by_id, transfer_funds, swap_funds, credit_wallet,
  debit_for_withdrawal,
}

module _ ⦃x : Externals⦄ where
  -- What a query leaves alone.
  module _ {B : Type 0} (part : World x.F → B)
      (quiet : (A : Type 0) (q : Query x.F A) → Keeps part (run_query q)) where
    row_or-Keeps : {A : Type 0} (e : GoError) (r : Result (Option A)) → Keeps part (row_or e r)
    row_or-Keeps e (ok (some a)) w = refl
    row_or-Keeps e (ok none) w = refl
    row_or-Keeps e (err f) w = refl

    found_or-Keeps :
        {A : Type 0} (e : GoError) (m : Action (Option A))
        → Keeps part m
        → Keeps part (found_or e m)
    unfolding found_or
    found_or-Keeps e m h = bind-Keeps part (attempt m) (row_or e) h (row_or-Keeps e)

    race-Keeps :
        (e : GoError) (c : Bool)
        → Keeps part (
            if c
            then fail (GoError.new "insufficient funds (race condition)")
            else fail {A = Unit {0}} e)
    race-Keeps e true w = refl
    race-Keeps e false w = refl

    check_as_race-Keeps : (r : Result (Unit {0})) → Keeps part (check_as_race r)
    check_as_race-Keeps (ok u) w = refl
    check_as_race-Keeps (err e) w = race-Keeps e (mentions e "non_negative_balance") w

    exec_checked-Keeps : (ops : List (Query x.F (Unit {0}))) → Keeps part (exec_checked ops)
    unfolding exec_checked
    exec_checked-Keeps ops =
        bind-Keeps part (attempt (run_query (transaction ops))) check_as_race
          (quiet _ (transaction ops)) check_as_race-Keeps

    -- A withdrawal leaves alone what its queries do.
    pub debit_for_withdrawal-Keeps :
        (user_id currency : String) (amount : x.F) (reference transfer_code description : String)
        → Keeps part
            (debit_for_withdrawal user_id currency amount reference transfer_code description)
    unfolding debit_for_withdrawal get_asset_by_currency
    debit_for_withdrawal-Keeps user_id currency amount reference transfer_code description =
        bind-Keeps part _ _ (found_or-Keeps _ _ (quiet _ _))
          (λ s. bind-Keeps part _ _ (λ _. refl) (λ _. exec_checked-Keeps _))

  pub get_asset_by_currency-Keeps :
      (user_id currency : String) → Keeps keys_of (get_asset_by_currency user_id currency)
  unfolding get_asset_by_currency
  get_asset_by_currency-Keeps user_id currency = run_query-Keeps _

  pub get_wallet_by_account_number-Keeps :
      (number : String) → Keeps keys_of (get_wallet_by_account_number number)
  unfolding get_wallet_by_account_number
  get_wallet_by_account_number-Keeps number = run_query-Keeps _

  pub get_user_by_id-Keeps : (user_id : String) → Keeps keys_of (get_user_by_id user_id)
  unfolding get_user_by_id
  get_user_by_id-Keeps user_id = run_query-Keeps _

  pub credit_wallet-Keeps :
      (wallet_id currency : String) (amount : x.F) (reference description : String)
      (type : TransactionType)
      → Keeps keys_of (credit_wallet wallet_id currency amount reference description type)
  unfolding credit_wallet
  credit_wallet-Keeps wallet_id currency amount reference description type = run_query-Keeps _

  pub transfer_funds-Keeps :
      (from_user to_account currency : String) (amount : x.F) (reference ds dr : String)
      → Keeps keys_of (transfer_funds from_user to_account currency amount reference ds dr)
  unfolding transfer_funds
  transfer_funds-Keeps from_user to_account currency amount reference ds dr =
      bind-Keeps keys_of _ _
        (found_or-Keeps keys_of (λ _. run_query-Keeps) _ _
          (get_asset_by_currency-Keeps from_user currency))
        (λ s.
          bind-Keeps keys_of _ _
            (found_or-Keeps keys_of (λ _. run_query-Keeps) _ _
              (get_wallet_by_account_number-Keeps to_account))
            (λ r.
              bind-Keeps keys_of _ _ (λ _. refl)
                (λ _. exec_checked-Keeps keys_of (λ _. run_query-Keeps) _)))

  pub swap_funds-Keeps :
      (user_id from to : String) (amount_in amount_out : x.F) (reference description : String)
      → Keeps keys_of (swap_funds user_id from to amount_in amount_out reference description)
  unfolding swap_funds
  swap_funds-Keeps user_id from to amount_in amount_out reference description =
      bind-Keeps keys_of _ _
        (found_or-Keeps keys_of (λ _. run_query-Keeps) _ _
          (get_asset_by_currency-Keeps user_id from))
        (λ s.
          bind-Keeps keys_of _ _ (λ _. refl)
            (λ _. exec_checked-Keeps keys_of (λ _. run_query-Keeps) _))

  -- Its searches write no table.
  pub get_asset_by_currency-tables :
      (user_id currency : String) → Keeps tables_of (get_asset_by_currency user_id currency)
  unfolding get_asset_by_currency
  get_asset_by_currency-tables user_id currency w = run_find-tables _ w

  pub get_wallet_by_account_number-tables :
      (number : String) → Keeps tables_of (get_wallet_by_account_number number)
  unfolding get_wallet_by_account_number
  get_wallet_by_account_number-tables number w = run_find-tables _ w

  pub get_user_by_id-tables : (user_id : String) → Keeps tables_of (get_user_by_id user_id)
  unfolding get_user_by_id
  get_user_by_id-tables user_id w = run_find-tables _ w
