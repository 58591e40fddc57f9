-- ===== src/Schema/Assets.antt =====
-- The effect of the queries that the program builds on `WalletAsset`, with the CHECK
-- `balance >= 0` of prisma/migrations/20251222104809_add_balance_check.
use mzl_payment_app.Common.{
  String, Bool, Option, none, some, [], ◌∷◌, ◌++◌, ◌==◌, ◌&&◌, if◌then◌else◌, is_some,
}
use mzl_payment_app.Common.Table.{find, update}
use mzl_payment_app.External.{Externals}
use mzl_payment_app.Schema.Tables.{Tables, WalletAsset, Wallet, has_key}
use mzl_payment_app.Schema.Query.{Query, done, violates, Violation}

module _ ⦃x : Externals⦄ where
  abbrev pub Asset : Type 0
  Asset = WalletAsset x.F

  -- `Balance.Increment`, `Balance.Decrement`
  abbrev pub increment : x.F → x.F → x.F
  increment amount balance = x.add balance amount

  abbrev pub decrement : x.F → x.F → x.F
  decrement amount balance = x.sub balance amount

  abbrev pub with_balance : (x.F → x.F) → Asset → Asset
  with_balance change a = record a { balance = change a.balance }

  abbrev pub set_balances : (Asset → Bool) → (x.F → x.F) → Tables x.F → Tables x.F
  set_balances which change t = record t { assets = update which (with_balance change) t.assets }

  -- `FindUnique(which).Update(change)`
  unfoldable pub update_asset : (Asset → Bool) → (x.F → x.F) → Query x.F (Unit {0})
  update_asset which change t = elim (find which t.assets) [
    | none ↦ violates Violation.missing
    | some a ↦
        if x.le x.zero_f (change a.balance)
        then done tt (set_balances which change t)
        else violates Violation.check
  ]

  abbrev pub has_id : String → Asset → Bool
  has_id id a = a.id == id

  abbrev pub wallet_exists : String → Tables x.F → Bool
  wallet_exists id t = is_some (find (λ w. w.id == id) t.wallets)

  abbrev pub new_asset : String → String → x.F → Tables x.F → Asset
  new_asset wallet_id currency amount t = record {
    id = x.uuid t;
    wallet_id = wallet_id;
    currency = currency;
    balance = amount;
  }

  -- `CreateOne(Wallet.Link, Currency.Set, Balance.Set)`
  unfoldable pub create_asset : String → String → x.F → Query x.F (Unit {0})
  create_asset wallet_id currency amount t =
      if is_some (find (has_key wallet_id currency) t.assets)
      then violates Violation.unique
      else if is_some (find (has_id (x.uuid t)) t.assets)
      then violates Violation.unique
      else if wallet_exists wallet_id t
      then (if x.le x.zero_f amount
          then done tt
              (record t { assets = t.assets ++ new_asset wallet_id currency amount t ∷ [] })
          else violates Violation.check)
      else violates Violation.missing

  -- `UpsertOne(WalletIDCurrency).Create(… Balance.Set(amount)).Update(Balance.Increment(amount))`
  unfoldable pub upsert_asset : String → String → x.F → Query x.F (Unit {0})
  upsert_asset wallet_id currency amount t = elim (find (has_key wallet_id currency) t.assets) [
    | none ↦ create_asset wallet_id currency amount t
    | some a ↦ update_asset (has_key wallet_id currency) (increment amount) t
  ]

  -- `FindFirst(Currency.Equals, Wallet.Where(UserID.Equals))`
  abbrev pub owned_by : String → Tables x.F → Asset → Bool
  owned_by user_id t a =
      is_some (find (λ (w : Wallet). w.id == a.wallet_id && w.user_id == user_id) t.wallets)

  abbrev pub asset_of_user : String → String → Tables x.F → Option Asset
  asset_of_user user_id currency t =
      find (λ a. a.currency == currency && owned_by user_id t a) t.assets
