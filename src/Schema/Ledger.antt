-- ===== src/Schema/Ledger.antt =====
-- The abstract view of the money: what each wallet holds in each currency, and the entries of the
-- transaction log without their ids and times.
pub mod Steps
pub mod Effects
pub mod WellFormed
use mathlib.Core.Option
use mzl_payment_app.Common.{
  String, Bool, Option, none, some, List, map, ◌++◌, ◌≡◌, ◌==◌, ◌&&◌, if◌then◌else◌,
}
use mzl_payment_app.Common.Table.{find, IsDistinct}
use mzl_payment_app.External.{Externals}
use mzl_payment_app.Schema.Tables.{Tables, Transaction, Wallet, has_key, same_key, same_id}
use mzl_payment_app.Schema.Transactions.{NewTransaction}

module _ ⦃x : Externals⦄ where
  abbrev pub Balances : Type 0
  Balances = String → String → Option x.F

  abbrev pub balances : Tables x.F → Balances
  balances t wallet_id currency =
      Option.map (λ a. a.balance) (find (has_key wallet_id currency) t.assets)

  abbrev pub entry_of : Transaction x.F → NewTransaction
  entry_of tx = record {
    wallet_id = tx.wallet_id;
    amount = tx.amount;
    currency = tx.currency;
    type = tx.type;
    reference = tx.reference;
    status = tx.status;
    description = tx.description;
    provider = tx.provider;
    gateway_ref = tx.gateway_ref;
  }

  abbrev pub entries : Tables x.F → List NewTransaction
  entries t = map entry_of t.transactions

  -- Changes what one wallet holds in one currency, if it holds any.
  abbrev pub adjust : String → String → (x.F → x.F) → Balances → Balances
  adjust wallet_id currency change b w c =
      if w == wallet_id && c == currency then Option.map change (b w c) else b w c

  abbrev pub taken : x.F → x.F → x.F
  taken amount balance = x.sub balance amount

  abbrev pub given : x.F → Option x.F → Option x.F
  given amount none = some amount
  given amount (some balance) = some (x.add balance amount)

  abbrev pub debit : String → String → x.F → Balances → Balances
  debit wallet_id currency amount = adjust wallet_id currency (taken amount)

  -- Adds to what a wallet holds in a currency, or opens it with the amount.
  abbrev pub credit : String → String → x.F → Balances → Balances
  credit wallet_id currency amount b w c =
      if w == wallet_id && c == currency then given amount (b w c) else b w c

  abbrev pub same_wallet_id : Wallet → Wallet → Bool
  same_wallet_id a b = b.id == a.id

  -- The unique indexes of the tables that hold money.
  pub record IsWellFormed (t : Tables x.F) : Type 0 where
    pub ids : IsDistinct same_id t.assets
    pub keys : IsDistinct same_key t.assets
    pub wallet_ids : IsDistinct same_wallet_id t.wallets

  -- From `t` to `t'` the balances go by `f`, and the log grows by `new`.
  pub record Moves (f : Balances → Balances) (new : List NewTransaction) (t t' : Tables x.F)
      : Type 0 where
    pub balances_go : balances t' ≡ f (balances t)
    pub entries_grow : entries t' ≡ entries t ++ new
