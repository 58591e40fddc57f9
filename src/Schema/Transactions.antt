-- ===== src/Schema/Transactions.antt =====
-- The effect of the queries that the program builds on `Transaction`.
use mzl_payment_app.Common.{
  String, Bool, false, Option, none, some, [], ◌∷◌, ◌++◌, ◌==◌, ◌&&◌, if◌then◌else◌, is_some,
}
use mzl_payment_app.Common.Table.{find, update}
use mzl_payment_app.External.{Externals}
use mzl_payment_app.Schema.Assets.{wallet_exists}
use mzl_payment_app.Schema.Tables.{
  Tables, Transaction, TransactionType, TransactionStatus, is_withdrawal,
}
use mzl_payment_app.Schema.Query.{Query, done, violates, Violation}

module _ ⦃x : Externals⦄ where
  -- What a `CreateOne` sets; the schema gives the other columns.
  pub record NewTransaction : Type 0 where
    pub wallet_id : String
    pub amount : x.F
    pub currency : String
    pub type : TransactionType
    pub reference : String
    pub status : TransactionStatus
    pub description : Option String
    pub provider : Option String
    pub gateway_ref : Option String

  abbrev pub row_of : NewTransaction → Tables x.F → Transaction x.F
  row_of n t = record {
    id = x.uuid t;
    wallet_id = n.wallet_id;
    amount = n.amount;
    currency = n.currency;
    type = n.type;
    status = n.status;
    reference = n.reference;
    description = n.description;
    provider = n.provider;
    gateway_ref = n.gateway_ref;
    created_at = x.now_default t;
    updated_at = x.now_default t;
  }

  abbrev pub has_reference : String → Transaction x.F → Bool
  has_reference reference tx = tx.reference == reference

  abbrev pub has_tx_id : String → Transaction x.F → Bool
  has_tx_id id tx = tx.id == id

  -- `CreateOne`: `reference` and the id are unique, and the wallet has to be there.
  unfoldable pub create_transaction : NewTransaction → Query x.F (Unit {0})
  create_transaction n t =
      if is_some (find (has_reference n.reference) t.transactions)
      then violates Violation.unique
      else if is_some (find (has_tx_id (x.uuid t)) t.transactions)
      then violates Violation.unique
      else if wallet_exists n.wallet_id t
      then done tt (record t { transactions = t.transactions ++ row_of n t ∷ [] })
      else violates Violation.missing

  abbrev pub with_status : TransactionStatus → Tables x.F → Transaction x.F → Transaction x.F
  with_status s t tx = record tx { status = s; updated_at = x.now_default t }

  abbrev pub set_statuses : (Transaction x.F → Bool) → TransactionStatus → Tables x.F → Tables x.F
  set_statuses which s t = record t { transactions = update which (with_status s t) t.transactions }

  -- `FindMany(which).Update(Status.Set(s))`: no row is no error
  unfoldable pub update_statuses :
      (Transaction x.F → Bool) → TransactionStatus → Query x.F (Unit {0})
  update_statuses which s t = done tt (set_statuses which s t)

  -- `FindUnique(which).Update(Status.Set(s))`
  unfoldable pub update_status : (Transaction x.F → Bool) → TransactionStatus → Query x.F (Unit {0})
  update_status which s t =
      if is_some (find which t.transactions)
      then done tt (set_statuses which s t)
      else violates Violation.missing

  abbrev pub is_gateway_ref : String → Option String → Bool
  is_gateway_ref code none = false
  is_gateway_ref code (some g) = g == code

  abbrev pub has_gateway_ref : String → Transaction x.F → Bool
  has_gateway_ref code tx = is_gateway_ref code tx.gateway_ref

  -- `FindFirst(GatewayRef.Equals(code), Type.Equals(Withdrawal))`
  abbrev pub withdrawal_by_code : String → Tables x.F → Option (Transaction x.F)
  withdrawal_by_code code t =
      find (λ tx. has_gateway_ref code tx && is_withdrawal tx.type) t.transactions
