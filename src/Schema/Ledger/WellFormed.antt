-- ===== src/Schema/Ledger/WellFormed.antt =====
-- The unique indexes on the assets and the ids of the wallets under each query.

use mzl_payment_app.Common.{String, Bool, ◌≡◌, refl, inl, inr}
use mzl_payment_app.Common.Table.{IsDistinct-update, IsDistinct-append}
use mzl_payment_app.External.{Externals}
use mzl_payment_app.Schema.Tables.{Tables, has_key, same_key, same_id}
use mzl_payment_app.Schema.Query.{done}
use mzl_payment_app.Schema.Assets.{
  Asset, upsert_asset, set_balances, with_balance, increment, new_asset,
}
use mzl_payment_app.Schema.Transactions.{NewTransaction, create_transaction}
use mzl_payment_app.Schema.Ledger.{IsWellFormed}
use mzl_payment_app.Schema.Ledger.Steps.{create_transaction-done}
use mzl_payment_app.Schema.Ledger.Effects.{upsert_asset-done, same_id_comm, same_key_comm}

module _ ⦃x : Externals⦄ where
  pub set_balances-IsWellFormed :
      (which : Asset → Bool) (change : x.F → x.F) (t : Tables x.F)
      → IsWellFormed t
      → IsWellFormed (set_balances which change t)
  set_balances-IsWellFormed which change t v = record {
    ids =
        IsDistinct-update same_id which (with_balance change) (λ a b. refl) (λ a b. refl) t.assets
          v.ids;
    keys =
        IsDistinct-update same_key which (with_balance change) (λ a b. refl) (λ a b. refl) t.assets
          v.keys;
    wallet_ids = v.wallet_ids;
  }

  pub credit-IsWellFormed :
      (wallet_id currency : String) (amount : x.F) (t t' : Tables x.F)
      → upsert_asset wallet_id currency amount t ≡ done tt t'
      → IsWellFormed t
      → IsWellFormed t'
  credit-IsWellFormed wallet_id currency amount t t' e v =
      elim (upsert_asset-done wallet_id currency amount t t' e) [
        | inl (a, h, _, same) ↦
            rw same (set_balances-IsWellFormed (has_key wallet_id currency) (increment amount) t v)
        | inr (h, _, fresh, same) ↦
            let new = new_asset wallet_id currency amount t in
            rw same (record {
              ids = IsDistinct-append same_id t.assets new (λ b. same_id_comm b new) fresh v.ids;
              keys = IsDistinct-append same_key t.assets new (λ b. same_key_comm b new) h v.keys;
              wallet_ids = v.wallet_ids;
            })
      ]

  pub create_transaction-IsWellFormed :
      (n : NewTransaction) (t t' : Tables x.F)
      → create_transaction n t ≡ done tt t'
      → IsWellFormed t
      → IsWellFormed t'
  create_transaction-IsWellFormed n t t' e v =
      let (_, same) = create_transaction-done n t t' e in
      rw same (record { ids = v.ids; keys = v.keys; wallet_ids = v.wallet_ids })
