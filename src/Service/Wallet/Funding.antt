-- ===== src/Service/Wallet/Funding.antt =====
-- internals/service/wallet_service.go: `FundWallet`, from its idempotency key to its answer.
use mzl_payment_app.Common.{String, Option, some, ◌≡◌, refl, ◌∙◌, [], ◌∷◌}
use mzl_payment_app.Go.{GoError}
use mzl_payment_app.External.{Externals}
use mzl_payment_app.External.Redis.{Keyspace}
use mzl_payment_app.Schema.Tables.{Tables, TransactionType}
use mzl_payment_app.Schema.Query.{done, transaction}
use mzl_payment_app.Schema.Assets.{Asset, asset_of_user, upsert_asset}
use mzl_payment_app.Schema.Transactions.{create_transaction}
use mzl_payment_app.World.{World}
use mzl_payment_app.World.Ends.{Ends, returned, bind-Ends, Ends-weaken}
use mzl_payment_app.World.Commands.{IsReliable}
use mzl_payment_app.World.Laws.{run_find-Found, run_query-Ends}
use mzl_payment_app.Queue.Locks.{IsHeld}
use mzl_payment_app.Repository.Wallet.{credit_wallet, get_asset_by_currency as find_asset, log_of}
use mzl_payment_app.Repository.Wallet.Quiet.{get_asset_by_currency-Keeps, credit_wallet-Keeps}
use mzl_payment_app.Service.Wallet.{fund_wallet, complete, nil_as}
use mzl_payment_app.Service.Wallet.Keys.{
  Working, Dropped, IsFree, Closed, Releases, reliable-Releases, acquire-Ends, or_release-Ends,
  commit_or_release-Ends, complete-Ends, forget-Ends, kept-Ends, wallet_key-ne,
}

module _ ⦃x : Externals⦄ where
  module _ (reference : String) (t : Tables x.F) (user_id currency : String) (amount : x.F)
      (description : String) where
    -- What a funding from `t` to `t'` acted on: one log entry and one balance of the user.
    pub record Funded (t' : Tables x.F) : Type 0 where
      pub asset : Asset
      pub asset_found : asset_of_user user_id currency t ≡ some asset
      pub committed :
          transaction
            (create_transaction (
                log_of asset.wallet_id amount currency TransactionType.deposit reference
                  description)
              ∷ upsert_asset asset.wallet_id currency amount
              ∷ [])
            t
          ≡ done tt t'

  module _ (reference : String) (Freed : Keyspace → Type 0) (releases : Releases reference Freed)
      (t : Tables x.F) (user_id currency : String) (amount : x.F) (description : String) where
    Found : Option Asset → World x.F → Type 0
    Found o w' =
        ((a : Asset) × (o ≡ some a) × (asset_of_user user_id currency t ≡ some a)) × (w'.tables ≡ t)

    search-Ends :
        (w : World x.F)
        → w.tables ≡ t
        → Ends Found (λ _ w'. w'.tables ≡ t) (find_asset user_id currency w)
    unfolding find_asset Found
    search-Ends w same = run_find-Found (asset_of_user user_id currency) t w same

    asset-Ends :
        (e : GoError) (o : Option Asset) (w : World x.F)
        → Found o w × IsHeld reference w.keys
        → Ends
            (λ a w'. (asset_of_user user_id currency t ≡ some a) × Working reference t w')
            (Closed Freed t)
            (nil_as e o w)
    unfolding Found
    asset-Ends e o w (((a, is, found), same), held) = rw is (returned a refl (found, (held, same)))

    credited :
        (asset : Asset) (w : World x.F)
        → asset_of_user user_id currency t ≡ some asset
        → w.tables ≡ t
        → Ends
            (λ _ w'. Funded reference t user_id currency amount description w'.tables)
            (λ _ w'. w'.tables ≡ t)
            (credit_wallet asset.wallet_id currency amount reference description
              TransactionType.deposit w)
    unfolding credit_wallet
    credited asset w found same =
        Ends-weaken _
          (λ _ w' d. record { asset = asset; asset_found = found; committed = rw (← same) d })
          (λ _ _ kept. kept ∙ same) (run_query-Ends _ w)

    -- The same as below, by what is known of a key that was given back.
    pub fund_wallet-Closed :
        (w : World x.F)
        → w.tables ≡ t
        → Ends
            (λ _ w'.
              Funded reference t user_id currency amount description w'.tables
              × IsHeld reference w'.keys)
            (Closed Freed t)
            (fund_wallet user_id currency amount reference description w)
    unfolding fund_wallet
    fund_wallet-Closed w same =
        bind-Ends _ _ (acquire-Ends Freed reference t w same)
          (λ _ w1 (held1, same1).
            bind-Ends _ _
              (or_release-Ends reference Freed releases t (find_asset user_id currency) w1
                (get_asset_by_currency-Keeps user_id currency) held1 (search-Ends w1 same1))
              (λ o w2 h2.
                bind-Ends _ _ (asset-Ends _ o w2 h2)
                  (λ asset w3 (found, (held3, same3)).
                    bind-Ends _ _
                      (commit_or_release-Ends reference Freed releases t
                        (credit_wallet asset.wallet_id currency amount reference description
                          TransactionType.deposit)
                        w3
                        (credit_wallet-Keeps asset.wallet_id currency amount reference description
                          TransactionType.deposit)
                        held3 (credited asset w3 found same3))
                      (λ _ w4 done4.
                        kept-Ends (Funded reference t user_id currency amount description) reference
                          (complete reference) w4 _ done4 (complete-Ends reference w4 done4.1)
                          λ w5 (done5, held5).
                            Ends-weaken _ (λ _ w6 (held6, same6). (rw same6 done5, held6))
                              (λ _ _ h. absurd h)
                              (forget-Ends _ reference w5 (wallet_key-ne user_id reference) held5))
                      (λ _ _ h. h))
                  (λ _ _ h. h))
              (λ _ _ h. h))
          (λ _ _ h. h)

  module _ (reliable : IsReliable) (reference : String) (t : Tables x.F) (user_id currency : String)
      (amount : x.F) (description : String) where
    -- With a Redis that answers every command, a funding of the service adds one log entry and
    -- credits one balance of the user and holds its idempotency key afterwards, or it fails and no
    -- table has changed; after a failure the key is free for another try, unless the request was
    -- refused as already processed.
    pub fund_wallet-Ends :
        (w : World x.F)
        → w.tables ≡ t
        → Ends
            (λ _ w'.
              Funded reference t user_id currency amount description w'.tables
              × IsHeld reference w'.keys)
            (Dropped reference t)
            (fund_wallet user_id currency amount reference description w)
    fund_wallet-Ends =
        fund_wallet-Closed reference (IsFree reference) (reliable-Releases reliable reference) t
          user_id currency amount description
