-- ===== src/Repository/Wallet/Debits.antt =====
-- The three operations of wallet_repo.go that take money out of an asset, by how they
-- end.
use mzl_payment_app.Common.{String, ◌≡◌, Option, some, false, ◌==◌}
use mzl_payment_app.External.{Externals}
use mzl_payment_app.Schema.Tables.{Tables, Wallet, User}
use mzl_payment_app.Schema.Query.{done, transaction}
use mzl_payment_app.Schema.Assets.{Asset, asset_of_user}
use mzl_payment_app.World.{World}
use mzl_payment_app.World.Ends.{Ends, bind-Ends}
use mzl_payment_app.Repository.Wallet.{
  wallet_by_number, transfer_ops, transfer_funds, swap_ops, swap_funds, withdrawal_ops,
  debit_for_withdrawal,
}
use mzl_payment_app.Repository.Wallet.Commits.{
  Kept, asset_found, wallet_found, test_passed, checked,
}

module _ ⦃x : Externals⦄ where
  module _ (from_user to_account currency : String) (amount : x.F)
      (reference desc_sender desc_receiver : String) (t : Tables x.F) where
    -- What a transfer from `t` to `t'` acted on.
    pub record Transferred (t' : Tables x.F) : Type 0 where
      pub sender : Asset
      pub receiver : Wallet × Option User
      pub sender_found : asset_of_user from_user currency t ≡ some sender
      pub receiver_found : wallet_by_number to_account t ≡ some receiver
      pub not_self : (receiver.0.user_id == from_user) ≡ false
      pub committed :
          transaction
            (transfer_ops sender receiver.0 currency amount reference desc_sender desc_receiver)
            t
          ≡ done tt t'

    pub transfer_funds-Ends :
        (w : World x.F)
        → w.tables ≡ t
        → Ends
            (λ _ w'. Transferred w'.tables)
            (Kept t)
            (transfer_funds from_user to_account currency amount reference desc_sender desc_receiver
              w)
    unfolding transfer_funds
    transfer_funds-Ends w h =
        bind-Ends _ _ (asset_found t _ from_user currency w h)
          (λ s w1 fs.
            bind-Ends _ _ (wallet_found t _ to_account w1 fs.1)
              (λ r w2 fr.
                bind-Ends _ _ (test_passed t _ _ w2 fr.1)
                  (λ _ w3 ns. checked t _ w3 ns.1 λ t' d. record {
                    sender = s;
                    receiver = r;
                    sender_found = fs.0;
                    receiver_found = fr.0;
                    not_self = ns.0;
                    committed = d;
                  })
                  (λ _ _ k. k))
              (λ _ _ k. k))
          (λ _ _ k. k)

  module _ (user_id from to : String) (amount_in amount_out : x.F) (reference description : String)
      (t : Tables x.F) where
    -- What a swap from `t` to `t'` acted on.
    pub record Swapped (t' : Tables x.F) : Type 0 where
      pub source : Asset
      pub source_found : asset_of_user user_id from t ≡ some source
      pub covered : x.lt source.balance amount_in ≡ false
      pub committed :
          transaction (swap_ops source from to amount_in amount_out reference description) t
          ≡ done tt t'

    pub swap_funds-Ends :
        (w : World x.F)
        → w.tables ≡ t
        → Ends
            (λ _ w'. Swapped w'.tables)
            (Kept t)
            (swap_funds user_id from to amount_in amount_out reference description w)
    unfolding swap_funds
    swap_funds-Ends w h =
        bind-Ends _ _ (asset_found t _ user_id from w h)
          (λ s w1 fs.
            bind-Ends _ _ (test_passed t _ _ w1 fs.1)
              (λ _ w2 ns.
                checked t _ w2 ns.1
                  λ t' d. record { source = s; source_found = fs.0; covered = ns.0; committed = d })
              (λ _ _ k. k))
          (λ _ _ k. k)

  module _ (user_id currency : String) (amount : x.F) (reference transfer_code description : String)
      (t : Tables x.F) where
    -- What a withdrawal from `t` to `t'` acted on.
    pub record Withdrawn (t' : Tables x.F) : Type 0 where
      pub asset : Asset
      pub asset_is : asset_of_user user_id currency t ≡ some asset
      pub covered : x.lt asset.balance amount ≡ false
      pub committed :
          transaction (withdrawal_ops asset currency amount reference transfer_code description) t
          ≡ done tt t'

    pub debit_for_withdrawal-Ends :
        (w : World x.F)
        → w.tables ≡ t
        → Ends
            (λ _ w'. Withdrawn w'.tables)
            (Kept t)
            (debit_for_withdrawal user_id currency amount reference transfer_code description w)
    unfolding debit_for_withdrawal
    debit_for_withdrawal-Ends w h =
        bind-Ends _ _ (asset_found t _ user_id currency w h)
          (λ s w1 fs.
            bind-Ends _ _ (test_passed t _ _ w1 fs.1)
              (λ _ w2 ns.
                checked t _ w2 ns.1
                  λ t' d. record { asset = s; asset_is = fs.0; covered = ns.0; committed = d })
              (λ _ _ k. k))
          (λ _ _ k. k)
