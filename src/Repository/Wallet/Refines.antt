-- ===== src/Repository/Wallet/Refines.antt =====
-- The operations of wallet_repo.go on the abstract view: which balances go where, and which
-- entries the log gains.
use mzl_payment_app.Common.{String, ◌≡◌, refl, Option, some, false, [], ◌∷◌, ◌==◌}
use mzl_payment_app.Common.Text.{◌+++◌}
use mzl_payment_app.Go.{ok}
use mzl_payment_app.External.{Externals}
use mzl_payment_app.Schema.Tables.{Tables, Wallet, User, TransactionType}
use mzl_payment_app.Schema.Query.{done, transaction}
use mzl_payment_app.Schema.Assets.{Asset, asset_of_user, update_asset, has_id, decrement}
use mzl_payment_app.Schema.Ledger.{debit, credit, IsWellFormed, Moves}
use mzl_payment_app.Schema.Ledger.Steps.{
  Moves-compose, transaction-cons, transaction-nil, create_transaction-Moves,
}
use mzl_payment_app.Schema.Ledger.Effects.{debit-Moves, credit-Moves, asset_of_user-currency}
use mzl_payment_app.World.{World}
use mzl_payment_app.World.Ends.{Ends-ok}
use mzl_payment_app.Repository.Wallet.{
  wallet_by_number, transfer_ops, transfer_funds, swap_ops, swap_funds, withdrawal_ops,
  debit_for_withdrawal, log_of, withdrawal_of,
}
use mzl_payment_app.Repository.Wallet.Debits.{
  transfer_funds-Ends, swap_funds-Ends, debit_for_withdrawal-Ends,
}

module _ ⦃x : Externals⦄ where
  debited :
      (s : Asset) (user_id currency : String) (amount : x.F) (t t' : Tables x.F)
      → IsWellFormed t
      → asset_of_user user_id currency t ≡ some s
      → update_asset (has_id s.id) (decrement amount) t ≡ done tt t'
      → Moves (debit s.wallet_id currency amount) [] t t'
  debited s user_id currency amount t t' v found e =
      rw (← asset_of_user-currency user_id currency t s found)
        (debit-Moves s _ amount t t' v found e)

  transfer_ops-Moves :
      (s : Asset) (r : Wallet) (from_user currency : String) (amount : x.F)
      (reference ds dr : String) (t t' : Tables x.F)
      → IsWellFormed t
      → asset_of_user from_user currency t ≡ some s
      → transaction (transfer_ops s r currency amount reference ds dr) t ≡ done tt t'
      → Moves
          (λ b. credit r.id currency amount (debit s.wallet_id currency amount b))
          (log_of s.wallet_id amount currency TransactionType.transfer (reference +++ "-DEBIT") ds
            ∷ log_of r.id amount currency TransactionType.transfer (reference +++ "-CREDIT") dr
            ∷ [])
          t
          t'
  transfer_ops-Moves s r from_user currency amount reference ds dr t t' v found e =
      let (t1, e1, r1) = transaction-cons _ _ t t' e in
      let (t2, e2, r2) = transaction-cons _ _ t1 t' r1 in
      let (t3, e3, r3) = transaction-cons _ _ t2 t' r2 in
      let (t4, e4, r4) = transaction-cons _ _ t3 t' r3 in
      rw (transaction-nil t4 t' r4) (
        Moves-compose _ _ _ _ t t1 t4 (debited s from_user currency amount t t1 v found e1) (
          Moves-compose _ _ _ _ t1 t2 t4 (credit-Moves r.id currency amount t1 t2 e2) (
            Moves-compose _ _ _ _ t2 t3 t4 (create_transaction-Moves _ t2 t3 e3)
              (create_transaction-Moves _ t3 t4 e4))))

  swap_ops-Moves :
      (s : Asset) (user_id from to : String) (amount_in amount_out : x.F) (reference d : String)
      (t t' : Tables x.F)
      → IsWellFormed t
      → asset_of_user user_id from t ≡ some s
      → transaction (swap_ops s from to amount_in amount_out reference d) t ≡ done tt t'
      → Moves
          (λ b. credit s.wallet_id to amount_out (debit s.wallet_id from amount_in b))
          (log_of s.wallet_id amount_in from TransactionType.swap (reference +++ "-OUT") d
            ∷ log_of s.wallet_id amount_out to TransactionType.swap (reference +++ "-IN") d
            ∷ [])
          t
          t'
  swap_ops-Moves s user_id from to amount_in amount_out reference d t t' v found e =
      let (t1, e1, r1) = transaction-cons _ _ t t' e in
      let (t2, e2, r2) = transaction-cons _ _ t1 t' r1 in
      let (t3, e3, r3) = transaction-cons _ _ t2 t' r2 in
      let (t4, e4, r4) = transaction-cons _ _ t3 t' r3 in
      rw (transaction-nil t4 t' r4) (
        Moves-compose _ _ _ _ t t1 t4 (debited s user_id from amount_in t t1 v found e1) (
          Moves-compose _ _ _ _ t1 t2 t4 (credit-Moves s.wallet_id to amount_out t1 t2 e2) (
            Moves-compose _ _ _ _ t2 t3 t4 (create_transaction-Moves _ t2 t3 e3)
              (create_transaction-Moves _ t3 t4 e4))))

  withdrawal_ops-Moves :
      (s : Asset) (user_id currency : String) (amount : x.F) (reference code d : String)
      (t t' : Tables x.F)
      → IsWellFormed t
      → asset_of_user user_id currency t ≡ some s
      → transaction (withdrawal_ops s currency amount reference code d) t ≡ done tt t'
      → Moves
          (debit s.wallet_id currency amount)
          (withdrawal_of s currency amount reference code d ∷ [])
          t
          t'
  withdrawal_ops-Moves s user_id currency amount reference code d t t' v found e =
      let (t1, e1, r1) = transaction-cons _ _ t t' e in
      let (t2, e2, r2) = transaction-cons _ _ t1 t' r1 in
      rw (transaction-nil t2 t' r2) (
        Moves-compose _ _ _ _ t t1 t2 (debited s user_id currency amount t t1 v found e1)
          (create_transaction-Moves _ t1 t2 e2))

  -- On tables whose unique indexes hold, a transfer that succeeds takes the amount from the
  -- sender's asset in the currency and gives it to the wallet with the account number, which
  -- belongs to another user, opening its asset if it has none; it appends one debit and one credit
  -- entry and changes no other balance.
  pub transfer_funds-Moves :
      (from_user to_account currency : String) (amount : x.F)
      (reference desc_sender desc_receiver : String) (w : World x.F)
      → IsWellFormed w.tables
      → (transfer_funds from_user to_account currency amount reference desc_sender desc_receiver
          w).0
        ≡ ok tt
      → (s : Asset) × (r : Wallet × Option User) × (asset_of_user from_user currency w.tables
          ≡ some s)
        × (wallet_by_number to_account w.tables ≡ some r)
        × ((r.0.user_id == from_user) ≡ false)
        × Moves
            (λ b. credit r.0.id currency amount (debit s.wallet_id currency amount b))
            (log_of s.wallet_id amount currency TransactionType.transfer
                (reference +++ "-DEBIT")
                desc_sender
              ∷ log_of r.0.id amount currency TransactionType.transfer
                  (reference +++ "-CREDIT")
                  desc_receiver
              ∷ [])
            w.tables
            (transfer_funds from_user to_account currency amount reference desc_sender desc_receiver
              w).1.tables
  transfer_funds-Moves from_user to_account currency amount reference ds dr w v e =
      let d =
        Ends-ok _ _
          (transfer_funds-Ends from_user to_account currency amount reference ds dr _ w refl) e in
      (
        d.sender,
        d.receiver,
        d.sender_found,
        d.receiver_found,
        d.not_self,
        transfer_ops-Moves d.sender d.receiver.0 from_user currency amount reference ds dr _ _ v
            d.sender_found d.committed,
      )

  -- On tables whose unique indexes hold, a swap that succeeds was covered by the source balance;
  -- it takes `amount_in` from the user's asset in the source currency, gives `amount_out` to the
  -- same wallet in the target currency, and appends one entry for each side.
  pub swap_funds-Moves :
      (user_id from to : String) (amount_in amount_out : x.F) (reference description : String)
      (w : World x.F)
      → IsWellFormed w.tables
      → (swap_funds user_id from to amount_in amount_out reference description w).0 ≡ ok tt
      → (s : Asset) × (asset_of_user user_id from w.tables ≡ some s)
        × (x.lt s.balance amount_in ≡ false)
        × Moves
            (λ b. credit s.wallet_id to amount_out (debit s.wallet_id from amount_in b))
            (log_of s.wallet_id amount_in from TransactionType.swap
                (reference +++ "-OUT")
                description
              ∷ log_of s.wallet_id amount_out to TransactionType.swap
                  (reference +++ "-IN")
                  description
              ∷ [])
            w.tables
            (swap_funds user_id from to amount_in amount_out reference description w).1.tables
  swap_funds-Moves user_id from to amount_in amount_out reference description w v e =
      let d =
        Ends-ok _ _
          (swap_funds-Ends user_id from to amount_in amount_out reference description _ w refl) e in
      (
        d.source,
        d.source_found,
        d.covered,
        swap_ops-Moves d.source user_id from to amount_in amount_out reference description _ _ v
            d.source_found d.committed,
      )

  -- On tables whose unique indexes hold, a withdrawal that succeeds was covered by the balance; it
  -- takes the amount from the user's asset in the currency and appends one pending entry that
  -- carries the gateway's transfer code.
  pub debit_for_withdrawal-Moves :
      (user_id currency : String) (amount : x.F) (reference code description : String)
      (w : World x.F)
      → IsWellFormed w.tables
      → (debit_for_withdrawal user_id currency amount reference code description w).0 ≡ ok tt
      → (s : Asset) × (asset_of_user user_id currency w.tables ≡ some s)
        × (x.lt s.balance amount ≡ false)
        × Moves
            (debit s.wallet_id currency amount)
            (withdrawal_of s currency amount reference code description ∷ [])
            w.tables
            (debit_for_withdrawal user_id currency amount reference code description w).1.tables
  debit_for_withdrawal-Moves user_id currency amount reference code description w v e =
      let d =
        Ends-ok _ _
          (debit_for_withdrawal-Ends user_id currency amount reference code description _ w refl)
          e in
      (
        d.asset,
        d.asset_is,
        d.covered,
        withdrawal_ops-Moves d.asset user_id currency amount reference code description _ _ v
            d.asset_is d.committed,
      )
