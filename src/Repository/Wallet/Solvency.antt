-- ===== src/Repository/Wallet/Solvency.antt =====
-- internals/repository/wallet_repo.go: what every write keeps true of the tables.
use mzl_payment_app.Common.{
  String, Bool, true, false, not, ◌≡◌, refl, sym, ap, Option, none, some, List, [], ◌∷◌, arith, inl,
  inr, ◌==◌, if◌then◌else◌, eq_iff,
}
use mzl_payment_app.Common.Table.{find, find-holds}
use mzl_payment_app.Common.Rows.{update-find-none, find-none-append}
use mzl_payment_app.Go.{Result, ok, err}
use mzl_payment_app.External.{Externals}
use mzl_payment_app.Schema.Tables.{Tables, same_id, same_key, has_key, TransactionStatus, is_failed}
use mzl_payment_app.Schema.Query.{Query, done, transaction, find_query}
use mzl_payment_app.Schema.Assets.{
  Asset, update_asset, upsert_asset, has_id, increment, with_balance, set_balances, new_asset,
}
use mzl_payment_app.Schema.Transactions.{
  NewTransaction, create_transaction, update_status, update_statuses, set_statuses, has_tx_id,
  has_gateway_ref, withdrawal_by_code,
}
use mzl_payment_app.Schema.Ledger.{IsWellFormed}
use mzl_payment_app.Schema.Ledger.Steps.{transaction-cons, transaction-nil, create_transaction-done}
use mzl_payment_app.Schema.Ledger.Effects.{update_asset-done, upsert_asset-done}
use mzl_payment_app.Schema.Ledger.WellFormed.{
  set_balances-IsWellFormed, credit-IsWellFormed, create_transaction-IsWellFormed,
}
use mzl_payment_app.World.{World, run_query, pure, bind}
use mzl_payment_app.World.Ends.{Ends, returned, failed}
use mzl_payment_app.World.Laws.{run_query-Ran, run_find-tables}
use mzl_payment_app.Repository.Wallet.{
  refund_ops, Row, refund_found, refund_withdrawal, update_transaction_status,
}

module _ ⦃x : Externals⦄ where
  abbrev pub is_negative : Asset → Bool
  is_negative a = not (x.le x.zero_f a.balance)

  -- The unique indexes hold, and no balance is below zero.
  pub record IsSound (t : Tables x.F) : Type 0 where
    pub well_formed : IsWellFormed t
    pub solvent : find is_negative t.assets ≡ none

  -- A query that is done keeps the tables sound.
  abbrev pub IsSafe : Query x.F (Unit {0}) → Type 0
  IsSafe op = (t t' : Tables x.F) → op t ≡ done tt t' → IsSound t → IsSound t'

  abbrev pub AllSafe : List (Query x.F (Unit {0})) → Type 0
  AllSafe [] = Unit {0}
  AllSafe (op ∷ ops) = IsSafe op × AllSafe ops

  pub transaction-IsSafe :
      (ops : List (Query x.F (Unit {0}))) → AllSafe ops → IsSafe (transaction ops)
  transaction-IsSafe [] safe t t' e s = rw (transaction-nil t t' e) s
  transaction-IsSafe (op ∷ ops) (safe, all) t t' e s =
      let (t1, e1, rest) = transaction-cons op ops t t' e in
      transaction-IsSafe ops all t1 t' rest (safe t t1 e1 s)

  not_negative : (b : Bool) → b ≡ true → not b ≡ false
  not_negative b h = ap not h

  pub update_id-IsSafe :
      (id : String) (change : x.F → x.F) → IsSafe (update_asset (has_id id) change)
  update_id-IsSafe id change t t' e s =
      let (a, found, positive, same) = update_asset-done (has_id id) change t t' e in
      let here = (eq_iff a.id id).0 (find-holds (has_id id) t.assets a found) in
      rw same (record {
        well_formed = set_balances-IsWellFormed (has_id id) change t s.well_formed;
        solvent =
            update-find-none same_id (has_id id) (with_balance change) is_negative t.assets a
              s.well_formed.ids (λ b. ap (λ i. b.id == i) (sym here)) found
              (not_negative _ positive) s.solvent;
      })

  key_of_found :
      (wallet_id currency : String) (t : Tables x.F) (a : Asset)
      → find (has_key wallet_id currency) t.assets ≡ some a
      → (a.wallet_id ≡ wallet_id) × (a.currency ≡ currency)
  key_of_found wallet_id currency t a found =
      let here = find-holds (has_key wallet_id currency) t.assets a found in
      (
        ground (arith, eq_iff a.wallet_id wallet_id, eq_iff a.currency currency),
        ground (arith, eq_iff a.wallet_id wallet_id, eq_iff a.currency currency),
      )

  set_key-IsSound :
      (wallet_id currency : String) (change : x.F → x.F) (t : Tables x.F) (a : Asset)
      → find (has_key wallet_id currency) t.assets ≡ some a
      → x.le x.zero_f (change a.balance) ≡ true
      → IsSound t
      → IsSound (set_balances (has_key wallet_id currency) change t)
  set_key-IsSound wallet_id currency change t a found positive s =
      let (in_wallet, in_currency) = key_of_found wallet_id currency t a found in
      record {
        well_formed = set_balances-IsWellFormed (has_key wallet_id currency) change t s.well_formed;
        solvent =
            update-find-none same_key (has_key wallet_id currency) (with_balance change) is_negative
              t.assets a s.well_formed.keys (λ b. rw (in_wallet, in_currency) refl) found
              (not_negative _ positive) s.solvent;
      }

  pub update_key-IsSafe :
      (wallet_id currency : String) (change : x.F → x.F)
      → IsSafe (update_asset (has_key wallet_id currency) change)
  update_key-IsSafe wallet_id currency change t t' e s =
      let (a, found, positive, same) =
        update_asset-done (has_key wallet_id currency) change t t' e in
      rw same (set_key-IsSound wallet_id currency change t a found positive s)

  pub upsert_asset-IsSafe :
      (wallet_id currency : String) (amount : x.F) → IsSafe (upsert_asset wallet_id currency amount)
  upsert_asset-IsSafe wallet_id currency amount t t' e s =
      elim (upsert_asset-done wallet_id currency amount t t' e) [
        | inl (a, found, positive, same) ↦
            rw same (set_key-IsSound wallet_id currency (increment amount) t a found positive s)
        | inr (_, positive, _, same) ↦ record {
          well_formed = credit-IsWellFormed wallet_id currency amount t t' e s.well_formed;
          solvent = rw same (
              find-none-append is_negative t.assets (new_asset wallet_id currency amount t)
                (not_negative _ positive) s.solvent);
        }
      ]

  pub create_transaction-IsSafe : (n : NewTransaction) → IsSafe (create_transaction n)
  create_transaction-IsSafe n t t' e s =
      let (_, same) = create_transaction-done n t t' e in
      let v = create_transaction-IsWellFormed n t t' e s.well_formed in
      record { well_formed = v; solvent = rw same s.solvent }

  pub update_status-IsSafe :
      (id : String) (status : TransactionStatus) → IsSafe (update_status (has_tx_id id) status)
  unfolding update_status
  update_status-IsSafe id status t t' e s =
      let same : t' ≡ set_statuses (has_tx_id id) status t = ground arith in
      let v = s.well_formed in
      rw same (record {
        well_formed = record { ids = v.ids; keys = v.keys; wallet_ids = v.wallet_ids };
        solvent = s.solvent;
      })

  pub refund_ops-AllSafe : (row : Row) → AllSafe (refund_ops row)
  refund_ops-AllSafe row = (
    update_key-IsSafe row.wallet_id row.currency (increment row.amount),
    (update_status-IsSafe row.id TransactionStatus.failed, tt),
  )

  -- A query that the client runs keeps the tables sound when it is safe.
  pub run_query-IsSound :
      (op : Query x.F (Unit {0})) (w : World x.F)
      → IsSafe op
      → IsSound w.tables
      → IsSound (run_query op w).1.tables
  run_query-IsSound op w safe s = elim (run_query-Ran op w) [
    | inl (u, t', d, r) ↦ rw (ap (λ p. p.1) r) (safe w.tables t' d s)
    | inr (inl (v, d, r)) ↦ rw (ap (λ p. p.1) r) s
    | inr (inr (e, o, r)) ↦ rw (ap (λ p. p.1) r) s
  ]

  pub Ends-IsSound :
      {A : Type 0} {P : A → World x.F → Type 0} (t : Tables x.F) (p : Result A × World x.F)
      → IsSound t
      → ((a : A) (w : World x.F) → P a w → IsSound w.tables)
      → Ends P (λ _ w. w.tables ≡ t) p
      → IsSound p.1.tables
  Ends-IsSound t p s done_so (returned a e h) = done_so a p.1 h
  Ends-IsSound t p s done_so (failed f e h) = rw h s

  refund_row-IsSound :
      (row : Row) (b : Bool) (w : World x.F)
      → IsSound w.tables
      → IsSound ((if b then pure tt else run_query (transaction (refund_ops row))) w).1.tables
  refund_row-IsSound row true w s = s
  refund_row-IsSound row false w s =
      run_query-IsSound (transaction (refund_ops row)) w
        (transaction-IsSafe (refund_ops row) (refund_ops-AllSafe row)) s

  refund_found-IsSound :
      (r : Result (Option Row)) (w : World x.F)
      → IsSound w.tables
      → IsSound (refund_found r w).1.tables
  refund_found-IsSound (err e) w s = s
  refund_found-IsSound (ok none) w s = s
  refund_found-IsSound (ok (some row)) w s = refund_row-IsSound row (is_failed row.status) w s

  pub refund_withdrawal-IsSound :
      (code : String) (w : World x.F)
      → IsSound w.tables
      → IsSound (refund_withdrawal code w).1.tables
  unfolding refund_withdrawal bind
  refund_withdrawal-IsSound code w s =
      refund_found-IsSound (run_query (find_query (withdrawal_by_code code)) w).0 _
        (rw (run_find-tables (withdrawal_by_code code) w) s)

  pub update_transaction_status-IsSound :
      (code : String) (status : TransactionStatus) (w : World x.F)
      → IsSound w.tables
      → IsSound (update_transaction_status code status w).1.tables
  unfolding update_transaction_status update_statuses
  update_transaction_status-IsSound code status w s =
      run_query-IsSound (update_statuses (has_gateway_ref code) status) w
        (λ t t' e s.
          let same : t' ≡ set_statuses (has_gateway_ref code) status t = ground arith in
          let v = s.well_formed in
          rw same (record {
            well_formed = record { ids = v.ids; keys = v.keys; wallet_ids = v.wallet_ids };
            solvent = s.solvent;
          }))
        s
