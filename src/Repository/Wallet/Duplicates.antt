-- ===== src/Repository/Wallet/Duplicates.antt =====
-- `CreditWalletByEmail` of wallet_repo.go: how a unique index tells a deposit that comes again.
use mzl_payment_app.Common.{
  ℕ, String, true, false, ◌≡◌, refl, none, List, [], ◌∷◌, ◌⊎◌, inl, inr, arith, is_some, Bool-cases,
  Option-cases, eq_iff,
}
use mzl_payment_app.Common.Table.{find, find-append}
use mzl_payment_app.Go.{GoError}
use mzl_payment_app.External.{Externals}
use mzl_payment_app.Schema.Tables.{Tables, Wallet, has_key}
use mzl_payment_app.Schema.Query.{Query, done, violates, Violation, transaction}
use mzl_payment_app.Schema.Transactions.{
  create_transaction, has_reference, has_tx_id, row_of, NewTransaction,
}
use mzl_payment_app.Schema.Assets.{has_id, upsert_asset, create_asset, update_asset}
use mzl_payment_app.Schema.Ledger.{credit, Moves}
use mzl_payment_app.Schema.Ledger.Steps.{
  Moves-compose, transaction-cons, transaction-nil, create_transaction-Moves,
  create_transaction-done, transaction-cons_refused, transaction-nil_refused,
}
use mzl_payment_app.Schema.Ledger.Effects.{credit-Moves, upsert_asset-done}
use mzl_payment_app.World.{World, bind}
use mzl_payment_app.World.Laws.{run_query-Ran}
use mzl_payment_app.World.Ends.{Ends, returned, failed}
use mzl_payment_app.Repository.Wallet.{
  deposit_ops, deposit_of, is_unique_constraint_error, exec_deduplicated,
}

module _ ⦃x : Externals⦄ where
  -- The transaction log has a row with this reference.
  abbrev pub IsRecorded : String → Tables x.F → Type 0
  IsRecorded reference t = is_some (find (has_reference reference) t.transactions) ≡ true

  -- Which errors the test for a duplicate accepts: only those of a unique index.
  only_unique :
      (n : ℕ) (q : Query x.F (Unit {0})) (v : Violation)
      → is_unique_constraint_error (x.violation_error _ n q v) ≡ true
      → v ≡ Violation.unique
  only_unique n q Violation.unique h = refl
  only_unique n q Violation.check h =
      let (_, a, b) = x.check_recognised _ n q in absurd (ground arith)
  only_unique n q Violation.missing h =
      let (a, b, _) = x.missing_unrelated _ n q in absurd (ground arith)

  -- Done, or taken for done because a unique index refused it.
  abbrev pub Deduplicated : List (Query x.F (Unit {0})) → Tables x.F → Tables x.F → Type 0
  Deduplicated ops t t' =
      (transaction ops t ≡ done tt t')
      ⊎ ((transaction ops t ≡ violates Violation.unique) × (t' ≡ t))

  -- A deposit that failed has left the tables, and its error is not that of a unique index.
  abbrev pub Refused : Tables x.F → GoError → World x.F → Type 0
  Refused t e w = (w.tables ≡ t) × (is_unique_constraint_error e ≡ false)

  pub exec_deduplicated-Ends :
      (ops : List (Query x.F (Unit {0}))) (w : World x.F)
      → Ends
          (λ _ w'. Deduplicated ops w.tables w'.tables)
          (Refused w.tables)
          (exec_deduplicated ops w)
  unfolding exec_deduplicated bind
  exec_deduplicated-Ends ops w = elim (run_query-Ran (transaction ops) w) [
    | inl (u, t', d, r) ↦ returned u (ground arith) (inl (ground arith))
    | inr (inl (v, d, r)) ↦
        let e = x.violation_error (Unit {0}) w.calls (transaction ops) v in
        elim (Bool-cases (is_unique_constraint_error e)) [
          | inl c ↦
              let is = only_unique w.calls (transaction ops) v c in
              returned tt (ground arith) (inr (ground arith, ground arith))
          | inr c ↦ failed e (ground arith) (ground arith, c)
        ]
    | inr (inr (e, o, r)) ↦
        let (a, b, _) = x.outage_unrelated e o in
        failed e (ground arith) (ground arith, ground arith)
  ]

  -- A deposit that the database has no trace of yet, and one that it has.
  IsRecorded-after :
      (n : NewTransaction) (t t' : Tables x.F)
      → create_transaction n t ≡ done tt t'
      → IsRecorded n.reference t'
  IsRecorded-after n t t' e =
      let (missing, same) = create_transaction-done n t t' e in
      rw
        (
          same,
          find-append (has_reference n.reference) t.transactions (row_of n t) missing,
          (eq_iff n.reference n.reference).1 refl,
        )
        refl

  -- The ids that the database generates are not in use.
  abbrev pub HasFreshIds : Tables x.F → Type 0
  HasFreshIds t =
      (find (has_id (x.uuid t)) t.assets ≡ none)
      × (find (has_tx_id (x.uuid t)) t.transactions ≡ none)

  create-IsRecorded :
      (n : NewTransaction) (t : Tables x.F)
      → HasFreshIds t
      → create_transaction n t ≡ violates Violation.unique
      → IsRecorded n.reference t
  unfolding create_transaction
  create-IsRecorded n t (_, fresh) e = ground arith

  upsert-ne-unique :
      (wallet_id currency : String) (amount : x.F) (t : Tables x.F)
      → HasFreshIds t
      → ¬ (upsert_asset wallet_id currency amount t ≡ violates Violation.unique)
  unfolding upsert_asset create_asset update_asset
  upsert-ne-unique wallet_id currency amount t (fresh, _) e =
      elim (Option-cases (find (has_key wallet_id currency) t.assets)) [
        | inl h ↦ ground arith
        | inr (a, h) ↦ ground arith
      ]

  upsert-transactions :
      (wallet_id currency : String) (amount : x.F) (t t' : Tables x.F)
      → upsert_asset wallet_id currency amount t ≡ done tt t'
      → t'.transactions ≡ t.transactions
  upsert-transactions wallet_id currency amount t t' e =
      elim (upsert_asset-done wallet_id currency amount t t' e) [
        | inl (a, _, _, same) ↦ rw same
        | inr (_, _, _, same) ↦ rw same
      ]

  pub refused_when-IsRecorded :
      (wallet : Wallet) (currency : String) (amount : x.F) (reference d provider : String)
      (t : Tables x.F)
      → ((u : Tables x.F) → HasFreshIds u)
      → transaction (deposit_ops wallet currency amount reference d provider) t
        ≡ violates Violation.unique
      → IsRecorded reference t
  refused_when-IsRecorded wallet currency amount reference d provider t fresh e =
      elim (transaction-cons_refused _ _ t Violation.unique e) [
        | inl h ↦ absurd (upsert-ne-unique wallet.id currency amount t (fresh t) h)
        | inr (u, h, r) ↦ elim (transaction-cons_refused _ _ u Violation.unique r) [
          | inl c ↦
              rw (← upsert-transactions wallet.id currency amount t u h)
                (create-IsRecorded _ u (fresh u) c)
          | inr (v, _, n) ↦ absurd (transaction-nil_refused v Violation.unique n)
        ]
      ]

  pub deposit-Moves :
      (wallet : Wallet) (currency : String) (amount : x.F) (reference d provider : String)
      (t t' : Tables x.F)
      → transaction (deposit_ops wallet currency amount reference d provider) t ≡ done tt t'
      → Moves
          (credit wallet.id currency amount)
          (deposit_of wallet currency amount reference d provider ∷ [])
          t
          t'
  deposit-Moves wallet currency amount reference d provider t t' e =
      let (t1, e1, r1) = transaction-cons _ _ t t' e in
      let (t2, e2, r2) = transaction-cons _ _ t1 t' r1 in
      rw (transaction-nil t2 t' r2) (
        Moves-compose _ _ _ _ t t1 t2 (credit-Moves wallet.id currency amount t t1 e1)
          (create_transaction-Moves _ t1 t2 e2))

  -- A deposit that is done was not recorded before, and is after.
  pub deposit-IsRecorded :
      (wallet : Wallet) (currency : String) (amount : x.F) (reference d provider : String)
      (t t' : Tables x.F)
      → transaction (deposit_ops wallet currency amount reference d provider) t ≡ done tt t'
      → (find (has_reference reference) t.transactions ≡ none) × IsRecorded reference t'
  deposit-IsRecorded wallet currency amount reference d provider t t' e =
      let (t1, e1, r1) = transaction-cons _ _ t t' e in
      let (t2, e2, r2) = transaction-cons _ _ t1 t' r1 in
      let log = deposit_of wallet currency amount reference d provider in
      (
        rw (← upsert-transactions wallet.id currency amount t t1 e1)
            (create_transaction-done log t1 t2 e2).0,
        rw (transaction-nil t2 t' r2) (IsRecorded-after log t1 t2 e2),
      )
