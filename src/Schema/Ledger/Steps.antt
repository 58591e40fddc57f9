-- ===== src/Schema/Ledger/Steps.antt =====
-- A transaction as the sequence of its queries, and the query that writes the log.

use mathlib.Core.List.{append_assoc, map-append}
use mzl_payment_app.Common.{none, List, [], ◌∷◌, ◌++◌, ◌≡◌, refl, ap, ◌∙◌, arith, ◌⊎◌, inl, inr}
use mzl_payment_app.Common.Table.{find}
use mzl_payment_app.External.{Externals}
use mzl_payment_app.Schema.Tables.{Tables}
use mzl_payment_app.Schema.Query.{Query, Outcome, done, violates, Violation, transaction}
use mzl_payment_app.Schema.Transactions.{NewTransaction, create_transaction, row_of, has_reference}
use mzl_payment_app.Schema.Ledger.{Balances, entries, entry_of, Moves}

module _ ⦃x : Externals⦄ where
  pub Moves-compose :
      (f g : Balances → Balances) (m n : List NewTransaction) (t u v : Tables x.F)
      → Moves f m t u
      → Moves g n u v
      → Moves (λ b. g (f b)) (m ++ n) t v
  Moves-compose f g m n t u v p q = record {
    balances_go = q.balances_go ∙ ap g p.balances_go;
    entries_grow = q.entries_grow ∙ ap (λ e. e ++ n) p.entries_grow ∙ append_assoc (entries t) m n;
  }

  transaction-cons_of :
      (op : Query x.F (Unit {0})) (ops : List (Query x.F (Unit {0}))) (t t' : Tables x.F)
      (o : Outcome x.F (Unit {0}))
      → op t ≡ o
      → transaction (op ∷ ops) t ≡ done tt t'
      → (u : Tables x.F) × (op t ≡ done tt u) × (transaction ops u ≡ done tt t')
  unfolding transaction
  transaction-cons_of op ops t t' (done one u) h e = (u, ground arith, ground arith)
  transaction-cons_of op ops t t' (violates v) h e = absurd (ground arith)

  -- The transaction of no operation, and of one more.
  pub transaction-cons :
      (op : Query x.F (Unit {0})) (ops : List (Query x.F (Unit {0}))) (t t' : Tables x.F)
      → transaction (op ∷ ops) t ≡ done tt t'
      → (u : Tables x.F) × (op t ≡ done tt u) × (transaction ops u ≡ done tt t')
  transaction-cons op ops t t' e = transaction-cons_of op ops t t' (op t) refl e

  transaction-cons_refused_of :
      (op : Query x.F (Unit {0})) (ops : List (Query x.F (Unit {0}))) (t : Tables x.F)
      (v : Violation) (o : Outcome x.F (Unit {0}))
      → op t ≡ o
      → transaction (op ∷ ops) t ≡ violates v
      → (op t ≡ violates v)
        ⊎ ((u : Tables x.F) × (op t ≡ done tt u) × (transaction ops u ≡ violates v))
  unfolding transaction
  transaction-cons_refused_of op ops t v (done one u) h e = inr (u, ground arith, ground arith)
  transaction-cons_refused_of op ops t v (violates v') h e = inl (ground arith)

  pub transaction-cons_refused :
      (op : Query x.F (Unit {0})) (ops : List (Query x.F (Unit {0}))) (t : Tables x.F)
      (v : Violation)
      → transaction (op ∷ ops) t ≡ violates v
      → (op t ≡ violates v)
        ⊎ ((u : Tables x.F) × (op t ≡ done tt u) × (transaction ops u ≡ violates v))
  transaction-cons_refused op ops t v e = transaction-cons_refused_of op ops t v (op t) refl e

  pub transaction-nil_refused : (t : Tables x.F) (v : Violation) → ¬ (transaction [] t ≡ violates v)
  unfolding transaction
  transaction-nil_refused t v e = cc

  pub transaction-nil : (t t' : Tables x.F) → transaction [] t ≡ done tt t' → t' ≡ t
  unfolding transaction
  transaction-nil t t' e = ground arith

  pub create_transaction-done :
      (n : NewTransaction) (t t' : Tables x.F)
      → create_transaction n t ≡ done tt t'
      → (find (has_reference n.reference) t.transactions ≡ none)
        × (t' ≡ record t { transactions = t.transactions ++ row_of n t ∷ [] })
  unfolding create_transaction
  create_transaction-done n t t' e = ground arith

  pub create_transaction-Moves :
      (n : NewTransaction) (t t' : Tables x.F)
      → create_transaction n t ≡ done tt t'
      → Moves (λ b. b) (n ∷ []) t t'
  create_transaction-Moves n t t' e =
      let (fresh, same) = create_transaction-done n t t' e in
      rw same (record {
        balances_go = refl;
        entries_grow = map-append entry_of t.transactions (row_of n t ∷ []);
      })
