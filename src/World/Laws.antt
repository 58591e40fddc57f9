-- ===== src/World/Laws.antt =====
-- What a call of the client does to the state, by its result.
use mzl_payment_app.Common.{
  ◌≡◌, refl, ap, sym, ◌∙◌, inl, inr, Option, none, some, Option-cases, arith, ◌≢◌,
}
use mzl_payment_app.Go.{GoError, ok, err}
use mzl_payment_app.Schema.Tables.{Tables}
use mzl_payment_app.Schema.Query.{Query, done, find_query}
use mzl_payment_app.External.{Externals, Ran}
use mzl_payment_app.World.{World, run_query}
use mzl_payment_app.World.Ends.{Ends, returned, failed, Ends-weaken}

module _ ⦃x : Externals⦄ where
  -- How a query ended, seen on the state.
  pub run_query-Ran :
      {A : Type 0} (q : Query x.F A) (w : World x.F)
      → Ran
          (x.violation_error A w.calls q)
          x.IsOutage
          (q w.tables)
          w.tables
          ((run_query q w).0, (run_query q w).1.tables)
  unfolding run_query
  run_query-Ran {A} q w = x.exec-Ran A w.calls q w.tables

  pub run_query-ok :
      {A : Type 0} (q : Query x.F A) (w : World x.F) (a : A)
      → (run_query q w).0 ≡ ok a
      → q w.tables ≡ done a (run_query q w).1.tables
  run_query-ok q w a e = elim (run_query-Ran q w) [
    | inl (b, t', d, r) ↦ ground arith
    | inr (inl (v, d, r)) ↦ ground arith
    | inr (inr (f, o, r)) ↦ ground arith
  ]

  -- A query that failed has changed no table.
  pub run_query-err :
      {A : Type 0} (q : Query x.F A) (w : World x.F) (e : GoError)
      → (run_query q w).0 ≡ err e
      → (run_query q w).1.tables ≡ w.tables
  run_query-err q w e h = elim (run_query-Ran q w) [
    | inl (b, t', d, r) ↦ ground arith
    | inr (inl (v, d, r)) ↦ ground arith
    | inr (inr (f, o, r)) ↦ ground arith
  ]

  pub run_query-keys :
      {A : Type 0} (q : Query x.F A) (w : World x.F) → (run_query q w).1.keys ≡ w.keys
  unfolding run_query
  run_query-keys q w = refl

  find_query-tables :
      {A : Type 0} (q : Tables x.F → Option A) (t t' : Tables x.F) (a : Option A)
      → find_query q t ≡ done a t'
      → t' ≡ t
  find_query-tables q t t' a e = ground arith

  -- A search changes no table, however it ends.
  pub run_find-tables :
      {A : Type 0} (q : Tables x.F → Option A) (w : World x.F)
      → (run_query (find_query q) w).1.tables ≡ w.tables
  run_find-tables q w = elim (run_query-Ran (find_query q) w) [
    | inl (b, t', d, r) ↦ ap (λ p. p.1) r ∙ find_query-tables q w.tables t' b d
    | inr (inl (v, d, r)) ↦ ap (λ p. p.1) r
    | inr (inr (f, o, r)) ↦ ap (λ p. p.1) r
  ]

  -- What a search returns is what its filter finds.
  pub run_find-some :
      {A : Type 0} (q : Tables x.F → Option A) (w : World x.F) (a : A)
      → (run_query (find_query q) w).0 ≡ ok (some a)
      → q w.tables ≡ some a
  run_find-some q w a e = let d = run_query-ok (find_query q) w (some a) e in ground arith

  find_query-ne_none :
      {A : Type 0} (q : Tables x.F → Option A) (t t' : Tables x.F) → find_query q t ≢ done none t'
  find_query-ne_none q t t' e = ground arith

  -- A search returns no nil row without an error.
  pub run_find-ne_none :
      {A : Type 0} (q : Tables x.F → Option A) (w : World x.F)
      → (run_query (find_query q) w).0 ≢ ok none
  run_find-ne_none q w e = find_query-ne_none q _ _ (run_query-ok (find_query q) w none e)

  -- Both ends of a query.
  pub run_query-Ends :
      {A : Type 0} (q : Query x.F A) (w : World x.F)
      → Ends (λ a w'. q w.tables ≡ done a w'.tables) (λ _ w'. w'.tables ≡ w.tables) (run_query q w)
  run_query-Ends q w = elim (run_query-Ran q w) [
    | inl (a, t', d, r) ↦ returned a (ap (λ p. p.0) r) (d ∙ ap (done a) (sym (ap (λ p. p.1) r)))
    | inr (inl (v, d, r)) ↦ failed _ (ap (λ p. p.0) r) (ap (λ p. p.1) r)
    | inr (inr (e, o, r)) ↦ failed e (ap (λ p. p.0) r) (ap (λ p. p.1) r)
  ]

  found-done :
      {A : Type 0} (q : Tables x.F → Option A) (t : Tables x.F) (a : A)
      → q t ≡ some a
      → find_query q t ≡ done (some a) t
  found-done q t a here = rw (find_query, here) refl

  -- A search for a row that is there returns it, unless the database cannot be used.
  pub run_find-Ends :
      {A : Type 0} (q : Tables x.F → Option A) (w : World x.F) (a : A)
      → q w.tables ≡ some a
      → Ends (λ o _. o ≡ some a) (λ e _. x.IsOutage e) (run_query (find_query q) w)
  run_find-Ends q w a here = elim (run_query-Ran (find_query q) w) [
    | inl (o, t', d, r) ↦
        let both = sym d ∙ found-done q w.tables a here in
        returned o (ap (λ p. p.0) r) (ground arith)
    | inr (inl (v, d, r)) ↦ let both = sym d ∙ found-done q w.tables a here in absurd (ground arith)
    | inr (inr (e, o, r)) ↦ failed e (ap (λ p. p.0) r) o
  ]

  find_query-found :
      {A : Type 0} (q : Tables x.F → Option A) (t t' : Tables x.F) (o : Option A)
      → find_query q t ≡ done o t'
      → ((a : A) × (o ≡ some a) × (q t ≡ some a)) × (t' ≡ t)
  find_query-found q t t' o e = elim (Option-cases (q t)) [
    | inl missing ↦ absurd (ground arith)
    | inr (a, here) ↦
        let both = sym (found-done q t a here) ∙ e in ((a, ground arith, here), ground arith)
  ]

  -- Both ends of a search.
  pub run_find-Found :
      {A : Type 0} (q : Tables x.F → Option A) (t : Tables x.F) (w : World x.F)
      → w.tables ≡ t
      → Ends
          (λ o w'. ((a : A) × (o ≡ some a) × (q t ≡ some a)) × (w'.tables ≡ t))
          (λ _ w'. w'.tables ≡ t)
          (run_query (find_query q) w)
  run_find-Found q t w same =
      Ends-weaken _
        (λ o w' d.
          let (found, kept) = find_query-found q t w'.tables o (rw (← same) d) in (found, kept))
        (λ _ _ kept. kept ∙ same) (run_query-Ends (find_query q) w)
