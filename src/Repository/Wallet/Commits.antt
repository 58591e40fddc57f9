-- ===== src/Repository/Wallet/Commits.antt =====
-- The steps of an operation of wallet_repo.go, its searches, its tests and its transaction, by how
-- they end.
use mzl_payment_app.Common.{
  String, ◌≡◌, refl, ◌∙◌, inl, inr, Option, some, Bool, false, arith, Bool-cases, List,
}
use mzl_payment_app.Go.{GoError, Result, ok, err, Found-cases, mentions}
use mzl_payment_app.Schema.Tables.{Tables}
use mzl_payment_app.Schema.Query.{Query, done, transaction, find_query}
use mzl_payment_app.Schema.Assets.{asset_of_user}
use mzl_payment_app.External.{Externals}
use mzl_payment_app.World.{World, run_query, bind, fail_if}
use mzl_payment_app.World.Laws.{run_find-tables, run_find-some, run_query-ok, run_query-err}
use mzl_payment_app.World.Ends.{Ends, returned, failed, fail_if-Ends, Ends-weaken}
use mzl_payment_app.Repository.Wallet.{
  found_or, exec_checked, get_asset_by_currency, get_wallet_by_account_number, wallet_by_number,
}

module _ ⦃x : Externals⦄ where
  -- A failed call leaves the tables as they were.
  abbrev pub Unchanged : World x.F → GoError → World x.F → Type 0
  Unchanged w e w' = w'.tables ≡ w.tables

  -- A search that finds nothing fails with the error that the code names.
  pub found_or-error :
      {A : Type 0} (e : GoError) (q : Tables x.F → Option A) (w : World x.F)
      → Ends
          (λ a w'. (q w.tables ≡ some a) × (w'.tables ≡ w.tables))
          (λ f w'. (w'.tables ≡ w.tables) × (f ≡ e))
          (found_or e (run_query (find_query q)) w)
  unfolding found_or bind
  found_or-error e q w = elim (Found-cases (run_query (find_query q) w).0) [
    | inl (a, h) ↦
        returned a (ground arith) (run_find-some q w a h, ground (arith, run_find-tables q w))
    | inr (inl h) ↦ failed e (ground arith) (ground (arith, run_find-tables q w), refl)
    | inr (inr (f, h)) ↦ failed e (ground arith) (ground (arith, run_find-tables q w), refl)
  ]

  pub found_or-Ends :
      {A : Type 0} (e : GoError) (q : Tables x.F → Option A) (w : World x.F)
      → Ends
          (λ a w'. (q w.tables ≡ some a) × (w'.tables ≡ w.tables))
          (Unchanged w)
          (found_or e (run_query (find_query q)) w)
  found_or-Ends e q w = Ends-weaken _ (λ _ _ h. h) (λ _ _ h. h.0) (found_or-error e q w)

  exec_checked-end :
      (ops : List (Query x.F (Unit {0}))) (w : World x.F) (r : Result (Unit {0}))
      → (run_query (transaction ops) w).0 ≡ r
      → Ends
          (λ _ w'. transaction ops w.tables ≡ done tt w'.tables)
          (Unchanged w)
          (exec_checked ops w)
  unfolding exec_checked bind
  exec_checked-end ops w (ok u) h =
      returned u (ground arith) (ground (arith, run_query-ok (transaction ops) w u h))
  exec_checked-end ops w (err e) h = elim (Bool-cases (mentions e "non_negative_balance")) [
    | inl c ↦
        failed (GoError.new "insufficient funds (race condition)") (ground arith)
          (ground (arith, run_query-err (transaction ops) w e h))
    | inr c ↦ failed e (ground arith) (ground (arith, run_query-err (transaction ops) w e h))
  ]

  pub exec_checked-Ends :
      (ops : List (Query x.F (Unit {0}))) (w : World x.F)
      → Ends
          (λ _ w'. transaction ops w.tables ≡ done tt w'.tables)
          (Unchanged w)
          (exec_checked ops w)
  exec_checked-Ends ops w = exec_checked-end ops w _ refl

  -- The same from any state whose tables are known to be `t`.
  module _ (t : Tables x.F) where
    abbrev pub Kept : GoError → World x.F → Type 0
    Kept e w = w.tables ≡ t

    pub asset_found :
        (e : GoError) (user_id currency : String) (w : World x.F)
        → w.tables ≡ t
        → Ends
            (λ a w'. (asset_of_user user_id currency t ≡ some a) × (w'.tables ≡ t))
            Kept
            (found_or e (get_asset_by_currency user_id currency) w)
    unfolding get_asset_by_currency
    asset_found e user_id currency w h =
        rw (← h) (found_or-Ends e (asset_of_user user_id currency) w)

    pub wallet_found :
        (e : GoError) (number : String) (w : World x.F)
        → w.tables ≡ t
        → Ends
            (λ r w'. (wallet_by_number number t ≡ some r) × (w'.tables ≡ t))
            Kept
            (found_or e (get_wallet_by_account_number number) w)
    unfolding get_wallet_by_account_number
    wallet_found e number w h = rw (← h) (found_or-Ends e (wallet_by_number number) w)

    pub test_passed :
        (c : Bool) (e : GoError) (w : World x.F)
        → w.tables ≡ t
        → Ends (λ _ w'. (c ≡ false) × (w'.tables ≡ t)) Kept (fail_if c e w)
    test_passed c e w h = fail_if-Ends c e w (λ n. (n, h)) (λ _. h)

    pub checked :
        {P : Tables x.F → Type 0} (ops : List (Query x.F (Unit {0}))) (w : World x.F)
        → w.tables ≡ t
        → ((t' : Tables x.F) → transaction ops t ≡ done tt t' → P t')
        → Ends (λ _ w'. P w'.tables) Kept (exec_checked ops w)
    checked ops w h give =
        Ends-weaken _ (λ _ w' d. give w'.tables (rw (← h) d)) (λ _ w' k. k ∙ h)
          (exec_checked-Ends ops w)
