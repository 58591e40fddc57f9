-- ===== src/Repository/Wallet/History.antt =====
-- internals/repository/wallet_repo.go: `GetTransactions`.
use mathlib.Core.List.{Permᴰ as IsPerm}
use mathlib.Core.List.Permᴰ.{nil, cons, swap, trans}
use mathlib.Core.List.Permᴰ as Perm
use mzl_payment_app.Common.{String, Bool-cases, inl, inr, ◌≡◌, refl, List, [], ◌∷◌, ◌≤◌, arith, leb}
use mzl_payment_app.Common.Table.{select}
use mzl_payment_app.External.{Externals}
use mzl_payment_app.Schema.Tables.{Tables}
use mzl_payment_app.Schema.Query.{many_query, done}
use mzl_payment_app.World.{World}
use mzl_payment_app.World.Ends.{Ends, Ends-weaken}
use mzl_payment_app.World.Laws.{run_query-Ends}
use mzl_payment_app.Repository.Wallet.{Row, insert_desc, order_desc, in_wallet_of, get_transactions}

module _ ⦃x : Externals⦄ where
  -- No row is older than one that follows it.
  abbrev pub IsOlder : Row → List Row → Type 0
  IsOlder tx [] = Unit
  IsOlder tx (a ∷ rows) = (a.created_at ≤ tx.created_at) × IsOlder tx rows

  abbrev pub IsNewestFirst : List Row → Type 0
  IsNewestFirst [] = Unit
  IsNewestFirst (a ∷ rows) = IsOlder a rows × IsNewestFirst rows

  IsOlder-trans :
      (a b : Row) (rows : List Row) → b.created_at ≤ a.created_at → IsOlder b rows → IsOlder a rows
  IsOlder-trans a b [] h l = tt
  IsOlder-trans a b (c ∷ rows) h (k, l) = (omega arith, IsOlder-trans a b rows h l)

  insert_desc-IsOlder :
      (a tx : Row) (rows : List Row)
      → tx.created_at ≤ a.created_at
      → IsOlder a rows
      → IsOlder a (insert_desc tx rows)
  insert_desc-IsOlder a tx [] h l = (h, tt)
  insert_desc-IsOlder a tx (b ∷ rows) h (k, l) =
      elim (Bool-cases (leb b.created_at tx.created_at)) [
        | inl e ↦ rw e (h, (k, l))
        | inr e ↦ rw e (k, insert_desc-IsOlder a tx rows h l)
      ]

  insert_desc-IsNewestFirst :
      (tx : Row) (rows : List Row) → IsNewestFirst rows → IsNewestFirst (insert_desc tx rows)
  insert_desc-IsNewestFirst tx [] h = (tt, tt)
  insert_desc-IsNewestFirst tx (a ∷ rows) (older, sorted) =
      elim (Bool-cases (leb a.created_at tx.created_at)) [
        | inl e ↦
            let le : a.created_at ≤ tx.created_at = ground arith in
            rw e ((le, IsOlder-trans tx a rows le older), (older, sorted))
        | inr e ↦
            let le : tx.created_at ≤ a.created_at = ground arith in
            rw e (insert_desc-IsOlder a tx rows le older, insert_desc-IsNewestFirst tx rows sorted)
      ]

  order_desc-IsNewestFirst : (rows : List Row) → IsNewestFirst (order_desc rows)
  order_desc-IsNewestFirst [] = tt
  order_desc-IsNewestFirst (tx ∷ rows) =
      insert_desc-IsNewestFirst tx (order_desc rows) (order_desc-IsNewestFirst rows)

  insert_desc-IsPerm : (tx : Row) (rows : List Row) → IsPerm (insert_desc tx rows) (tx ∷ rows)
  insert_desc-IsPerm tx [] = cons refl nil
  insert_desc-IsPerm tx (a ∷ rows) = elim (Bool-cases (leb a.created_at tx.created_at)) [
    | inl e ↦ rw e (Perm.refl (tx ∷ a ∷ rows))
    | inr e ↦ rw e (trans (cons refl (insert_desc-IsPerm tx rows)) (swap refl refl))
  ]

  order_desc-IsPerm : (rows : List Row) → IsPerm (order_desc rows) rows
  order_desc-IsPerm [] = nil
  order_desc-IsPerm (tx ∷ rows) =
      trans (insert_desc-IsPerm tx (order_desc rows)) (cons refl (order_desc-IsPerm rows))

  history-done :
      (user_id : String) (t t' : Tables x.F) (rows : List Row)
      → many_query (λ t. order_desc (select (in_wallet_of user_id t) t.transactions)) t
        ≡ done rows t'
      → rows ≡ order_desc (select (in_wallet_of user_id t) t.transactions)
  history-done user_id t t' rows e = ground arith

  -- The transactions of a user are those of the user's wallets, each once, the newest first; where
  -- they cannot be read, no table has changed either.
  pub get_transactions-Ends :
      (user_id : String) (w : World x.F)
      → Ends
          (λ rows _.
            IsNewestFirst rows
            × IsPerm rows (select (in_wallet_of user_id w.tables) w.tables.transactions))
          (λ _ w'. w'.tables ≡ w.tables)
          (get_transactions user_id w)
  unfolding get_transactions
  get_transactions-Ends user_id w =
      Ends-weaken _
        (λ rows w' d.
          let is = history-done user_id w.tables w'.tables rows d in
          let own = select (in_wallet_of user_id w.tables) w.tables.transactions in
          rw is (order_desc-IsNewestFirst own, order_desc-IsPerm own))
        (λ _ _ h. h)
        (run_query-Ends
          (many_query λ t. order_desc (select (in_wallet_of user_id t) t.transactions)) w)
