-- ===== src/Schema/Ledger/Effects.antt =====
-- What each query on the balances does to the abstract view.
use mathlib.Core.Path.{fun_ext, ap₂}
use mathlib.Core.Option
use mathlib.Core.List.{append-nil}
use mzl_payment_app.Common.{
  String, Bool, true, none, some, [], ◌∷◌, ◌++◌, ◌≡◌, refl, sym, ap, ◌∙◌, ◌==◌, ◌&&◌, arith, eq_iff,
  Option-cases, ◌⊎◌, inl, inr,
}
use mzl_payment_app.Common.Table.{
  find, find-update, find-append, find-append_old, eq_of_same_key, find-holds, find-none_at,
}
use mzl_payment_app.External.{Externals}
use mzl_payment_app.Schema.Tables.{Tables, has_key, same_key, same_id}
use mzl_payment_app.Schema.Query.{done}
use mzl_payment_app.Schema.Assets.{
  Asset, update_asset, upsert_asset, create_asset, set_balances, with_balance, has_id, increment,
  decrement, new_asset, asset_of_user, owned_by,
}
use mzl_payment_app.Schema.Ledger.{
  Balances, balances, entries, adjust, credit, debit, IsWellFormed, Moves,
}

module _ ⦃x : Externals⦄ where
  pub update_asset-done :
      (which : Asset → Bool) (change : x.F → x.F) (t t' : Tables x.F)
      → update_asset which change t ≡ done tt t'
      → (a : Asset) × (find which t.assets ≡ some a)
        × (x.le x.zero_f (change a.balance) ≡ true)
        × (t' ≡ set_balances which change t)
  unfolding update_asset
  update_asset-done which change t t' e = elim (Option-cases (find which t.assets)) [
    | inl h ↦ absurd (ground arith)
    | inr (a, h) ↦ (a, h, ground arith, ground arith)
  ]

  -- A change of the asset with a key.
  pub keyed_update-balance :
      (wallet_id currency : String) (change : x.F → x.F) (t : Tables x.F) (w c : String)
      → balances (set_balances (has_key wallet_id currency) change t) w c
        ≡ adjust wallet_id currency change (balances t) w c
  keyed_update-balance wallet_id currency change t w c =
      let moved =
        find-update (has_key w c) (has_key wallet_id currency) (with_balance change) (λ a. refl)
          t.assets in
      elim (Option-cases (find (has_key w c) t.assets)) [
        | inl e ↦ ground arith
        | inr (a, e) ↦
            let here = find-holds (has_key w c) t.assets a e in
            ground (arith, eq_iff a.wallet_id w, eq_iff a.currency c)
      ]

  has_id_refl : (a : Asset) → same_id a a ≡ true
  has_id_refl a = (eq_iff a.id a.id).1 refl

  pub same_id_comm : (a b : Asset) → same_id a b ≡ same_id b a
  same_id_comm a b = ground (arith, eq_iff a.id b.id, eq_iff b.id a.id)

  same_key_refl : (a : Asset) → same_key a a ≡ true
  same_key_refl a = ground (arith, eq_iff a.wallet_id a.wallet_id, eq_iff a.currency a.currency)

  pub same_key_comm : (a b : Asset) → same_key a b ≡ same_key b a
  same_key_comm a b = ground (
    arith,
    eq_iff a.wallet_id b.wallet_id,
    eq_iff b.wallet_id a.wallet_id,
    eq_iff a.currency b.currency,
    eq_iff b.currency a.currency,
  )

  eq_of_id :
      (p q : Asset → Bool) (t : Tables x.F) (a b : Asset)
      → IsWellFormed t
      → find p t.assets ≡ some a
      → find q t.assets ≡ some b
      → has_id b.id a ≡ true
      → a ≡ b
  eq_of_id p q t a b v e f h =
      eq_of_same_key same_id has_id_refl same_id_comm p q t.assets a b v.ids e f
        (ap {B = Asset → Bool} (λ (i : String) (c : Asset). c.id == i) ((eq_iff a.id b.id).0 h))

  eq_of_key :
      (p q : Asset → Bool) (t : Tables x.F) (a b : Asset)
      → IsWellFormed t
      → find p t.assets ≡ some a
      → find q t.assets ≡ some b
      → a.wallet_id ≡ b.wallet_id
      → a.currency ≡ b.currency
      → a ≡ b
  eq_of_key p q t a b v e f h k =
      eq_of_same_key same_key same_key_refl same_key_comm p q t.assets a b v.keys e f
        (ap₂ {C = Asset → Bool} (λ (i j : String) (c : Asset). has_key i j c) h k)

  -- A change of the row `s`, named by its id.
  identified_update-balance :
      (s : Asset) (p : Asset → Bool) (change : x.F → x.F) (t : Tables x.F) (w c : String)
      → IsWellFormed t
      → find p t.assets ≡ some s
      → balances (set_balances (has_id s.id) change t) w c
        ≡ adjust s.wallet_id s.currency change (balances t) w c
  identified_update-balance s p change t w c v found =
      let moved =
        find-update (has_key w c) (has_id s.id) (with_balance change) (λ a. refl) t.assets in
      elim (Option-cases (find (has_key w c) t.assets)) [
        | inl e ↦ ground arith
        | inr (a, e) ↦
            let here = find-holds (has_key w c) t.assets a e in
            ground (
              arith,
              eq_iff a.wallet_id w,
              eq_iff a.currency c,
              eq_iff a.wallet_id s.wallet_id,
              eq_iff a.currency s.currency,
              eq_iff a.id s.id,
              eq_of_id (has_key w c) p t a s v e found,
              eq_of_key (has_key w c) p t a s v e found,
            )
      ]

  pub upsert_asset-done :
      (wallet_id currency : String) (amount : x.F) (t t' : Tables x.F)
      → upsert_asset wallet_id currency amount t ≡ done tt t'
      → ((a : Asset) × (find (has_key wallet_id currency) t.assets ≡ some a)
          × (x.le x.zero_f (x.add a.balance amount) ≡ true)
          × (t' ≡ set_balances (has_key wallet_id currency) (increment amount) t))
        ⊎ ((find (has_key wallet_id currency) t.assets ≡ none)
            × (x.le x.zero_f amount ≡ true)
            × (find (has_id (x.uuid t)) t.assets ≡ none)
            × (t' ≡ record t { assets = t.assets ++ new_asset wallet_id currency amount t ∷ [] }))
  unfolding upsert_asset create_asset update_asset
  upsert_asset-done wallet_id currency amount t t' e =
      elim (Option-cases (find (has_key wallet_id currency) t.assets)) [
        | inl h ↦ inr (h, ground arith, ground arith, ground arith)
        | inr (a, h) ↦ inl (a, h, ground arith, ground arith)
      ]

  new_asset-balance :
      (wallet_id currency : String) (amount : x.F) (t : Tables x.F) (w c : String)
      → find (has_key wallet_id currency) t.assets ≡ none
      → balances (record t { assets = t.assets ++ new_asset wallet_id currency amount t ∷ [] }) w c
        ≡ credit wallet_id currency amount (balances t) w c
  new_asset-balance wallet_id currency amount t w c missing =
      elim (Option-cases (find (has_key w c) t.assets)) [
        | inl e ↦
            let added =
              find-append (has_key w c) t.assets (new_asset wallet_id currency amount t) e in
            ground
              (arith, eq_iff wallet_id w, eq_iff w wallet_id, eq_iff currency c, eq_iff c currency)
        | inr (a, e) ↦
            let kept =
              find-append_old (has_key w c) t.assets (new_asset wallet_id currency amount t) a e in
            let apart =
              find-none_at (has_key wallet_id currency) (has_key w c) t.assets a missing e in
            let here = find-holds (has_key w c) t.assets a e in
            ground (arith, eq_iff a.wallet_id w, eq_iff a.currency c)
      ]

  -- The queries on the balances, on the abstract view.
  pub debit-Moves :
      (s : Asset) (p : Asset → Bool) (amount : x.F) (t t' : Tables x.F)
      → IsWellFormed t
      → find p t.assets ≡ some s
      → update_asset (has_id s.id) (decrement amount) t ≡ done tt t'
      → Moves (debit s.wallet_id s.currency amount) [] t t'
  debit-Moves s p amount t t' v found e =
      let (a, _, _, same) = update_asset-done (has_id s.id) (decrement amount) t t' e in
      rw same (record {
        balances_go =
            fun_ext
              λ w. fun_ext λ c. identified_update-balance s p (decrement amount) t w c v found;
        entries_grow = sym (append-nil (entries t));
      })

  -- Where the balance is held already, a credit is an increment.
  credit_of_held :
      (wallet_id currency : String) (amount held : x.F) (b : Balances) (w c : String)
      → b wallet_id currency ≡ some held
      → adjust wallet_id currency (increment amount) b w c ≡ credit wallet_id currency amount b w c
  credit_of_held wallet_id currency amount held b w c h =
      ground (arith, eq_iff w wallet_id, eq_iff c currency)

  pub credit-Moves :
      (wallet_id currency : String) (amount : x.F) (t t' : Tables x.F)
      → upsert_asset wallet_id currency amount t ≡ done tt t'
      → Moves (credit wallet_id currency amount) [] t t'
  credit-Moves wallet_id currency amount t t' e =
      elim (upsert_asset-done wallet_id currency amount t t' e) [
        | inl (a, h, _, same) ↦ rw same (record {
          balances_go = fun_ext λ w. fun_ext λ c.
              keyed_update-balance wallet_id currency (increment amount) t w c
              ∙ credit_of_held wallet_id currency amount a.balance (balances t) w c
                  (ap (Option.map λ r. r.balance) h);
          entries_grow = sym (append-nil (entries t));
        })
        | inr (h, _, _, same) ↦ rw same (record {
          balances_go =
              fun_ext λ w. fun_ext λ c. new_asset-balance wallet_id currency amount t w c h;
          entries_grow = sym (append-nil (entries t));
        })
      ]

  -- The asset that a user's currency finds is in that currency.
  pub asset_of_user-currency :
      (user_id currency : String) (t : Tables x.F) (s : Asset)
      → asset_of_user user_id currency t ≡ some s
      → s.currency ≡ currency
  asset_of_user-currency user_id currency t s e =
      let here = find-holds (λ a. a.currency == currency && owned_by user_id t a) t.assets s e in
      ground (arith, eq_iff s.currency currency)
