-- ===== src/Repository/Wallet/Deposits.antt =====
-- `CreditWalletByEmail` of wallet_repo.go, which the webhook and the verification of a payment
-- call.
use mzl_payment_app.Common.{
  String, false, ◌≡◌, refl, subst, ap, ◌∙◌, Option, none, some, List, [], ◌∷◌, ◌⊎◌, inl, inr, arith,
}
use mzl_payment_app.Common.Table.{find}
use mzl_payment_app.Go.{GoError, ok}
use mzl_payment_app.External.{Externals}
use mzl_payment_app.Schema.Tables.{Tables, Wallet, User}
use mzl_payment_app.Schema.Query.{Query}
use mzl_payment_app.Schema.Transactions.{has_reference}
use mzl_payment_app.Schema.Ledger.{credit, Moves}
use mzl_payment_app.World.{World}
use mzl_payment_app.World.Ends.{Ends, returned, failed, bind-Ends, Ends-ok, Ends-weaken}
use mzl_payment_app.Repository.Wallet.{
  is_unique_constraint_error, user_by_email, wallet_or, deposit_ops, deposit_of,
  credit_wallet_by_email,
}
use mzl_payment_app.Repository.Wallet.Commits.{found_or-error}
use mzl_payment_app.Repository.Wallet.Duplicates.{
  IsRecorded, Refused, Deduplicated, exec_deduplicated-Ends, HasFreshIds, refused_when-IsRecorded,
  deposit-Moves, deposit-IsRecorded,
}

module _ ⦃x : Externals⦄ where
  wallet_or-Ends :
      (e : GoError) (o : Option Wallet) (t : Tables x.F) (w : World x.F)
      → w.tables ≡ t
      → Ends
          (λ wallet w'. (o ≡ some wallet) × (w'.tables ≡ t))
          (λ f w'. (w'.tables ≡ t) × (f ≡ e))
          (wallet_or e o w)
  wallet_or-Ends e none t w h = failed e refl (h, refl)
  wallet_or-Ends e (some wallet) t w h = returned wallet refl (refl, h)

  module _ (email currency : String) (amount : x.F) (reference description provider : String) where
    abbrev pub steps : Wallet → List (Query x.F (Unit {0}))
    steps wallet = deposit_ops wallet currency amount reference description provider

    pub credit_wallet_by_email-Ends :
        (w : World x.F)
        → Ends
            (λ _ w'.
              (u : User) × (wallet : Wallet) × (user_by_email email w.tables
                ≡ some (u, some wallet))
              × Deduplicated (steps wallet) w.tables w'.tables)
            (Refused w.tables)
            (credit_wallet_by_email email currency amount reference description provider w)
    unfolding credit_wallet_by_email
    credit_wallet_by_email-Ends w =
        bind-Ends _ _ (found_or-error _ (user_by_email email) w)
          (λ u w1 fu.
            bind-Ends _ _ (wallet_or-Ends _ u.1 w.tables w1 fu.1)
              (λ wallet w2 fw.
                Ends-weaken _
                  (λ _ w' d. (
                    u.0,
                    wallet,
                    fu.0 ∙ ap (λ (o : Option Wallet). some (u.0, o)) fw.0,
                    subst (λ t. Deduplicated (steps wallet) t w'.tables) fw.1 d,
                  ))
                  (λ _ _ (k, other). (k ∙ fw.1, other)) (exec_deduplicated-Ends (steps wallet) w2))
              (λ _ _ (k, is). (k, rw is refl)))
          (λ _ _ (k, is). (k, rw is refl))

    -- A deposit that succeeds went to the wallet of the user with the email. Where no row had its
    -- reference it gave the amount to that wallet and appended one entry with the reference; where
    -- one had, it changed nothing. The ids that the database generates are taken to be fresh.
    pub credit_wallet_by_email-Moves :
        (w : World x.F)
        → ((t : Tables x.F) → HasFreshIds t)
        → (credit_wallet_by_email email currency amount reference description provider w).0 ≡ ok tt
        → let t' =
            (credit_wallet_by_email email currency amount reference description provider
              w).1.tables in
          (u : User) × (wallet : Wallet) × (user_by_email email w.tables ≡ some (u, some wallet))
          × (IsRecorded reference t')
          × (((find (has_reference reference) w.tables.transactions ≡ none)
                × Moves
                    (credit wallet.id currency amount)
                    (deposit_of wallet currency amount reference description provider ∷ [])
                    w.tables
                    t')
              ⊎ (IsRecorded reference w.tables × (t' ≡ w.tables)))
    credit_wallet_by_email-Moves w fresh e =
        let (u, wallet, found, d) = Ends-ok _ tt (credit_wallet_by_email-Ends w) e in
        elim d [
          | inl committed ↦
              let (missing, there) =
                deposit-IsRecorded wallet currency amount reference description provider _ _
                  committed in
              (
                u,
                wallet,
                found,
                there,
                inl (
                  missing,
                  deposit-Moves wallet currency amount reference description provider _ _ committed,
                ),
              )
          | inr (refused, same) ↦
              let old =
                refused_when-IsRecorded wallet currency amount reference description provider _
                  fresh refused in
              (u, wallet, found, rw same old, inr (old, same))
        ]

    -- Once a reference is recorded, a deposit with it changes no table, whatever its email,
    -- currency and amount: it ends with success, or with an error that is not that of a unique
    -- index, since that error is taken for success.
    pub credit_wallet_by_email_replay :
        (w : World x.F)
        → IsRecorded reference w.tables
        → Ends
            (λ _ w'. w'.tables ≡ w.tables)
            (λ e w'. (w'.tables ≡ w.tables) × (is_unique_constraint_error e ≡ false))
            (credit_wallet_by_email email currency amount reference description provider w)
    credit_wallet_by_email_replay w old =
        Ends-weaken _
          (λ _ w' (u, wallet, found, d). elim d [
            | inl committed ↦
                let (missing, _) =
                  deposit-IsRecorded wallet currency amount reference description provider _ _
                    committed in
                absurd (ground arith)
            | inr (_, same) ↦ same
          ])
          (λ _ _ h. h) (credit_wallet_by_email-Ends w)

    pub credit_wallet_by_email_same :
        (w : World x.F)
        → IsRecorded reference w.tables
        → (credit_wallet_by_email email currency amount reference description provider w).1.tables
          ≡ w.tables
    credit_wallet_by_email_same w old = elim (credit_wallet_by_email_replay w old) [
      | returned _ _ same ↦ same
      | failed _ _ (same, _) ↦ same
    ]
