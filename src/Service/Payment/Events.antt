-- ===== src/Service/Payment/Events.antt =====
-- internals/service/payment_service.go: a payment by the event of a webhook and by
-- `VerifyAndCredit`.
use mzl_payment_app.Common.{String, true, ◌≡◌, refl, ◌∙◌, Option, none, some, ◌==◌, ◌&&◌}
use mzl_payment_app.Go.{Result, ok, err}
use mzl_payment_app.External.{Externals}
use mzl_payment_app.External.Messages.{PaystackEvent, VerifyResponse}
use mzl_payment_app.External.Redis.{del}
use mzl_payment_app.Schema.Tables.{Tables, User}
use mzl_payment_app.World.{World, Action, bind, wrapped_as}
use mzl_payment_app.World.Laws.{run_find-tables}
use mzl_payment_app.World.Keeps.{
  Keeps, tables_of, bind-Keeps, wrapped_as-Keeps, http_send-Keeps-tables, run_command-Keeps,
  Keeps-Stays, bind-Stays,
}
use mzl_payment_app.Queue.{delete}
use mzl_payment_app.Repository.User.{find_user_by_email}
use mzl_payment_app.Repository.Wallet.{credit_wallet_by_email, get_transaction_by_reference}
use mzl_payment_app.Repository.Wallet.Deposits.{
  credit_wallet_by_email-Moves, credit_wallet_by_email_same,
}
use mzl_payment_app.Repository.Wallet.Duplicates.{IsRecorded, HasFreshIds}
use mzl_payment_app.Service.Payment.{
  process_paystack_event, apply_event, credit_charge, verify_and_credit, credit_verified,
  forget_user, forget_wallet, deposit_description, wallet_key, history_key,
}
use mzl_payment_app.Service.Payment.Paystack.{verify_transaction}

module _ ⦃x : Externals⦄ where
  delete-Keeps : (key : String) → Keeps tables_of (delete key)
  unfolding delete
  delete-Keeps key = run_command-Keeps (del key)

  find_user_by_email-Keeps : (email : String) → Keeps tables_of (find_user_by_email email)
  unfolding find_user_by_email
  find_user_by_email-Keeps email w = run_find-tables _ w

  -- The cache is dropped without an error, and the tables are as they were.
  forget_user_kept :
      (r : Result (Option User)) (w : World x.F)
      → (w1 : World x.F) × (forget_user r w ≡ (ok tt, w1)) × (w1.tables ≡ w.tables)
  unfolding bind
  forget_user_kept (err e) w = (w, refl, refl)
  forget_user_kept (ok none) w = (w, refl, refl)
  forget_user_kept (ok (some user)) w =
      (_, refl, delete-Keeps (history_key user.id) _ ∙ delete-Keeps (wallet_key user.id) w)

  forget_wallet-Keeps : (r : Result (Option User)) → Keeps tables_of (forget_wallet r)
  forget_wallet-Keeps (err e) w = refl
  forget_wallet-Keeps (ok none) w = refl
  forget_wallet-Keeps (ok (some user)) w = delete-Keeps (wallet_key user.id) w

  abbrev pub deposit_by : PaystackEvent x.F → Action (Unit {0})
  deposit_by ev =
      credit_wallet_by_email ev.email ev.currency (x.div ev.amount x.hundred_f) ev.reference
        (deposit_description ev.currency) "PAYSTACK"

  credit_charge_after :
      (ev : PaystackEvent x.F) (w : World x.F)
      → (w1 : World x.F) × (w1.tables ≡ w.tables) × (credit_charge ev w ≡ deposit_by ev w1)
  unfolding credit_charge bind
  credit_charge_after ev w =
      let (w1, done_so, same) =
        forget_user_kept (find_user_by_email ev.email w).0 (find_user_by_email ev.email w).1 in
      (w1, same ∙ find_user_by_email-Keeps ev.email w, rw (done_so) refl)

  -- The payload is the event of a successful charge.
  pub record IsCharge (payload : String) (ev : PaystackEvent x.F) : Type 0 where
    pub decoded : x.decode_event payload ≡ ok ev
    pub is_charge : (ev.event == "charge.success" && ev.status == "success") ≡ true

  process_charge :
      (payload : String) (ev : PaystackEvent x.F) (w : World x.F)
      → IsCharge payload ev
      → process_paystack_event payload w ≡ credit_charge ev w
  unfolding process_paystack_event apply_event wrapped_as bind
  process_charge payload ev w charge = rw (charge.decoded, charge.is_charge) refl

  -- A charge whose reference the database has already is not credited again: its event changes no
  -- table, however it ends.
  pub process_paystack_event_replay :
      (payload : String) (ev : PaystackEvent x.F) (w : World x.F)
      → IsCharge payload ev
      → IsRecorded ev.reference w.tables
      → (process_paystack_event payload w).1.tables ≡ w.tables
  process_paystack_event_replay payload ev w charge old =
      let (w1, same, e) = credit_charge_after ev w in
      let still =
        credit_wallet_by_email_same ev.email ev.currency (x.div ev.amount x.hundred_f) ev.reference
          (deposit_description ev.currency) "PAYSTACK" w1 (rw (same) old) in
      rw (process_charge payload ev w charge, e) (still ∙ same)

  -- The event of a charge that was processed without an error leaves its reference in the database.
  process_charge-IsRecorded :
      (payload : String) (ev : PaystackEvent x.F) (w : World x.F)
      → ((t : Tables x.F) → HasFreshIds t)
      → IsCharge payload ev
      → (process_paystack_event payload w).0 ≡ ok tt
      → IsRecorded ev.reference (process_paystack_event payload w).1.tables
  process_charge-IsRecorded payload ev w fresh charge =
      let (w1, same, e) = credit_charge_after ev w in
      rw (process_charge payload ev w charge, e)
        λ done_so.
          let (_, _, _, there, _) =
            credit_wallet_by_email-Moves ev.email ev.currency (x.div ev.amount x.hundred_f)
              ev.reference (deposit_description ev.currency) "PAYSTACK" w1 fresh done_so in
          there

  verify_transaction-Keeps :
      (secret reference : String) → Keeps tables_of (verify_transaction secret reference)
  unfolding verify_transaction
  verify_transaction-Keeps secret reference =
      bind-Keeps tables_of _ _ (λ _. refl)
        λ _.
          bind-Keeps tables_of _ _ (wrapped_as-Keeps tables_of _ _ (http_send-Keeps-tables _))
            λ resp.
              bind-Keeps tables_of _ _ (λ _. refl) λ _. wrapped_as-Keeps tables_of _ _ (λ _. refl)

  credit_verified_replay :
      (reference : String) (d : VerifyResponse x.F) (w : World x.F)
      → IsRecorded reference w.tables
      → (credit_verified reference d w).1.tables ≡ w.tables
  unfolding credit_verified
  credit_verified_replay reference d w old =
      credit_wallet_by_email_same d.email d.currency (x.div d.amount x.hundred_f) reference
        (deposit_description d.currency) "PAYSTACK" w old

  get_transaction_by_reference-Keeps :
      (reference : String) → Keeps tables_of (get_transaction_by_reference reference)
  unfolding get_transaction_by_reference
  get_transaction_by_reference-Keeps reference w = run_find-tables _ w

  -- A payment that the database has already is not credited again by `VerifyAndCredit`, whatever
  -- Paystack answers: no table changes.
  pub verify_and_credit_replay :
      (secret reference : String) (w : World x.F)
      → IsRecorded reference w.tables
      → (verify_and_credit secret reference w).1.tables ≡ w.tables
  unfolding verify_and_credit
  verify_and_credit_replay secret reference w old =
      let t = w.tables in
      let verified =
        wrapped_as "paystack verification failed" (verify_transaction secret reference) in
      bind-Stays t verified _
        (Keeps-Stays t verified (
          wrapped_as-Keeps tables_of _ (verify_transaction secret reference)
            (verify_transaction-Keeps secret reference)))
        (λ d.
          bind-Stays t _ _ (λ _ same. same)
            (λ _.
              bind-Stays t _ _
                (λ w1 same. credit_verified_replay reference d w1 (rw (same) old) ∙ same)
                (λ _.
                  bind-Stays t _ _
                    (Keeps-Stays t (find_user_by_email d.email) (find_user_by_email-Keeps d.email))
                    (λ user.
                      bind-Stays t _ _
                        (Keeps-Stays t (forget_wallet user) (forget_wallet-Keeps user))
                        (λ _.
                          Keeps-Stays t (get_transaction_by_reference reference)
                            (get_transaction_by_reference-Keeps reference))))))
        w refl

  -- One payment is credited once: when the event of its charge has been processed without an
  -- error, and the ids that the database generates are fresh, neither the same event again nor a
  -- verification of its reference changes a table, from any state with the tables that the first
  -- left.
  pub payment_credited_once :
      (payload : String) (ev : PaystackEvent x.F) (secret : String) (w w' : World x.F)
      → ((t : Tables x.F) → HasFreshIds t)
      → IsCharge payload ev
      → (process_paystack_event payload w).0 ≡ ok tt
      → w'.tables ≡ (process_paystack_event payload w).1.tables
      → ((process_paystack_event payload w').1.tables ≡ w'.tables)
        × ((verify_and_credit secret ev.reference w').1.tables ≡ w'.tables)
  payment_credited_once payload ev secret w w' fresh charge done_so same =
      let there = process_charge-IsRecorded payload ev w fresh charge done_so in
      (
        process_paystack_event_replay payload ev w' charge (rw (same) there),
        verify_and_credit_replay secret ev.reference w' (rw (same) there),
      )
