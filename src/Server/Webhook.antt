-- ===== src/Server/Webhook.antt =====
-- internals/server/paystack_handler.go: `PaystackWebhookHandler`. What a handler returns is the
-- status code of its answer.
pub mod Delivery
use Prim.Native.Char.{code}
use mzl_payment_app.Common.{
  ℕ, String, true, false, not, ◌≡◌, refl, ap, ◌==◌, ◌&&◌, eq_iff, arith, if◌then◌else◌,
}
use mzl_payment_app.Common.Text.{append-ne_of_head}
use mzl_payment_app.Go.{Result, ok, err}
use mzl_payment_app.External.{Externals}
use mzl_payment_app.World.{World, Action, bind, pure, ◌>>=◌, ◌>>◌, attempt, ignore}
use mzl_payment_app.World.Ends.{returned, failed}
use mzl_payment_app.Queue.{try_lock_idempotency_key, enqueue, delete, idempotency_key}
use mzl_payment_app.Queue.Locks.{IsHeld, try_lock-Ends}
use mzl_payment_app.Service.Payment.{verify_paystack_signature}
use mzl_payment_app.Service.Wallet.{or_false}

module _ ⦃x : Externals⦄ where
  -- `_ = Delete` where there is a reference, then 500
  abbrev pub give_up : String → Action ℕ
  give_up reference =
      if reference == "" then pure 500 else do ignore (delete (idempotency_key reference)); pure 500

  abbrev pub status_of : String → Result (Unit {0}) → Action ℕ
  status_of reference (ok _) = pure 200
  status_of reference (err _) = give_up reference

  unfoldable pub queue_event : String → String → Action ℕ
  queue_event body reference = do
    queued ← attempt (enqueue "payment_webhooks" body)
    status_of reference queued

  unfoldable pub lock_then_queue : String → String → Action ℕ
  lock_then_queue body reference = do
    locked ← attempt (try_lock_idempotency_key reference 86400)
    (if or_false locked then queue_event body reference else pure 200)

  unfoldable pub accept_event : String → Action ℕ
  accept_event body =
      let (read, reference) = x.decode_reference body in
      if read && not (reference == "")
      then lock_then_queue body reference
      else queue_event body reference

  abbrev pub check_signature : String → String → Action ℕ
  check_signature body signature =
      if signature == ""
      then pure 401
      else if verify_paystack_signature body signature
      then accept_event body
      else pure 401

  -- `body` is what reading the request gave, `signature` the header `x-paystack-signature`.
  unfoldable pub paystack_webhook_handler : Result String → String → Action ℕ
  paystack_webhook_handler (err _) signature = pure 400
  paystack_webhook_handler (ok body) signature = check_signature body signature

  pub queue-ne : (reference : String) → (idempotency_key reference == "payment_webhooks") ≡ false
  queue-ne reference =
      let apart =
        append-ne_of_head "i" "p" "demp:" "ayment_webhooks" reference ""
          (λ e. omega (arith, ap code e)) in
      ground (arith, eq_iff (idempotency_key reference) "payment_webhooks")

  -- The event of a body whose reference is held is answered with 200 and dropped, whatever the
  -- event is: the queue is as it was, and no table has changed.
  pub paystack_webhook_handler_duplicate :
      (body signature reference : String) (w : World x.F)
      → (signature == "") ≡ false
      → verify_paystack_signature body signature ≡ true
      → x.decode_reference body ≡ (true, reference)
      → (reference == "") ≡ false
      → IsHeld reference w.keys
      → let (r, w') = paystack_webhook_handler (ok body) signature w in
        (r ≡ ok 200)
        × (w'.keys "payment_webhooks" ≡ w.keys "payment_webhooks")
        × (w'.tables ≡ w.tables)
  unfolding paystack_webhook_handler accept_event lock_then_queue bind
  paystack_webhook_handler_duplicate body signature reference w signed valid read named held =
      rw (signed, valid, read, named)
        (elim (try_lock-Ends reference 86400 w) [
          | returned b h ((free, _, others), kept) ↦
              let busy : b ≡ false = ground arith in
              rw (h, busy) (refl, others "payment_webhooks" (queue-ne reference), kept)
          | failed e h (keys, kept) ↦ rw h (refl, ap (λ k. k "payment_webhooks") keys, kept)
        ])
