-- ===== src/Server/Webhook/Delivery.antt =====
-- internals/server/paystack_handler.go and internals/pkg/redis.go: from the webhook through the
-- queue to the worker.
use mzl_payment_app.Common.{
  ℕ, suc, String, true, false, Bool-cases, inl, inr, ◌≡◌, refl, some, none, [], ◌∷◌, ◌==◌, ltb,
}
use mzl_payment_app.Go.{Result, ok, err}
use mzl_payment_app.External.{Externals}
use mzl_payment_app.External.Messages.{Job}
use mzl_payment_app.External.Redis.{Keyspace, Entry, Value, blpop, rpush, set_nx, store}
use mzl_payment_app.External.Redis.Keys.{store_other}
use mzl_payment_app.World.{World, Action, bind, run_command}
use mzl_payment_app.World.Commands.{IsReliable, run_command_reliable}
use mzl_payment_app.World.Keeps.{Keeps, tables_of, run_command-Keeps}
use mzl_payment_app.Queue.{
  idempotency_key, try_lock_idempotency_key, enqueue, max_retries, handle_failure, after_processing,
  worker_round,
}
use mzl_payment_app.Queue.Lists.{Holds, OnlyAt, blpop-Holds, rpush-Holds}
use mzl_payment_app.Queue.Retries.{Reads, Holds-OnlyAt}
use mzl_payment_app.Service.Payment.{verify_paystack_signature, process_paystack_event}
use mzl_payment_app.Server.Webhook.{
  paystack_webhook_handler, accept_event, lock_then_queue, queue_event, queue-ne,
}

module _ ⦃x : Externals⦄ where
  -- The webhook answers 200, and the event is the one job of the queue.
  pub record Queued (body : String) (p : Result ℕ × World x.F) : Type 0 where
    pub item : String
    pub answered : p.0 ≡ ok 200
    pub reads : Reads item (record { payload = body; retries = 0 })
    pub queue : Holds p.1.keys "payment_webhooks" (item ∷ [])

  module _ (reliable : IsReliable) where
    enqueued :
        (q body : String) (w : World x.F)
        → Holds w.keys q []
        → (s : String) × ((enqueue q body w).0 ≡ ok tt)
          × Reads s (record { payload = body; retries = 0 })
          × Holds (enqueue q body w).1.keys q (s ∷ [])
    unfolding enqueue bind
    enqueued q body w h =
        let (s, written, read) = x.job_read (record { payload = body; retries = 0 }) in
        let (k', e, held, _) = rpush-Holds q w.keys s [] h in
        let (sent, same) = run_command_reliable (rpush q s) w tt k' reliable e in
        (s, rw (written, sent) refl, read, rw (written, same) held)

    queue_event-Queued :
        (body reference : String) (w : World x.F)
        → Holds w.keys "payment_webhooks" []
        → Queued body (queue_event body reference w)
    unfolding queue_event bind
    queue_event-Queued body reference w h =
        let (s, sent, read, held) = enqueued "payment_webhooks" body w h in
        rw sent (record { item = s; answered = refl; reads = read; queue = held })

    set_nx_free :
        (key v : String) (ttl : ℕ) (k : Keyspace)
        → k key ≡ none
        → set_nx key v ttl k
          ≡ some (true, store key (some (record { value = Value.text v; ttl = some ttl })) k)
    set_nx_free key v ttl k free = rw (set_nx, free) refl

    locked :
        (reference : String) (w : World x.F)
        → w.keys (idempotency_key reference) ≡ none
        → ((try_lock_idempotency_key reference 86400 w).0 ≡ ok true)
          × OnlyAt
              (idempotency_key reference)
              w.keys
              (try_lock_idempotency_key reference 86400 w).1.keys
    unfolding try_lock_idempotency_key
    locked reference w free =
        let key = idempotency_key reference in
        let new : Entry = record { value = Value.text "processing"; ttl = some 86400 } in
        let (got, same) =
          run_command_reliable (set_nx key "processing" 86400) w true (store key (some new) w.keys)
            reliable (set_nx_free key "processing" 86400 w.keys free) in
        (got, λ j ne. rw same (store_other key j (some new) w.keys ne))

    -- A new event.
    webhook-Queued :
        (body signature reference : String) (w : World x.F)
        → (signature == "") ≡ false
        → verify_paystack_signature body signature ≡ true
        → x.decode_reference body ≡ (true, reference)
        → (reference == "") ≡ false
        → w.keys (idempotency_key reference) ≡ none
        → Holds w.keys "payment_webhooks" []
        → Queued body (paystack_webhook_handler (ok body) signature w)
    unfolding paystack_webhook_handler accept_event lock_then_queue bind
    webhook-Queued body signature reference w signed valid read named free empty =
        let (got, only) = locked reference w free in
        let still =
          Holds-OnlyAt (idempotency_key reference) "payment_webhooks" _ _ [] only
            (queue-ne reference) empty in
        rw (signed, valid, read, named, got) (queue_event-Queued body reference _ still)

    handle_failure-Keeps : (q : String) (j : Job) → Keeps tables_of (handle_failure q j)
    unfolding handle_failure
    handle_failure-Keeps q j w = elim (Bool-cases (ltb (suc j.retries) max_retries)) [
      | inl b ↦ rw b (run_command-Keeps _ w)
      | inr b ↦ rw b (run_command-Keeps _ w)
    ]

    after-Keeps :
        (process : String → Action (Unit {0})) (q : String) (j : Job) (r : Result (Unit {0}))
        → Keeps tables_of (after_processing process q j r)
    after-Keeps process q j (ok u) w = refl
    after-Keeps process q j (err e) w = handle_failure-Keeps q j w

    -- The pass of the worker that takes it.
    processed :
        (process : String → Action (Unit {0})) (body item : String) (w : World x.F)
        → Reads item (record { payload = body; retries = 0 })
        → Holds w.keys "payment_webhooks" (item ∷ [])
        → (w1 : World x.F) × (w1.tables ≡ w.tables)
          × ((worker_round process "payment_webhooks" w).1.tables ≡ (process body w1).1.tables)
    unfolding worker_round bind
    processed process body item w read held =
        let (k', e, _, _) = blpop-Holds "payment_webhooks" w.keys (item ∷ []) held in
        let (popped, same) =
          run_command_reliable (blpop "payment_webhooks") w (some item) k' reliable e in
        let w1 = (run_command (blpop "payment_webhooks") w).1 in
        (
          w1,
          run_command-Keeps (blpop "payment_webhooks") w,
          rw (popped, read)
              (after-Keeps process "payment_webhooks" (record { payload = body; retries = 0 }) _ _),
        )

    -- A new event of Paystack reaches the payment service: with a Redis that answers every command
    -- and an empty queue, the event of a webhook with a valid signature whose reference was not
    -- seen is answered with 200, and the next pass of the worker, at any world that has the queue
    -- as it was left, writes the tables as the processing of that event does on the same tables.
    pub paystack_webhook_handler-worker_round :
        (body signature reference : String) (w w' : World x.F)
        → (signature == "") ≡ false
        → verify_paystack_signature body signature ≡ true
        → x.decode_reference body ≡ (true, reference)
        → (reference == "") ≡ false
        → w.keys (idempotency_key reference) ≡ none
        → Holds w.keys "payment_webhooks" []
        → w'.keys "payment_webhooks"
          ≡ (paystack_webhook_handler (ok body) signature w).1.keys "payment_webhooks"
        → ((paystack_webhook_handler (ok body) signature w).0 ≡ ok 200)
          × ((w1 : World x.F) × (w1.tables ≡ w'.tables)
              × ((worker_round process_paystack_event "payment_webhooks" w').1.tables
                  ≡ (process_paystack_event body w1).1.tables))
    paystack_webhook_handler-worker_round body signature reference w w' signed valid read named free
          empty same =
        let new = webhook-Queued body signature reference w signed valid read named free empty in
        (
          new.answered,
          processed process_paystack_event body new.item w' new.reads (rw same new.queue),
        )
