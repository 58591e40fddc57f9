-- ===== src/Queue.antt =====
-- internals/pkg/redis.go: `RedisQueue`, the cache, the locks and the queue of jobs over Redis.
-- The interface of its clients is internals/service/queue_service.go.
pub mod Lists
pub mod Locks
pub mod RateLimit
pub mod Retries
pub mod Drains
use mzl_payment_app.Common.{ℕ, String, Bool, Option, none, some, ltb, eqb, if◌then◌else◌, suc}
use mzl_payment_app.Common.Text.{◌+++◌}
use mzl_payment_app.Go.{GoError, Result, ok, err}
use mzl_payment_app.External.{Externals}
use mzl_payment_app.External.Messages.{Codec, Job}
use mzl_payment_app.External.Redis.{set, set_nx, get, del, incr, expire, rpush, blpop}
use mzl_payment_app.World.{Action, pure, fail, ◌>>=◌, ◌>>◌, attempt, ignore, lift, run_command}

abbrev pub max_retries : ℕ
max_retries = 3

abbrev pub idempotency_key : String → String
idempotency_key key = "idemp:" +++ key

abbrev pub rate_limit_key : String → String
rate_limit_key key = "ratelimit:" +++ key

abbrev pub dead_letter : String → String
dead_letter queue_name = queue_name +++ ":dead_letter"

module _ ⦃x : Externals⦄ where
  unfoldable pub set_value : {A : Type 0} → Codec A → String → A → ℕ → Action (Unit {0})
  set_value codec key value ttl = do
    bytes ← lift (codec.marshal value)
    run_command (set key bytes ttl)

  -- `if err == redis.Nil`
  abbrev pub present_or_miss : Option String → Action String
  present_or_miss none = fail (GoError.new "cache miss")
  present_or_miss (some bytes) = pure bytes

  unfoldable pub get_value : {A : Type 0} → Codec A → String → Action A
  get_value codec key = do
    reply ← run_command (get key)
    bytes ← present_or_miss reply
    lift (codec.unmarshal bytes)

  unfoldable pub delete : String → Action (Unit {0})
  delete key = run_command (del key)

  unfoldable pub try_lock_idempotency_key : String → ℕ → Action Bool
  try_lock_idempotency_key key ttl = run_command (set_nx (idempotency_key key) "processing" ttl)

  unfoldable pub set_idempotency_result :
      {A : Type 0} → Codec A → String → A → ℕ → Action (Unit {0})
  set_idempotency_result codec key value ttl = set_value codec (idempotency_key key) value ttl

  -- `if count == 1`, the window begins
  abbrev pub begin_window : String → ℕ → ℕ → Action (Unit {0})
  begin_window key window count =
      if eqb count 1 then ignore (run_command (expire key window)) else pure tt

  unfoldable pub is_rate_limited : String → ℕ → ℕ → Action Bool
  is_rate_limited key limit window = do
    count ← run_command (incr (rate_limit_key key))
    begin_window (rate_limit_key key) window count
    pure (ltb limit count)

  unfoldable pub enqueue : String → String → Action (Unit {0})
  enqueue queue_name payload = do
    bytes ← lift (x.job_codec.marshal (record { payload = payload; retries = 0 }))
    run_command (rpush queue_name bytes)

  -- `data, _ := json.Marshal(j)`
  abbrev pub bytes_or_empty : Result String → String
  bytes_or_empty (ok s) = s
  bytes_or_empty (err _) = ""

  unfoldable pub handle_failure : String → Job → Action (Unit {0})
  handle_failure queue_name j =
      let j = record j { retries = suc j.retries } in
      let bytes = bytes_or_empty (x.job_codec.marshal j) in
      if ltb j.retries max_retries
      then ignore (run_command (rpush queue_name bytes))
      else ignore (run_command (rpush (dead_letter queue_name) bytes))

  -- The worker processes an event by the payment service, which it is given.
  module _ (process_paystack_event : String → Action (Unit {0})) (queue_name : String) where
    abbrev pub after_processing : Job → Result (Unit {0}) → Action (Unit {0})
    after_processing j (ok _) = pure tt
    after_processing j (err _) = handle_failure queue_name j

    abbrev pub process_job : Result Job → Action (Unit {0})
    process_job (err _) = pure tt
    process_job (ok j) = do
      processed ← attempt (process_paystack_event j.payload)
      after_processing j processed

    -- BLPOP goes on waiting, an error is logged, or there is a job.
    abbrev pub handle_popped : Result (Option String) → Action (Unit {0})
    handle_popped (err _) = pure tt
    handle_popped (ok none) = pure tt
    handle_popped (ok (some bytes)) = process_job (x.job_codec.unmarshal bytes)

    -- One pass of the loop of `StartWorker`.
    unfoldable pub worker_round : Action (Unit {0})
    worker_round = do popped ← attempt (run_command (blpop queue_name)); handle_popped popped
