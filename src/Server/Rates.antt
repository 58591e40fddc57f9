-- ===== src/Server/Rates.antt =====
-- internals/server/rates_handler.go.
pub mod Cache
use mzl_payment_app.Common.{ℕ, ◌+◌, Option, none, some, [], ◌∷◌, ltb, if◌then◌else◌}
use mzl_payment_app.Go.{ok}
use mzl_payment_app.External.{Externals}
use mzl_payment_app.External.Requests.{Rates}
use mzl_payment_app.World.{Action, lift, now, http_send}
use mzl_payment_app.Service.Wallet.{rate_url, get_page}
use mzl_payment_app.Server.Http.{
  Leaf, Value, Reply, Handler, Handling, field, json, ◌>>=◌, ◌>>◌, call, perform, answer, run,
}
use mzl_payment_app.Server.Payments.{refused_as}

-- `1 * time.Hour`, in nanoseconds.
abbrev pub hour : ℕ
hour = 3600000000000

module _ ⦃x : Externals⦄ where
  abbrev pub rates_answer : Option (Rates x.F) → Reply x.F
  rates_answer rates = json 200 (
      field "status" "success"
      ∷ ("data", Value.object (("base", Leaf.text "USD") ∷ ("rates", Leaf.rates rates) ∷ []))
      ∷ [])

  -- `cachedRates` and `cacheExpiryTime`, read under the lock
  unfoldable pub read_cache : Action (Option (Rates x.F) × ℕ)
  read_cache w = (ok (w.cached_rates, w.cache_expiry_time), w)

  unfoldable pub write_cache : Option (Rates x.F) → ℕ → Action (Unit {0})
  write_cache rates expiry w =
      (ok tt, record w { cached_rates = rates; cache_expiry_time = expiry })

  unfoldable pub fetch_rates : Handling (Reply x.F)
  fetch_rates = do
    call (lift (x.new_request (rate_url "USD"))) (refused_as 500)
    resp ← call (http_send (get_page (rate_url "USD"))) (refused_as 503)
    api_data ← call (lift (x.decode_external_rates resp.body)) (refused_as 500)
    t ← perform now
    perform (write_cache api_data.rates (t + hour))
    answer (rates_answer api_data.rates)

  -- `cachedRates != nil && time.Now().Before(cacheExpiryTime)`
  abbrev pub cached_or_fetch : Option (Rates x.F) × ℕ → Handling (Reply x.F)
  cached_or_fetch (none, expiry) = fetch_rates
  cached_or_fetch (some rates, expiry) = do
    t ← perform now
    (if ltb t expiry then answer (rates_answer (some rates)) else fetch_rates)

  unfoldable pub get_exchange_rates_handler : Handler
  get_exchange_rates_handler r = run do cache ← perform read_cache; cached_or_fetch cache
