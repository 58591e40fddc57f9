-- ===== src/Server/Rates/Cache.antt =====
-- internals/server/rates_handler.go: an answer with rates, and the answers from the cache after it.
use mzl_payment_app.Common.{
  ℕ, suc, ◌+◌, ◌<◌, true, Bool-cases, Option, none, some, ◌≡◌, refl, sym, ◌≢◌, ◌∙◌, ap, ◌⊎◌, inl,
  inr, arith, ltb,
}
use mzl_payment_app.Go.{GoError, ok, err, Result}
use mzl_payment_app.External.{Externals}
use mzl_payment_app.External.Requests.{Rates}
use mzl_payment_app.World.{World, Action, lift, now, http_send, bind}
use mzl_payment_app.World.Ends.{Ends, returned, failed, Ends-ok}
use mzl_payment_app.Service.Wallet.{rate_url, get_page}
use mzl_payment_app.Server.Http.{Incoming, Reply, perform}
use mzl_payment_app.Server.Http.Ends.{call-Ends, perform-Ends}
use mzl_payment_app.Server.Payments.{refused_as}
use mzl_payment_app.Server.Rates.{
  hour, rates_answer, read_cache, write_cache, fetch_rates, cached_or_fetch,
  get_exchange_rates_handler,
}

module _ ⦃x : Externals⦄ where
  -- The cache expires when it did before, or an hour after a look at the clock.
  abbrev pub Expires : ℕ → World x.F → Type 0
  Expires before w =
      (w.cache_expiry_time ≡ before) ⊎ ((n : ℕ) × (w.cache_expiry_time ≡ x.clock n + hour))

  -- An answer with rates has those of the cache.
  abbrev IsCached : ℕ → Reply x.F → World x.F → Type 0
  IsCached before reply w =
      reply.status ≡ 200 → (reply ≡ rates_answer w.cached_rates) × Expires before w

  abbrev Anything : {A : Type 0} → A → World x.F → Type 0
  Anything _ _ = Unit {0}

  any_end :
      {A : Type 0} (m : Action A) (r : Result A) (w : World x.F)
      → (m w).0 ≡ r
      → Ends Anything Anything (m w)
  any_end m (ok a) w e = returned a e tt
  any_end m (err f) w e = failed f e tt

  error_IsCached :
      {before : ℕ} (status : ℕ) (e : GoError) (w : World x.F)
      → status ≢ 200
      → IsCached before (refused_as status e) w
  error_IsCached status e w ne is = absurd (ne is)

  write_cache-Ends :
      (rates : Option (Rates x.F)) (expiry : ℕ) (w : World x.F)
      → Ends
          (λ _ w'. (w'.cached_rates ≡ rates) × (w'.cache_expiry_time ≡ expiry))
          (λ _ _. Unit {0})
          (write_cache rates expiry w)
  unfolding write_cache
  write_cache-Ends rates expiry w = returned tt refl (refl, refl)

  now-Ends : (w : World x.F) → Ends (λ time _. time ≡ x.clock w.calls) (λ _ _. Unit {0}) (now w)
  unfolding now
  now-Ends w = returned _ refl refl

  -- What is fetched is what the cache holds afterwards.
  fetch_rates-IsCached :
      (before : ℕ) (w : World x.F)
      → Ends (IsCached before) (λ _ _. Unit {0}) (fetch_rates (λ reply w'. (ok reply, w')) w)
  unfolding fetch_rates
  fetch_rates-IsCached before w =
      call-Ends _ _ _ w (any_end (lift (x.new_request (rate_url "USD"))) _ w refl)
        (λ _ w1 _.
          call-Ends _ _ _ w1 (any_end (http_send (get_page (rate_url "USD"))) _ w1 refl)
            (λ resp w2 _.
              call-Ends _ _ _ w2 (any_end (lift (x.decode_external_rates resp.body)) _ w2 refl)
                (λ api_data w3 _.
                  perform-Ends _ _ w3 (now-Ends w3)
                    (λ time w4 is.
                      perform-Ends _ _ w4 (write_cache-Ends api_data.rates (time + hour) w4)
                        (λ _ w5 (held, expiry). returned _ refl (λ _. (
                          ap rates_answer (sym held),
                          inr (w3.calls, expiry ∙ ap (λ n. n + hour) is),
                        )))
                        (λ _ _ _. tt))
                    (λ _ _ _. tt))
                (λ e w3 _ _. error_IsCached 500 e w3 (λ h. omega (arith, h))) (λ _ _ _ _. tt))
            (λ e w2 _ _. error_IsCached 503 e w2 (λ h. omega (arith, h))) (λ _ _ _ _. tt))
        (λ e w1 _ _. error_IsCached 500 e w1 (λ h. omega (arith, h))) (λ _ _ _ _. tt)

  cached_or_fetch-IsCached :
      (rates : Option (Rates x.F)) (expiry : ℕ) (w : World x.F)
      → w.cached_rates ≡ rates
      → Ends
          (IsCached w.cache_expiry_time)
          (λ _ _. Unit {0})
          (cached_or_fetch (rates, expiry) (λ reply w'. (ok reply, w')) w)
  unfolding perform now bind
  cached_or_fetch-IsCached none expiry w e = fetch_rates-IsCached w.cache_expiry_time w
  cached_or_fetch-IsCached (some rates) expiry w e =
      elim (Bool-cases (ltb (x.clock w.calls) expiry)) [
        | inl b ↦ rw b (returned _ refl (λ _. (ap rates_answer (sym e), inl refl)))
        | inr b ↦ rw b (fetch_rates-IsCached w.cache_expiry_time _)
      ]

  handler-IsCached :
      (r : Incoming) (w : World x.F)
      → Ends (IsCached w.cache_expiry_time) (λ _ _. Unit {0}) (get_exchange_rates_handler r w)
  unfolding get_exchange_rates_handler perform read_cache bind
  handler-IsCached r w = cached_or_fetch-IsCached w.cached_rates w.cache_expiry_time w refl

  served :
      (r : Incoming) (w : World x.F) (rates : Rates x.F)
      → w.cached_rates ≡ some rates
      → x.clock w.calls < w.cache_expiry_time
      → get_exchange_rates_handler r w
        ≡ (ok (rates_answer (some rates)), record w { calls = suc w.calls })
  unfolding get_exchange_rates_handler perform read_cache now bind
  served r w rates held early =
      let soon : ltb (x.clock w.calls) w.cache_expiry_time ≡ true = ground arith in
      rw (held, cached_or_fetch, soon) refl

  -- After an answer with rates, every request that finds the cache as that answer has left it gets
  -- the same answer until the cache expires, and no request is sent for it, provided that the rate
  -- service had sent rates at all; the cache expires an hour after a look at the clock, or when it
  -- would have before that answer.
  pub get_exchange_rates_handler_again :
      (r r' : Incoming) (w w' : World x.F) (reply : Reply x.F) (rates : Rates x.F)
      → (get_exchange_rates_handler r w).0 ≡ ok reply
      → reply.status ≡ 200
      → (get_exchange_rates_handler r w).1.cached_rates ≡ some rates
      → w'.cached_rates ≡ some rates
      → x.clock w'.calls < w'.cache_expiry_time
      → ((get_exchange_rates_handler r' w').0 ≡ ok reply)
        × ((get_exchange_rates_handler r' w').1.requests ≡ w'.requests)
        × Expires w.cache_expiry_time (get_exchange_rates_handler r w).1
  get_exchange_rates_handler_again r r' w w' reply rates e success held held' early =
      let is = Ends-ok _ reply (handler-IsCached r w) e success in
      let answer = served r' w' rates held' early in
      (
        ap (λ p. p.0) answer ∙ ap ok (sym (is.0 ∙ ap rates_answer held)),
        ap (λ p. p.1.requests) answer,
        is.1,
      )
