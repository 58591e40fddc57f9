-- ===== src/World.antt =====
-- The state that a request finds and leaves, and Go functions that return a value or an error.
pub mod Laws
pub mod Commands
pub mod Ends
pub mod Keeps
use mzl_payment_app.Common.{ℕ, suc, String, Bool, Option, List, [], ◌∷◌, ◌++◌, if◌then◌else◌}
use mzl_payment_app.Go.{GoError, Result, ok, err}
use mzl_payment_app.Schema.Tables.{Tables}
use mzl_payment_app.Schema.Query.{Query}
use mzl_payment_app.External.{Externals}
use mzl_payment_app.External.Requests.{Rates}
use mzl_payment_app.External.Http.{Request, Response}
use mzl_payment_app.External.Redis.{Keyspace, Command}

-- The database, the keys of Redis, the requests sent over http, oldest first, and the number of
-- calls made outside so far: the answer of a client may depend on it. The last two are the
-- variables of internals/server/rates_handler.go.
pub record World (F : Type 0) : Type 0 where
  pub calls : ℕ
  pub tables : Tables F
  pub keys : Keyspace
  pub requests : List (Request F)
  pub cached_rates : Option (Rates F)
  pub cache_expiry_time : ℕ

module _ ⦃x : Externals⦄ where
  abbrev pub Action : Type 0 → Type 0
  Action A = World x.F → Result A × World x.F

  abbrev pub pure : {A : Type 0} → A → Action A
  pure a w = (ok a, w)

  abbrev pub fail : {A : Type 0} → GoError → Action A
  fail e w = (err e, w)

  -- What follows a call, on its result.
  unfoldable pub bind :
      {A B : Type 0} → (A → Action B) → Result A × World x.F → Result B × World x.F
  bind f (ok a, w) = f a w
  bind f (err e, w) = (err e, w)

  infixl 5 ◌>>=◌ ◌>>◌
  abbrev pub ◌>>=◌ : {A B : Type 0} → Action A → (A → Action B) → Action B
  ◌>>=◌ m f w = bind f (m w)

  abbrev pub ◌>>◌ : {A B : Type 0} → Action A → Action B → Action B
  m >> k = m >>= λ _. k

  -- `value, err := m`, where the code goes on by its own test of the two
  abbrev pub attempt : {A : Type 0} → Action A → Action (Result A)
  attempt m w = let (r, w') = m w in (ok r, w')

  -- `_ = m`: the error is dropped
  abbrev pub ignore : {A : Type 0} → Action A → Action (Unit {0})
  ignore m w = let (r, w') = m w in (ok tt, w')

  abbrev pub fail_if : Bool → GoError → Action (Unit {0})
  fail_if c e w = (if c then err e else ok tt, w)

  -- A call of the generated client.
  unfoldable pub run_query : {A : Type 0} → Query x.F A → Action A
  run_query {A} q w =
      let (r, t) = x.exec A w.calls q w.tables in (r, record w { calls = suc w.calls; tables = t })

  -- A call of the Redis client.
  unfoldable pub run_command : {R : Type 0} → Command R → Action R
  run_command {R} c w =
      let (r, k) = x.send R w.calls c w.keys in (r, record w { calls = suc w.calls; keys = k })

  -- `client.Do(req)`
  unfoldable pub http_send : Request x.F → Action Response
  http_send r w =
      (x.http_do w.calls r, record w { calls = suc w.calls; requests = w.requests ++ r ∷ [] })

  -- `time.Now()`
  unfoldable pub now : Action ℕ
  now w = (ok (x.clock w.calls), record w { calls = suc w.calls })

  -- `rand.Int(rand.Reader, max)`
  unfoldable pub random_below : ℕ → Action ℕ
  random_below max w = (x.rand_int w.calls max, record w { calls = suc w.calls })

  -- A value that came with an error, as a call that ends so.
  abbrev pub lift : {A : Type 0} → Result A → Action A
  lift r w = (r, w)

  -- `if err != nil { return nil, fmt.Errorf(prefix + ": %w", err) }`
  abbrev pub or_wrapped : {A : Type 0} → String → Result A → Action A
  or_wrapped prefix (ok a) = pure a
  or_wrapped prefix (err e) = fail (GoError.wrapped prefix e)

  -- `value, err := m`, then `or_wrapped`
  unfoldable pub wrapped_as : {A : Type 0} → String → Action A → Action A
  wrapped_as prefix m = do r ← attempt m; or_wrapped prefix r
