-- ===== src/Utils.antt =====
-- internals/utils/random.go: the account number of a new wallet.
use mzl_payment_app.Common.{ℕ, suc, ◌+◌, ◌-◌, ◌≤◌, ◌≡◌, refl, arith}
use mzl_payment_app.Go.{GoError, Result, ok, err}
use mzl_payment_app.External.{Externals}
use mzl_payment_app.World.{World, Action, pure, fail, ◌>>=◌, bind, attempt, random_below}
use mzl_payment_app.World.Ends.{Ends, Ends-ok, returned, failed}

abbrev pub min_number : ℕ
min_number = 1000000000

abbrev pub max_number : ℕ
max_number = 9999999999

module _ ⦃x : Externals⦄ where
  abbrev pub shifted : Result ℕ → Action ℕ
  shifted (ok n) = pure (n + min_number)
  shifted (err e) = fail (GoError.wrapped "failed to generate secure random number" e)

  unfoldable pub generate_account_number : Action ℕ
  generate_account_number = do n ← attempt (random_below (suc (max_number - min_number))); shifted n

  shifted-Ends :
      (r : Result ℕ) (w : World x.F)
      → Ends (λ m _. (n : ℕ) × (r ≡ ok n) × (m ≡ n + min_number)) (λ _ _. Unit {0}) (shifted r w)
  shifted-Ends (ok n) w = returned (n + min_number) refl (n, refl, refl)
  shifted-Ends (err e) w = failed _ refl tt

  -- An account number has ten digits: it lies between 1000000000 and 9999999999, both included.
  pub generate_account_number_bounds :
      (n : ℕ) (w : World x.F)
      → (generate_account_number w).0 ≡ ok n
      → (1000000000 ≤ n) × (n ≤ 9999999999)
  unfolding generate_account_number bind random_below
  generate_account_number_bounds n w e =
      let drawn = x.rand_int w.calls (suc (max_number - min_number)) in
      let (v, from, is) = Ends-ok _ n (shifted-Ends drawn _) e in
      let below = x.rand_int_below w.calls (max_number - min_number) v from in
      (omega arith, omega arith)
