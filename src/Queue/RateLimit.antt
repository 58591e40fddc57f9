-- ===== src/Queue/RateLimit.antt =====
-- internals/pkg/redis.go: `IsRateLimited` as a counter of the requests in a window.
use mzl_payment_app.Common.{
  ℕ, zero, suc, ◌+◌, ◌≤◌, String, Bool, true, false, ◌≡◌, refl, ◌∙◌, ap, Option, none, some, arith,
  ◌⊎◌, inl, inr, ltb, eqb, Bool-cases,
}
use mzl_payment_app.Go.{Result, ok, err}
use mzl_payment_app.External.{Externals}
use mzl_payment_app.External.Redis.{
  Keyspace, Entry, Value, incr, expire, count_up, count_first, set_ttl, store,
}
use mzl_payment_app.External.Redis.Keys.{store_self}
use mzl_payment_app.World.{World, run_command}
use mzl_payment_app.World.Ends.{Ends, returned, failed, bind-Ends, ignore-Ends}
use mzl_payment_app.World.Commands.{run_command-Ends}
use mzl_payment_app.Queue.{rate_limit_key, is_rate_limited, begin_window}

-- The number that a key counts; a missing key counts nothing.
abbrev pub count_value : Value → ℕ
count_value (Value.text v) = 0
count_value (Value.number n) = n
count_value (Value.list l) = 0

abbrev pub count_of : Option Entry → ℕ
count_of none = 0
count_of (some e) = count_value e.value

abbrev pub counter : String → Keyspace → ℕ
counter key k = count_of (k key)

module _ (key : String) (k k' : Keyspace) where
  count_up-counter :
      (ttl : Option ℕ) (v : Value) (n : ℕ)
      → count_up key k ttl v ≡ some (n, k')
      → (n ≡ suc (count_value v)) × (counter key k' ≡ n)
  count_up-counter ttl (Value.text v) n e = absurd (ground arith)
  count_up-counter ttl (Value.number m) n e =
      let new : Entry = record { value = Value.number (m + 1); ttl = ttl } in
      let stored : k' ≡ store key (some new) k = ground arith in
      let counted : n ≡ suc m = ground arith in
      (counted, rw (stored, store_self key (some new) k) (omega arith))
  count_up-counter ttl (Value.list l) n e = absurd (ground arith)

  count_first-counter :
      (o : Option Entry) (n : ℕ)
      → count_first key k o ≡ some (n, k')
      → (n ≡ suc (count_of o)) × (counter key k' ≡ n)
  count_first-counter none n e =
      let new : Entry = record { value = Value.number 1; ttl = none } in
      let stored : k' ≡ store key (some new) k = ground arith in
      let counted : n ≡ 1 = ground arith in
      (counted, rw (stored, store_self key (some new) k) (omega arith))
  count_first-counter (some a) n e = count_up-counter a.ttl a.value n e

  set_ttl-counter :
      (ttl : ℕ) (o : Option Entry) (u : Unit {0})
      → k key ≡ o
      → set_ttl key ttl k o ≡ some (u, k')
      → counter key k' ≡ count_of o
  set_ttl-counter ttl none u h e = let same : k' ≡ k = ground arith in rw (same, h) refl
  set_ttl-counter ttl (some a) u h e =
      let new : Entry = record { value = a.value; ttl = some ttl } in
      let stored : k' ≡ store key (some new) k = ground arith in
      rw (stored, store_self key (some new) k) refl

module _ ⦃x : Externals⦄ where
  -- Neither the counter nor a table is different.
  abbrev pub SameCount : String → World x.F → World x.F → Type 0
  SameCount key w w' = (counter key w'.keys ≡ counter key w.keys) × (w'.tables ≡ w.tables)

  begin_window-SameCount :
      (key : String) (window count : ℕ) (w : World x.F)
      → Ends (λ _. SameCount key w) (λ _ _. ⊥) (begin_window key window count w)
  begin_window-SameCount key window count w = elim (Bool-cases (eqb count 1)) [
    | inl c ↦ rw (c) (
        ignore-Ends (run_command (expire key window)) w (run_command-Ends (expire key window) w)
          (λ u w' (e, t). (set_ttl-counter key w.keys w'.keys window (w.keys key) u refl e, t))
          (λ _ w' (h, t). (ap (counter key) h, t)))
    | inr c ↦ rw (c) (returned tt refl (refl, refl))
  ]

  -- A call that Redis answers counts itself, and limits when the count, its own included, is
  -- above the limit; one that fails leaves the count.
  pub is_rate_limited-Ends :
      (key : String) (limit window : ℕ) (w : World x.F)
      → Ends
          (λ b w'.
            (counter (rate_limit_key key) w'.keys ≡ suc (counter (rate_limit_key key) w.keys))
            × (b ≡ ltb limit (suc (counter (rate_limit_key key) w.keys)))
            × (w'.tables ≡ w.tables))
          (λ _. SameCount (rate_limit_key key) w)
          (is_rate_limited key limit window w)
  unfolding is_rate_limited
  is_rate_limited-Ends key limit window w =
      let full = rate_limit_key key in
      bind-Ends _ _ (run_command-Ends (incr full) w)
        (λ count w1 (e, t).
          let (counted, now) = count_first-counter full w.keys w1.keys (w.keys full) count e in
          bind-Ends _ _ (begin_window-SameCount full window count w1)
            (λ _ w2 (same, t2).
              returned (ltb limit count) refl
                (same ∙ now ∙ counted, ap (ltb limit) counted, t2 ∙ t))
            (λ _ _ h. absurd h))
        (λ _ w1 (h, t). (ap (λ k. counter full k) h, t))

  abbrev pub let_through : Result Bool → ℕ
  let_through (ok false) = 1
  let_through (ok true) = 0
  let_through (err _) = 0

  -- Of `n` calls in a row, how many Redis answers by letting the request through.
  abbrev pub admitted : ℕ → String → ℕ → ℕ → World x.F → ℕ
  admitted zero key limit window w = 0
  admitted (suc n) key limit window w =
      let (r, w') = is_rate_limited key limit window w in
      let rest = admitted n key limit window w' in let_through r + rest

  admitted_above :
      (n : ℕ) (key : String) (limit window : ℕ) (w : World x.F)
      → (admitted n key limit window w + counter (rate_limit_key key) w.keys ≤ limit)
        ⊎ (admitted n key limit window w ≡ 0)
  admitted_above zero key limit window w = inr refl
  admitted_above (suc n) key limit window w =
      let rest = admitted_above n key limit window (is_rate_limited key limit window w).1 in
      elim (is_rate_limited-Ends key limit window w) [
        | returned b h (counted, answer, _) ↦ ground arith
        | failed e h (same, _) ↦ ground arith
      ]

  -- Of any number of calls in a row with one key, in which the counter does not expire, at most
  -- `limit` are answered by Redis so that the request is let through.
  pub is_rate_limited_bound :
      (n : ℕ) (key : String) (limit window : ℕ) (w : World x.F)
      → admitted n key limit window w ≤ limit
  is_rate_limited_bound n key limit window w =
      let either = admitted_above n key limit window w in omega arith
