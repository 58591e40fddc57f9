-- ===== src/Queue/Locks.antt =====
-- internals/pkg/redis.go: `TryLockIdempotencyKey` as a lock.
use mzl_payment_app.Common.{
  ℕ, String, Bool, true, false, not, is_some, ◌≡◌, ◌≢◌, refl, some, ◌==◌, Option-cases, arith,
  eq_iff, inl, inr,
}
use mzl_payment_app.Go.{ok}
use mzl_payment_app.External.{Externals}
use mzl_payment_app.External.Redis.{Keyspace, Value, set_nx, store}
use mzl_payment_app.External.Redis.Keys.{store_other}
use mzl_payment_app.World.{World}
use mzl_payment_app.World.Ends.{Ends, Ends-ok, Ends-weaken}
use mzl_payment_app.World.Commands.{NotRun, run_command-Ends}
use mzl_payment_app.Queue.{idempotency_key, try_lock_idempotency_key}

abbrev pub IsHeld : String → Keyspace → Type 0
IsHeld key k = is_some (k (idempotency_key key)) ≡ true

-- SET NX says whether the key was free; it is taken then, and no other key has changed.
abbrev pub Taken : String → Keyspace → Bool → Keyspace → Type 0
Taken key k b k' =
    (b ≡ not (is_some (k key)))
    × (is_some (k' key) ≡ true)
    × ((j : String) → (key == j) ≡ false → k' j ≡ k j)

set_nx-Taken :
    (key v : String) (ttl : ℕ) (k k' : Keyspace) (b : Bool)
    → set_nx key v ttl k ≡ some (b, k')
    → Taken key k b k'
set_nx-Taken key v ttl k k' b e = elim (Option-cases (k key)) [
  | inl h ↦
      let got : b ≡ true = ground arith in
      let stored : k' ≡ store key (some (record { value = Value.text v; ttl = some ttl })) k =
        ground arith in
      rw (h, got, stored, (eq_iff key key).1 refl) (refl, refl, λ j ne. store_other key j _ k ne)
  | inr (a, h) ↦
      let got : b ≡ false = ground arith in
      let same : k' ≡ k = ground arith in rw (h, got, same, h) (refl, refl, λ j _. refl)
]

module _ ⦃x : Externals⦄ where
  -- A lock that is answered tells whether the key was free, and is held after it; one that fails
  -- changes nothing.
  pub try_lock-Ends :
      (key : String) (ttl : ℕ) (w : World x.F)
      → Ends
          (λ b w'. Taken (idempotency_key key) w.keys b w'.keys × (w'.tables ≡ w.tables))
          (λ _. NotRun w)
          (try_lock_idempotency_key key ttl w)
  unfolding try_lock_idempotency_key
  try_lock-Ends key ttl w =
      Ends-weaken _
        (λ b w' (e, t). (set_nx-Taken (idempotency_key key) "processing" ttl w.keys w'.keys b e, t))
        (λ _ _ h. h) (run_command-Ends (set_nx (idempotency_key key) "processing" ttl) w)

  -- A lock excludes: when one call has obtained the key, no later call obtains it for as long as
  -- its entry is left alone, whatever else happens in between.
  pub try_lock_idempotency_key_exclusive :
      (key : String) (ttl ttl' : ℕ) (w w' : World x.F)
      → (try_lock_idempotency_key key ttl w).0 ≡ ok true
      → w'.keys (idempotency_key key)
        ≡ (try_lock_idempotency_key key ttl w).1.keys (idempotency_key key)
      → (try_lock_idempotency_key key ttl' w').0 ≢ ok true
  try_lock_idempotency_key_exclusive key ttl ttl' w w' first same second =
      let ((_, held, _), _) = Ends-ok _ true (try_lock-Ends key ttl w) first in
      let ((free, _, _), _) = Ends-ok _ true (try_lock-Ends key ttl' w') second in
      ground (arith, free, held, same)
