-- ===== src/Service/Wallet/Keys.antt =====
-- internals/service/wallet_service.go: the idempotency key of a request while the request runs.
use Prim.Native.Char.{code}
use mzl_payment_app.Common.{
  ℕ, String, Bool, true, false, not, ◌≡◌, refl, ◌∙◌, ap, none, some, ◌⊎◌, inl, inr, ◌==◌, arith,
  eq_iff, Bool-cases, subst, sym,
}
use mzl_payment_app.Common.Text.{append-ne_of_head}
use mzl_payment_app.Go.{GoError, err}
use mzl_payment_app.External.{Externals}
use mzl_payment_app.External.Redis.{Keyspace, Entry, Value, del, set, store}
use mzl_payment_app.External.Redis.Keys.{store_self, store_other}
use mzl_payment_app.Schema.Tables.{Tables}
use mzl_payment_app.World.{World, Action, bind, ◌>>=◌, fail_if, ignore}
use mzl_payment_app.World.Ends.{
  Ends, returned, failed, bind-Ends, attempt-Ends, ignore-Ends, lift-Ends, Ends-weaken,
}
use mzl_payment_app.World.Commands.{
  IsReliable, HasRun, NotRun, run_command-Ends, run_command_reliable,
}
use mzl_payment_app.World.Keeps.{Keeps, keys_of, tables_of, run_command-Keeps}
use mzl_payment_app.Queue.{idempotency_key, delete, set_value, try_lock_idempotency_key}
use mzl_payment_app.Queue.Locks.{IsHeld, try_lock-Ends}
use mzl_payment_app.Service.Payment.{wallet_key, history_key}
use mzl_payment_app.Service.Wallet.{
  acquire, release, complete, or_false, release_and_fail, or_release, done_or_release,
  commit_or_release,
}

pub wallet_key-ne :
    (user_id reference : String) → (wallet_key user_id == idempotency_key reference) ≡ false
wallet_key-ne user_id reference =
    let apart =
      append-ne_of_head "w" "i" "allet:" "demp:" user_id reference
        (λ e. omega (arith, ap code e)) in
    ground (arith, eq_iff (wallet_key user_id) (idempotency_key reference))

pub history_key-ne :
    (user_id reference : String) → (history_key user_id == idempotency_key reference) ≡ false
history_key-ne user_id reference =
    let apart =
      append-ne_of_head "t" "i" "x_history:" "demp:" user_id reference
        (λ e. omega (arith, ap code e)) in
    ground (arith, eq_iff (history_key user_id) (idempotency_key reference))

module _ ⦃x : Externals⦄ where
  abbrev pub IsFree : String → Keyspace → Type 0
  IsFree reference k = k (idempotency_key reference) ≡ none

  -- A request that began on the tables `t` has the key.
  abbrev pub Working : String → Tables x.F → World x.F → Type 0
  Working reference t w = IsHeld reference w.keys × (w.tables ≡ t)

  -- It has failed: no table has changed, and the key is as `Freed` says unless the request was
  -- refused as a repetition.
  abbrev pub Closed : (Keyspace → Type 0) → Tables x.F → GoError → World x.F → Type 0
  Closed Freed t e w = (w.tables ≡ t) × ((e ≡ GoError.transaction_already_processed) ⊎ Freed w.keys)

  -- The same with a key that is free again.
  abbrev pub Dropped : String → Tables x.F → GoError → World x.F → Type 0
  Dropped reference t = Closed (IsFree reference) t

  -- What is known of the keys after the key of a request was given back.
  abbrev pub Releases : String → (Keyspace → Type 0) → Type 0
  Releases reference Freed =
      (w : World x.F)
      → Ends (λ _ w'. Freed w'.keys × (w'.tables ≡ w.tables)) (λ _ _. ⊥) (release reference w)

  pub delete-Ends :
      (key : String) (w : World x.F) → Ends (HasRun (del key) w) (λ _. NotRun w) (delete key w)
  unfolding delete
  delete-Ends key w = run_command-Ends (del key) w

  pub stored :
      (key : String) (k k' : Keyspace) (u : Unit {0})
      → del key k ≡ some (u, k')
      → k' ≡ store key none k
  stored key k k' u e = ground arith

  other_deleted :
      (key reference : String) (k k' : Keyspace) (u : Unit {0})
      → (key == idempotency_key reference) ≡ false
      → del key k ≡ some (u, k')
      → IsHeld reference k
      → IsHeld reference k'
  other_deleted key reference k k' u ne e held =
      rw (stored key k k' u e, store_other key (idempotency_key reference) none k ne) held

  -- Another key is dropped from the cache.
  pub forget-Ends :
      (key reference : String) (w : World x.F)
      → (key == idempotency_key reference) ≡ false
      → IsHeld reference w.keys
      → Ends
          (λ _ w'. IsHeld reference w'.keys × (w'.tables ≡ w.tables))
          (λ _ _. ⊥)
          (ignore (delete key) w)
  forget-Ends key reference w ne held =
      ignore-Ends (delete key) w (delete-Ends key w)
        (λ u w' (e, t). (other_deleted key reference w.keys w'.keys u ne e held, t))
        (λ _ w' (k, t). (rw (k) held, t))

  acquire_test :
      (Freed : Keyspace → Type 0) (reference : String) (t : Tables x.F) (w w1 : World x.F)
      (b : Bool)
      → w1.tables ≡ t
      → (b ≡ true → IsHeld reference w1.keys)
      → Ends
          (λ _. Working reference t)
          (Closed Freed t)
          (fail_if (not b) GoError.transaction_already_processed w1)
  acquire_test Freed reference t w w1 true same held = returned tt refl (held refl, same)
  acquire_test Freed reference t w w1 false same held = failed _ refl (same, inl refl)

  pub acquire-Ends :
      (Freed : Keyspace → Type 0) (reference : String) (t : Tables x.F) (w : World x.F)
      → w.tables ≡ t
      → Ends (λ _. Working reference t) (Closed Freed t) (acquire reference w)
  unfolding acquire
  acquire-Ends Freed reference t w same =
      bind-Ends _ _
        (attempt-Ends (try_lock_idempotency_key reference 300) w
          {Q = λ r w1. (w1.tables ≡ t) × (or_false r ≡ true → IsHeld reference w1.keys)}
          (try_lock-Ends reference 300 w) (λ b w1 ((_, held, _), kept). (kept ∙ same, λ _. held))
          (λ _ w1 (_, kept). (kept ∙ same, λ h. absurd (ground arith))))
        (λ r w1 (kept, held). acquire_test Freed reference t w w1 (or_false r) kept held)
        (λ _ _ h. absurd h)

  -- While the key is held, no other request gets past its first step.
  pub acquire_held :
      (reference : String) (w : World x.F)
      → IsHeld reference w.keys
      → ((acquire reference w).0 ≡ err GoError.transaction_already_processed)
        × ((acquire reference w).1.tables ≡ w.tables)
  unfolding acquire bind
  acquire_held reference w held = elim (try_lock-Ends reference 300 w) [
    | returned b h ((free, _, _), kept) ↦
        let busy : b ≡ false = ground arith in rw (h, busy) (refl, kept)
    | failed e h (_, kept) ↦ rw h (refl, kept)
  ]

  -- With a Redis that answers every command the key is free again; nothing is known without.
  pub reliable-Releases : IsReliable → (reference : String) → Releases reference (IsFree reference)
  unfolding release delete
  reliable-Releases reliable reference w =
      let key = idempotency_key reference in
      let (_, gone) = run_command_reliable (del key) w tt (store key none w.keys) reliable refl in
      returned tt refl (rw (gone) (store_self key none w.keys), run_command-Keeps (del key) w)

  pub any-Releases : (reference : String) → Releases reference (λ _. Unit {0})
  unfolding release delete
  any-Releases reference w =
      returned tt refl (tt, run_command-Keeps (del (idempotency_key reference)) w)

  module _ (reference : String) (Freed : Keyspace → Type 0) (releases : Releases reference Freed)
      (t : Tables x.F) where
    pub release_and_fail-Ends :
        {A : Type 0} {P : A → World x.F → Type 0} (e : GoError) (w : World x.F)
        → w.tables ≡ t
        → Ends P (Closed Freed t) (release_and_fail reference e w)
    release_and_fail-Ends e w same =
        bind-Ends _ _ (releases w) (λ _ w1 (free, kept). failed e refl (kept ∙ same, inr free))
          (λ _ _ h. absurd h)

    module _ {A : Type 0} {P : A → World x.F → Type 0} (m : Action A) (w : World x.F)
        (keeps : Keeps keys_of m) (held : IsHeld reference w.keys) where
      -- A step of a request that gives the key back when it fails.
      pub or_release-Ends :
          Ends P (λ _ w'. w'.tables ≡ t) (m w)
          → Ends
              (λ a w'. P a w' × IsHeld reference w'.keys)
              (Closed Freed t)
              (or_release reference m w)
      unfolding or_release bind
      or_release-Ends (returned a h p) = rw h (returned a refl (p, rw (keeps w) held))
      or_release-Ends (failed e h same) = rw h (release_and_fail-Ends e _ same)

    done_or_release-Ends :
        {P : World x.F → Type 0} (e : GoError) (w : World x.F)
        → w.tables ≡ t
        → Ends (λ _. P) (Closed Freed t) (done_or_release reference (err e) w)
    done_or_release-Ends e w same = elim (Bool-cases (x.is_err_unique_constraint e)) [
      | inl c ↦ rw (c) (failed _ refl (same, inl refl))
      | inr c ↦ rw (c) (release_and_fail-Ends e w same)
    ]

    -- The write of a request: a unique index refuses a repetition.
    pub commit_or_release-Ends :
        {P : World x.F → Type 0} (m : Action (Unit {0})) (w : World x.F)
        → Keeps keys_of m
        → IsHeld reference w.keys
        → Ends (λ _. P) (λ _ w'. w'.tables ≡ t) (m w)
        → Ends
            (λ _ w'. P w' × IsHeld reference w'.keys)
            (Closed Freed t)
            (commit_or_release reference m w)
    unfolding commit_or_release bind
    commit_or_release-Ends m w keeps held (returned u h p) =
        rw h (returned u refl (p, rw (keeps w) held))
    commit_or_release-Ends m w keeps held (failed e h same) = rw h (done_or_release-Ends e _ same)

  set-IsHeld :
      (reference s : String) (ttl : ℕ) (k k' : Keyspace) (u : Unit {0})
      → set (idempotency_key reference) s ttl k ≡ some (u, k')
      → IsHeld reference k'
  set-IsHeld reference s ttl k k' u e =
      let key = idempotency_key reference in
      let new : Entry = record { value = Value.text s; ttl = some ttl } in
      let same : k' ≡ store key (some new) k = ground arith in
      rw (same, store_self key (some new) k) refl

  -- The key is held after the request is marked as completed, whether the mark was written or not.
  pub complete-Ends :
      (reference : String) (w : World x.F)
      → IsHeld reference w.keys
      → Ends
          (λ _ w'. IsHeld reference w'.keys × (w'.tables ≡ w.tables))
          (λ _ _. ⊥)
          (complete reference w)
  unfolding complete set_value
  complete-Ends reference w held =
      let key = idempotency_key reference in
      let P : World x.F → Type 0 = λ w'. IsHeld reference w'.keys × (w'.tables ≡ w.tables) in
      ignore-Ends (set_value x.text_codec key "completed" 86400) w
        (bind-Ends {Q = λ _. P} {E' = λ _. P} _ _ (lift-Ends (x.text_codec.marshal "completed") w)
          (λ s w1 (_, same).
            Ends-weaken _
              (λ u w' (e, t).
                (set-IsHeld reference s 86400 w1.keys w'.keys u e, t ∙ ap tables_of same))
              (λ _ w' (k, t). (rw (k, same) held, t ∙ ap tables_of same))
              (run_command-Ends (set key s 86400) w1))
          (λ _ w1 (_, same). rw (same) (held, refl)))
        (λ _ _ h. h) (λ _ _ h. h)

  -- A step after the commit that keeps the key and the tables keeps what was done.
  pub kept-Ends :
      {B : Type 0} {Q : B → World x.F → Type 0} {E : GoError → World x.F → Type 0}
      (D : Tables x.F → Type 0) (reference : String) (m : Action (Unit {0})) (w : World x.F)
      (f : Unit {0} → Action B)
      → D w.tables × IsHeld reference w.keys
      → Ends (λ _ w'. IsHeld reference w'.keys × (w'.tables ≡ w.tables)) (λ _ _. ⊥) (m w)
      → ((w' : World x.F) → D w'.tables × IsHeld reference w'.keys → Ends Q E (f tt w'))
      → Ends Q E ((m >>= f) w)
  kept-Ends D reference m w f (d, held) e k =
      bind-Ends _ _ e (λ _ w' (held', same). k w' (subst D (sym same) d, held')) (λ _ _ h. absurd h)
