-- ===== src/World/Commands.antt =====
-- What a command of the Redis client does to the state, by its result.
use mzl_payment_app.Common.{◌≡◌, refl, some, inl, inr, ap, ◌∙◌, sym, ℕ}
use mzl_payment_app.Go.{ok}
use mzl_payment_app.External.{Externals, Answered}
use mzl_payment_app.External.Redis.{Command, Keyspace}
use mzl_payment_app.World.{World, run_command}
use mzl_payment_app.World.Ends.{Ends, returned, failed}

module _ ⦃x : Externals⦄ where
  -- The command took place.
  abbrev pub HasRun : {R : Type 0} → Command R → World x.F → R → World x.F → Type 0
  HasRun c w a w' = (c w.keys ≡ some (a, w'.keys)) × (w'.tables ≡ w.tables)

  -- Nothing happened.
  abbrev pub NotRun : World x.F → World x.F → Type 0
  NotRun w w' = (w'.keys ≡ w.keys) × (w'.tables ≡ w.tables)

  run_command-Answered :
      {R : Type 0} (c : Command R) (w : World x.F)
      → Answered (c w.keys) w.keys ((run_command c w).0, (run_command c w).1.keys)
  unfolding run_command
  run_command-Answered {R} c w = x.send-Answered R w.calls c w.keys

  run_command-same :
      {R : Type 0} (c : Command R) (w : World x.F) → (run_command c w).1.tables ≡ w.tables
  unfolding run_command
  run_command-same c w = refl

  pub run_command-Ends :
      {R : Type 0} (c : Command R) (w : World x.F)
      → Ends (HasRun c w) (λ _. NotRun w) (run_command c w)
  run_command-Ends c w = elim (run_command-Answered c w) [
    | inl (a, k', d, r) ↦
        returned a (ap (λ p. p.0) r)
          (d ∙ ap (λ k. some (a, k)) (sym (ap (λ p. p.1) r)), run_command-same c w)
    | inr (e, r) ↦ failed e (ap (λ p. p.0) r) (ap (λ p. p.1) r, run_command-same c w)
  ]

  -- Redis answers every command.
  abbrev pub IsReliable : Type 1
  IsReliable =
      (R : Type 0) (n : ℕ) (c : Command R) (k k' : Keyspace) (a : R)
      → c k ≡ some (a, k')
      → x.send R n c k ≡ (ok a, k')

  pub run_command_reliable :
      {R : Type 0} (c : Command R) (w : World x.F) (a : R) (k' : Keyspace)
      → IsReliable
      → c w.keys ≡ some (a, k')
      → ((run_command c w).0 ≡ ok a) × ((run_command c w).1.keys ≡ k')
  unfolding run_command
  run_command_reliable {R} c w a k' reliable e =
      let r = reliable R w.calls c w.keys k' a e in (ap (λ p. p.0) r, ap (λ p. p.1) r)
