-- ===== src/Queue/Drains.antt =====
-- internals/pkg/redis.go: a queue under many passes of the worker.
use mzl_payment_app.Common.{
  ℕ, zero, suc, ◌+◌, ◌-◌, ◌≤◌, ◌<◌, String, true, Bool-cases, inl, inr, ◌≡◌, refl, sym, ap, some,
  none, arith, ltb, List, [], ◌∷◌, ◌++◌, subst,
}
use mzl_payment_app.Go.{Result, ok, err}
use mzl_payment_app.External.{Externals}
use mzl_payment_app.External.Messages.{Job}
use mzl_payment_app.External.Redis.{blpop}
use mzl_payment_app.World.{World, Action, bind}
use mzl_payment_app.World.Commands.{IsReliable, run_command_reliable}
use mzl_payment_app.Queue.Lists.{is_queue, items, Holds, blpop-Holds}
use mzl_payment_app.Queue.Retries.{
  rounds, Holds-OnlyAt, dead_letter-ne, dead_letter-ne_left, handle_failure_retry,
  handle_failure_last,
}
use mzl_payment_app.Queue.{
  max_retries, dead_letter, handle_failure, after_processing, process_job, worker_round,
}

module _ ⦃x : Externals⦄ where
  -- How often a job is taken from the queue at most: once for each try that it has left.
  abbrev pub tries : Result Job → ℕ
  tries (err _) = 1
  tries (ok j) = suc (2 - j.retries)

  abbrev pub all_tries : List String → ℕ
  all_tries [] = 0
  all_tries (s ∷ l) = tries (x.job_codec.unmarshal s) + all_tries l

  all_tries-append :
      (l : List String) (s : String)
      → all_tries (l ++ s ∷ []) ≡ all_tries l + tries (x.job_codec.unmarshal s)
  all_tries-append [] s = omega arith
  all_tries-append (y ∷ l) s = let rest = all_tries-append l s in omega arith

  module _ (process : String → Action (Unit {0})) (q : String) where
    -- The processing of an event leaves the queue and its dead letters alone.
    pub record SparesQueue : Type 0 where
      pub queue : (payload : String) (w : World x.F) → (process payload w).1.keys q ≡ w.keys q
      pub dead :
          (payload : String) (w : World x.F)
          → (process payload w).1.keys (dead_letter q) ≡ w.keys (dead_letter q)

    -- The queue and its dead letters are lists, and there are at most `n` tries left.
    record Left (n : ℕ) (w : World x.F) : Type 0 where
      waiting : List String
      given_up : List String
      queue : Holds w.keys q waiting
      dead : Holds w.keys (dead_letter q) given_up
      bound : all_tries waiting ≤ n

    module _ (reliable : IsReliable) where
      failed_job :
          (j : Job) (l d : List String) (w : World x.F)
          → Holds w.keys q l
          → Holds w.keys (dead_letter q) d
          → Left ((2 - j.retries) + all_tries l) (handle_failure q j w).1
      failed_job j l d w held dead = elim (Bool-cases (ltb (suc j.retries) max_retries)) [
        | inl c ↦
            let (s, read, (again, only)) = handle_failure_retry reliable q j l w c held in
            let more : suc j.retries < 3 = ground arith in
            let sum = all_tries-append l s in
            let one = ap tries read in
            record {
              waiting = l ++ s ∷ [];
              given_up = d;
              queue = again;
              dead = Holds-OnlyAt q (dead_letter q) _ _ d only (dead_letter-ne q) dead;
              bound = omega arith;
            }
        | inr c ↦
            let (s, read, (last, only)) = handle_failure_last reliable q j d w c dead in
            record {
              waiting = l;
              given_up = d ++ s ∷ [];
              queue = Holds-OnlyAt (dead_letter q) q _ _ l only (dead_letter-ne_left q) held;
              dead = last;
              bound = omega arith;
            }
      ]

      processed :
          (j : Job) (l d : List String) (w : World x.F) (r : Result (Unit {0}))
          → Holds w.keys q l
          → Holds w.keys (dead_letter q) d
          → Left ((2 - j.retries) + all_tries l) (after_processing process q j r w).1
      processed j l d w (ok u) held dead = record {
        waiting = l;
        given_up = d;
        queue = held;
        dead = dead;
        bound = omega arith;
      }
      processed j l d w (err e) held dead = failed_job j l d w held dead

      job-Left :
          (spares : SparesQueue) (r : Result Job) (l d : List String) (w : World x.F) (n : ℕ)
          → tries r + all_tries l ≤ suc n
          → Holds w.keys q l
          → Holds w.keys (dead_letter q) d
          → Left n (process_job process q r w).1
      unfolding bind
      job-Left spares (err e) l d w n most held dead = record {
        waiting = l;
        given_up = d;
        queue = held;
        dead = dead;
        bound = omega arith;
      }
      job-Left spares (ok j) l d w n most held dead =
          let kept : Holds (process j.payload w).1.keys q l = rw (spares.queue j.payload w) held in
          let also =
            subst (λ e. (is_queue e ≡ true) × (items e ≡ d)) (sym (spares.dead j.payload w)) dead in
          let left = processed j l d _ (process j.payload w).0 kept also in
          record {
            waiting = left.waiting;
            given_up = left.given_up;
            queue = left.queue;
            dead = left.dead;
            bound = let most' = left.bound in omega arith;
          }

      empty_round :
          (d : List String) (w : World x.F) (n : ℕ)
          → Holds w.keys q []
          → Holds w.keys (dead_letter q) d
          → Left n (worker_round process q w).1
      unfolding worker_round bind
      empty_round d w n held dead =
          let (popped, same) =
            run_command_reliable (blpop q) w none w.keys reliable (blpop-Holds q w.keys [] held) in
          rw popped (record {
            waiting = [];
            given_up = d;
            queue = rw same held;
            dead = rw same dead;
            bound = omega arith;
          })

      taken :
          (spares : SparesQueue) (n : ℕ) (w : World x.F) (l d : List String)
          → all_tries l ≤ suc n
          → Holds w.keys q l
          → Holds w.keys (dead_letter q) d
          → Left n (worker_round process q w).1
      unfolding worker_round bind
      taken spares n w [] d most held dead = empty_round d w n held dead
      taken spares n w (s ∷ l) d most held dead =
          let (k', e, rest, only) = blpop-Holds q w.keys (s ∷ l) held in
          let (popped, same) = run_command_reliable (blpop q) w (some s) k' reliable e in
          let dead' = Holds-OnlyAt q (dead_letter q) _ _ d only (dead_letter-ne q) dead in
          rw popped
            (job-Left spares (x.job_codec.unmarshal s) l d _ n most (rw same rest) (rw same dead'))

      -- A pass of the loop uses up a try.
      round-Left :
          (spares : SparesQueue) (n : ℕ) (w : World x.F)
          → Left (suc n) w
          → Left n (worker_round process q w).1
      unfolding worker_round bind
      round-Left spares n w h = taken spares n w h.waiting h.given_up h.bound h.queue h.dead

      rounds-Left :
          (spares : SparesQueue) (n : ℕ) (w : World x.F) → Left n w → Left 0 (rounds process q n w)
      rounds-Left spares zero w h = h
      rounds-Left spares (suc n) w h =
          rounds-Left spares n (worker_round process q w).1 (round-Left spares n w h)

      some_try : (r : Result Job) (n : ℕ) → ¬ (tries r + n ≤ 0)
      some_try (err _) n h = omega arith
      some_try (ok j) n h = omega arith

      no_tries : (l : List String) → all_tries l ≤ 0 → l ≡ []
      no_tries [] h = refl
      no_tries (s ∷ l) h = absurd (some_try (x.job_codec.unmarshal s) (all_tries l) h)

      -- The worker empties its queue: with a Redis that answers every command, and whatever the
      -- processing of an event does but write the queue or its dead letters, the queue is empty
      -- after as many passes of the loop as its jobs have tries left, an unreadable job counted
      -- once.
      pub worker_round_drains :
          (l d : List String) (w : World x.F)
          → SparesQueue
          → Holds w.keys q l
          → Holds w.keys (dead_letter q) d
          → Holds (rounds process q (all_tries l) w).keys q []
      worker_round_drains l d w spares held dead =
          let left = rounds-Left spares (all_tries l) w (record {
            waiting = l;
            given_up = d;
            queue = held;
            dead = dead;
            bound = omega arith;
          }) in
          subst (Holds (rounds process q (all_tries l) w).keys q) (no_tries left.waiting left.bound)
            left.queue
