-- ===== src/Queue/Retries.antt =====
-- internals/pkg/redis.go: what becomes of a job that keeps failing.
use Prim.Native.String.{count}
use text.Mathlib.TextLemmas.{length-append}
use mzl_payment_app.Common.{
  ℕ, zero, suc, ◌+◌, String, true, false, ◌≡◌, ◌≢◌, refl, ap, some, arith, ltb, List, [], ◌∷◌, ◌++◌,
  ◌==◌, eq_iff,
}
use mzl_payment_app.Go.{GoError, ok, err}
use mzl_payment_app.External.{Externals}
use mzl_payment_app.External.Messages.{Job}
use mzl_payment_app.External.Redis.{Keyspace, rpush, blpop}
use mzl_payment_app.World.{World, Action, bind, run_command}
use mzl_payment_app.World.Commands.{IsReliable, run_command_reliable}
use mzl_payment_app.Queue.Lists.{Holds, OnlyAt, rpush-Holds, blpop-Holds}
use mzl_payment_app.Queue.{max_retries, dead_letter, enqueue, handle_failure, worker_round}

pub dead_letter-ne_left : (q : String) → (dead_letter q == q) ≡ false
dead_letter-ne_left q =
    let both = length-append q ":dead_letter" in
    let apart : (dead_letter q ≢ q) = λ e. omega (arith, ap count e) in
    ground (arith, eq_iff (dead_letter q) q)

pub Holds-OnlyAt :
    (key j : String) (k k' : Keyspace) (l : List String)
    → OnlyAt key k k'
    → (key == j) ≡ false
    → Holds k j l
    → Holds k' j l
Holds-OnlyAt key j k k' l only ne h = rw (only j ne) h

pub dead_letter-ne : (q : String) → (q == dead_letter q) ≡ false
dead_letter-ne q =
    let both = length-append q ":dead_letter" in
    let apart : (q ≢ dead_letter q) = λ e. omega (arith, ap count e) in
    ground (arith, eq_iff q (dead_letter q))

module _ ⦃x : Externals⦄ where
  abbrev pub Reads : String → Job → Type 0
  Reads s j = x.job_codec.unmarshal s ≡ ok j

  -- So many passes of the loop of the worker.
  abbrev pub rounds : (String → Action (Unit {0})) → String → ℕ → World x.F → World x.F
  rounds process q zero w = w
  rounds process q (suc n) w = rounds process q n (worker_round process q w).1

  module _ (reliable : IsReliable) where
    pub push :
        (key v : String) (l : List String) (w : World x.F)
        → Holds w.keys key l
        → (let w' = (run_command (rpush key v) w).1 in
            Holds w'.keys key (l ++ v ∷ []) × OnlyAt key w.keys w'.keys)
    push key v l w h =
        let (k', e, held, only) = rpush-Holds key w.keys v l h in
        let (_, same) = run_command_reliable (rpush key v) w tt k' reliable e in
        rw (same) (held, only)

    -- A failed job goes back to the end of its queue with one more retry.
    pub handle_failure_retry :
        (q : String) (j : Job) (l : List String) (w : World x.F)
        → ltb (suc j.retries) max_retries ≡ true
        → Holds w.keys q l
        → (s : String) × Reads s (record j { retries = suc j.retries })
          × (let w' = (handle_failure q j w).1 in
              Holds w'.keys q (l ++ s ∷ []) × OnlyAt q w.keys w'.keys)
    unfolding handle_failure
    handle_failure_retry q j l w c h =
        let (s, written, read) = x.job_read (record j { retries = suc j.retries }) in
        (s, read, rw (c, written) (push q s l w h))

    -- A job that has failed for the third time goes to the dead letters.
    pub handle_failure_last :
        (q : String) (j : Job) (l : List String) (w : World x.F)
        → ltb (suc j.retries) max_retries ≡ false
        → Holds w.keys (dead_letter q) l
        → (s : String) × Reads s (record j { retries = suc j.retries })
          × (let w' = (handle_failure q j w).1 in
              Holds w'.keys (dead_letter q) (l ++ s ∷ []) × OnlyAt (dead_letter q) w.keys w'.keys)
    unfolding handle_failure
    handle_failure_last q j l w c h =
        let (s, written, read) = x.job_read (record j { retries = suc j.retries }) in
        (s, read, rw (c, written) (push (dead_letter q) s l w h))

    -- The event is refused whenever it is processed, and Redis is not written meanwhile.
    module _ (process : String → Action (Unit {0})) (payload : String) (q : String) where
      abbrev pub AlwaysFails : Type 0
      AlwaysFails =
          (w : World x.F)
          → (e : GoError) × ((process payload w).0 ≡ err e) × ((process payload w).1.keys ≡ w.keys)

      -- A pass of the loop takes the job, and hands it to the failure handler.
      worker_round-handle_failure :
          (s : String) (n : ℕ) (w : World x.F)
          → AlwaysFails
          → Holds w.keys q (s ∷ [])
          → Reads s (record { payload = payload; retries = n })
          → (w1 : World x.F) × ((worker_round process q w).1
              ≡ (handle_failure q (record { payload = payload; retries = n }) w1).1)
            × Holds w1.keys q []
            × OnlyAt q w.keys w1.keys
      unfolding worker_round bind
      worker_round-handle_failure s n w fails h read =
          let (k', e, held, only) = blpop-Holds q w.keys (s ∷ []) h in
          let (popped, same) = run_command_reliable (blpop q) w (some s) k' reliable e in
          let w0 = (run_command (blpop q) w).1 in
          let (f, failed_so, kept) = fails w0 in
          (
            (process payload w0).1,
            rw (popped, read, failed_so) refl,
            rw (kept, same) held,
            rw (kept, same) only,
          )

      gives_up :
          (n r : ℕ) (s : String) (d : List String) (w : World x.F)
          → AlwaysFails
          → suc r + n ≡ max_retries
          → Reads s (record { payload = payload; retries = r })
          → Holds w.keys q (s ∷ [])
          → Holds w.keys (dead_letter q) d
          → (s' : String) × Reads s' (record { payload = payload; retries = max_retries })
            × Holds (rounds process q (suc n) w).keys q []
            × Holds (rounds process q (suc n) w).keys (dead_letter q) (d ++ s' ∷ [])
      gives_up zero r s d w fails sum read held dead =
          let (w1, same, empty, only) = worker_round-handle_failure s r w fails held read in
          let dead1 = Holds-OnlyAt q (dead_letter q) _ _ d only (dead_letter-ne q) dead in
          let (s', read', (dead2, only')) =
            handle_failure_last q (record { payload = payload; retries = r }) d w1 (ground arith)
              dead1 in
          let last : suc r ≡ max_retries = omega arith in
          (
            s',
            rw (← last) read',
            rw (same) (Holds-OnlyAt (dead_letter q) q _ _ [] only' (dead_letter-ne_left q) empty),
            rw (same) dead2,
          )
      gives_up (suc n) r s d w fails sum read held dead =
          let (w1, same, empty, only) = worker_round-handle_failure s r w fails held read in
          let dead1 = Holds-OnlyAt q (dead_letter q) _ _ d only (dead_letter-ne q) dead in
          let (s', read', (again, only')) =
            handle_failure_retry q (record { payload = payload; retries = r }) [] w1 (ground arith)
              empty in
          let dead2 = Holds-OnlyAt q (dead_letter q) _ _ d only' (dead_letter-ne q) dead1 in
          gives_up n (suc r) s' d (worker_round process q w).1 fails (omega arith) read'
            (rw (same) again) (rw (same) dead2)

      -- With a Redis that answers every command, an event whose processing always fails, without
      -- writing Redis, is put on an empty queue by `Enqueue`; after three passes of the worker the
      -- queue is empty again and the event is the last of the dead letters, with three retries
      -- counted.
      pub worker_round_gives_up :
          (d : List String) (w : World x.F)
          → AlwaysFails
          → Holds w.keys q []
          → Holds w.keys (dead_letter q) d
          → (let w' = rounds process q max_retries (enqueue q payload w).1 in
              (s : String) × Reads s (record { payload = payload; retries = max_retries })
              × Holds w'.keys q []
              × Holds w'.keys (dead_letter q) (d ++ s ∷ []))
      unfolding enqueue bind
      worker_round_gives_up d w fails held dead =
          let (s, written, read) = x.job_read (record { payload = payload; retries = 0 }) in
          let (put, only) = push q s [] w held in
          let kept = Holds-OnlyAt q (dead_letter q) _ _ d only (dead_letter-ne q) dead in
          rw (written) (gives_up 2 0 s d (run_command (rpush q s) w).1 fails refl read put kept)
