-- ===== src/Service/Wallet/Once.antt =====
-- internals/service/wallet_service.go: requests that come with a used reference.
use mzl_payment_app.Common.{String, ◌≡◌, refl}
use mzl_payment_app.Go.{GoError, Result, ok, err}
use mzl_payment_app.External.{Externals}
use mzl_payment_app.World.{World, Action, bind}
use mzl_payment_app.World.Ends.{Ends-ok}
use mzl_payment_app.World.Commands.{IsReliable}
use mzl_payment_app.Queue.{idempotency_key}
use mzl_payment_app.Queue.Locks.{IsHeld}
use mzl_payment_app.Service.Wallet.{fund_wallet, swap_funds, transfer_funds}
use mzl_payment_app.Service.Wallet.Keys.{acquire_held}
use mzl_payment_app.Service.Wallet.Transfers.{transfer_funds-Ends}

module _ ⦃x : Externals⦄ where
  -- The calls of the service that take a reference, without what they return.
  pub data Request : Type 0 where
    fund : String → String → x.F → String → Request
    swap : String → String → String → x.F → Request
    transfer : String → String → String → x.F → String → Request

  abbrev pub forget_value : {A : Type 0} → Result A → Result (Unit {0})
  forget_value (ok a) = ok tt
  forget_value (err e) = err e

  abbrev pub only_end : {A : Type 0} → Action A → Action (Unit {0})
  only_end m w = (forget_value (m w).0, (m w).1)

  unfoldable pub serve : Request → String → Action (Unit {0})
  serve (fund user_id currency amount description) reference =
      fund_wallet user_id currency amount reference description
  serve (swap user_id from to amount) reference =
      only_end (swap_funds user_id from to amount reference)
  serve (transfer user_id number currency amount user_desc) reference =
      only_end (transfer_funds user_id number currency amount user_desc reference)

  -- While a reference is held, every transfer, swap or funding that carries it is refused as
  -- already processed and changes no table.
  pub serve_held :
      (r : Request) (reference : String) (w : World x.F)
      → IsHeld reference w.keys
      → ((serve r reference w).0 ≡ err GoError.transaction_already_processed)
        × ((serve r reference w).1.tables ≡ w.tables)
  unfolding serve fund_wallet swap_funds transfer_funds bind
  serve_held (fund user_id currency amount description) reference w held =
      let (refused, same) = acquire_held reference w held in rw (refused) (refl, same)
  serve_held (swap user_id from to amount) reference w held =
      let (refused, same) = acquire_held reference w held in rw (refused) (refl, same)
  serve_held (transfer user_id number currency amount user_desc) reference w held =
      let (refused, same) = acquire_held reference w held in rw (refused) (refl, same)

  -- A transfer that has succeeded is not repeated: with a Redis that answers every command, every
  -- later transfer, swap or funding with its reference is refused as already processed and changes
  -- no table, as long as the entry of the key is the one that the transfer left.
  pub transfer_funds_once :
      (reliable : IsReliable) (user_id number currency : String) (amount : x.F)
      (user_desc reference name : String) (r : Request) (w w' : World x.F)
      → (transfer_funds user_id number currency amount user_desc reference w).0 ≡ ok name
      → w'.keys (idempotency_key reference)
        ≡ (transfer_funds user_id number currency amount user_desc reference w).1.keys
            (idempotency_key reference)
      → ((serve r reference w').0 ≡ err GoError.transaction_already_processed)
        × ((serve r reference w').1.tables ≡ w'.tables)
  transfer_funds_once reliable user_id number currency amount user_desc reference name r w w' first
        same =
      let done_so =
        transfer_funds-Ends reliable reference w.tables user_id number currency amount user_desc w
          refl in
      let (_, held) = Ends-ok _ name done_so first in serve_held r reference w' (rw (same) held)
