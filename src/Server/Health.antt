-- ===== src/Server/Health.antt =====
-- internals/server/health_check.go.
use mzl_payment_app.Common.{suc, [], ◌∷◌}
use mzl_payment_app.External.{Externals}
use mzl_payment_app.World.{Action}
use mzl_payment_app.Server.Http.{Handler, field, json, error_json, ◌>>◌, call, answer, run}

module _ ⦃x : Externals⦄ where
  -- `s.DB.Prisma.Connect()`
  unfoldable pub connect : Action (Unit {0})
  connect w = (x.connect w.calls, record w { calls = suc w.calls })

  -- internals/pkg/redis.go: `Ping`
  unfoldable pub ping : Action (Unit {0})
  ping w = (x.ping w.calls, record w { calls = suc w.calls })

  unfoldable pub handle_health : Handler
  handle_health r = run do
    call connect (λ _. error_json 500 "db unreachable")
    call ping (λ _. error_json 500 "redis unreachable")
    answer (json 200 (field "status" "healthy" ∷ []))
