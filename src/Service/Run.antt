-- ===== src/Service/Run.antt =====
-- The background loop of `DeliveryService` (`Run` and `refreshQueueMetrics` of
-- internal/service/delivery_service.go) as a sequence of what its `select` receives.
use webhook_telegram_proxy.Prelude.{ℕ, List, [], ◌∷◌}
use webhook_telegram_proxy.Store.Methods.{count_queued, oldest_queued_age, size_bytes}
use webhook_telegram_proxy.Runtime.{
  Env, delivery_queue_messages, oldest_queued_age as oldest_age_metric, store_size_bytes, M, pure,
  on_result, ◌>>=◌, ◌>>◌, ignore, clock, record_metric, Metric,
}
use webhook_telegram_proxy.Service.Delivery.{recover_pending}
use webhook_telegram_proxy.Service.Rotation.{rotate_store}

-- `<-recoveryTicker.C`, `<-rotationTicker.C` and `<-ctx.Done()`
pub data Event : Type 0 where
  recovery_tick rotation_tick done : Event

-- a gauge is set only where its value could be read
abbrev pub set_gauge : (ℕ → Metric) → M ℕ → M (Unit {0})
set_gauge gauge m = on_result m (λ _. pure tt) (λ n. record_metric (gauge n))

module _ (env : Env) where
  unfoldable pub refresh_queue_metrics : M (Unit {0})
  refresh_queue_metrics = do
    set_gauge delivery_queue_messages (count_queued env)
    set_gauge oldest_age_metric (clock env >>= oldest_queued_age env)
    set_gauge store_size_bytes (size_bytes env)

  -- one turn of the loop; an error of it is only logged
  unfoldable pub on_recovery_tick : M (Unit {0})
  on_recovery_tick = refresh_queue_metrics >> ignore (recover_pending env)

  unfoldable pub on_rotation_tick : M (Unit {0})
  on_rotation_tick = ignore (rotate_store env)

  -- the `for` loop; events that come after the context is done are not received
  unfoldable pub run_loop : List Event → M (Unit {0})
  run_loop [] = pure tt
  run_loop (recovery_tick ∷ events) = on_recovery_tick >> run_loop events
  run_loop (rotation_tick ∷ events) = on_rotation_tick >> run_loop events
  run_loop (done ∷ events) = pure tt

  unfoldable pub run : List Event → M (Unit {0})
  run events = refresh_queue_metrics >> run_loop events
