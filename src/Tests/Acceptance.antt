-- ===== src/Tests/Acceptance.antt =====
-- Instances of what is proved of the acceptance of webhooks.
use webhook_telegram_proxy.Runtime.{◌>>=◌, ◌>>◌, on_result, wrap_error}
use webhook_telegram_proxy.Store.Methods.{size_bytes, stat_total}
use webhook_telegram_proxy.Service.Fingerprint.{compute_fingerprint}
use webhook_telegram_proxy.Prelude.{some, List, [], ◌∷◌, ◌≡◌, refl, codes}
use webhook_telegram_proxy.Errors.{ok, plain}
use webhook_telegram_proxy.Store.Record.{queued, delivered}
use webhook_telegram_proxy.Store.Queries.{find_key, find_where}
use webhook_telegram_proxy.Store.Unique.{IsUnique}
use webhook_telegram_proxy.Runtime.{World, raise}
use webhook_telegram_proxy.Service.Rotation.{ensure_capacity}
use webhook_telegram_proxy.Service.Alerts.{accept_payload}
use webhook_telegram_proxy.Service.Alerts.Unique.{
  Operation, restart, webhook, recovery_tick, rotation_tick, operate_all, operate_all-IsUnique,
}
use webhook_telegram_proxy.Service.Alerts.Duplicates.{IsEndedAnswer, accept_payload-IsEndedAnswer}
use webhook_telegram_proxy.Tests.{calm, calm-IsQuiet, row, world, payload}

abbrev operations : List Operation
operations = restart 3 ∷ webhook 2 (codes "{}") ∷ recovery_tick ∷ rotation_tick ∷ []

operate_all-IsUnique_example :
    IsUnique (operate_all calm operations (world (row queued [] 0))).table
operate_all-IsUnique_example =
    operate_all-IsUnique calm operations (world (row queued [] 0)) (tt, tt)

abbrev ended_world : World
ended_world = (ensure_capacity calm (world (row delivered [] 0))).1

room_made : ensure_capacity calm (world (row delivered [] 0)) ≡ (ok tt, ended_world)
unfolding ensure_capacity ◌>>=◌ ◌>>◌ on_result wrap_error size_bytes stat_total
room_made = refl

ended_found :
    find_key (compute_fingerprint calm payload) ended_world.table ≡ some (row delivered [] 0)
unfolding find_key find_where ensure_capacity ◌>>=◌ ◌>>◌ on_result wrap_error size_bytes stat_total
    compute_fingerprint
ended_found = refl

accept_payload-IsEndedAnswer_example :
    IsEndedAnswer
      (row delivered [] 0)
      ended_world
      (accept_payload calm (raise (plain [])) [] payload (world (row delivered [] 0)))
accept_payload-IsEndedAnswer_example =
    accept_payload-IsEndedAnswer calm calm-IsQuiet (raise (plain [])) [] payload
      (world (row delivered [] 0)) ended_world (row delivered [] 0) room_made ended_found refl
