-- ===== src/Service/Alerts/Unique.antt =====
-- Every operation of the service keeps event ids and idempotency keys distinct, in any order of
-- operations and whatever the driver, Telegram, the clock and the file system answer.
use webhook_telegram_proxy.Prelude.{refl}
use webhook_telegram_proxy.Prelude.{
  ℕ, zero, suc, String, Bool, true, Option, none, some, List, [], ◌∷◌, Text,
}
use webhook_telegram_proxy.Errors.{Error, already_exists, Result, ok, err, is_already_exists}
use webhook_telegram_proxy.Models.{WebhookPayload}
use webhook_telegram_proxy.Store.Record.{
  Record, Status, delivered, retry_scheduled, failed, dead_letter,
}
use webhook_telegram_proxy.Store.Unique.{
  IsUnique, insert-IsUnique, IsLocal-IsUnique, update_where-IsUnique,
}
use webhook_telegram_proxy.Store.Locality.{Keeps-mark_queued}
use webhook_telegram_proxy.Store.Changes.{is_stuck}
use webhook_telegram_proxy.Store.Methods.{
  get_by_idempotency_key, get_by_event_id, create_received, mark_queued, requeue_sending,
  list_due_event_ids,
}
use webhook_telegram_proxy.Runtime.{Env, World, M, ignore, ◌>>◌, record_metric, webhook_received}
use webhook_telegram_proxy.Runtime.Keeps.{
  Keeps, Keeps-pure, Keeps-raise, Keeps-on_result, Keeps-bind, Keeps-then, Keeps-if, Keeps-ignore,
  Keeps-wrap_error, Keeps-record_metric, Keeps-exec, Keeps-clock, Keeps-is_done,
}
use webhook_telegram_proxy.Service.Delivery.{process_event_by_id, process_all, recover_pending}
use webhook_telegram_proxy.Service.Delivery.Locality.{Keeps-process_event_by_id}
use webhook_telegram_proxy.Service.Rotation.{ensure_capacity, rotate_store}
use webhook_telegram_proxy.Service.Rotation.Safety.{Keeps-ensure_capacity, Keeps-rotate_store}
use webhook_telegram_proxy.Service.Rotation.Kept.{IsUnique-IsRotationSafe}
use webhook_telegram_proxy.Service.Alerts.{
  Answer, accepted, refused, AcceptResult, received_as, after_failure, load_accept_result,
  accept_known, deliver_new, queue_new, create_failed, random_id, store_new, accept_new,
  accept_found, accept_payload, accept_decoded, accept_webhook,
}

abbrev Kept : {A : Type 0} → M A → Type 0
Kept m = Keeps IsUnique m

module _ (env : Env) where
  read-Kept : (id : String) → Kept (get_by_event_id env id)
  unfolding get_by_event_id
  read-Kept id = Keeps-exec env _ _ _ (λ _ t h. h)

  read_key-Kept : (key : String) → Kept (get_by_idempotency_key env key)
  unfolding get_by_idempotency_key
  read_key-Kept key = Keeps-exec env _ _ _ (λ _ t h. h)

  create-Kept : (r : Record) → Kept (create_received env r)
  unfolding create_received
  create-Kept r =
      Keeps-on_result _ _ _ (Keeps-exec env _ _ _ (λ _. insert-IsUnique r))
        (λ e.
          Keeps-if (is_already_exists e) _ _ (Keeps-raise _) (Keeps-wrap_error _ _ (Keeps-raise e)))
        Keeps-pure

  process-Kept : (id : String) → Kept (process_event_by_id env id)
  process-Kept id = Keeps-process_event_by_id env id (IsLocal-IsUnique id)

  queued-Kept : (id : String) (at : ℕ) → Kept (mark_queued env id at)
  queued-Kept id at = Keeps-mark_queued env id (IsLocal-IsUnique id) at

  capacity-Kept : Kept (ensure_capacity env)
  capacity-Kept = Keeps-ensure_capacity env IsUnique-IsRotationSafe (λ n m. tt)

  rotate-Kept : Kept (rotate_store env)
  rotate-Kept = Keeps-rotate_store env IsUnique-IsRotationSafe (λ n m. tt)

  random-Kept : Kept (random_id env)
  unfolding random_id
  random-Kept = record { at = λ w h. h }

  received-Kept : (label : String) (a : Answer) → Kept (received_as label a)
  received-Kept label a = Keeps-then _ _ (Keeps-record_metric _) (Keeps-pure a)

  reload-Kept : (id key : String) (dup : Bool) → Kept (load_accept_result env id key dup)
  unfolding load_accept_result
  reload-Kept id key dup =
      Keeps-on_result _ _ _ (read-Kept id) (λ e. Keeps-pure _) (λ f. Keeps-pure _)

  by_status :
      (s : Status) (r : AcceptResult) (code : ℕ) (e : Error)
      → Kept (after_failure e (accepted (record r { status = s }) code))
  by_status retry_scheduled r code e = received-Kept _ _
  by_status failed r code e = received-Kept _ _
  by_status dead_letter r code e = received-Kept _ _
  by_status _ r code e = received-Kept _ _

  failure-Kept : (e : Error) (a : Answer) → Kept (after_failure e a)
  failure-Kept e (accepted r code) = by_status r.status r code e
  failure-Kept e (refused r code x) = Keeps-pure _

  pending-Kept :
      (r : Record)
      → Kept (
          ignore (process_event_by_id env r.event_id)
          >> record_metric (webhook_received "duplicate_pending")
          >> load_accept_result env r.event_id r.idempotency_key true)
  pending-Kept r =
      Keeps-then _ _ (Keeps-then _ _ (Keeps-ignore _ (process-Kept _)) (Keeps-record_metric _))
        (reload-Kept _ _ _)

  known-Kept : (r : Record) (s : Status) → Kept (accept_known env r s)
  known-Kept r delivered = received-Kept _ _
  known-Kept r failed = received-Kept _ _
  known-Kept r dead_letter = received-Kept _ _
  known-Kept r _ = pending-Kept r

  deliver-Kept : (id key : String) → Kept (deliver_new env id key)
  unfolding deliver_new
  deliver-Kept id key =
      Keeps-on_result _ _ _ (process-Kept id)
        (λ e. Keeps-bind _ _ (reload-Kept _ _ _) (failure-Kept e))
        (λ _. Keeps-then _ _ (Keeps-record_metric _) (reload-Kept _ _ _))

  queue-Kept : (id key : String) (now : ℕ) → Kept (queue_new env id key now)
  unfolding queue_new
  queue-Kept id key now =
      Keeps-on_result _ _ _ (queued-Kept id now) (λ e. Keeps-pure _) (λ _. deliver-Kept id key)

  module _ (again : M Answer) (k : Kept again) where
    create_failed-Kept : (e : Error) → Kept (create_failed env again e)
    create_failed-Kept already_exists = k
    create_failed-Kept _ = received-Kept _ _

    store-Kept :
        (raw : Text) (key : String) (now : ℕ) (id : Result String)
        → Kept (store_new env again raw key now id)
    store-Kept raw key now (ok id) =
        Keeps-on_result _ _ _ (create-Kept _) create_failed-Kept (λ _. queue-Kept id key now)
    store-Kept raw key now (err e) = Keeps-pure _

    new-Kept : (raw : Text) (key : String) → Kept (accept_new env again raw key)
    unfolding accept_new
    new-Kept raw key =
        Keeps-bind _ _ (Keeps-clock env)
          (λ now. Keeps-bind _ _ random-Kept (store-Kept raw key now))

    found-Kept :
        (raw : Text) (key : String) (o : Option Record) → Kept (accept_found env again raw key o)
    found-Kept raw key none = new-Kept raw key
    found-Kept raw key (some r) = known-Kept r r.status

    decoded-Kept : (raw : Text) (p : Result WebhookPayload) → Kept (accept_decoded env again raw p)
    unfolding accept_payload
    decoded-Kept raw (ok p) =
        Keeps-on_result _ _ _ capacity-Kept (λ e. received-Kept _ _)
          (λ _. Keeps-on_result _ _ _ (read_key-Kept _) (λ e. received-Kept _ _) (found-Kept raw _))
    decoded-Kept raw (err e) = received-Kept _ _

  accept-Kept : (calls : ℕ) (raw : Text) → Kept (accept_webhook env calls raw)
  unfolding accept_webhook
  accept-Kept zero raw = Keeps-raise _
  accept-Kept (suc calls) raw =
      decoded-Kept (accept_webhook env calls raw) (accept-Kept calls raw) raw
        (env.decode_payload raw)

  all-Kept : (ids : List String) → Kept (process_all env ids)
  unfolding process_all
  all-Kept [] = Keeps-pure tt
  all-Kept (id ∷ ids) = Keeps-bind _ _ (Keeps-is_done env) (λ b.
      Keeps-if b _ _ (Keeps-raise _)
        (Keeps-then _ _ (Keeps-ignore _ (process-Kept id)) (all-Kept ids)))

  recover-Kept : Kept (recover_pending env)
  unfolding recover_pending list_due_event_ids
  recover-Kept = Keeps-bind _ _ (Keeps-clock env) (λ now.
      Keeps-bind _ _
        (Keeps-wrap_error _ _ (Keeps-wrap_error _ _ (Keeps-exec env _ _ _ (λ _ t h. h)))) all-Kept)

  restart-Kept : (at : ℕ) → Kept (requeue_sending env at)
  unfolding requeue_sending
  restart-Kept at = Keeps-wrap_error _ _ (
      Keeps-exec env _ _ _ (λ now t h.
        update_where-IsUnique is_stuck _
          (record { same_id = λ r. refl; same_key = λ r. refl; same_payload = λ r. refl }) t h))

-- What the program does with the store, from the outside: a restart, a webhook, and the two tickers.
pub data Operation : Type 0 where
  restart : ℕ → Operation
  webhook : ℕ → Text → Operation
  recovery_tick rotation_tick : Operation

unfoldable pub operate : Env → Operation → World → World
operate env (restart at) w = (requeue_sending env at w).1
operate env (webhook calls raw) w = (accept_webhook env calls raw w).1
operate env recovery_tick w = (recover_pending env w).1
operate env rotation_tick w = (rotate_store env w).1

unfoldable pub operate_all : Env → List Operation → World → World
unfolding operate
operate_all env [] w = w
operate_all env (o ∷ os) w = operate_all env os (operate env o w)

operate-IsUnique :
    (env : Env) (o : Operation) (w : World) → IsUnique w.table → IsUnique (operate env o w).table
unfolding operate
operate-IsUnique env (restart at) w = (restart-Kept env at).at w
operate-IsUnique env (webhook calls raw) w = (accept-Kept env calls raw).at w
operate-IsUnique env recovery_tick w = (recover-Kept env).at w
operate-IsUnique env rotation_tick w = (rotate-Kept env).at w

-- From a table with distinct event ids and distinct idempotency keys, any sequence of restarts,
-- webhooks, recovery ticks and rotation ticks leads to such a table, whatever the driver, Telegram, the
-- clock, the contexts and the file system answer.
pub operate_all-IsUnique :
    (env : Env) (os : List Operation) (w : World)
    → IsUnique w.table
    → IsUnique (operate_all env os w).table
unfolding operate_all
operate_all-IsUnique env [] w h = h
operate_all-IsUnique env (o ∷ os) w h = operate_all-IsUnique env os _ (operate-IsUnique env o w h)
