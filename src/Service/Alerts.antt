-- ===== src/Service/Alerts.antt =====
-- The acceptance of a webhook (internal/service/alert_service.go).
pub mod Unique
pub mod Duplicates
use webhook_telegram_proxy.Prelude.{
  ℕ, zero, suc, String, Bool, true, false, Option, none, some, List, [], Text, codes, ◌++◌,
  if◌then◌else◌,
}
use webhook_telegram_proxy.Errors.{Error, already_exists, plain, wrap, Result, ok, err}
use webhook_telegram_proxy.Models.{WebhookPayload}
use webhook_telegram_proxy.Store.Record.{
  Record, Status, received, queued, sending, delivered, retry_scheduled, failed, dead_letter, other,
  is_delivered, is_dead,
}
use webhook_telegram_proxy.Store.Methods.{
  get_by_idempotency_key, get_by_event_id, create_received, mark_queued,
}
use webhook_telegram_proxy.Runtime.{
  Env, Metric, webhook_received, World, M, pure, raise, on_result, ◌>>=◌, ◌>>◌, ignore, clock,
  record_metric, tick,
}
use webhook_telegram_proxy.Service.Fingerprint.{compute_fingerprint}
use webhook_telegram_proxy.Service.Delivery.{process_event_by_id}
use webhook_telegram_proxy.Service.Rotation.{ensure_capacity}

pub record AcceptResult : Type 0 where
  pub event_id : String
  pub idempotency_key : String
  pub status : Status
  pub duplicate : Bool

-- The three results of `AcceptWebhook`: a result or an error, each with the HTTP status. An answer of
-- 502 has both, and `refused` keeps the result for it.
pub data Answer : Type 0 where
  accepted : AcceptResult → ℕ → Answer
  refused : Option AcceptResult → ℕ → Error → Answer

abbrev pub received_as : String → Answer → M Answer
received_as label answer = record_metric (webhook_received label) >> pure answer

abbrev pub result_of : String → String → Status → Bool → AcceptResult
result_of id key status duplicate = record {
  event_id = id;
  idempotency_key = key;
  status = status;
  duplicate = duplicate;
}

-- the switch of `loadAcceptResult`
abbrev pub load_status : String → String → Bool → Status → Answer
load_status id key dup delivered = accepted (result_of id key delivered dup) 200
load_status id key dup failed = accepted (result_of id key failed dup) 200
load_status id key dup dead_letter = accepted (result_of id key dead_letter dup) 200
load_status id key dup (other s) =
    refused none 500 (plain (codes "unexpected delivery status " ++ codes s))
load_status id key dup status = accepted (result_of id key status dup) 202

abbrev pub load_found : String → String → Bool → Option Record → Answer
load_found id key dup none =
    refused none 500
      (plain (codes "delivery record " ++ (codes id ++ codes " not found after processing")))
load_found id key dup (some r) = load_status id key dup r.status

-- the switch after a first attempt that failed, on the reloaded result
abbrev pub after_failure : Error → Answer → M Answer
after_failure e (refused r code x) = pure (refused none 500 x)
after_failure e (accepted r code) = elim r.status [
  | retry_scheduled ↦ received_as "queued_retry" (refused (some r) 502 e)
  | failed ↦ received_as "terminal_failure" (accepted r 200)
  | dead_letter ↦ received_as "terminal_failure" (accepted r 200)
  | _ ↦ received_as "queued_pending" (accepted r code)
]

abbrev pub new_record : String → String → Text → ℕ → Record
new_record id key raw now = record {
  event_id = id;
  idempotency_key = key;
  status = received;
  original_payload = raw;
  rendered_message = [];
  rendered_parts = [];
  split_count = 0;
  sent_parts = 0;
  attempt_count = 0;
  next_retry_at = none;
  last_error = [];
  telegram_chat_id = [];
  telegram_message_id = none;
  created_at = now;
  updated_at = now;
  delivered_at = none;
  last_attempt_at = none;
}

module _ (env : Env) where
  unfoldable pub load_accept_result : String → String → Bool → M Answer
  load_accept_result id key dup =
      on_result (get_by_event_id env id)
        (λ e. pure (refused none 500 (wrap (codes "reload delivery") e)))
        (λ found. pure (load_found id key dup found))

  -- a record with this fingerprint is there already
  abbrev pub accept_known : Record → Status → M Answer
  accept_known r delivered =
      received_as "duplicate_delivered"
        (accepted (result_of r.event_id r.idempotency_key delivered true) 200)
  accept_known r failed =
      received_as "duplicate_terminal"
        (accepted (result_of r.event_id r.idempotency_key failed true) 200)
  accept_known r dead_letter =
      received_as "duplicate_terminal"
        (accepted (result_of r.event_id r.idempotency_key dead_letter true) 200)
  accept_known r status =
      ignore (process_event_by_id env r.event_id)
      >> record_metric (webhook_received "duplicate_pending")
      >> load_accept_result r.event_id r.idempotency_key true

  -- the first attempt on a new record
  unfoldable pub deliver_new : String → String → M Answer
  deliver_new id key =
      on_result (process_event_by_id env id)
        (λ e. load_accept_result id key false >>= after_failure e)
        (λ _. record_metric (webhook_received "success") >> load_accept_result id key false)

  unfoldable pub queue_new : String → String → ℕ → M Answer
  queue_new id key now =
      on_result (mark_queued env id now)
        (λ e. pure (refused none 500 (wrap (codes "queue delivery") e))) (λ _. deliver_new id key)

  -- `CreateReceived` failed; `again` is the recursive call
  abbrev pub create_failed : M Answer → Error → M Answer
  create_failed again already_exists = again
  create_failed again e =
      received_as "store_error" (refused none 500 (wrap (codes "persist webhook event") e))

  unfoldable pub random_id : M (Result String)
  random_id w = (ok (env.random_id w.calls), tick w)

  abbrev pub store_new : M Answer → Text → String → ℕ → Result String → M Answer
  store_new again raw key now (err e) = pure (refused none 500 (wrap (codes "generate event id") e))
  store_new again raw key now (ok id) =
      on_result (create_received env (new_record id key raw now)) (create_failed again)
        (λ _. queue_new id key now)

  unfoldable pub accept_new : M Answer → Text → String → M Answer
  accept_new again raw key = do now ← clock env; id ← random_id; store_new again raw key now id

  abbrev pub accept_found : M Answer → Text → String → Option Record → M Answer
  accept_found again raw key none = accept_new again raw key
  accept_found again raw key (some r) = accept_known r r.status

  -- `AcceptWebhook` after the payload was decoded
  unfoldable pub accept_payload : M Answer → Text → WebhookPayload → M Answer
  accept_payload again raw payload =
      on_result (ensure_capacity env) (λ e. received_as "store_rejected" (refused none 503 e))
        (λ _.
          on_result (get_by_idempotency_key env (compute_fingerprint env payload))
            (λ e.
              received_as "store_error"
                (refused none 500 (wrap (codes "lookup existing delivery") e)))
            (accept_found again raw (compute_fingerprint env payload)))

  abbrev pub accept_decoded : M Answer → Text → Result WebhookPayload → M Answer
  accept_decoded again raw (err e) =
      received_as "invalid_json" (refused none 400 (wrap (codes "decode webhook payload") e))
  accept_decoded again raw (ok payload) = accept_payload again raw payload

  -- The calls of itself that `AcceptWebhook` may still make. It calls itself where the record that it
  -- inserts meets an id or a fingerprint that came in between; `raise` stands for a run that goes on.
  unfoldable pub accept_webhook : ℕ → Text → M Answer
  accept_webhook zero raw = raise (plain (codes "AcceptWebhook has not returned"))
  accept_webhook (suc calls) raw =
      let again = accept_webhook calls raw in accept_decoded again raw (env.decode_payload raw)
