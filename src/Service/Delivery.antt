-- ===== src/Service/Delivery.antt =====
-- One delivery attempt and the recovery pass (internal/service/delivery_service.go): claim, render,
-- send part by part, and settle the record. Logging is not modelled.
pub mod Locality
pub mod Settling
pub mod Throttling
pub mod Progress
pub mod Attempts
pub mod Processing
pub mod Exact
pub mod Delivered
pub mod Batch
pub mod Recovery
pub mod Lifecycle
use webhook_telegram_proxy.Service.Messages.{build_messages}
use webhook_telegram_proxy.Prelude.{
  natural, at_least, is_int, pos, ℤ, less, ℕ, suc, ◌+◌, String, not, Option, none, some, List, [],
  ◌∷◌, ◌++◌, Text, codes, ltb, leb, ◌==◌, length, drop, if◌then◌else◌,
}
use webhook_telegram_proxy.Errors.{
  Error, ApiError, context_canceled, api, wrap, render_fatal, error_text, is_render_fatal,
  as_api_error, Result, ok, err,
}
use webhook_telegram_proxy.Models.{WebhookPayload}
use webhook_telegram_proxy.Store.Record.{Record}
use webhook_telegram_proxy.Store.Methods.{
  claim_for_send, save_rendered_parts, mark_chunk_sent, mark_delivered, schedule_retry, mark_failed,
  mark_dead_letter, list_due_event_ids,
}
use webhook_telegram_proxy.Service.Backoff.{backoff}
use webhook_telegram_proxy.Runtime.{
  Env, request, background, delivery_attempt, delivery_retry, delivery_dead_letter, M, pure, raise,
  on_result, ◌>>=◌, ◌>>◌, ignore, wrap_error, clock, is_done, persist_context, record_metric, tick,
  emit,
}

-- strings.Join(parts, "\n\n---\n\n")
unfoldable pub join_rendered : List Text → Text
join_rendered [] = []
join_rendered (p ∷ []) = p
join_rendered (p ∷ q ∷ ps) = p ++ (codes "\n\n---\n\n" ++ join_rendered (q ∷ ps))

unfoldable pub classify_retry_reason : ℤ → String
classify_retry_reason status =
    if is_int status 429
    then "throttled"
    else if at_least status 500
    then "server_error"
    else if at_least status 400
    then "client_error"
    else "network"

-- the label of the attempt's metric, and the error that the attempt returns
abbrev pub Outcome : Type 0
Outcome = String × Result (Unit {0})

unfoldable pub ending : String → M (Unit {0}) → M Outcome
ending label m w = let (r, w') = m w in (ok (label, r), w')

-- the deferred call of `ObserveDeliveryAttempt`
unfoldable pub observe_attempt : Outcome → M (Unit {0})
observe_attempt (label, r) w = (r, emit (delivery_attempt label) w)

module _ (env : Env) where
  open env.cfg use {telegram_chat_id, max_delivery_attempts, retry_base_delay, retry_max_delay}

  -- `SendMessage` of the Telegram client: a text that it reports as accepted is recorded. After an error it
  -- is not known whether Telegram has accepted the text.
  abbrev pub accept_text : Text → Result ℕ → M ℕ
  accept_text text (ok message_id) w =
      (ok message_id, record w { sent = w.sent ++ text ∷ []; calls = suc w.calls })
  accept_text text (err e) w = (err e, tick w)

  unfoldable pub send_message : Text → M ℕ
  send_message text w = accept_text text (env.reply w.calls text) w

  unfoldable pub compute_backoff : ℕ → M ℕ
  compute_backoff attempt w =
      (ok (env.jitter w.calls (backoff attempt retry_base_delay retry_max_delay)), tick w)

  -- A store write failed: try not to leave the record in 'sending'.
  unfoldable pub store_write_failed : Text → Record → List Text → Error → M (Unit {0})
  store_write_failed what r parts e = do
    ctx ← persist_context env
    now ← clock env
    wait ← compute_backoff r.attempt_count
    ignore (schedule_retry env ctx r.event_id (join_rendered parts) (error_text e) (now + wait))
    raise (wrap what e)

  -- `MarkFailed` for a payload that can never be rendered
  unfoldable pub fail_render : Text → Record → Error → M (List Text)
  fail_render what r e = do
    ctx ← persist_context env
    ignore (mark_failed env ctx r.event_id r.rendered_message (error_text e))
    raise (render_fatal what e)

  unfoldable pub persist_parts : Record → List Text → M (List Text)
  persist_parts r parts =
      on_result (save_rendered_parts env r.event_id (join_rendered parts) parts)
        (λ e. do
          now ← clock env
          wait ← compute_backoff r.attempt_count
          ctx ← persist_context env
          ignore
              (schedule_retry env ctx r.event_id (join_rendered parts) (error_text e) (now + wait))
          raise (wrap (codes "persist rendered messages") e))
        (λ _. pure parts)

  abbrev pub render_built : Record → Result (List Text) → M (List Text)
  render_built r (err e) = fail_render (codes "build alert message") r e
  render_built r (ok parts) = persist_parts r parts

  abbrev pub render_decoded : Record → Result WebhookPayload → M (List Text)
  render_decoded r (err e) = fail_render (codes "decode stored payload") r e
  render_decoded r (ok payload) = λ w. render_built r (build_messages env w.calls payload) w

  -- `ensureRenderedParts`, at the parts that the record holds
  abbrev pub rendered_or : Record → List Text → M (List Text)
  rendered_or r [] = render_decoded r (env.decode_payload r.original_payload)
  rendered_or r (p ∷ ps) = pure (p ∷ ps)

  unfoldable pub ensure_rendered_parts : Record → M (List Text)
  ensure_rendered_parts r = rendered_or r r.rendered_parts

  -- the retry of `handleSendError` after `wait`
  unfoldable pub retry_later : Record → List Text → Error → String → ℕ → M (Unit {0})
  retry_later r parts e reason wait = do
    now ← clock env
    record_metric (delivery_retry reason)
    wrap_error (codes "schedule retry")
        (schedule_retry env request r.event_id (join_rendered parts) (error_text e) (now + wait))
    raise e

  unfoldable pub dead_letter_now : Record → List Text → Error → M (Unit {0})
  dead_letter_now r parts e = do
    record_metric delivery_dead_letter
    wrap_error (codes "mark dead letter")
        (mark_dead_letter env request r.event_id (join_rendered parts) (error_text e))
    raise e

  unfoldable pub fail_now : Record → List Text → Error → M (Unit {0})
  fail_now r parts e = do
    wrap_error (codes "mark failed")
        (mark_failed env request r.event_id (join_rendered parts) (error_text e))
    raise e

  -- Telegram's `retry_after` is respected where it is longer.
  unfoldable pub api_failure : Record → List Text → ApiError → M (Unit {0})
  api_failure r parts a =
      if not a.retryable
      then fail_now r parts (api a)
      else if leb max_delivery_attempts r.attempt_count
      then dead_letter_now r parts (api a)
      else do
        wait ← compute_backoff r.attempt_count
        retry_later r parts (api a) (classify_retry_reason a.status_code)
            (if less (pos wait) a.retry_after then natural a.retry_after else wait)

  unfoldable pub network_failure : Record → List Text → Error → M (Unit {0})
  network_failure r parts e =
      if leb max_delivery_attempts r.attempt_count
      then dead_letter_now r parts e
      else do wait ← compute_backoff r.attempt_count; retry_later r parts e "network" wait

  -- the caller's context is done: back to the queue at once
  unfoldable pub abort_send : Record → List Text → Error → M (Unit {0})
  abort_send r parts e = do
    now ← clock env
    ignore (schedule_retry env background r.event_id (join_rendered parts) (error_text e) now)
    raise e

  abbrev pub send_failure : Record → List Text → Error → Option ApiError → M (Unit {0})
  send_failure r parts e (some a) = api_failure r parts a
  send_failure r parts e none = network_failure r parts e

  unfoldable pub handle_send_error : Record → List Text → Error → M (Unit {0})
  handle_send_error r parts e = do
    aborted ← is_done env
    if aborted then abort_send r parts e else send_failure r parts e (as_api_error e)

  abbrev pub first_message : ℕ → ℕ → Option ℕ
  first_message index message_id = if index == 0 then some message_id else none

  -- The loop over the parts from `index` on, and what follows it.
  unfoldable pub send_from : Record → List Text → ℕ → List Text → M Outcome
  send_from r parts index [] =
      on_result
        (clock env
          >>= mark_delivered env r.event_id (join_rendered parts) telegram_chat_id (length parts))
        (λ e. ending "failed" (store_write_failed (codes "mark delivered") r parts e))
        (λ _. ending "success" (pure tt))
  send_from r parts index (part ∷ rest) =
      on_result (send_message part) (λ e. ending "retry" (handle_send_error r parts e))
        (λ message_id.
          on_result (mark_chunk_sent env r.event_id (index + 1) (first_message index message_id))
            (λ e. ending "failed" (store_write_failed (codes "mark chunk sent") r parts e))
            (λ _. send_from r parts (index + 1) rest))

  unfoldable pub deliver : Record → M Outcome
  deliver r =
      on_result (ensure_rendered_parts r)
        (λ e. ending (if is_render_fatal e then "failed" else "retry") (raise e))
        (λ parts. send_from r parts r.sent_parts (drop r.sent_parts parts))

  abbrev pub process_claimed : Option Record → M (Unit {0})
  process_claimed none = pure tt
  process_claimed (some r) = deliver r >>= observe_attempt

  unfoldable pub process_event_by_id : String → M (Unit {0})
  process_event_by_id id = do
    now ← clock env
    claimed ← wrap_error (codes "claim delivery") (claim_for_send env id now)
    process_claimed claimed

  -- the loop of `RecoverPending`; an error of one delivery is only logged
  unfoldable pub process_all : List String → M (Unit {0})
  process_all [] = pure tt
  process_all (id ∷ ids) = do
    stopped ← is_done env
    if stopped then raise context_canceled else (ignore (process_event_by_id id) >> process_all ids)

  unfoldable pub recover_pending : M (Unit {0})
  recover_pending = do
    now ← clock env
    ids ←
        wrap_error (codes "list due event ids")
          (list_due_event_ids env now env.cfg.worker_batch_size)
    process_all ids
