-- ===== src/Service/Delivery/Locality.antt =====
-- A delivery attempt changes only the rows of its event, and not what identifies them: it keeps every
-- property of the table that such changes keep, whatever the driver and Telegram answer.
use webhook_telegram_proxy.Service.Messages.{build_messages}
use webhook_telegram_proxy.Prelude.{
  subst, sym, ℕ, ◌+◌, String, Option, none, some, List, [], ◌∷◌, Text,
}
use webhook_telegram_proxy.Errors.{Error, ApiError, Result, ok, err}
use webhook_telegram_proxy.Models.{WebhookPayload}
use webhook_telegram_proxy.Store.Record.{Record, Table}
use webhook_telegram_proxy.Store.Rows.{IsLocal}
use webhook_telegram_proxy.Store.Locality.{
  IsRowOf, Yields-claim_for_send, Keeps-claim_for_send, Keeps-save_rendered_parts,
  Keeps-mark_chunk_sent, Keeps-mark_delivered, Keeps-schedule_retry, Keeps-mark_failed,
  Keeps-mark_dead_letter,
}
use webhook_telegram_proxy.Runtime.{Env, World, M}
use webhook_telegram_proxy.Runtime.Keeps.{
  Keeps-on_result, Yields-wrap_error, Keeps-bind-Yields, Keeps-bind, Keeps-wrap_error, Keeps-clock,
  Keeps, Keeps-pure, keeps_rules,
}
use webhook_telegram_proxy.Service.Delivery.{
  process_claimed, process_event_by_id, Outcome, ending, observe_attempt, send_message, accept_text,
  compute_backoff, store_write_failed, fail_render, persist_parts, render_decoded, render_built,
  rendered_or, ensure_rendered_parts, retry_later, dead_letter_now, fail_now, api_failure,
  network_failure, abort_send, send_failure, handle_send_error, send_from, deliver,
}

accept_text_keeps :
    (P : Table → Type 0) (env : Env) (text : Text) (answer : Result ℕ) (w : World)
    → P w.table
    → P (accept_text env text answer w).1.table
accept_text_keeps P env text (ok m) w h = h
accept_text_keeps P env text (err e) w h = h

module _ {P : Table → Type 0} (env : Env) where
  Keeps-compute_backoff : (n : ℕ) → Keeps P (compute_backoff env n)
  unfolding compute_backoff
  Keeps-compute_backoff n = record { at = λ w h. h }

  Keeps-send_message : (text : Text) → Keeps P (send_message env text)
  unfolding send_message
  Keeps-send_message text = record {
    at = λ w. accept_text_keeps P env text (env.reply w.calls text) w;
  }

module _ {P : Table → Type 0} where
  Keeps-ending : (label : String) (m : M (Unit {0})) → Keeps P m → Keeps P (ending label m)
  unfolding ending
  Keeps-ending label m k = record { at = k.at }

  Keeps-observe_attempt : (o : Outcome) → Keeps P (observe_attempt o)
  unfolding observe_attempt
  Keeps-observe_attempt o = record { at = λ w h. h }

module _ {P : Table → Type 0} (env : Env) (r : Record) (l : IsLocal r.event_id P) where
  ruleset local_rules = (
    keeps_rules, Keeps-compute_backoff, Keeps-send_message, Keeps-ending, Keeps-observe_attempt,
    Keeps-save_rendered_parts, Keeps-mark_chunk_sent, Keeps-mark_delivered, Keeps-schedule_retry,
    Keeps-mark_failed, Keeps-mark_dead_letter,
  )

  Keeps-store_write_failed :
      (what : Text) (parts : List Text) (e : Error)
      → Keeps P (store_write_failed env what r parts e)
  unfolding store_write_failed
  Keeps-store_write_failed what parts e = search local_rules depth 9

  Keeps-fail_render : (what : Text) (e : Error) → Keeps P (fail_render env what r e)
  unfolding fail_render
  Keeps-fail_render what e = search local_rules depth 9

  Keeps-persist_parts : (parts : List Text) → Keeps P (persist_parts env r parts)
  unfolding persist_parts
  Keeps-persist_parts parts = search local_rules depth 12

  Keeps-render_built : (built : Result (List Text)) → Keeps P (render_built env r built)
  Keeps-render_built (ok parts) = Keeps-persist_parts parts
  Keeps-render_built (err e) = Keeps-fail_render _ e

  Keeps-render_decoded : (decoded : Result WebhookPayload) → Keeps P (render_decoded env r decoded)
  Keeps-render_decoded (ok payload) = record {
    at = λ w. (Keeps-render_built (build_messages env w.calls payload)).at w;
  }
  Keeps-render_decoded (err e) = Keeps-fail_render _ e

  Keeps-rendered_or : (parts : List Text) → Keeps P (rendered_or env r parts)
  Keeps-rendered_or [] = Keeps-render_decoded (env.decode_payload r.original_payload)
  Keeps-rendered_or (p ∷ ps) = Keeps-pure (p ∷ ps)

  pub Keeps-ensure_rendered_parts : Keeps P (ensure_rendered_parts env r)
  unfolding ensure_rendered_parts
  Keeps-ensure_rendered_parts = Keeps-rendered_or r.rendered_parts

  Keeps-retry_later :
      (parts : List Text) (e : Error) (reason : String) (wait : ℕ)
      → Keeps P (retry_later env r parts e reason wait)
  unfolding retry_later
  Keeps-retry_later parts e reason wait = search local_rules depth 9

  Keeps-dead_letter_now : (parts : List Text) (e : Error) → Keeps P (dead_letter_now env r parts e)
  unfolding dead_letter_now
  Keeps-dead_letter_now parts e = search local_rules depth 9

  Keeps-fail_now : (parts : List Text) (e : Error) → Keeps P (fail_now env r parts e)
  unfolding fail_now
  Keeps-fail_now parts e = search local_rules depth 9

  ruleset failure_rules = (local_rules, Keeps-retry_later, Keeps-dead_letter_now, Keeps-fail_now)

  Keeps-api_failure : (parts : List Text) (a : ApiError) → Keeps P (api_failure env r parts a)
  unfolding api_failure
  Keeps-api_failure parts a = search failure_rules depth 9

  Keeps-network_failure : (parts : List Text) (e : Error) → Keeps P (network_failure env r parts e)
  unfolding network_failure
  Keeps-network_failure parts e = search failure_rules depth 9

  Keeps-abort_send : (parts : List Text) (e : Error) → Keeps P (abort_send env r parts e)
  unfolding abort_send
  Keeps-abort_send parts e = search local_rules depth 9

  Keeps-send_failure :
      (parts : List Text) (e : Error) (o : Option ApiError) → Keeps P (send_failure env r parts e o)
  Keeps-send_failure parts e (some a) = Keeps-api_failure parts a
  Keeps-send_failure parts e none = Keeps-network_failure parts e

  pub Keeps-handle_send_error :
      (parts : List Text) (e : Error) → Keeps P (handle_send_error env r parts e)
  unfolding handle_send_error
  Keeps-handle_send_error parts e =
      search (keeps_rules, Keeps-abort_send, Keeps-send_failure) depth 9

  Keeps-send_from :
      (parts : List Text) (index : ℕ) (rest : List Text)
      → Keeps P (send_from env r parts index rest)
  unfolding send_from
  Keeps-send_from parts index [] = search (local_rules, Keeps-store_write_failed) depth 9
  Keeps-send_from parts index (part ∷ rest) =
      Keeps-on_result _ _ _ (Keeps-send_message env part)
        (λ e. Keeps-ending _ _ (Keeps-handle_send_error parts e))
        (λ m.
          Keeps-on_result _ _ _ (Keeps-mark_chunk_sent env r.event_id l _ _)
            (λ e. Keeps-ending _ _ (Keeps-store_write_failed _ parts e))
            (λ _. Keeps-send_from parts (index + 1) rest))

  pub Keeps-deliver : Keeps P (deliver env r)
  unfolding deliver
  Keeps-deliver = search (local_rules, Keeps-ensure_rendered_parts, Keeps-send_from) depth 9

module _ {P : Table → Type 0} (env : Env) (id : String) (l : IsLocal id P) where
  process_claimed-Keeps : (o : Option Record) → IsRowOf id o → Keeps P (process_claimed env o)
  process_claimed-Keeps none h = Keeps-pure tt
  process_claimed-Keeps (some r) h =
      Keeps-bind _ _ (Keeps-deliver env r (subst (λ i. IsLocal i P) (sym h) l))
        Keeps-observe_attempt

  -- `ProcessEventByID` keeps what changes of the rows of its event keep.
  pub Keeps-process_event_by_id : Keeps P (process_event_by_id env id)
  unfolding process_event_by_id
  Keeps-process_event_by_id = Keeps-bind _ _ (Keeps-clock env) (λ now.
      Keeps-bind-Yields _ _ (Keeps-wrap_error _ _ (Keeps-claim_for_send env id l now))
        (Yields-wrap_error _ _ (Yields-claim_for_send env id now)) process_claimed-Keeps)
