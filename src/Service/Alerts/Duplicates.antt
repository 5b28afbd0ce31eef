-- ===== src/Service/Alerts/Duplicates.antt =====
-- A webhook whose delivery has ended is not delivered again.
use webhook_telegram_proxy.Prelude.{sym, ap, String, Text, Bool, true, false, some, ◌≡◌, refl, ◌∙◌}
use webhook_telegram_proxy.Errors.{Result, ok}
use webhook_telegram_proxy.Models.{WebhookPayload}
use webhook_telegram_proxy.Store.Record.{Record, Status, delivered, failed, dead_letter}
use webhook_telegram_proxy.Store.Queries.{find_key}
use webhook_telegram_proxy.Store.Changes.{done}
use webhook_telegram_proxy.Store.Methods.{get_by_idempotency_key}
use webhook_telegram_proxy.Runtime.{on_result, request, ◌>>◌, Env, World, M}
use webhook_telegram_proxy.Runtime.Quiet.{IsQuiet, exec_quiet, on_result-ok, after}
use webhook_telegram_proxy.Service.Fingerprint.{compute_fingerprint}
use webhook_telegram_proxy.Service.Rotation.{ensure_capacity}
use webhook_telegram_proxy.Service.Alerts.{
  Answer, accepted, result_of, accept_known, accept_payload, received_as,
}

-- delivered, or given up
abbrev pub is_ended : Status → Bool
is_ended delivered = true
is_ended failed = true
is_ended dead_letter = true
is_ended _ = false

-- What is answered for a record whose delivery has ended: its id and its status, as a duplicate, with
-- HTTP status 200; no row changes and nothing is sent.
pub record IsEndedAnswer (r : Record) (w : World) (outcome : Result Answer × World) : Type 0 where
  pub answered :
      outcome.0 ≡ ok (accepted (result_of r.event_id r.idempotency_key r.status true) 200)
  pub same_table : outcome.1.table ≡ w.table
  pub same_sent : outcome.1.sent ≡ w.sent

received_as_ended :
    (label : String) (r : Record) (s : Status) (w : World)
    → r.status ≡ s
    → IsEndedAnswer r w
        (received_as label (accepted (result_of r.event_id r.idempotency_key s true) 200) w)
unfolding ◌>>◌ on_result
received_as_ended label r s w e = record {
  answered = ap (λ x. ok (accepted (result_of r.event_id r.idempotency_key x true) 200)) (sym e);
  same_table = refl;
  same_sent = refl;
}

module _ (env : Env) where
  known_ended :
      (r : Record) (s : Status) (w : World)
      → r.status ≡ s
      → is_ended s ≡ true
      → IsEndedAnswer r w (accept_known env r s w)
  known_ended r delivered w e h = received_as_ended "duplicate_delivered" r delivered w e
  known_ended r failed w e h = received_as_ended "duplicate_terminal" r failed w e
  known_ended r dead_letter w e h = received_as_ended "duplicate_terminal" r dead_letter w e
  known_ended r s w e h = absurd cc

  -- When the driver answers every statement, room was made, and a record with the payload's fingerprint
  -- has been delivered, has failed or is a dead letter, `accept_payload` answers with that record as a
  -- duplicate, and after the room was made it changes no row and sends nothing.
  pub accept_payload-IsEndedAnswer :
      (q : IsQuiet env) (again : M Answer) (raw : Text) (payload : WebhookPayload) (w w' : World)
      (r : Record)
      → ensure_capacity env w ≡ (ok tt, w')
      → find_key (compute_fingerprint env payload) w'.table ≡ some r
      → is_ended r.status ≡ true
      → IsEndedAnswer r w' (accept_payload env again raw payload w)
  unfolding accept_payload get_by_idempotency_key after
  accept_payload-IsEndedAnswer q again raw payload w w' r room found ended =
      let look =
        exec_quiet env q "get_by_idempotency_key" request
          (λ _ t. done (find_key (compute_fingerprint env payload) t) t) w'
          (ap (λ o. (ok o, w'.table)) found) in
      let known = known_ended r r.status (after "get_by_idempotency_key" w'.table w') refl ended in
      let run = on_result-ok _ _ _ w room ∙ on_result-ok _ _ _ w' look in
      record {
        answered = ap (λ o. o.0) run ∙ known.answered;
        same_table = ap (λ o. o.1.table) run ∙ known.same_table;
        same_sent = ap (λ o. o.1.sent) run ∙ known.same_sent;
      }
