-- ===== src/Store/Changes.antt =====
-- What the statements of internal/store/sqlite.go change in the rows of an event, and what they return.
use webhook_telegram_proxy.Prelude.{
  ℕ, ◌-◌, String, Bool, Option, none, some, List, [], ◌∷◌, Text, length, if◌then◌else◌,
}
use webhook_telegram_proxy.Errors.{not_found, Result, ok, err}
use webhook_telegram_proxy.Store.Record.{
  Record, Table, Status, queued, delivered, retry_scheduled, is_claimable, is_dead, is_sending,
}
use webhook_telegram_proxy.Store.Queries.{find, update, order_by, claim}

-- A statement that cannot fail by itself.
abbrev pub done : {A : Type 0} → A → Table → Result A × Table
done a t = (ok a, t)

-- The row is read back after it was changed (`RETURNING`), or no row fits.
abbrev pub claim_found : String → ℕ → Table → Option Record → Result (Option Record) × Table
claim_found id now t none = done none t
claim_found id now t (some r) =
    if is_claimable r.status
    then done (some (claim now r)) (update id (claim now) t)
    else done none t

abbrev pub claim_query : String → ℕ → Table → Result (Option Record) × Table
claim_query id now t = claim_found id now t (find id t)

abbrev pub requeue_row : ℕ → ℕ → Record → Record
requeue_row next_retry_at now r = record r {
  status = queued;
  next_retry_at = some next_retry_at;
  last_error = [];
  attempt_count = 0;
  updated_at = now;
}

abbrev pub requeue_found : String → ℕ → ℕ → Table → Option Record → Result (Unit {0}) × Table
requeue_found id next_retry_at now t none = (err not_found, t)
requeue_found id next_retry_at now t (some r) =
    if is_dead r.status
    then done tt (update id (requeue_row next_retry_at now) t)
    else (err not_found, t)

abbrev pub requeue_query : String → ℕ → ℕ → Table → Result (Unit {0}) × Table
requeue_query id next_retry_at now t = requeue_found id next_retry_at now t (find id t)

abbrev pub requeue_sending_row : ℕ → ℕ → Record → Record
requeue_sending_row next_retry_at now r = record r {
  status = queued;
  next_retry_at = some next_retry_at;
  updated_at = now;
}

abbrev pub is_stuck : Record → Bool
is_stuck r = is_sending r.status

abbrev pub queue_row : Status → ℕ → Text → ℕ → Record → Record
queue_row status next_retry_at last_error now r = record r {
  status = status;
  next_retry_at = some next_retry_at;
  last_error = last_error;
  updated_at = now;
}

abbrev pub rendered_row : Text → List Text → ℕ → Record → Record
rendered_row rendered_message parts now r = record r {
  rendered_message = rendered_message;
  rendered_parts = parts;
  split_count = length parts;
  updated_at = now;
}

-- COALESCE
abbrev pub coalesce : Option ℕ → Option ℕ → Option ℕ
coalesce none new = new
coalesce (some old) new = some old

abbrev pub chunk_row : ℕ → Option ℕ → ℕ → Record → Record
chunk_row sent_parts first_message_id now r = record r {
  sent_parts = sent_parts;
  telegram_message_id = coalesce r.telegram_message_id first_message_id;
  updated_at = now;
}

abbrev pub delivered_row : Text → Text → ℕ → ℕ → Record → Record
delivered_row rendered_message chat_id split_count delivered_at r = record r {
  status = delivered;
  rendered_message = rendered_message;
  telegram_chat_id = chat_id;
  split_count = split_count;
  sent_parts = split_count;
  delivered_at = some delivered_at;
  updated_at = delivered_at;
  next_retry_at = none;
  last_error = [];
}

abbrev pub retry_row : Text → Text → ℕ → ℕ → Record → Record
retry_row rendered_message last_error next_retry_at now r = record r {
  status = retry_scheduled;
  rendered_message = rendered_message;
  last_error = last_error;
  next_retry_at = some next_retry_at;
  updated_at = now;
}

abbrev pub terminal_row : Status → Text → Text → ℕ → Record → Record
terminal_row status rendered_message last_error now r = record r {
  status = status;
  rendered_message = rendered_message;
  last_error = last_error;
  next_retry_at = none;
  updated_at = now;
}

-- MIN(created_at)
abbrev pub oldest : Table → Option ℕ
oldest t = elim (order_by (λ r. r.created_at) t) [ [] ↦ none | r ∷ _ ↦ some r.created_at ]

-- The nanoseconds from the oldest row to `now`; the source returns them as seconds. A difference below
-- zero is cut to 0.
abbrev pub age : ℕ → Option ℕ → ℕ
age now none = 0
age now (some at) = now - at
