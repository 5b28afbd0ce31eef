-- ===== src/Store/Record.antt =====
-- The delivery record and its lifecycle states (internal/store/sqlite.go, internal/store/migrations.go).
-- A time is a number of nanoseconds since Go's zero time, in UTC. The columns hold the fields as they
-- are: the JSON text of `rendered_parts` is read back to the list it was written from, and NULL is `none`.
use webhook_telegram_proxy.Prelude.{ℕ, String, Bool, true, false, Option, List, Text}

-- `other` is any text that is none of the seven constants.
pub data Status : Type 0 where
  received queued sending delivered retry_scheduled failed dead_letter : Status
  other : String → Status

pub record Record : Type 0 where
  pub event_id : String
  pub idempotency_key : String
  pub status : Status
  pub original_payload : Text
  pub rendered_message : Text
  pub rendered_parts : List Text
  pub split_count : ℕ
  pub sent_parts : ℕ
  pub attempt_count : ℕ
  pub next_retry_at : Option ℕ
  pub last_error : Text
  pub telegram_chat_id : Text
  pub telegram_message_id : Option ℕ
  pub created_at : ℕ
  pub updated_at : ℕ
  pub delivered_at : Option ℕ
  pub last_attempt_at : Option ℕ

-- The table, in the order of insertion.
abbrev pub Table : Type 0
Table = List Record

-- `status IN ('received', 'queued', 'retry_scheduled')`
abbrev pub is_claimable : Status → Bool
is_claimable received = true
is_claimable queued = true
is_claimable retry_scheduled = true
is_claimable _ = false

-- `status IN ('received', 'queued', 'sending', 'retry_scheduled')`
abbrev pub is_pending : Status → Bool
is_pending sending = true
is_pending s = is_claimable s

-- `status IN ('failed', 'dead_letter')`
abbrev pub is_dead : Status → Bool
is_dead failed = true
is_dead dead_letter = true
is_dead _ = false

abbrev pub is_sending : Status → Bool
is_sending sending = true
is_sending _ = false

abbrev pub is_delivered : Status → Bool
is_delivered delivered = true
is_delivered _ = false
