-- ===== src/Runtime.antt =====
-- What a Go method runs in: the state that it changes, and what answers its calls of code outside the
-- repository (the SQLite driver, the clock, the contexts, the Telegram client, the file system).
pub mod Keeps
pub mod Quiet
pub mod Gives
use webhook_telegram_proxy.Prelude.{
  ℕ, suc, String, Bool, Option, none, some, List, ◌∷◌, Text, if◌then◌else◌,
}
use webhook_telegram_proxy.Errors.{
  Error, context_canceled, external, wrap, Result, ok, err, is_already_exists, is_not_found,
}
use webhook_telegram_proxy.Models.{WebhookPayload}
use webhook_telegram_proxy.Config.{Config}
use webhook_telegram_proxy.Template.{MessageData}
use webhook_telegram_proxy.Template.Build.{Display}
use webhook_telegram_proxy.Store.Record.{Table, Status}

-- The calls of internal/metrics that the services and the HTTP handlers make, with the labels that they give.
pub data Metric : Type 0 where
  store_operation : String → String → Metric
  store_size_bytes store_disk_pressure delivery_queue_messages oldest_queued_age : ℕ → Metric
  store_rejected store_rotation_run delivery_attempt delivery_retry webhook_received :
      String → Metric
  store_rotated : Status → ℕ → Metric
  delivery_dead_letter : Metric
  webhook_payload_size : ℕ → Metric
  http_request : String → Text → Text → Metric

-- `sent` holds the texts that the Telegram client reported as accepted, oldest first: where the answer was
-- lost, could not be read or was too long, the client reports an error, and Telegram may have accepted the
-- text all the same; `calls` counts the calls that were
-- made of outside code, so that each may be answered differently; `metrics` has the latest call first.
pub record World : Type 0 where
  pub table : Table
  pub sent : List Text
  pub calls : ℕ
  pub metrics : List Metric

-- os.Stat
pub data FileInfo : Type 0 where
  size : ℕ → FileInfo
  not_exist : FileInfo
  stat_error : Text → FileInfo

-- What outside code answers at the call of each number. `fault` is an error of the driver; a statement
-- that fails changes nothing. `canceled` tells whether the caller's context is done. `reply` is the
-- Telegram client's result, a message id. `jitter` is `time.Duration(float64(base) * jitter)`.
-- `format_time` prints a UTC time as RFC3339Nano. `renderer` executes the template, if there is one, at
-- the number of the execution within a build; `display`
-- is what the preparation of its data uses of the libraries.
pub record Env : Type 0 where
  pub fault : ℕ → Option Text
  pub now : ℕ → ℕ
  pub canceled : ℕ → Bool
  pub reply : ℕ → Text → Result ℕ
  pub jitter : ℕ → ℕ → ℕ
  pub stat : ℕ → Table → Text → FileInfo
  pub random_id : ℕ → Result String
  pub decode_payload : Text → Result WebhookPayload
  pub display : ℕ → Display
  pub renderer : ℕ → Option (ℕ → MessageData → Result Text)
  pub format_time : ℕ → Text
  pub sha256_hex : Text → String
  pub cfg : Config

-- The caller's context, or a fresh one that does not end with it.
pub data Context : Type 0 where
  request background : Context

abbrev pub M : Type 0 → Type 0
M A = World → Result A × World

abbrev pub tick : World → World
tick w = record w { calls = suc w.calls }

abbrev pub emit : Metric → World → World
emit m w = record w { metrics = m ∷ w.metrics }

abbrev pub pure : {A : Type 0} → A → M A
pure a w = (ok a, w)

abbrev pub raise : {A : Type 0} → Error → M A
raise e w = (err e, w)

abbrev pub record_metric : Metric → M (Unit {0})
record_metric m w = (ok tt, emit m w)

-- `if err != nil { … }` behind a call, with what follows in either case
abbrev pub branch : {A B : Type 0} → Result A → (Error → M B) → (A → M B) → M B
branch (ok a) on_err on_ok = on_ok a
branch (err e) on_err on_ok = on_err e

module _ {A B : Type 0} where
  unfoldable pub on_result : M A → (Error → M B) → (A → M B) → M B
  on_result m on_err on_ok w = let (r, w') = m w in branch r on_err on_ok w'

  infixl 10 ◌>>=◌ ◌>>◌
  unfoldable pub ◌>>=◌ : M A → (A → M B) → M B
  m >>= f = on_result m raise f

  unfoldable pub ◌>>◌ : M A → M B → M B
  m >> n = on_result m raise (λ _. n)

-- `_ = m`, or a call whose error is only logged
unfoldable pub ignore : {A : Type 0} → M A → M (Unit {0})
ignore m = on_result m (λ _. pure tt) (λ _. pure tt)

-- `if err != nil { return fmt.Errorf("text: %w", err) }`
unfoldable pub wrap_error : {A : Type 0} → Text → M A → M A
wrap_error text m = on_result m (λ e. raise (wrap text e)) pure

-- the label that `observe` of internal/store/sqlite.go gives an error
unfoldable pub result_label : Error → String
result_label e =
    if is_already_exists e then "duplicate" else if is_not_found e then "not_found" else "error"

abbrev pub labelled : {A : Type 0} → Result A → String
labelled (ok a) = "success"
labelled (err e) = result_label e

-- `observe`
unfoldable pub observed : {A : Type 0} → String → M A → M A
observed op m w = let (r, w') = m w in (r, emit (store_operation op (labelled r)) w')

module _ (env : Env) where
  abbrev pub driver_error : ℕ → Option Error
  driver_error n = elim (env.fault n) [ none ↦ none | some e ↦ some (external e) ]

  abbrev pub driver_answer : Context → ℕ → Option Error
  driver_answer background n = driver_error n
  driver_answer request n = if env.canceled n then some context_canceled else driver_error n

  abbrev pub settle : {A : Type 0} → Option Error → Result A × Table → M A
  settle (some e) answer w = (err e, w)
  settle none (r, t) w = (r, record w { table = t })

  -- One statement: it runs at the present time, or the driver answers with an error.
  unfoldable pub query : {A : Type 0} → Context → (ℕ → Table → Result A × Table) → M A
  query ctx statement w =
      settle (driver_answer ctx w.calls) (statement (env.now w.calls) w.table) (tick w)

  -- A store method with one statement, whose outcome is observed.
  unfoldable pub exec : {A : Type 0} → String → Context → (ℕ → Table → Result A × Table) → M A
  unfolding query observed
  exec op ctx statement = observed op (query ctx statement)

  -- `s.now().UTC()`
  unfoldable pub clock : M ℕ
  clock w = (ok (env.now w.calls), tick w)

  -- `ctx.Err() != nil`
  unfoldable pub is_done : M Bool
  is_done w = (ok (env.canceled w.calls), tick w)

  -- `persistCtx`
  unfoldable pub persist_context : M Context
  persist_context w = (ok (if env.canceled w.calls then background else request), tick w)
