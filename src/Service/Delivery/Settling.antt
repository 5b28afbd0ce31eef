-- ===== src/Service/Delivery/Settling.antt =====
-- With a driver that answers and a context that is not done, a failed part is followed by exactly one
-- write, which takes the record out of 'sending' and leaves its progress alone.
use webhook_telegram_proxy.Prelude.{
  ℕ, suc, ◌+◌, String, Bool, true, false, not, Option, none, some, List, ◌≡◌, refl, ◌∙◌, ap, Text,
  leb, if◌then◌else◌,
}
use webhook_telegram_proxy.Errors.{Error, ApiError, api, error_text, as_api_error, Result}
use webhook_telegram_proxy.Store.Record.{
  delivered, Record, Status, retry_scheduled, failed, dead_letter,
}
use webhook_telegram_proxy.Store.Queries.{update}
use webhook_telegram_proxy.Store.Rows.{KeepsIdentity}
use webhook_telegram_proxy.Store.Changes.{retry_row, terminal_row}
use webhook_telegram_proxy.Store.Methods.{schedule_retry, mark_failed, mark_dead_letter}
use webhook_telegram_proxy.Runtime.{
  delivery_retry, delivery_dead_letter, tick, emit, Env, World, M, ◌>>=◌, clock, is_done,
}
use webhook_telegram_proxy.Runtime.Quiet.{
  IsQuiet, after, write_quiet, bind-ok, then-ok, wrap_error-ok, ignore-ok,
}
use webhook_telegram_proxy.Service.Delivery.{
  join_rendered, compute_backoff, retry_later, dead_letter_now, fail_now, api_failure,
  network_failure, abort_send, send_failure, handle_send_error,
}

abbrev pub IsSettled : Status → Type 0
IsSettled retry_scheduled = Unit
IsSettled failed = Unit
IsSettled dead_letter = Unit
IsSettled _ = ⊥

-- a settled row is not delivered
pub not_settled : (s : Status) → s ≡ delivered → IsSettled s → ⊥
not_settled retry_scheduled e h = cc
not_settled failed e h = cc
not_settled dead_letter e h = cc
not_settled _ e h = h

-- A write that settles a row and keeps what identifies it and how far its delivery is.
pub record SettlesRow (f : Record → Record) : Type 0 where
  pub identity : KeepsIdentity f
  pub same_sent : (r : Record) → (f r).sent_parts ≡ r.sent_parts
  pub same_parts : (r : Record) → (f r).rendered_parts ≡ r.rendered_parts
  pub settled : (r : Record) → IsSettled (f r).status

-- From `w` to `w'` one such write was made on the rows of an event, and nothing was sent.
pub record Settles (id : String) (w w' : World) : Type 0 where
  pub change : Record → Record
  pub settles : SettlesRow change
  pub written : w'.table ≡ update id change w.table
  pub nothing_sent : w'.sent ≡ w.sent

pub SettlesRow-retry_row : (msg e : Text) (at now : ℕ) → SettlesRow (retry_row msg e at now)
SettlesRow-retry_row msg e at now = record {
  identity = record { same_id = λ r. refl; same_key = λ r. refl; same_payload = λ r. refl };
  same_sent = λ r. refl;
  same_parts = λ r. refl;
  settled = λ r. tt;
}

pub SettlesRow-terminal_row :
    (status : Status) (msg e : Text) (now : ℕ)
    → IsSettled status
    → SettlesRow (terminal_row status msg e now)
SettlesRow-terminal_row status msg e now h = record {
  identity = record { same_id = λ r. refl; same_key = λ r. refl; same_payload = λ r. refl };
  same_sent = λ r. refl;
  same_parts = λ r. refl;
  settled = λ r. h;
}

module _ (env : Env) (q : IsQuiet env) (r : Record) (parts : List Text) where
  abbrev message : Text
  message = join_rendered parts

  Settles-by :
      {A : Type 0} (m : M A) (w : World) (op : String) (f : Record → Record) (w₁ : World)
      {x : Result A}
      → SettlesRow f
      → w₁.table ≡ w.table
      → w₁.sent ≡ w.sent
      → m w ≡ (x, after op (update r.event_id f w₁.table) w₁)
      → Settles r.event_id w (m w).1
  unfolding after
  Settles-by m w op f w₁ s t e h = record {
    change = f;
    settles = s;
    written = ap (λ p. p.1.table) h ∙ ap (update r.event_id f) t;
    nothing_sent = ap (λ p. p.1.sent) h ∙ e;
  }

  fail_now-Settles : (e : Error) (w : World) → Settles r.event_id w (fail_now env r parts e w).1
  unfolding fail_now mark_failed
  fail_now-Settles e w =
      Settles-by (fail_now env r parts e) w "mark_failed" _ w
        (SettlesRow-terminal_row failed message (error_text e) (env.now w.calls) tt) refl refl
        (then-ok _ _ w (wrap_error-ok _ _ w (write_quiet env q _ _ _ _ _ w)))

  dead_letter_now-Settles :
      (e : Error) (w : World) → Settles r.event_id w (dead_letter_now env r parts e w).1
  unfolding dead_letter_now mark_dead_letter
  dead_letter_now-Settles e w =
      Settles-by (dead_letter_now env r parts e) w "mark_dead_letter" _
        (emit delivery_dead_letter w)
        (SettlesRow-terminal_row dead_letter message (error_text e) (env.now w.calls) tt) refl refl
        (then-ok _ _ w refl ∙ then-ok _ _ _ (wrap_error-ok _ _ _ (write_quiet env q _ _ _ _ _ _)))

  retry_later-Settles :
      (e : Error) (reason : String) (wait : ℕ) (w : World)
      → Settles r.event_id w (retry_later env r parts e reason wait w).1
  unfolding retry_later schedule_retry clock
  retry_later-Settles e reason wait w =
      Settles-by (retry_later env r parts e reason wait) w "schedule_retry" _
        (emit (delivery_retry reason) (tick w))
        (SettlesRow-retry_row message (error_text e) (env.now w.calls + wait)
          (env.now (suc w.calls)))
        refl refl
        (bind-ok _ _ w refl
          ∙ then-ok _ _ _ refl
          ∙ then-ok _ _ _ (wrap_error-ok _ _ _ (write_quiet env q _ _ _ _ _ _)))

  -- calls that neither write nor send may come first
  pub Settles-after :
      (w w₁ w' : World)
      → w₁.table ≡ w.table
      → w₁.sent ≡ w.sent
      → Settles r.event_id w₁ w'
      → Settles r.event_id w w'
  Settles-after w w₁ w' t e s = record {
    change = s.change;
    settles = s.settles;
    written = s.written ∙ ap (update r.event_id s.change) t;
    nothing_sent = s.nothing_sent ∙ e;
  }

  retry_with_backoff-Settles :
      (e : Error) (reason : String) (wait : ℕ → ℕ) (w : World)
      → Settles r.event_id w
          ((compute_backoff env r.attempt_count >>= λ d. retry_later env r parts e reason (wait d))
            w).1
  unfolding compute_backoff
  retry_with_backoff-Settles e reason wait w =
      rw
        (bind-ok (compute_backoff env r.attempt_count)
          (λ d. retry_later env r parts e reason (wait d)) w refl)
        (Settles-after w (tick w) _ refl refl (retry_later-Settles e reason _ (tick w)))

  Settles-if :
      {A : Type 0} (b : Bool) (m n : M A) (w : World)
      → Settles r.event_id w (m w).1
      → Settles r.event_id w (n w).1
      → Settles r.event_id w ((if b then m else n) w).1
  Settles-if true m n w sm sn = sm
  Settles-if false m n w sm sn = sn

  api_failure-Settles :
      (a : ApiError) (w : World) → Settles r.event_id w (api_failure env r parts a w).1
  unfolding api_failure
  api_failure-Settles a w = Settles-if (not a.retryable) _ _ w (fail_now-Settles (api a) w) (
      Settles-if (leb env.cfg.max_delivery_attempts r.attempt_count) _ _ w
        (dead_letter_now-Settles (api a) w) (retry_with_backoff-Settles (api a) _ _ w))

  network_failure-Settles :
      (e : Error) (w : World) → Settles r.event_id w (network_failure env r parts e w).1
  unfolding network_failure
  network_failure-Settles e w =
      Settles-if (leb env.cfg.max_delivery_attempts r.attempt_count) _ _ w
        (dead_letter_now-Settles e w) (retry_with_backoff-Settles e "network" (λ d. d) w)

  send_failure-Settles :
      (e : Error) (o : Option ApiError) (w : World)
      → Settles r.event_id w (send_failure env r parts e o w).1
  send_failure-Settles e (some a) w = api_failure-Settles a w
  send_failure-Settles e none w = network_failure-Settles e w

  abort_send-Settles : (e : Error) (w : World) → Settles r.event_id w (abort_send env r parts e w).1
  unfolding abort_send schedule_retry clock
  abort_send-Settles e w =
      Settles-by (abort_send env r parts e) w "schedule_retry" _ (tick w)
        (SettlesRow-retry_row message (error_text e) (env.now w.calls) (env.now (suc w.calls))) refl
        refl (bind-ok _ _ w refl ∙ then-ok _ _ _ (ignore-ok _ _ (write_quiet env q _ _ _ _ _ _)))

  -- When the driver answers every statement and the context is not done, `handle_send_error` makes, for
  -- any error, one write on the rows of the event that makes them scheduled for a retry, failed or
  -- dead-lettered and keeps their ids, fingerprints, parts and counts of sent parts, and sends nothing.
  pub handle_send_error-Settles :
      (e : Error) (w : World) → Settles r.event_id w (handle_send_error env r parts e w).1
  unfolding handle_send_error is_done
  handle_send_error-Settles e w =
      rw
        (bind-ok (is_done env)
          (λ done.
            if done then abort_send env r parts e else send_failure env r parts e (as_api_error e))
          w refl)
        (Settles-after w (tick w) _ refl refl (
          Settles-if (env.canceled w.calls) _ _ (tick w) (abort_send-Settles e (tick w))
            (send_failure-Settles e (as_api_error e) (tick w))))
