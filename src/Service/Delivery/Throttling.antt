-- ===== src/Service/Delivery/Throttling.antt =====
-- After `429 Too Many Requests` a delivery is left alone for as long as Telegram asks for.
use webhook_telegram_proxy.Prelude.{
  ℕ, suc, not, ◌+◌, ◌<◌, ◌≤◌, String, Bool, true, false, some, List, [], ◌∷◌, ◌≡◌, refl, ◌∙◌, ap,
  Text, leb, arith, if◌then◌else◌, filter, All, All-take, same_text, same_text_iff, Bool-cases, inl,
  inr, ℤ, pos, less, natural,
}
use webhook_telegram_proxy.Errors.{Error, ApiError, api, error_text, as_api_error}
use webhook_telegram_proxy.Store.Record.{Record, Table}
use webhook_telegram_proxy.Service.Backoff.{backoff}
use webhook_telegram_proxy.Runtime.{tick, Env, World, clock, is_done, M, ◌>>=◌}
use webhook_telegram_proxy.Runtime.Quiet.{
  IsQuiet, after, write_quiet, bind-ok, then-ok, wrap_error-ok,
}
use webhook_telegram_proxy.Service.Delivery.{
  join_rendered, compute_backoff, retry_later, api_failure, abort_send, send_failure,
  handle_send_error,
}
use webhook_telegram_proxy.Store.Changes.{retry_row}
use webhook_telegram_proxy.Store.Queries.{is_due, is_listed, select_due, update, update_where}
use webhook_telegram_proxy.Store.Select.{All-order_by, IsOtherThan, not_listed}
use webhook_telegram_proxy.Store.Methods.{schedule_retry}

-- a row that is not due after a change is on no page of due rows
filter_waiting :
    (id : String) (f : Record → Record) (p : Record → Bool) (t : Table)
    → ((r : Record) → p (f r) ≡ false)
    → All (IsOtherThan id) (filter p (update id f t))
unfolding update update_where
filter_waiting id f p [] h = tt
filter_waiting id f p (r ∷ t) h = elim (Bool-cases (same_text r.event_id id)) [
  | inl here ↦ rw (here, h r) (filter_waiting id f p t h)
  | inr other ↦
      rw other (ground (arith, filter_waiting id f p t h, same_text_iff r.event_id id, other))
]

waiting-not_listed :
    (id : String) (f : Record → Record) (now limit : ℕ) (t : Table)
    → ((r : Record) → is_due now (f r) ≡ false)
    → is_listed (select_due now limit (update id f t)) id ≡ false
unfolding select_due
waiting-not_listed id f now limit t h = not_listed id _ (
    All-take _ limit _
      (All-order_by (IsOtherThan id) (λ r. r.created_at) _ (filter_waiting id f (is_due now) t h)))

-- the longer of the two waits
abbrev respected : ℕ → ℤ → ℕ
respected wait asked = if less (pos wait) asked then natural asked else wait

respected_bound : (wait : ℕ) (z : ℤ) (asked : ℕ) → z ≡ pos asked → asked ≤ respected wait z
respected_bound wait z asked e = rw e (ground arith)

skipped : {A : Type 0} (b : Bool) (m n : M A) (w : World) → b ≡ false → (if b then m else n) w ≡ n w
skipped true m n w e = cc
skipped false m n w e = refl

module _ (env : Env) (q : IsQuiet env) (r : Record) (parts : List Text) where
  abbrev computed_wait : World → ℕ
  computed_wait w =
      env.jitter w.calls (backoff r.attempt_count env.cfg.retry_base_delay env.cfg.retry_max_delay)

  retry_later-written :
      (e : Error) (reason : String) (wait : ℕ) (w : World)
      → (retry_later env r parts e reason wait w).1.table
        ≡ update r.event_id
            (retry_row
              (join_rendered parts)
              (error_text e)
              (env.now w.calls + wait)
              (env.now (suc w.calls)))
            w.table
  unfolding retry_later schedule_retry clock after
  retry_later-written e reason wait w =
      ap (λ p. p.1.table)
        (bind-ok _ _ w refl
          ∙ then-ok _ _ _ refl
          ∙ then-ok _ _ _ (wrap_error-ok _ _ _ (write_quiet env q _ _ _ _ _ _)))

  retry_with_backoff-written :
      (e : Error) (reason : String) (wait : ℕ → ℕ) (w : World)
      → ((compute_backoff env r.attempt_count >>= λ d. retry_later env r parts e reason (wait d))
          w).1.table
        ≡ update r.event_id
            (retry_row
              (join_rendered parts)
              (error_text e)
              (env.now (suc w.calls) + wait (computed_wait w))
              (env.now (suc (suc w.calls))))
            w.table
  unfolding compute_backoff
  retry_with_backoff-written e reason wait w =
      ap (λ p. p.1.table)
        (bind-ok (compute_backoff env r.attempt_count)
          (λ d. retry_later env r parts e reason (wait d)) w refl)
      ∙ retry_later-written e reason _ (tick w)

  -- the retry of an error that may be retried, while attempts are left
  api_failure-written :
      (a : ApiError) (w : World)
      → a.retryable ≡ true
      → r.attempt_count < env.cfg.max_delivery_attempts
      → (api_failure env r parts a w).1.table
        ≡ update r.event_id
            (retry_row
              (join_rendered parts)
              (error_text (api a))
              (env.now (suc w.calls) + respected (computed_wait w) a.retry_after)
              (env.now (suc (suc w.calls))))
            w.table
  unfolding api_failure
  api_failure-written a w retryable left =
      ap (λ p. p.1.table)
        (skipped (not a.retryable) _ _ w (ap not retryable)
          ∙ skipped (leb env.cfg.max_delivery_attempts r.attempt_count) _ _ w (ground arith))
      ∙ retry_with_backoff-written (api a) _ _ w

  -- When the driver answers and the context is not done, and a send failed with an error of Telegram that
  -- may be retried and asks for a wait, while the delivery has attempts left: after `handle_send_error`
  -- the event is on no page of due events before that wait has passed since the time that was read.
  pub handle_send_error-IsRespected :
      (e : Error) (a : ApiError) (asked now limit : ℕ) (w : World)
      → as_api_error e ≡ some a
      → a.retryable ≡ true
      → a.retry_after ≡ pos asked
      → r.attempt_count < env.cfg.max_delivery_attempts
      → now < env.now (suc (suc w.calls)) + asked
      → is_listed (select_due now limit (handle_send_error env r parts e w).1.table) r.event_id
        ≡ false
  unfolding handle_send_error is_done
  handle_send_error-IsRespected e a asked now limit w from retryable wait left early =
      let written : (handle_send_error env r parts e w).1.table
          ≡ update r.event_id
              (retry_row (join_rendered parts) (error_text (api a))
                (env.now (suc (suc w.calls)) + respected (computed_wait (tick w)) a.retry_after)
                (env.now (suc (suc (suc w.calls)))))
              w.table =
        ap (λ p. p.1.table)
          (bind-ok (is_done env)
              (λ done.
                if done
                then abort_send env r parts e
                else send_failure env r parts e (as_api_error e))
              w refl
            ∙ skipped (env.canceled w.calls) _ _ (tick w) (q.open_context w.calls)
            ∙ ap (λ o. send_failure env r parts e o (tick w)) from)
        ∙ api_failure-written a (tick w) retryable left in
      rw written (
        waiting-not_listed r.event_id _ now limit w.table (λ x.
          let bound = respected_bound (computed_wait (tick w)) a.retry_after asked wait in
          ground arith))
