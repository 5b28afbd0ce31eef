-- ===== src/Service/Rotation.antt =====
-- Keeping the store within its bounds (`RotateStore` and `EnsureCapacity` of
-- internal/service/delivery_service.go). The lock `rotateMu` is not modelled: a run is one step.
pub mod Parts
pub mod Safety
pub mod Kept
pub mod Rounds
use webhook_telegram_proxy.Prelude.{
  ℕ, zero, suc, ◌+◌, ◌-◌, String, Bool, true, false, not, ◌||◌, List, [], ◌∷◌, ◌++◌, map, Text,
  codes, decimal, ltb, leb, ◌==◌, length, if◌then◌else◌,
}
use webhook_telegram_proxy.Errors.{Error, context_canceled, plain, Result, ok, err}
use webhook_telegram_proxy.Store.Record.{Record, Table, Status, delivered, failed, dead_letter}
use webhook_telegram_proxy.Store.Methods.{
  rotatable_records, delete_by_event_ids, vacuum, checkpoint_wal, size_bytes,
}
use webhook_telegram_proxy.Runtime.{
  Env, World, Metric, store_size_bytes, store_rotation_run, store_rotated, store_disk_pressure,
  store_rejected, M, pure, raise, on_result, ◌>>=◌, ◌>>◌, ignore, wrap_error, clock, is_done,
  record_metric,
}

-- the counters of the map `deleted`; only these states are ever rotated
pub record Deleted : Type 0 where
  pub delivered_rows : ℕ
  pub failed_rows : ℕ
  pub dead_letter_rows : ℕ

abbrev pub count_deleted : Status → Deleted → Deleted
count_deleted delivered d = record d { delivered_rows = suc d.delivered_rows }
count_deleted failed d = record d { failed_rows = suc d.failed_rows }
count_deleted dead_letter d = record d { dead_letter_rows = suc d.dead_letter_rows }
count_deleted _ d = d

abbrev pub count_candidates : Table → Deleted → Deleted
count_candidates [] d = d
count_candidates (r ∷ t) d = count_candidates t (count_deleted r.status d)

abbrev pub rotation_page : ℕ
rotation_page = 100

-- a state has an entry in the map only if a row of it was deleted
abbrev pub report_rotated : Status → ℕ → M (Unit {0})
report_rotated s zero = pure tt
report_rotated s (suc n) = record_metric (store_rotated s (suc n))

-- `StoreRotationRunsTotal.WithLabelValues("error").Inc()` before an error is returned
unfoldable pub rotation_step : {A : Type 0} → M A → M A
rotation_step m = on_result m (λ e. record_metric (store_rotation_run "error") >> raise e) pure

module _ (env : Env) where
  open env.cfg use {
    store_max_size_bytes, store_rotation_enabled, store_rotation_high_watermark,
    store_rotation_low_watermark, store_retention_delivered, store_retention_dead_letter,
    store_vacuum_after_rotation,
  }

  unfoldable pub measured : Text → M ℕ
  measured text = rotation_step (wrap_error text (size_bytes env))

  -- one round with candidates, before the loop goes on with the new size
  unfoldable pub delete_candidates : Table → M ℕ
  delete_candidates candidates = do
    rotation_step (
        wrap_error (codes "delete rotatable")
          (delete_by_event_ids env (map (λ r. r.event_id) candidates)))
    size ← measured (codes "measure store size after rotation")
    record_metric (store_size_bytes size)
    pure size

  abbrev pub rotate_page : Table → ℕ → Deleted → (ℕ → Deleted → M (ℕ × Deleted)) → M (ℕ × Deleted)
  rotate_page [] size d next = pure (size, d)
  rotate_page (c ∷ cs) size d next =
      delete_candidates (c ∷ cs) >>= λ size'. next size' (count_candidates (c ∷ cs) d)

  -- one round of the loop of `RotateStore`; `next` is the rest of the loop
  abbrev pub rotation_round :
      ℕ → ℕ → ℕ → Deleted → (ℕ → Deleted → M (ℕ × Deleted)) → M (ℕ × Deleted)
  rotation_round delivered_before terminal_before size d next = do
    stopped ← is_done env
    rotation_step (if stopped then raise context_canceled else pure tt)
    candidates ← rotation_step (
        wrap_error (codes "select rotatable")
          (rotatable_records env delivered_before terminal_before rotation_page))
    rotate_page candidates size d next

  -- The loop and the rounds that it may still take; each round deletes a row.
  unfoldable pub rotation_loop : ℕ → ℕ → ℕ → ℕ → Deleted → M (ℕ × Deleted)
  rotation_loop zero delivered_before terminal_before size d = pure (size, d)
  rotation_loop (suc rounds) delivered_before terminal_before size d =
      let rest = rotation_loop rounds delivered_before terminal_before in
      if ltb store_rotation_low_watermark size
      then rotation_round delivered_before terminal_before size d rest
      else pure (size, d)

  -- The loop with a round for each row that there is, and one more.
  unfoldable pub run_rotation_loop : ℕ → ℕ → ℕ → M (ℕ × Deleted)
  run_rotation_loop delivered_before terminal_before size w =
      rotation_loop (suc (length w.table)) delivered_before terminal_before size
        (record { delivered_rows = 0; failed_rows = 0; dead_letter_rows = 0 }) w

  unfoldable pub report_run : ℕ → M (Unit {0})
  report_run size =
      if ltb store_max_size_bytes size
      then (record_metric (store_disk_pressure 1)
          >> record_metric (store_rotation_run "pressure_remaining"))
      else (record_metric (store_disk_pressure 0)
          >> record_metric (
              store_rotation_run (
                if leb store_rotation_high_watermark size
                then "pressure_remaining"
                else "success")))

  -- what follows the loop
  unfoldable pub finish_rotation : Deleted → M (Unit {0})
  finish_rotation d = do
    if store_vacuum_after_rotation then ignore (vacuum env) else pure tt
    ignore (checkpoint_wal env)
    size ← measured (codes "measure store size after rotation")
    record_metric (store_size_bytes size)
    report_rotated delivered d.delivered_rows
    report_rotated failed d.failed_rows
    report_rotated dead_letter d.dead_letter_rows
    report_run size

  unfoldable pub rotate_rows : ℕ → M (Unit {0})
  rotate_rows size = do
    delivered_now ← clock env
    terminal_now ← clock env
    done ←
        run_rotation_loop (delivered_now - store_retention_delivered)
          (terminal_now - store_retention_dead_letter) size
    finish_rotation done.1

  unfoldable pub rotate_store : M (Unit {0})
  rotate_store = do
    size ← measured (codes "measure store size")
    record_metric (store_size_bytes size)
    if not store_rotation_enabled || ltb size store_rotation_high_watermark
        then record_metric (store_rotation_run "skipped")
        else rotate_rows size

  abbrev pub over_max_text : ℕ → Text
  over_max_text size =
      codes "store size "
      ++ (decimal size ++ (codes " exceeds max " ++ decimal store_max_size_bytes))

  -- the part of `EnsureCapacity` that follows the first measurement above the high watermark
  unfoldable pub make_room : M (Unit {0})
  make_room = do
    if store_rotation_enabled then rotate_store else pure tt
    size ← wrap_error (codes "measure store size after rotation") (size_bytes env)
    record_metric (store_size_bytes size)
    if ltb store_max_size_bytes size
        then (record_metric (store_disk_pressure 1)
            >> record_metric (store_rejected "disk_pressure")
            >> raise (plain (over_max_text size)))
        else record_metric (store_disk_pressure 0)

  unfoldable pub ensure_capacity : M (Unit {0})
  ensure_capacity = do
    size ← wrap_error (codes "measure store size") (size_bytes env)
    record_metric (store_size_bytes size)
    if ltb size store_rotation_high_watermark
        then record_metric (store_disk_pressure 0)
        else make_room
