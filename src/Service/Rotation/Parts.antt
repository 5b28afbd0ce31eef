-- ===== src/Service/Rotation/Parts.antt =====
-- The calls of a rotation that delete nothing keep every property of the table.
use webhook_telegram_proxy.Prelude.{ℕ, zero, suc, List, [], ◌∷◌, ◌≡◌, Text}
use webhook_telegram_proxy.Errors.{Result, ok, err}
use webhook_telegram_proxy.Store.Record.{Table, Status}
use webhook_telegram_proxy.Store.Methods.{
  rotatable_records, vacuum, checkpoint_wal, add_size, stat_total, size_bytes,
}
use webhook_telegram_proxy.Runtime.{
  Env, World, FileInfo, M, pure, raise, branch, on_result, ◌>>◌, record_metric, store_rotation_run,
}
use webhook_telegram_proxy.Runtime.Keeps.{
  Keeps, Yields, Keeps-pure, Keeps-raise, Keeps-record_metric, Keeps-on_result, Keeps-then,
  Keeps-wrap_error, Keeps-exec, keeps_rules,
}
use webhook_telegram_proxy.Service.Rotation.{
  Deleted, rotation_step, measured, report_rotated, report_run, finish_rotation, rotation_page,
}

module _ {P : Table → Type 0} (env : Env) where
  Keeps-add_size :
      (path : Text) (info : FileInfo) (total : ℕ) (next : ℕ → M ℕ)
      → ((n : ℕ) → Keeps P (next n))
      → Keeps P (add_size path info total next)
  Keeps-add_size path (FileInfo.size n) total next k = record { at = λ w h. (k _).at _ h }
  Keeps-add_size path FileInfo.not_exist total next k = record { at = λ w h. (k _).at _ h }
  Keeps-add_size path (FileInfo.stat_error e) total next k = record { at = λ w h. h }

  Keeps-stat_total : (total : ℕ) (paths : List Text) → Keeps P (stat_total env total paths)
  unfolding stat_total
  Keeps-stat_total total [] = record { at = λ w h. h }
  Keeps-stat_total total (path ∷ paths) = record {
    at = λ w h.
        (Keeps-add_size path (env.stat w.calls w.table path) total _
            (λ n. Keeps-stat_total n paths)).at
          w h;
  }

  pub Keeps-size_bytes : Keeps P (size_bytes env)
  unfolding size_bytes
  Keeps-size_bytes = Keeps-stat_total 0 _

  pub Keeps-rotation_step : {A : Type 0} (m : M A) → Keeps P m → Keeps P (rotation_step m)
  unfolding rotation_step
  Keeps-rotation_step m k =
      Keeps-on_result m _ pure k (λ e. Keeps-then _ _ (Keeps-record_metric _) (Keeps-raise e))
        Keeps-pure

  pub Keeps-measured : (text : Text) → Keeps P (measured env text)
  unfolding measured
  Keeps-measured text = Keeps-rotation_step _ (Keeps-wrap_error _ _ Keeps-size_bytes)

  Keeps-vacuum : Keeps P (vacuum env)
  unfolding vacuum
  Keeps-vacuum = Keeps-wrap_error _ _ (Keeps-exec env _ _ _ (λ _ t h. h))

  Keeps-checkpoint_wal : Keeps P (checkpoint_wal env)
  unfolding checkpoint_wal
  Keeps-checkpoint_wal = Keeps-exec env _ _ _ (λ _ t h. h)

  Keeps-report_rotated : (s : Status) (n : ℕ) → Keeps P (report_rotated s n)
  Keeps-report_rotated s zero = Keeps-pure tt
  Keeps-report_rotated s (suc n) = Keeps-record_metric _

  Keeps-report_run : (size : ℕ) → Keeps P (report_run env size)
  unfolding report_run
  Keeps-report_run size = search keeps_rules depth 9

  pub Keeps-finish_rotation : (d : Deleted) → Keeps P (finish_rotation env d)
  unfolding finish_rotation
  Keeps-finish_rotation d =
      search
        (
          keeps_rules, Keeps-vacuum, Keeps-checkpoint_wal, Keeps-measured, Keeps-report_rotated,
          Keeps-report_run,
        )
        depth 12

  pub Keeps-rotatable_records : (a b : ℕ) → Keeps P (rotatable_records env a b rotation_page)
  unfolding rotatable_records
  Keeps-rotatable_records a b = Keeps-wrap_error _ _ (Keeps-exec env _ _ _ (λ _ t h. h))

rotation_step-ok :
    {A : Type 0} (m : Result A) (w : World) (a : A)
    → (branch m (λ e. record_metric (store_rotation_run "error") >> raise e) pure w).0 ≡ ok a
    → m ≡ ok a
unfolding ◌>>◌ on_result
rotation_step-ok (ok b) w a h = h
rotation_step-ok (err e) w a h = cc

pub Yields-rotation_step :
    {P : Table → Type 0} {A : Type 0} {Q : A → Type 0} (m : M A)
    → Yields P Q m
    → Yields P Q (rotation_step m)
unfolding rotation_step on_result
Yields-rotation_step m y = record {
  result = λ w a p h. y.result w a p (rotation_step-ok (m w).0 (m w).1 a h);
}
