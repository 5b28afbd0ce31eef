-- ===== src/Runtime/Quiet.antt =====
-- An environment in which the driver answers every statement and the caller's context is not done.
-- Telegram may answer anything.
use webhook_telegram_proxy.Prelude.{arith, ℕ, String, false, none, ◌≡◌, refl, Text}
use webhook_telegram_proxy.Errors.{Error, Result, ok, err}
use webhook_telegram_proxy.Store.Record.{Record, Table}
use webhook_telegram_proxy.Store.Queries.{update}
use webhook_telegram_proxy.Runtime.{
  Env, Context, request, background, store_operation, World, M, tick, emit, pure, raise, on_result,
  wrap_error, ◌>>=◌, ◌>>◌, ignore, driver_answer, query, observed, exec,
}

pub record IsQuiet (env : Env) : Type 0 where
  pub answers : (n : ℕ) → env.fault n ≡ none
  pub open_context : (n : ℕ) → env.canceled n ≡ false

module _ {A B : Type 0} where
  pub on_result-ok :
      (m : M A) (f : Error → M B) (g : A → M B) (w : World) {a : A} {w' : World}
      → m w ≡ (ok a, w')
      → on_result m f g w ≡ g a w'
  unfolding on_result
  on_result-ok m f g w e = rw e refl

  pub on_result-err :
      (m : M A) (f : Error → M B) (g : A → M B) (w : World) {x : Error} {w' : World}
      → m w ≡ (err x, w')
      → on_result m f g w ≡ f x w'
  unfolding on_result
  on_result-err m f g w e = rw e refl

  pub bind-ok :
      (m : M A) (g : A → M B) (w : World) {a : A} {w' : World}
      → m w ≡ (ok a, w')
      → (m >>= g) w ≡ g a w'
  unfolding ◌>>=◌
  bind-ok m g w e = on_result-ok m raise g w e

  pub bind-err :
      (m : M A) (g : A → M B) (w : World) {x : Error} {w' : World}
      → m w ≡ (err x, w')
      → (m >>= g) w ≡ (err x, w')
  unfolding ◌>>=◌
  bind-err m g w e = on_result-err m raise g w e

  pub then-ok :
      (m : M A) (n : M B) (w : World) {a : A} {w' : World} → m w ≡ (ok a, w') → (m >> n) w ≡ n w'
  unfolding ◌>>◌
  then-ok m n w e = on_result-ok m raise (λ _. n) w e

module _ {A : Type 0} where
  pub wrap_error-ok :
      (text : Text) (m : M A) (w : World) {a : A} {w' : World}
      → m w ≡ (ok a, w')
      → wrap_error text m w ≡ (ok a, w')
  unfolding wrap_error
  wrap_error-ok text m w e = on_result-ok m _ pure w e

  pub ignore-ok :
      (m : M A) (w : World) {a : A} {w' : World} → m w ≡ (ok a, w') → ignore m w ≡ (ok tt, w')
  unfolding ignore
  ignore-ok m w e = on_result-ok m _ _ w e

-- what a successful method leaves behind
unfoldable pub after : String → Table → World → World
after op t w = emit (store_operation op "success") (record (tick w) { table = t })

module _ (env : Env) (q : IsQuiet env) where
  pub driver_answer_quiet : (ctx : Context) (n : ℕ) → driver_answer env ctx n ≡ none
  driver_answer_quiet background n = ground (arith, q.answers n)
  driver_answer_quiet request n = ground (arith, q.answers n, q.open_context n)

  pub exec_quiet :
      {A : Type 0} (op : String) (ctx : Context) (statement : ℕ → Table → Result A × Table)
      (w : World) {a : A} {t : Table}
      → statement (env.now w.calls) w.table ≡ (ok a, t)
      → exec env op ctx statement w ≡ (ok a, after op t w)
  unfolding exec query observed after
  exec_quiet op ctx statement w e = rw (driver_answer_quiet ctx w.calls, e) refl

  -- A method that updates the rows of an event returns with the update done.
  pub write_quiet :
      (text : Text) (op : String) (ctx : Context) (id : String) (f : ℕ → Record → Record)
      (w : World)
      → wrap_error text (exec env op ctx (λ now t. (ok tt, update id (f now) t))) w
        ≡ (ok tt, after op (update id (f (env.now w.calls)) w.table) w)
  write_quiet text op ctx id f w = wrap_error-ok text _ w (exec_quiet op ctx _ w refl)
