-- ===== src/Runtime/Keeps.antt =====
-- Properties of the table that a method keeps, one rule for each way to build a method.
use webhook_telegram_proxy.Prelude.{
  refl, ◌≡◌, ℕ, String, Bool, true, false, Option, none, some, Text, if◌then◌else◌,
}
use webhook_telegram_proxy.Errors.{wrap, Error, Result, ok, err}
use webhook_telegram_proxy.Store.Record.{Table}
use webhook_telegram_proxy.Runtime.{
  Env, Context, Metric, World, M, pure, raise, record_metric, branch, on_result, ◌>>=◌, ◌>>◌,
  ignore, wrap_error, observed, settle, driver_answer, query, exec, clock, is_done, persist_context,
}

-- `m` keeps `P`, whether it returns or fails
pub record Keeps {A : Type 0} (P : Table → Type 0) (m : M A) : Type 0 where
  pub at : (w : World) → P w.table → P (m w).1.table

module _ {P : Table → Type 0} where
  pub Keeps-pure : {A : Type 0} (a : A) → Keeps P (pure a)
  Keeps-pure a = record { at = λ w h. h }

  pub Keeps-raise : {A : Type 0} (e : Error) → Keeps P (raise {A = A} e)
  Keeps-raise e = record { at = λ w h. h }

  pub Keeps-record_metric : (m : Metric) → Keeps P (record_metric m)
  Keeps-record_metric m = record { at = λ w h. h }

  pub Keeps-if :
      {A : Type 0} (b : Bool) (m n : M A) → Keeps P m → Keeps P n → Keeps P (if b then m else n)
  Keeps-if true m n km kn = km
  Keeps-if false m n km kn = kn

  pub Keeps-branch :
      {A B : Type 0} (r : Result A) (f : Error → M B) (g : A → M B)
      → ((e : Error) → Keeps P (f e))
      → ((a : A) → Keeps P (g a))
      → Keeps P (branch r f g)
  Keeps-branch (ok a) f g kf kg = kg a
  Keeps-branch (err e) f g kf kg = kf e

  pub Keeps-on_result :
      {A B : Type 0} (m : M A) (f : Error → M B) (g : A → M B)
      → Keeps P m
      → ((e : Error) → Keeps P (f e))
      → ((a : A) → Keeps P (g a))
      → Keeps P (on_result m f g)
  unfolding on_result
  Keeps-on_result m f g km kf kg = record {
    at = λ w h. (Keeps-branch (m w).0 f g kf kg).at (m w).1 (km.at w h);
  }

  pub Keeps-bind :
      {A B : Type 0} (m : M A) (g : A → M B)
      → Keeps P m
      → ((a : A) → Keeps P (g a))
      → Keeps P (m >>= g)
  unfolding ◌>>=◌
  Keeps-bind m g km kg = Keeps-on_result m raise g km Keeps-raise kg

  pub Keeps-then : {A B : Type 0} (m : M A) (n : M B) → Keeps P m → Keeps P n → Keeps P (m >> n)
  unfolding ◌>>◌
  Keeps-then m n km kn = Keeps-on_result m raise (λ _. n) km Keeps-raise (λ _. kn)

  pub Keeps-ignore : {A : Type 0} (m : M A) → Keeps P m → Keeps P (ignore m)
  unfolding ignore
  Keeps-ignore m km =
      Keeps-on_result m (λ _. pure tt) (λ _. pure tt) km (λ _. Keeps-pure tt) (λ _. Keeps-pure tt)

  pub Keeps-wrap_error :
      {A : Type 0} (text : Text) (m : M A) → Keeps P m → Keeps P (wrap_error text m)
  unfolding wrap_error
  Keeps-wrap_error text m km = Keeps-on_result m _ pure km (λ e. Keeps-raise _) Keeps-pure

  pub Keeps-observed : {A : Type 0} (op : String) (m : M A) → Keeps P m → Keeps P (observed op m)
  unfolding observed
  Keeps-observed op m km = record { at = km.at }

settle_keeps :
    (P : Table → Type 0) (env : Env) {A : Type 0} (o : Option Error) (answer : Result A × Table)
    (w : World)
    → P w.table
    → P answer.1
    → P (settle env o answer w).1.table
settle_keeps P env (some e) answer w old new = old
settle_keeps P env none answer w old new = new

module _ {P : Table → Type 0} (env : Env) where
  pub Keeps-query :
      {A : Type 0} (ctx : Context) (statement : ℕ → Table → Result A × Table)
      → ((now : ℕ) (t : Table) → P t → P (statement now t).1)
      → Keeps P (query env ctx statement)
  unfolding query
  Keeps-query ctx statement k = record {
    at = λ w h.
        settle_keeps P env (driver_answer env ctx w.calls) (statement (env.now w.calls) w.table) _ h
          (k (env.now w.calls) w.table h);
  }

  pub Keeps-exec :
      {A : Type 0} (op : String) (ctx : Context) (statement : ℕ → Table → Result A × Table)
      → ((now : ℕ) (t : Table) → P t → P (statement now t).1)
      → Keeps P (exec env op ctx statement)
  unfolding exec
  Keeps-exec op ctx statement k = Keeps-observed op _ (Keeps-query ctx statement k)

  pub Keeps-clock : Keeps P (clock env)
  unfolding clock
  Keeps-clock = record { at = λ w h. h }

  pub Keeps-is_done : Keeps P (is_done env)
  unfolding is_done
  Keeps-is_done = record { at = λ w h. h }

  pub Keeps-persist_context : Keeps P (persist_context env)
  unfolding persist_context
  Keeps-persist_context = record { at = λ w h. h }

-- What `m` returns from a table with `P`, where it returns at all, satisfies `Q`.
pub record Yields {A : Type 0} (P : Table → Type 0) (Q : A → Type 0) (m : M A) : Type 0 where
  pub result : (w : World) (a : A) → P w.table → (m w).0 ≡ ok a → Q a

module _ {A : Type 0} where
  Yields-branch :
      (text : Text) (r : Result A) (w : World) (a : A)
      → (branch r (λ e. raise (wrap text e)) pure w).0 ≡ ok a
      → r ≡ ok a
  Yields-branch text (ok b) w a h = h
  Yields-branch text (err e) w a h = cc

  pub Yields-wrap_error :
      {P : Table → Type 0} {Q : A → Type 0} (text : Text) (m : M A)
      → Yields P Q m
      → Yields P Q (wrap_error text m)
  unfolding wrap_error on_result
  Yields-wrap_error text m y = record {
    result = λ w a p h. y.result w a p (Yields-branch text (m w).0 (m w).1 a h);
  }

module _ {P : Table → Type 0} {A B : Type 0} where
  Keeps-branch_yields :
      (r : Result A) (g : A → M B)
      → ((a : A) → r ≡ ok a → Keeps P (g a))
      → Keeps P (branch r raise g)
  Keeps-branch_yields (ok a) g k = k a refl
  Keeps-branch_yields (err e) g k = Keeps-raise e

  -- What follows may use what the first call yields.
  pub Keeps-bind-Yields :
      {Q : A → Type 0} (m : M A) (g : A → M B)
      → Keeps P m
      → Yields P Q m
      → ((a : A) → Q a → Keeps P (g a))
      → Keeps P (m >>= g)
  unfolding ◌>>=◌ on_result
  Keeps-bind-Yields m g km y kg = record {
    at = λ w h.
        (Keeps-branch_yields (m w).0 g (λ a e. kg a (y.result w a h e))).at (m w).1 (km.at w h);
  }

pub ruleset keeps_rules = (
  Keeps-pure, Keeps-raise, Keeps-record_metric, Keeps-if, Keeps-on_result, Keeps-bind, Keeps-then,
  Keeps-ignore, Keeps-wrap_error, Keeps-clock, Keeps-is_done, Keeps-persist_context,
)
