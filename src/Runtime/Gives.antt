-- ===== src/Runtime/Gives.antt =====
-- What holds of the result and of the table where a method returns, one rule for each way to build one.
use webhook_telegram_proxy.Prelude.{◌≡◌, refl, ℕ, String, Option, none, some, Text}
use webhook_telegram_proxy.Errors.{Error, Result, ok, err}
use webhook_telegram_proxy.Store.Record.{Table}
use webhook_telegram_proxy.Runtime.{
  Env, Context, World, M, pure, raise, branch, on_result, ◌>>=◌, ◌>>◌, wrap_error, observed, settle,
  driver_answer, query, exec, tick,
}
use webhook_telegram_proxy.Runtime.Keeps.{Keeps}

-- From a table with `P`, where `m` returns, its result and the table that it leaves satisfy `Q`.
pub record Gives {A : Type 0} (P : Table → Type 0) (Q : A → Table → Type 0) (m : M A) : Type 0 where
  pub at : (w : World) (a : A) → P w.table → (m w).0 ≡ ok a → Q a (m w).1.table

pub Gives-Keeps : {P : Table → Type 0} {A : Type 0} (m : M A) → Keeps P m → Gives P (λ _. P) m
Gives-Keeps m k = record { at = λ w a p h. k.at w p }

Gives-branch :
    {A B : Type 0} {P : A → Table → Type 0} {R : B → Table → Type 0} (r : Result A) (g : A → M B)
    (w : World) (b : B)
    → ((a : A) → r ≡ ok a → P a w.table)
    → ((a : A) → Gives (P a) R (g a))
    → (branch r raise g w).0 ≡ ok b
    → R b (branch r raise g w).1.table
Gives-branch (ok a) g w b q k h = (k a).at w b (q a refl) h
Gives-branch (err e) g w b q k h = cc

agree_branch :
    {A B : Type 0} (r : Result A) (g k : A → M B) (w : World)
    → ((a : A) → r ≡ ok a → g a w ≡ k a w)
    → branch r raise g w ≡ branch r raise k w
agree_branch (ok a) g k w h = h a refl
agree_branch (err e) g k w h = refl

through_branch :
    {A : Type 0} (Q : A → Table → Type 0) (f : Error → M A) (r : Result A) (w : World) (a : A)
    → ((e : Error) (v : World) → (f e v).0 ≡ ok a → ⊥)
    → (r ≡ ok a → Q a w.table)
    → (branch r f pure w).0 ≡ ok a
    → Q a (branch r f pure w).1.table
through_branch Q f (ok b) w a fails q h = q h
through_branch Q f (err e) w a fails q h = absurd (fails e w h)

Gives-settle :
    {A : Type 0} (Q : A → Table → Type 0) (env : Env) (d : Option Error) (answer : Result A × Table)
    (w : World) (a : A)
    → (answer.0 ≡ ok a → Q a answer.1)
    → (settle env d answer w).0 ≡ ok a
    → Q a (settle env d answer w).1.table
Gives-settle Q env (some e) answer w a q h = cc
Gives-settle Q env none (r, t) w a q h = q h

module _ {A B : Type 0} {P : Table → Type 0} {Q : A → Table → Type 0} where
  pub Gives-bind :
      {R : B → Table → Type 0} (m : M A) (g : A → M B)
      → Gives P Q m
      → ((a : A) → Gives (Q a) R (g a))
      → Gives P R (m >>= g)
  unfolding ◌>>=◌ on_result
  Gives-bind m g km kg = record {
    at = λ w b p h. Gives-branch (m w).0 g (m w).1 b (λ a e. km.at w a p e) kg h;
  }

  -- Two continuations of `m` that agree wherever `m` leads give the same run.
  pub bind-agree :
      (m : M A) (g k : A → M B) (w : World)
      → Gives P Q m
      → P w.table
      → ((a : A) (w' : World) → Q a w'.table → g a w' ≡ k a w')
      → (m >>= g) w ≡ (m >>= k) w
  unfolding ◌>>=◌ on_result
  bind-agree m g k w km p same =
      agree_branch (m w).0 g k (m w).1 (λ a e. same a (m w).1 (km.at w a p e))

  pub then-agree :
      (m : M A) (n k : M B) (w : World)
      → Gives P Q m
      → P w.table
      → ((a : A) (w' : World) → Q a w'.table → n w' ≡ k w')
      → (m >> n) w ≡ (m >> k) w
  unfolding ◌>>◌ on_result
  then-agree m n k w km p same =
      agree_branch (m w).0 (λ _. n) (λ _. k) (m w).1 (λ a e. same a (m w).1 (km.at w a p e))

  pub Gives-then :
      {R : B → Table → Type 0} (m : M A) (n : M B)
      → Gives P Q m
      → ((a : A) → Gives (Q a) R n)
      → Gives P R (m >> n)
  unfolding ◌>>◌ on_result
  Gives-then m n km kn = record {
    at = λ w b p h. Gives-branch (m w).0 (λ _. n) (m w).1 b (λ a e. km.at w a p e) kn h;
  }

module _ {A : Type 0} {P : Table → Type 0} {Q : A → Table → Type 0} where
  -- A handler that always fails changes nothing where the call returns.
  pub Gives-through :
      (m : M A) (f : Error → M A)
      → ((e : Error) (v : World) (a : A) → (f e v).0 ≡ ok a → ⊥)
      → Gives P Q m
      → Gives P Q (on_result m f pure)
  unfolding on_result
  Gives-through m f fails km = record {
    at =
        λ w a p h. through_branch Q f (m w).0 (m w).1 a (λ e v. fails e v a) (λ e. km.at w a p e) h;
  }

  pub Gives-wrap_error : (text : Text) (m : M A) → Gives P Q m → Gives P Q (wrap_error text m)
  unfolding wrap_error
  Gives-wrap_error text m km = Gives-through m _ (λ e v a h. cc) km

  pub Gives-observed : (op : String) (m : M A) → Gives P Q m → Gives P Q (observed op m)
  unfolding observed
  Gives-observed op m km = record { at = km.at }

  pub Gives-query :
      (env : Env) (ctx : Context) (statement : ℕ → Table → Result A × Table)
      → ((now : ℕ) (t : Table) (a : A) → P t → (statement now t).0 ≡ ok a → Q a (statement now t).1)
      → Gives P Q (query env ctx statement)
  unfolding query
  Gives-query env ctx statement k = record {
    at = λ w a p h.
        Gives-settle Q env (driver_answer env ctx w.calls) (statement (env.now w.calls) w.table)
          (tick w) a (k (env.now w.calls) w.table a p) h;
  }

  pub Gives-exec :
      (env : Env) (op : String) (ctx : Context) (statement : ℕ → Table → Result A × Table)
      → ((now : ℕ) (t : Table) (a : A) → P t → (statement now t).0 ≡ ok a → Q a (statement now t).1)
      → Gives P Q (exec env op ctx statement)
  unfolding exec
  Gives-exec env op ctx statement k = Gives-observed op _ (Gives-query env ctx statement k)
