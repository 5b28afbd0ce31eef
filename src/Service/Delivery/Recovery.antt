-- ===== src/Service/Delivery/Recovery.antt =====
-- With a driver that answers and a Telegram that accepts, one recovery tick delivers what is due.
use webhook_telegram_proxy.Prelude.{
  arith, filter, ℕ, ◌≤◌, String, true, some, List, [], ◌∷◌, ◌≡◌, refl, ◌∙◌, inl, inr, length, map,
  All, All-take, Bool-cases,
}
use webhook_telegram_proxy.Store.Record.{Record, Table, is_claimable}
use webhook_telegram_proxy.Store.Queries.{find, select_due, is_due}
use webhook_telegram_proxy.Store.Methods.{list_due_event_ids}
use webhook_telegram_proxy.Store.Unique.{IsUnique, find-own}
use webhook_telegram_proxy.Store.Select.{All-order_by, due_page}
use webhook_telegram_proxy.Runtime.{Env, World, tick, clock}
use webhook_telegram_proxy.Runtime.Quiet.{after, exec_quiet, wrap_error-ok, IsQuiet, bind-ok}
use webhook_telegram_proxy.Service.Delivery.{process_all, recover_pending}
use webhook_telegram_proxy.Service.Delivery.Delivered.{Accepts, Renders, IsDelivered}
use webhook_telegram_proxy.Service.Delivery.Batch.{
  IsOnItsWay, All-moved, All-subst, process_all-IsDelivered,
}

-- A row counts no more sent parts than it has, and has a message to send.
abbrev pub HasMessage : Env → Record → Type 0
HasMessage env r = (r.sent_parts ≤ length r.rendered_parts) × Renders env r

abbrev CanGo : Env → ℕ → Table → Record → Type 0
CanGo env now t r = (is_due now r ≡ true) × ((find r.event_id t ≡ some r) × HasMessage env r)

due-CanGo :
    (env : Env) (now : ℕ) (t l : Table)
    → All (λ (s : Record). find s.event_id t ≡ some s) l
    → All (HasMessage env) l
    → All (CanGo env now t) (filter (is_due now) l)
due-CanGo env now t [] f m = tt
due-CanGo env now t (r ∷ l) (f, fs) (m, ms) = elim (Bool-cases (is_due now r)) [
  | inl due ↦ rw due ((due, (f, m)), due-CanGo env now t l fs ms)
  | inr later ↦ rw later (due-CanGo env now t l fs ms)
]

due-claimable : (now : ℕ) (r : Record) → is_due now r ≡ true → is_claimable r.status ≡ true
due-claimable now r h = ground arith

on-its-way :
    (env : Env) (now : ℕ) (w : World) (page : Table)
    → All (CanGo env now w.table) page
    → All (IsOnItsWay env w) (map (λ (r : Record). r.event_id) page)
on-its-way env now w [] h = tt
on-its-way env now w (r ∷ page) ((due, (f, (le, renders))), h) = (
  inl (record {
    row = r;
    found = f;
    claimable = due-claimable now r due;
    within = le;
    renders = renders;
  }),
  on-its-way env now w page h,
)

-- the ids that the tick lists
abbrev pub due_ids : Env → World → List String
due_ids env w = select_due (env.now w.calls) env.cfg.worker_batch_size w.table

module _ (env : Env) (q : IsQuiet env) where
  pub recover-run :
      (w : World)
      → recover_pending env w
        ≡ process_all env (due_ids env w) (after "list_due_event_ids" w.table (tick w))
  unfolding recover_pending clock list_due_event_ids
  recover-run w =
      bind-ok (clock env) _ w refl
      ∙ bind-ok _ _ (tick w) (
          wrap_error-ok _ _ (tick w)
            (wrap_error-ok _ _ (tick w) (exec_quiet env q _ _ _ (tick w) refl)))

  due-OnItsWay :
      (w : World)
      → IsUnique w.table
      → All (HasMessage env) w.table
      → All (IsOnItsWay env w) (due_ids env w)
  unfolding select_due
  due-OnItsWay w u messages =
      let now = env.now w.calls in
      on-its-way env now w (due_page now env.cfg.worker_batch_size w.table) (
        All-take _ env.cfg.worker_batch_size _ (
          All-order_by (CanGo env now w.table) (λ (r : Record). r.created_at) _
            (due-CanGo env now w.table w.table (find-own w.table u) messages)))

-- Where the driver answers every statement, the context is not done and Telegram accepts every text, and
-- in a table with distinct ids and keys whose rows all count no more sent parts than they have and have a
-- message to send, one recovery tick delivers every event that it lists as due.
pub recover_pending-IsDelivered :
    (env : Env) (w : World)
    → IsQuiet env
    → Accepts env
    → IsUnique w.table
    → All (HasMessage env) w.table
    → All (λ id. IsDelivered id (recover_pending env w).1) (due_ids env w)
unfolding after
recover_pending-IsDelivered env w q accepts u messages =
    All-subst env q accepts (due_ids env w) _ _ (recover-run env q w) (
      process_all-IsDelivered env q accepts (due_ids env w) _
        (All-moved env w _ (due_ids env w) refl (due-OnItsWay env q w u messages)))
