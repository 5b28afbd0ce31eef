-- ===== src/Store/Batches.antt =====
-- `DeleteByEventIDs` deletes in batches what one statement would delete.
use webhook_telegram_proxy.Prelude.{
  ℕ, zero, suc, ◌≤◌, String, ◌||◌, List, [], ◌∷◌, ◌++◌, ◌≡◌, refl, sym, ap, ◌∙◌, arith, length,
  take, drop, length-drop, take-append-drop, codes,
}
use webhook_telegram_proxy.Errors.{Result, ok}
use webhook_telegram_proxy.Store.Record.{Table}
use webhook_telegram_proxy.Store.Queries.{is_listed, delete_listed}
use webhook_telegram_proxy.Store.Changes.{done}
use webhook_telegram_proxy.Store.Methods.{delete_batch_size, delete_batches, delete_by_event_ids}
use webhook_telegram_proxy.Runtime.{Env, World, request, query, observed, tick}
use webhook_telegram_proxy.Runtime.Quiet.{IsQuiet, driver_answer_quiet, then-ok, wrap_error-ok}

is_listed-append :
    (a b : List String) (j : String) → is_listed (a ++ b) j ≡ (is_listed a j || is_listed b j)
is_listed-append [] b j = refl
is_listed-append (x ∷ a) b j = ground (arith, is_listed-append a b j)

delete_two :
    (a b : List String) (t : Table) → delete_listed b (delete_listed a t) ≡ delete_listed (a ++ b) t
unfolding delete_listed
delete_two a b [] = refl
delete_two a b (r ∷ t) = ground (arith, is_listed-append a b r.event_id, delete_two a b t)

delete_none : (t : Table) → delete_listed [] t ≡ t
unfolding delete_listed
delete_none [] = refl
delete_none (r ∷ t) = ap (λ l. r ∷ l) (delete_none t)

-- The run succeeded, the listed rows are deleted and nothing else happened.
pub record IsDeleted (ids : List String) (w : World) (run : Result (Unit {0}) × World)
    : Type 0 where
  pub succeeded : run.0 ≡ ok tt
  pub remaining : run.1.table ≡ delete_listed ids w.table
  pub same_sent : run.1.sent ≡ w.sent

module _ (env : Env) (q : IsQuiet env) where
  one_batch :
      (ids : List String) (w : World)
      → query env request (λ _ t. done tt (delete_listed ids t)) w
        ≡ (ok tt, record (tick w) { table = delete_listed ids w.table })
  unfolding query
  one_batch ids w = rw (driver_answer_quiet env q request w.calls) refl

  delete_batches_lem :
      (rounds : ℕ) (ids : List String) (w : World)
      → length ids ≤ rounds
      → IsDeleted ids w (delete_batches env rounds ids w)
  unfolding delete_batches
  delete_batches_lem zero [] w h = record {
    succeeded = refl;
    remaining = sym (delete_none w.table);
    same_sent = refl;
  }
  delete_batches_lem zero (id ∷ ids) w h = absurd (omega arith)
  delete_batches_lem (suc rounds) [] w h = record {
    succeeded = refl;
    remaining = sym (delete_none w.table);
    same_sent = refl;
  }
  delete_batches_lem (suc rounds) (id ∷ ids) w h =
      let batch = take delete_batch_size (id ∷ ids) in
      let rest = drop delete_batch_size (id ∷ ids) in
      let after_one : World = record (tick w) { table = delete_listed batch w.table } in
      let fits : length rest ≤ rounds = omega (arith, length-drop delete_batch_size (id ∷ ids)) in
      let run = then-ok _ (delete_batches env rounds rest) w (one_batch batch w) in
      let ih = delete_batches_lem rounds rest after_one fits in
      record {
        succeeded = ap (λ r. r.0) run ∙ ih.succeeded;
        remaining =
            ap (λ r. r.1.table) run
            ∙ ih.remaining
            ∙ delete_two batch rest w.table
            ∙ ap (λ l. delete_listed l w.table) (take-append-drop delete_batch_size (id ∷ ids));
        same_sent = ap (λ r. r.1.sent) run ∙ ih.same_sent;
      }

  -- When the driver answers every statement and the context is not done, `delete_by_event_ids` succeeds,
  -- sends nothing, and leaves the table that a single deletion of all the listed ids would leave, however
  -- many batches it takes.
  pub delete_by_event_ids_lem :
      (ids : List String) (w : World) → IsDeleted ids w (delete_by_event_ids env ids w)
  unfolding delete_by_event_ids observed
  delete_by_event_ids_lem ids w =
      let batches = delete_batches_lem (length ids) ids w (omega arith) in
      let left = (observed "delete_by_event_ids" (delete_batches env (length ids) ids) w).1 in
      let run =
        wrap_error-ok (codes "delete batch")
          (observed "delete_by_event_ids" (delete_batches env (length ids) ids)) w {w' = left}
          (ap (λ r. (r, left)) batches.succeeded) in
      record {
        succeeded = ap (λ r. r.0) run;
        remaining = ap (λ r. r.1.table) run ∙ batches.remaining;
        same_sent = ap (λ r. r.1.sent) run ∙ batches.same_sent;
      }
