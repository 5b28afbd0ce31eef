-- ===== src/Service/Delivery/Processing.antt =====
-- `ProcessEventByID`: one attempt on a row that can be claimed, and nothing on any other.
use webhook_telegram_proxy.Prelude.{
  Text, List, ℕ, ◌≤◌, String, true, false, Option, none, some, ◌++◌, ◌≡◌, refl, sym, ◌∙◌, ap, subst,
  arith, length, take, drop,
}
use mathlib.Core.Option
use webhook_telegram_proxy.Errors.{Result, ok, err}
use webhook_telegram_proxy.Store.Record.{Record, Table, is_claimable}
use webhook_telegram_proxy.Store.Queries.{update, find, claim}
use webhook_telegram_proxy.Store.Rows.{find-update, find-has_id}
use webhook_telegram_proxy.Store.Changes.{claim_found, claim_query}
use webhook_telegram_proxy.Store.Methods.{claim_for_send}
use webhook_telegram_proxy.Runtime.{branch, Env, World, M, tick, on_result, ◌>>=◌, clock, raise}
use webhook_telegram_proxy.Runtime.Quiet.{IsQuiet, after, exec_quiet, wrap_error-ok, bind-ok}
use webhook_telegram_proxy.Service.Delivery.{
  Outcome, deliver, observe_attempt, process_claimed, process_event_by_id,
}
use webhook_telegram_proxy.Service.Delivery.Attempts.{
  Attempt, Attempt-parts, Source, held, built, unbuildable, IsMessage, IsUnbuildable,
}

-- what a row that no attempt may take leaves: nothing is written or sent
pub record Untouched (w w' : World) : Type 0 where
  pub same_table : w'.table ≡ w.table
  pub same_sent : w'.sent ≡ w.sent

branch_observed :
    (r : Result Outcome) (w : World) → Untouched w (branch r raise observe_attempt w).1
unfolding observe_attempt
branch_observed (ok o) w = record { same_table = refl; same_sent = refl }
branch_observed (err e) w = record { same_table = refl; same_sent = refl }

-- the metric of an attempt changes no row and sends nothing
pub observed-Untouched :
    (m : M Outcome) (w : World) → Untouched (m w).1 ((m >>= observe_attempt) w).1
unfolding ◌>>=◌ on_result
observed-Untouched m w = branch_observed (m w).0 (m w).1

Source-around :
    (env : Env) (r before row : Record) (parts : List Text)
    → r.rendered_parts ≡ before.rendered_parts
    → r.original_payload ≡ before.original_payload
    → Source env r row parts
    → Source env before row parts
Source-around env r before row parts p o (held some_held same) =
    held (λ empty. some_held (p ∙ empty)) (sym p ∙ same)
Source-around env r before row parts p o (built empty message) =
    built (sym p ∙ empty) (subst (λ text. IsMessage env text parts) o message)
Source-around env r before row parts p o (unbuildable empty no_parts status reason) =
    unbuildable (sym p ∙ empty) no_parts status (subst (λ text. IsUnbuildable env text) o reason)

-- the same attempt, seen from before the claim and after the metric
Attempt-around :
    (env : Env) (id : String) (r before : Record) (w w₁ w₂ w' : World)
    → r.event_id ≡ id
    → r.sent_parts ≡ before.sent_parts
    → r.rendered_parts ≡ before.rendered_parts
    → r.original_payload ≡ before.original_payload
    → w₁.sent ≡ w.sent
    → Untouched w₂ w'
    → Attempt env r.event_id r w₁ w₂
    → Attempt env id before w w'
Attempt-around env id r before w w₁ w₂ w' i s p o e u a = record {
  parts = a.parts;
  count = a.count;
  row = a.row;
  source = Source-around env r before a.row a.parts p o a.source;
  sent =
      u.same_sent
      ∙ a.sent
      ∙ ap (λ l. l ++ take a.count (drop r.sent_parts a.parts)) e
      ∙ ap (λ n. w.sent ++ take a.count (drop n a.parts)) s;
  found = ap (find id) u.same_table ∙ ap (λ j. find j w₂.table) (sym i) ∙ a.found;
  advanced = omega (arith, a.advanced);
  same_parts = a.same_parts;
  outcome = a.outcome;
}

module _ (env : Env) (q : IsQuiet env) (id : String) where
  abbrev pub claimed_world : World → Table → World
  claimed_world w t = after "claim_for_send" t (tick w)

  pub claim_run :
      (w : World) (o : Option Record) (t : Table)
      → claim_query id (env.now w.calls) w.table ≡ (ok o, t)
      → process_event_by_id env id w ≡ process_claimed env o (claimed_world w t)
  unfolding process_event_by_id clock claim_for_send
  claim_run w o t e =
      bind-ok (clock env) _ w refl
      ∙ bind-ok _ _ (tick w) (wrap_error-ok _ _ (tick w) (exec_quiet env q _ _ _ (tick w) e))

  -- When the driver answers every statement and the context is not done, processing an event whose row
  -- can be claimed and counts no more sent parts than it has leaves a row such that: its parts are those
  -- that were there, or else the message built from its payload, or there are none, the row has failed
  -- and its payload could not be decoded or built; the client reported as accepted, after what it had
  -- reported before, as many of the parts that follow the counted ones as the count has grown by; and the
  -- row is delivered with all parts counted, or scheduled for a retry, failed or dead-lettered with at
  -- most all counted.
  pub process_event_by_id-Attempt :
      (w : World) (before : Record)
      → find id w.table ≡ some before
      → is_claimable before.status ≡ true
      → before.sent_parts ≤ length before.rendered_parts
      → Attempt env id before w (process_event_by_id env id w).1
  unfolding claim after
  process_event_by_id-Attempt w before f c le =
      let change : Record → Record = claim (env.now w.calls) in
      let r : Record = change before in
      let t : Table = update id change w.table in
      let w₁ : World = claimed_world w t in
      let run = claim_run w (some r) t (rw f (rw c refl)) in
      let same : r.event_id ≡ id = find-has_id id w.table before f in
      let found : find id t ≡ some r =
        find-update id change
          (record { same_id = λ s. refl; same_key = λ s. refl; same_payload = λ s. refl }) w.table
        ∙ ap (Option.map change) f in
      subst (λ s. Attempt env id before w s.1) (sym run)
        (Attempt-around env id r before w w₁ _ _ same refl refl refl refl
          (observed-Untouched (deliver env r) w₁)
          (Attempt-parts env q r r.rendered_parts w₁ (ap (λ j. find j t) same ∙ found) le refl))

  unclaimed :
      (now : ℕ) (t : Table) (o : Option Record)
      → ((r : Record) → o ≡ some r → is_claimable r.status ≡ false)
      → claim_found id now t o ≡ (ok none, t)
  unclaimed now t none h = refl
  unclaimed now t (some r) h = rw (h r refl) refl

  -- When the driver answers every statement and the context is not done, processing an event of which
  -- there is no row, or one that cannot be claimed, changes no row and sends nothing.
  pub process_event_by_id-Untouched :
      (w : World)
      → ((r : Record) → find id w.table ≡ some r → is_claimable r.status ≡ false)
      → Untouched w (process_event_by_id env id w).1
  unfolding after
  process_event_by_id-Untouched w h =
      subst (λ s. Untouched w s.1)
        (sym (claim_run w none w.table (unclaimed _ w.table (find id w.table) h)))
        (record { same_table = refl; same_sent = refl })
