-- ===== src/Store/Claims.antt =====
-- A row that is being sent cannot be claimed again.
use mathlib.Core.Option.{some-injective}
use mathlib.Core.Option
use webhook_telegram_proxy.Prelude.{
  codes, Text, subst, ℕ, String, false, Option, some, none, [], ◌∷◌, ◌≡◌, ◌≢◌, refl, sym, ap, ◌∙◌,
  Bool-cases, inl, inr, filter, length,
}
use webhook_telegram_proxy.Errors.{wrap, Error, Result, ok, err, ok-injective}
use webhook_telegram_proxy.Store.Record.{Record, Table, sending, is_claimable}
use webhook_telegram_proxy.Store.Queries.{find, update_where, claim}
use webhook_telegram_proxy.Store.Rows.{KeepsIdentity, find-update}
use webhook_telegram_proxy.Store.Changes.{
  done, claim_found, claim_query, is_stuck, requeue_sending_row,
}
use webhook_telegram_proxy.Store.Methods.{requeue_sending, claim_for_send}
use webhook_telegram_proxy.Runtime.{
  pure, raise, branch, on_result, wrap_error, Env, World, settle, query, observed, exec,
  driver_answer, tick, request,
}

-- The row that a claim returns is in the table, and it is being sent.
pub record IsClaimed (id : String) (r : Record) (t : Table) : Type 0 where
  pub stored : find id t ≡ some r
  pub taken : r.status ≡ sending

-- the change of a claim keeps the id and the fingerprint
claim-KeepsIdentity : (now : ℕ) → KeepsIdentity (claim now)
unfolding claim
claim-KeepsIdentity now = record {
  same_id = λ r. refl;
  same_key = λ r. refl;
  same_payload = λ r. refl;
}

claim_found_lem :
    (id : String) (now : ℕ) (t : Table) (o : Option Record) (r : Record)
    → find id t ≡ o
    → (claim_found id now t o).0 ≡ ok (some r)
    → IsClaimed id r (claim_found id now t o).1
unfolding claim
claim_found_lem id now t none r f h = cc
claim_found_lem id now t (some s) r f h = elim (Bool-cases (is_claimable s.status)) [
  | inl open_row ↦
      let same : some (claim now s) ≡ some r = ok-injective (rw open_row at h) in
      rw open_row (record {
        stored =
            find-update id (claim now) (claim-KeepsIdentity now) t
            ∙ ap (Option.map (claim now)) f
            ∙ same;
        taken = ap Record.status (sym (some-injective _ _ same));
      })
  | inr closed ↦ absurd (let h' = rw closed at h in cc)
]

-- no row comes back from a row that is being sent
claim_found_sending :
    (id : String) (now : ℕ) (t : Table) (o : Option Record) (r s : Record)
    → o ≡ some r
    → r.status ≡ sending
    → (claim_found id now t o).0 ≢ ok (some s)
claim_found_sending id now t none r s f e h = cc
claim_found_sending id now t (some x) r s f e h =
    let held : is_claimable x.status ≡ false =
      ap is_claimable (ap Record.status (some-injective _ _ f) ∙ e) in
    let h' = rw held at h in cc

settle-ok :
    {A : Type 0} (env : Env) (d : Option Error) (answer : Result A × Table) (w : World) (a : A)
    → (settle env d answer w).0 ≡ ok a
    → (answer.0 ≡ ok a) × ((settle env d answer w).1.table ≡ answer.1)
settle-ok env (some e) answer w a h = cc
settle-ok env none (r, t) w a h = (h, refl)

pub claim_for_send-IsClaimed :
    (env : Env) (id : String) (now : ℕ) (w : World) (r : Record)
    → (claim_for_send env id now w).0 ≡ ok (some r)
    → IsClaimed id r (claim_for_send env id now w).1.table
unfolding claim_for_send exec observed query
claim_for_send-IsClaimed env id now w r h =
    let first =
      settle-ok env (driver_answer env request w.calls) (claim_query id now w.table) (tick w)
        (some r) h in
    subst (IsClaimed id r) (sym first.1)
      (claim_found_lem id now w.table (find id w.table) r refl first.0)

-- When a claim has returned a row, and the row of that id is still the one that the claim left, no claim
-- of it at any time returns a row.
pub claim_for_send-exclusive :
    (env : Env) (id : String) (now later : ℕ) (w w' : World) (r s : Record)
    → (claim_for_send env id now w).0 ≡ ok (some r)
    → find id w'.table ≡ find id (claim_for_send env id now w).1.table
    → (claim_for_send env id later w').0 ≢ ok (some s)
unfolding claim_for_send exec observed query
claim_for_send-exclusive env id now later w w' r s h same h' =
    let claimed = claim_for_send-IsClaimed env id now w r h in
    let second =
      settle-ok env (driver_answer env request w'.calls) (claim_query id later w'.table) (tick w')
        (some s) h' in
    claim_found_sending id later w'.table (find id w'.table) r s (same ∙ claimed.stored)
      claimed.taken second.0

-- no row is being sent
abbrev pub NoneSending : Table → Type 0
NoneSending [] = Unit
NoneSending (r ∷ t) = (is_stuck r ≡ false) × NoneSending t

requeued :
    (at now : ℕ) (t : Table) → NoneSending (update_where is_stuck (requeue_sending_row at now) t)
unfolding update_where
requeued at now [] = tt
requeued at now (r ∷ t) = elim (Bool-cases (is_stuck r)) [
  | inl stuck ↦ rw stuck (refl, requeued at now t)
  | inr free ↦ rw free (free, requeued at now t)
]

branch_wrapped-ok :
    {A : Type 0} (text : Text) (r : Result A) (w : World) (a : A)
    → (branch r (λ e. raise {A = A} (wrap text e)) pure w).0 ≡ ok a
    → (r ≡ ok a) × ((branch r (λ e. raise {A = A} (wrap text e)) pure w).1 ≡ w)
branch_wrapped-ok text (ok b) w a h = (h, refl)
branch_wrapped-ok text (err e) w a h = cc

pub requeue_sending-NoneSending :
    (env : Env) (at : ℕ) (w : World) (n : ℕ)
    → (requeue_sending env at w).0 ≡ ok n
    → (n ≡ length (filter is_stuck w.table)) × NoneSending (requeue_sending env at w).1.table
unfolding requeue_sending exec observed query wrap_error on_result
requeue_sending-NoneSending env at w n h =
    let run =
      exec env "requeue_sending" request
        (λ now t.
          done (length (filter is_stuck t)) (update_where is_stuck (requeue_sending_row at now) t))
        w in
    let outer = branch_wrapped-ok (codes "requeue sending") run.0 run.1 n h in
    let inner =
      settle-ok env (driver_answer env request w.calls)
        (done (length (filter is_stuck w.table))
          (update_where is_stuck (requeue_sending_row at (env.now w.calls)) w.table))
        (tick w) n outer.0 in
    (
      sym (ok-injective inner.0),
      subst NoneSending (sym (ap (λ v. v.table) outer.1 ∙ inner.1))
          (requeued at (env.now w.calls) w.table),
    )
