-- ===== src/Store/Locality.antt =====
-- The methods that write the row of one event keep every property that such writes keep.
use webhook_telegram_proxy.Prelude.{
  arith, ℕ, String, Option, none, some, List, ◌≡◌, refl, Text, Bool-cases, inl, inr,
}
use webhook_telegram_proxy.Store.Record.{Record, Table, Status, is_claimable}
use webhook_telegram_proxy.Store.Queries.{find, update, claim}
use webhook_telegram_proxy.Store.Rows.{find-has_id, IsLocal}
use webhook_telegram_proxy.Store.Changes.{claim_query, claim_found}
use webhook_telegram_proxy.Store.Methods.{
  claim_for_send, update_status, mark_queued, save_rendered_parts, mark_chunk_sent, mark_delivered,
  schedule_retry, mark_failed, mark_dead_letter,
}
use webhook_telegram_proxy.Errors.{Error, ok}
use webhook_telegram_proxy.Runtime.{
  World, request, settle, driver_answer, exec, observed, query, Env, Context,
}
use webhook_telegram_proxy.Runtime.Keeps.{Yields, Keeps, Keeps-wrap_error, Keeps-exec}

module _ {P : Table → Type 0} (env : Env) (id : String) (l : IsLocal id P) where
  update_keeps :
      (f : Record → Record)
      → ((r : Record) → (f r).event_id ≡ r.event_id)
      → ((r : Record) → (f r).idempotency_key ≡ r.idempotency_key)
      → ((r : Record) → (f r).original_payload ≡ r.original_payload)
      → (t : Table) → P t
      → P (update id f t)
  update_keeps f ids keys payloads t h =
      l.at_update f t (record { same_id = ids; same_key = keys; same_payload = payloads }) h

  claim_found_keeps : (now : ℕ) (t : Table) (o : Option Record) → P t → P (claim_found id now t o).1
  unfolding claim
  claim_found_keeps now t none h = h
  claim_found_keeps now t (some r) h = elim (Bool-cases (is_claimable r.status)) [
    | inl open_row ↦ rw open_row (update_keeps _ (λ r. refl) (λ r. refl) (λ r. refl) t h)
    | inr taken ↦ rw taken h
  ]

  pub Keeps-claim_for_send : (now : ℕ) → Keeps P (claim_for_send env id now)
  unfolding claim_for_send
  Keeps-claim_for_send now = Keeps-exec env _ _ _ (λ _ t. claim_found_keeps now t (find id t))

  pub Keeps-update_status :
      (op : String) (status : Status) (at : ℕ) (e : Text)
      → Keeps P (update_status env op id status at e)
  unfolding update_status
  Keeps-update_status op status at e =
      Keeps-wrap_error _ _
        (Keeps-exec env _ _ _ (λ now. update_keeps _ (λ r. refl) (λ r. refl) (λ r. refl)))

  pub Keeps-mark_queued : (at : ℕ) → Keeps P (mark_queued env id at)
  unfolding mark_queued
  Keeps-mark_queued at =
      Keeps-wrap_error _ _
        (Keeps-exec env _ _ _ (λ now. update_keeps _ (λ r. refl) (λ r. refl) (λ r. refl)))

  pub Keeps-save_rendered_parts :
      (msg : Text) (parts : List Text) → Keeps P (save_rendered_parts env id msg parts)
  unfolding save_rendered_parts
  Keeps-save_rendered_parts msg parts =
      Keeps-wrap_error _ _
        (Keeps-exec env _ _ _ (λ now. update_keeps _ (λ r. refl) (λ r. refl) (λ r. refl)))

  pub Keeps-mark_chunk_sent : (n : ℕ) (m : Option ℕ) → Keeps P (mark_chunk_sent env id n m)
  unfolding mark_chunk_sent
  Keeps-mark_chunk_sent n m =
      Keeps-wrap_error _ _
        (Keeps-exec env _ _ _ (λ now. update_keeps _ (λ r. refl) (λ r. refl) (λ r. refl)))

  pub Keeps-mark_delivered :
      (msg chat : Text) (n at : ℕ) → Keeps P (mark_delivered env id msg chat n at)
  unfolding mark_delivered
  Keeps-mark_delivered msg chat n at =
      Keeps-wrap_error _ _
        (Keeps-exec env _ _ _ (λ now. update_keeps _ (λ r. refl) (λ r. refl) (λ r. refl)))

  pub Keeps-schedule_retry :
      (ctx : Context) (msg e : Text) (at : ℕ) → Keeps P (schedule_retry env ctx id msg e at)
  unfolding schedule_retry
  Keeps-schedule_retry ctx msg e at =
      Keeps-wrap_error _ _
        (Keeps-exec env _ _ _ (λ now. update_keeps _ (λ r. refl) (λ r. refl) (λ r. refl)))

  pub Keeps-mark_failed : (ctx : Context) (msg e : Text) → Keeps P (mark_failed env ctx id msg e)
  unfolding mark_failed
  Keeps-mark_failed ctx msg e =
      Keeps-wrap_error _ _
        (Keeps-exec env _ _ _ (λ now. update_keeps _ (λ r. refl) (λ r. refl) (λ r. refl)))

  pub Keeps-mark_dead_letter :
      (ctx : Context) (msg e : Text) → Keeps P (mark_dead_letter env ctx id msg e)
  unfolding mark_dead_letter
  Keeps-mark_dead_letter ctx msg e =
      Keeps-wrap_error _ _
        (Keeps-exec env _ _ _ (λ now. update_keeps _ (λ r. refl) (λ r. refl) (λ r. refl)))

-- a claimed row is one of the event that was asked for
abbrev pub IsRowOf : String → Option Record → Type 0
IsRowOf id none = Unit
IsRowOf id (some r) = r.event_id ≡ id

claim_found_row :
    (id : String) (now : ℕ) (t : Table) (o a : Option Record)
    → IsRowOf id o
    → (claim_found id now t o).0 ≡ ok a
    → IsRowOf id a
unfolding claim
claim_found_row id now t none a h e = ground arith
claim_found_row id now t (some r) a h e = ground arith

found_row : (id : String) (t : Table) (o : Option Record) → find id t ≡ o → IsRowOf id o
found_row id t none e = tt
found_row id t (some r) e = find-has_id id t r e

settle_claim :
    (env : Env) (id : String) (now : ℕ) (o : Option Error) (w : World) (t : Table)
    (a : Option Record)
    → (settle env o (claim_query id now t) w).0 ≡ ok a
    → IsRowOf id a
settle_claim env id now none w t a h =
    claim_found_row id now t (find id t) a (found_row id t _ refl) h
settle_claim env id now (some e) w t a h = absurd (ground arith)

pub Yields-claim_for_send :
    {P : Table → Type 0} (env : Env) (id : String) (now : ℕ)
    → Yields P (IsRowOf id) (claim_for_send env id now)
unfolding claim_for_send exec observed query
Yields-claim_for_send env id now = record {
  result = λ w a _ h. settle_claim env id now (driver_answer env request w.calls) _ w.table a h;
}
