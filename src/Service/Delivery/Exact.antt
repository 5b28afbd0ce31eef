-- ===== src/Service/Delivery/Exact.antt =====
-- Any number of attempts on one event, with a driver that answers: the client has reported as accepted the
-- parts that the row counts, in order, and these are parts of the message of its payload.
use webhook_telegram_proxy.Prelude.{
  ℕ, zero, suc, ◌≤◌, String, some, List, [], ◌++◌, ◌≡◌, ◌≢◌, refl, sym, ◌∙◌, ap, subst, arith, Text,
  ◌⊎◌, inl, inr, length, take, drop, append-nil, append_assoc, take-append-take-drop, Bool-cases,
}
use mathlib.Core.Option
use mathlib.Core.Option.{some-injective}
use webhook_telegram_proxy.Store.Rows.{IsLocal, find-update}
use webhook_telegram_proxy.Service.Delivery.Locality.{Keeps-process_event_by_id}
use webhook_telegram_proxy.Store.Record.{Record, Table, delivered, failed, is_claimable}
use webhook_telegram_proxy.Store.Queries.{find}
use webhook_telegram_proxy.Runtime.{Env, World}
use webhook_telegram_proxy.Runtime.Quiet.{IsQuiet}
use webhook_telegram_proxy.Service.Delivery.{process_event_by_id}
use webhook_telegram_proxy.Service.Delivery.Settling.{not_settled}
use webhook_telegram_proxy.Service.Delivery.Attempts.{
  Attempt, Source, held, built, unbuildable, IsMessage,
}
use webhook_telegram_proxy.Service.Delivery.Processing.{
  process_event_by_id-Attempt, process_event_by_id-Untouched,
}

-- After `earlier`, the client has reported as accepted the first `sent_parts` parts of the row, in order,
-- and nothing else. The row holds no parts, or those of the message that is built from `payload`; a
-- delivered row holds that message, and all its parts are counted.
pub record InStep (env : Env) (id : String) (payload : Text) (earlier : List Text) (w : World)
    : Type 0 where
  pub row : Record
  pub found : find id w.table ≡ some row
  pub same_payload : row.original_payload ≡ payload
  pub accepted : w.sent ≡ earlier ++ take row.sent_parts row.rendered_parts
  pub within : row.sent_parts ≤ length row.rendered_parts
  pub rendered : (row.rendered_parts ≡ []) ⊎ IsMessage env payload row.rendered_parts
  pub complete :
      row.status ≡ delivered
      → IsMessage env payload row.rendered_parts × (row.sent_parts ≡ length row.rendered_parts)

-- the parts that were counted are the same in the message that is fixed now
counted_parts :
    (n : ℕ) (before parts : List Text)
    → n ≤ length before
    → (before ≡ []) ⊎ (before ≡ parts)
    → take n before ≡ take n parts
counted_parts zero before parts le h = refl
counted_parts (suc n) before parts le (inl e) = absurd (omega (arith, ap length e))
counted_parts (suc n) before parts le (inr e) = ap (take (suc n)) e

Source-fixed :
    {env : Env} {before row : Record} {parts : List Text}
    → Source env before row parts
    → (before.rendered_parts ≡ []) ⊎ (before.rendered_parts ≡ parts)
Source-fixed (held _ same) = inr same
Source-fixed (built empty _) = inl empty
Source-fixed (unbuildable empty _ _ _) = inl empty

-- what the parts of a row are, given what they were
Source-IsMessage :
    {env : Env} {before row : Record} {parts : List Text}
    → Source env before row parts
    → (before.rendered_parts ≡ []) ⊎ IsMessage env before.original_payload before.rendered_parts
    → IsMessage env before.original_payload parts ⊎ ((parts ≡ []) × (row.status ≡ failed))
Source-IsMessage (held some_held same) (inl empty) = absurd (some_held empty)
Source-IsMessage {env} {before} (held _ same) (inr message) =
    inl (subst (IsMessage env before.original_payload) same message)
Source-IsMessage (built _ message) h = inl message
Source-IsMessage (unbuildable _ no_parts status _) h = inr (no_parts, status)

-- a row of the event has this payload
abbrev HasPayload : String → Text → Table → Type 0
HasPayload id payload t =
    (row : Record) × ((find id t ≡ some row) × (row.original_payload ≡ payload))

IsLocal-HasPayload : (id : String) (payload : Text) → IsLocal id (HasPayload id payload)
IsLocal-HasPayload id payload = record {
  at_update = λ f t k (row, (found, same)).
      (f row, (find-update id f k t ∙ ap (Option.map f) found, k.same_payload row ∙ same));
}

Attempt-InStep :
    {env : Env} {id : String} {payload : Text} {earlier : List Text} {w w' : World}
    (s : InStep env id payload earlier w)
    → Attempt env id s.row w w'
    → HasPayload id payload w'.table
    → InStep env id payload earlier w'
Attempt-InStep {env} {id} {payload} {earlier} {w} {w'} s a (row, (found, same)) =
    let n = s.row.sent_parts in
    let message : IsMessage env payload a.row.rendered_parts
        ⊎ ((a.row.rendered_parts ≡ []) × (a.row.status ≡ failed)) =
      subst (λ l. IsMessage env payload l ⊎ ((l ≡ []) × (a.row.status ≡ failed))) (sym a.same_parts)
        (subst (λ text. IsMessage env text a.parts ⊎ ((a.parts ≡ []) × (a.row.status ≡ failed)))
          s.same_payload
          (Source-IsMessage a.source (
            subst (λ text. (s.row.rendered_parts ≡ []) ⊎ IsMessage env text s.row.rendered_parts)
              (sym s.same_payload) s.rendered))) in
    record {
      row = a.row;
      found = a.found;
      same_payload =
          ap (λ (r : Record). r.original_payload) (some-injective _ _ (sym a.found ∙ found)) ∙ same;
      accepted =
          a.sent
          ∙ ap (λ l. l ++ take a.count (drop n a.parts))
              (s.accepted
                ∙ ap (λ l. earlier ++ l)
                    (counted_parts n _ a.parts s.within (Source-fixed a.source)))
          ∙ append_assoc earlier (take n a.parts) _
          ∙ ap (λ l. earlier ++ l) (take-append-take-drop n a.count a.parts)
          ∙ ap (λ k. earlier ++ take k a.parts) (sym a.advanced)
          ∙ ap (λ l. earlier ++ take a.row.sent_parts l) (sym a.same_parts);
      within = elim a.outcome [
        | inl (d, e) ↦ omega (arith, ap length a.same_parts)
        | inr (t, e) ↦ omega (arith, ap length a.same_parts)
      ];
      rendered = elim message [ inl m ↦ inr m | inr (empty, _) ↦ inl empty ];
      complete = λ d. (
        elim message [ inl m ↦ m | inr (_, status) ↦ absurd (let wrong = sym d ∙ status in cc) ],
        elim a.outcome [
          | inl (_, e) ↦ e ∙ ap length (sym a.same_parts)
          | inr (t, e) ↦ absurd (not_settled a.row.status d t)
        ],
      );
    }

-- `n` calls of `ProcessEventByID`, one after the other
unfoldable pub attempts : Env → String → ℕ → World → World
attempts env id zero w = w
attempts env id (suc n) w = attempts env id n (process_event_by_id env id w).1

module _ (env : Env) (q : IsQuiet env) (id : String) (payload : Text) (earlier : List Text) where
  process_event_by_id-InStep :
      (w : World)
      → InStep env id payload earlier w
      → InStep env id payload earlier (process_event_by_id env id w).1
  process_event_by_id-InStep w s = elim (Bool-cases (is_claimable s.row.status)) [
    | inl c ↦ Attempt-InStep s (process_event_by_id-Attempt env q id w s.row s.found c s.within) (
        (Keeps-process_event_by_id env id (IsLocal-HasPayload id payload)).at w
          (s.row, (s.found, s.same_payload)))
    | inr c ↦
        let u = process_event_by_id-Untouched env q id w (λ r f. ground (arith, s.found, f, c)) in
        record {
          row = s.row;
          found = ap (find id) u.same_table ∙ s.found;
          same_payload = s.same_payload;
          accepted = u.same_sent ∙ s.accepted;
          within = s.within;
          rendered = s.rendered;
          complete = s.complete;
        }
  ]

  pub attempts-InStep :
      (n : ℕ) (w : World)
      → InStep env id payload earlier w
      → InStep env id payload earlier (attempts env id n w)
  unfolding attempts
  attempts-InStep zero w s = s
  attempts-InStep (suc n) w s = attempts-InStep n _ (process_event_by_id-InStep w s)

-- With a driver that answers every statement and a context that is not done, and from a row that is not
-- delivered and of which nothing was rendered or sent, any number of attempts leaves a row such that: the
-- texts that the client reported as accepted are, after those before, exactly the first `sent_parts` parts
-- of the row, in order; these parts are none, or the message built from the row's payload; and a row that
-- is marked delivered holds that message, with all its parts counted.
pub attempts-exact :
    (env : Env) (id : String) (n : ℕ) (w : World) (fresh : Record)
    → IsQuiet env
    → find id w.table ≡ some fresh
    → fresh.rendered_parts ≡ []
    → fresh.sent_parts ≡ 0
    → fresh.status ≢ delivered
    → InStep env id fresh.original_payload w.sent (attempts env id n w)
attempts-exact env id n w fresh q f empty none_sent open_row =
    attempts-InStep env q id fresh.original_payload w.sent n w (record {
      row = fresh;
      found = f;
      same_payload = refl;
      accepted =
          sym (append-nil w.sent) ∙ ap (λ k. w.sent ++ take k fresh.rendered_parts) (sym none_sent);
      within = omega arith;
      rendered = inl empty;
      complete = λ d. absurd (open_row d);
    })
