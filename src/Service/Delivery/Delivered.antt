-- ===== src/Service/Delivery/Delivered.antt =====
-- With a driver that answers and a Telegram that accepts, one attempt delivers.
use mathlib.Core.Option
use mathlib.Core.Option.{some-injective}
use webhook_telegram_proxy.Prelude.{
  zero, ℕ, suc, ◌+◌, ◌≤◌, String, true, some, List, [], ◌∷◌, ◌++◌, ◌≡◌, ◌≢◌, refl, sym, ◌∙◌, ap,
  subst, arith, Text, ◌⊎◌, inl, inr, length, take, drop, length-drop,
}
use webhook_telegram_proxy.Errors.{Result, ok}
use webhook_telegram_proxy.Models.{WebhookPayload}
use webhook_telegram_proxy.Store.Record.{Record, delivered, is_claimable, Table}
use webhook_telegram_proxy.Store.Queries.{update, find, claim}
use webhook_telegram_proxy.Store.Rows.{find-update, find-has_id}
use webhook_telegram_proxy.Store.Changes.{chunk_row, delivered_row, rendered_row}
use webhook_telegram_proxy.Store.Methods.{mark_chunk_sent, mark_delivered, save_rendered_parts}
use webhook_telegram_proxy.Runtime.{Env, World, clock}
use webhook_telegram_proxy.Runtime.Quiet.{IsQuiet, after, write_quiet, bind-ok, on_result-ok}
use webhook_telegram_proxy.Service.Messages.{build_messages}
use webhook_telegram_proxy.Service.Delivery.{
  accept_text, join_rendered, send_message, ending, send_from, first_message, deliver,
  ensure_rendered_parts, persist_parts, rendered_or, render_built, render_decoded,
  process_event_by_id,
}
use webhook_telegram_proxy.Service.Delivery.Settling.{not_settled}
use webhook_telegram_proxy.Service.Delivery.Attempts.{Attempt}
use webhook_telegram_proxy.Service.Delivery.Processing.{
  observed-Untouched, claim_run, claimed_world, process_event_by_id-Attempt,
}

-- Telegram accepts every text.
abbrev pub Accepts : Env → Type 0
Accepts env = (n : ℕ) (text : Text) → (message_id : ℕ) × (env.reply n text ≡ ok message_id)

-- The row holds its parts, or its payload can be decoded and built.
abbrev pub Renders : Env → Record → Type 0
Renders env r =
    (r.rendered_parts ≢ [])
    ⊎ ((payload : WebhookPayload) × ((env.decode_payload r.original_payload ≡ ok payload)
          × ((n : ℕ) → (parts : List Text) × (build_messages env n payload ≡ ok parts))))

-- The row of the event is delivered.
abbrev pub IsDelivered : String → World → Type 0
IsDelivered id w = (row : Record) × ((find id w.table ≡ some row) × (row.status ≡ delivered))

module _ (env : Env) (q : IsQuiet env) (accepts : Accepts env) (r : Record)
    (parts : List Text) where
  send_from-IsDelivered :
      (index : ℕ) (rest : List Text) (w : World) (row : Record)
      → find r.event_id w.table ≡ some row
      → IsDelivered r.event_id (send_from env r parts index rest w).1
  unfolding send_from send_message mark_chunk_sent mark_delivered clock ending after
  send_from-IsDelivered index [] w row f =
      let change =
        delivered_row (join_rendered parts) env.cfg.telegram_chat_id (length parts)
          (env.now w.calls) in
      let run = on_result-ok _ _ _ w (bind-ok _ _ w refl ∙ write_quiet env q _ _ _ _ _ _) in
      subst (λ s. IsDelivered r.event_id s.1) (sym run)
        (
          change row,
          (
            find-update r.event_id change
                  (record { same_id = λ s. refl; same_key = λ s. refl; same_payload = λ s. refl })
                  w.table
                ∙ ap (Option.map change) f,
            refl,
          ),
        )
  send_from-IsDelivered index (part ∷ rest) w row f =
      let (m, accepted) = accepts w.calls part in
      let w₁ : World = (accept_text env part (ok m) w).1 in
      let change : Record → Record =
        chunk_row (index + 1) (first_message env index m) (env.now w₁.calls) in
      let w₂ : World = after "mark_chunk_sent" (update r.event_id change w.table) w₁ in
      let run =
        on_result-ok (send_message env part) _ _ w (ap (λ a. accept_text env part a w) accepted)
        ∙ on_result-ok _ _ _ w₁ (write_quiet env q _ _ _ _ _ _) in
      subst (λ s. IsDelivered r.event_id s.1) (sym run)
        (send_from-IsDelivered (index + 1) rest w₂ (change row) (
          find-update r.event_id change
            (record { same_id = λ s. refl; same_key = λ s. refl; same_payload = λ s. refl }) w.table
          ∙ ap (Option.map change) f))

-- a run, written another way
same-IsDelivered :
    {A : Type 0} (id : String) (run run' : Result A × World)
    → run ≡ run'
    → IsDelivered id run'.1
    → IsDelivered id run.1
same-IsDelivered id run run' e d = subst (λ s. IsDelivered id s.1) (sym e) d

module _ (env : Env) (q : IsQuiet env) (accepts : Accepts env) (r : Record) where
  rendered-IsDelivered :
      (parts : List Text) (w w' : World) (row : Record)
      → find r.event_id w'.table ≡ some row
      → ensure_rendered_parts env r w ≡ (ok parts, w')
      → IsDelivered r.event_id (deliver env r w).1
  unfolding deliver
  rendered-IsDelivered parts w w' row f run =
      same-IsDelivered r.event_id _ _ (on_result-ok (ensure_rendered_parts env r) _ _ w run) (
        send_from-IsDelivered env q accepts r parts r.sent_parts (drop r.sent_parts parts) w' row f)

  persist_parts-IsDelivered :
      (parts : List Text) (w : World)
      → find r.event_id w.table ≡ some r
      → ensure_rendered_parts env r w ≡ persist_parts env r parts w
      → IsDelivered r.event_id (deliver env r w).1
  unfolding persist_parts save_rendered_parts after
  persist_parts-IsDelivered parts w f same =
      let change : Record → Record = rendered_row (join_rendered parts) parts (env.now w.calls) in
      let run = same ∙ on_result-ok _ _ _ w (write_quiet env q _ _ _ _ _ w) in
      rendered-IsDelivered parts w _ (change r)
        (find-update r.event_id change
            (record { same_id = λ s. refl; same_key = λ s. refl; same_payload = λ s. refl }) w.table
          ∙ ap (Option.map change) f)
        run

  deliver-IsDelivered :
      (held : List Text) (w : World)
      → r.rendered_parts ≡ held
      → find r.event_id w.table ≡ some r
      → Renders env r
      → IsDelivered r.event_id (deliver env r w).1
  unfolding ensure_rendered_parts
  deliver-IsDelivered (p ∷ ps) w e f renders =
      rendered-IsDelivered (p ∷ ps) w w r f (ap (λ l. rendered_or env r l w) e)
  deliver-IsDelivered [] w e f (inl held) = absurd (held e)
  deliver-IsDelivered [] w e f (inr (payload, (decoded, built))) =
      let (parts, same) = built w.calls in
      persist_parts-IsDelivered parts w f (
        ap (λ l. rendered_or env r l w) e
        ∙ ap (λ d. render_decoded env r d w) decoded
        ∙ ap (λ b. render_built env r b w) same)

-- The row of the event is delivered with all its parts counted, and Telegram has accepted those that
-- were not counted before.
pub record Delivers (id : String) (before : Record) (w w' : World) : Type 0 where
  pub row : Record
  pub found : find id w'.table ≡ some row
  pub status : row.status ≡ delivered
  pub complete : row.sent_parts ≡ length row.rendered_parts
  pub sent : w'.sent ≡ w.sent ++ drop before.sent_parts row.rendered_parts

take-all : (n : ℕ) (xs : List Text) → length xs ≤ n → take n xs ≡ xs
take-all zero [] h = refl
take-all zero (x ∷ xs) h = absurd (omega arith)
take-all (suc n) [] h = refl
take-all (suc n) (x ∷ xs) h = ap (λ l. x ∷ l) (take-all n xs (omega arith))

Attempt-Delivers :
    (env : Env) (id : String) (before : Record) (w w' : World)
    → Attempt env id before w w'
    → IsDelivered id w'
    → Delivers id before w w'
Attempt-Delivers env id before w w' a (row, (f, d)) =
    let same : a.row ≡ row = some-injective _ _ (sym a.found ∙ f) in
    let status : a.row.status ≡ delivered = ap (λ (s : Record). s.status) same ∙ d in
    let all : a.row.sent_parts ≡ length a.parts = elim a.outcome [
      | inl (_, e) ↦ e
      | inr (settled, _) ↦ absurd (not_settled a.row.status status settled)
    ] in
    record {
      row = a.row;
      found = a.found;
      status = status;
      complete = all ∙ ap length (sym a.same_parts);
      sent =
          a.sent
          ∙ ap (λ l. w.sent ++ l)
              (take-all a.count (drop before.sent_parts a.parts)
                (omega (arith, all, a.advanced, length-drop before.sent_parts a.parts)))
          ∙ ap (λ l. w.sent ++ drop before.sent_parts l) (sym a.same_parts);
    }

-- Where the driver answers every statement, the context is not done and Telegram accepts every text, one
-- attempt delivers a row that can be claimed, counts no more sent parts than it has, and holds its parts
-- or has a payload from which they can be built: the row ends delivered with all parts counted, and
-- exactly the parts that were not counted before are sent, in order.
pub process_event_by_id-Delivers :
    (env : Env) (id : String) (w : World) (before : Record)
    → IsQuiet env
    → Accepts env
    → find id w.table ≡ some before
    → is_claimable before.status ≡ true
    → before.sent_parts ≤ length before.rendered_parts
    → Renders env before
    → Delivers id before w (process_event_by_id env id w).1
unfolding claim after
process_event_by_id-Delivers env id w before q accepts f c le renders =
    let change : Record → Record = claim (env.now w.calls) in
    let r : Record = change before in
    let t : Table = update id change w.table in
    let w₁ : World = claimed_world env q id w t in
    let run = claim_run env q id w (some r) t (rw f (rw c refl)) in
    let same : r.event_id ≡ id = find-has_id id w.table before f in
    let found : find id t ≡ some r =
      find-update id change
        (record { same_id = λ s. refl; same_key = λ s. refl; same_payload = λ s. refl }) w.table
      ∙ ap (Option.map change) f in
    let inner =
      deliver-IsDelivered env q accepts r r.rendered_parts w₁ refl (ap (λ j. find j t) same ∙ found)
        renders in
    let (row, (there, status)) = inner in
    let quiet = observed-Untouched (deliver env r) w₁ in
    Attempt-Delivers env id before w _ (process_event_by_id-Attempt env q id w before f c le) (
      same-IsDelivered id _ _ run (
        row,
        (
          ap (find id) quiet.same_table
              ∙ ap (λ j. find j (deliver env r w₁).1.table) (sym same)
              ∙ there,
          status,
        ),
      ))
