-- ===== src/Service/Delivery/Attempts.antt =====
-- What `deliver` leaves of a claimed row, with a driver that answers.
use webhook_telegram_proxy.Service.Messages.{build_messages}
use webhook_telegram_proxy.Prelude.{
  ℕ, suc, ◌+◌, ◌≤◌, String, some, List, [], ◌∷◌, ◌++◌, ◌≡◌, ◌≢◌, refl, sym, ◌∙◌, ap, subst, arith,
  Text, ◌⊎◌, inl, inr, length, take, drop, append-nil, length-drop,
}
use mathlib.Core.Option
use webhook_telegram_proxy.Errors.{Error, error_text, Result, ok, err}
use webhook_telegram_proxy.Models.{WebhookPayload}
use webhook_telegram_proxy.Store.Record.{Record, delivered, failed}
use webhook_telegram_proxy.Store.Queries.{find}
use webhook_telegram_proxy.Store.Rows.{find-update}
use webhook_telegram_proxy.Store.Changes.{rendered_row, terminal_row}
use webhook_telegram_proxy.Store.Methods.{mark_failed, save_rendered_parts}
use webhook_telegram_proxy.Runtime.{Env, World, tick, persist_context, raise}
use webhook_telegram_proxy.Runtime.Quiet.{
  IsQuiet, after, write_quiet, bind-ok, then-ok, ignore-ok, on_result-ok, on_result-err,
}
use webhook_telegram_proxy.Service.Delivery.{
  join_rendered, ending, fail_render, persist_parts, render_built, render_decoded, rendered_or,
  ensure_rendered_parts, send_from, deliver,
}
use webhook_telegram_proxy.Service.Delivery.Settling.{IsSettled}
use webhook_telegram_proxy.Service.Delivery.Progress.{send_from-Progress}

-- These are the parts of a message built from the payload.
abbrev pub IsMessage : Env → Text → List Text → Type 0
IsMessage env text parts =
    (payload : WebhookPayload) × ((env.decode_payload text ≡ ok payload)
      × ((n : ℕ) × (build_messages env n payload ≡ ok parts)))

-- The payload cannot be decoded, or no message can be built from it.
abbrev pub IsUnbuildable : Env → Text → Type 0
IsUnbuildable env text =
    (e : Error) × ((env.decode_payload text ≡ err e)
      ⊎ ((payload : WebhookPayload) × ((env.decode_payload text ≡ ok payload)
            × ((n : ℕ) × (build_messages env n payload ≡ err e)))))

-- Where the parts of a row come from that was `before` and is `row` now: they were there, or they are
-- the message of its payload, or there is no message, and the row has failed.
pub data Source (env : Env) (before row : Record) (parts : List Text) : Type 0 where
  held : before.rendered_parts ≢ [] → before.rendered_parts ≡ parts → Source env before row parts
  built :
      before.rendered_parts ≡ []
      → IsMessage env before.original_payload parts
      → Source env before row parts
  unbuildable :
      before.rendered_parts ≡ []
      → parts ≡ []
      → row.status ≡ failed
      → IsUnbuildable env before.original_payload
      → Source env before row parts

-- From `w` to `w'`, for a row that was `before`: `parts` are the parts of the message, fixed from now
-- on; after those that were counted already, the client reported the next `count` as accepted, in order;
-- the row counts them; and it is delivered if that is all of them, and settled otherwise.
pub record Attempt (env : Env) (id : String) (before : Record) (w w' : World) : Type 0 where
  pub parts : List Text
  pub count : ℕ
  pub row : Record
  pub source : Source env before row parts
  pub sent : w'.sent ≡ w.sent ++ take count (drop before.sent_parts parts)
  pub found : find id w'.table ≡ some row
  pub advanced : row.sent_parts ≡ before.sent_parts + count
  pub same_parts : row.rendered_parts ≡ parts
  pub outcome :
      ((row.status ≡ delivered) × (row.sent_parts ≡ length parts))
      ⊎ (IsSettled row.status × (row.sent_parts ≤ length parts))

module _ (env : Env) (q : IsQuiet env) (r : Record) where
  same-Attempt :
      {A : Type 0} {before : Record} {w : World} (run run' : Result A × World)
      → run ≡ run'
      → Attempt env r.event_id before w run'.1
      → Attempt env r.event_id before w run.1
  same-Attempt {before} {w} run run' e a =
      subst (λ s. Attempt env r.event_id before w s.1) (sym e) a

  -- the sending loop, at a row that holds its parts
  Attempt-send :
      (parts : List Text) (before row : Record) (w₀ w : World)
      → w.sent ≡ w₀.sent
      → find r.event_id w.table ≡ some row
      → row.sent_parts ≡ r.sent_parts
      → row.rendered_parts ≡ parts
      → before.sent_parts ≡ r.sent_parts
      → ((last : Record) → Source env before last parts)
      → r.sent_parts ≤ length parts
      → Attempt env r.event_id before w₀
          (send_from env r parts r.sent_parts (drop r.sent_parts parts) w).1
  Attempt-send parts before row w₀ w s f n p b source le =
      let g =
        send_from-Progress env q r parts r.sent_parts (drop r.sent_parts parts) w row f n p
          (omega (arith, length-drop r.sent_parts parts)) in
      record {
        parts = parts;
        count = g.count;
        row = g.row;
        source = source g.row;
        sent =
            g.sent
            ∙ ap (λ l. l ++ take g.count (drop r.sent_parts parts)) s
            ∙ ap (λ k. w₀.sent ++ take g.count (drop k parts)) (sym b);
        found = g.found;
        advanced = omega (arith, g.advanced);
        same_parts = g.same_parts;
        outcome = elim g.outcome [
          | inl (d, c) ↦ inl (d, omega (arith, g.advanced, length-drop r.sent_parts parts))
          | inr (s, c) ↦ inr (s, omega (arith, g.advanced, length-drop r.sent_parts parts))
        ];
      }

  -- the payload can never be rendered: the row fails, and nothing is sent
  Attempt-fail_render :
      (what : Text) (e : Error) (w : World)
      → find r.event_id w.table ≡ some r
      → r.sent_parts ≤ length r.rendered_parts
      → r.rendered_parts ≡ []
      → IsUnbuildable env r.original_payload
      → ensure_rendered_parts env r w ≡ fail_render env what r e w
      → Attempt env r.event_id r w (deliver env r w).1
  unfolding deliver fail_render persist_context mark_failed ending after
  Attempt-fail_render what e w f le empty reason same =
      let change : Record → Record =
        terminal_row failed r.rendered_message (error_text e) (env.now (suc w.calls)) in
      let run =
        same
        ∙ bind-ok (persist_context env) _ w refl
        ∙ then-ok _ (raise _) (tick w)
            (ignore-ok _ (tick w) (write_quiet env q _ _ _ _ _ (tick w))) in
      same-Attempt _ _ (on_result-err (ensure_rendered_parts env r) _ _ w run) (record {
        parts = [];
        count = 0;
        row = change r;
        source = unbuildable empty refl refl reason;
        sent = sym (append-nil w.sent);
        found =
            find-update r.event_id change
              (record { same_id = λ s. refl; same_key = λ s. refl; same_payload = λ s. refl })
              w.table
            ∙ ap (Option.map change) f;
        advanced = omega arith;
        same_parts = empty;
        outcome = inr (tt, omega (arith, ap length empty));
      })

  Attempt-rendered :
      (parts : List Text) (w : World)
      → find r.event_id w.table ≡ some r
      → r.sent_parts ≤ length r.rendered_parts
      → r.rendered_parts ≢ []
      → r.rendered_parts ≡ parts
      → ensure_rendered_parts env r w ≡ (ok parts, w)
      → Attempt env r.event_id r w (deliver env r w).1
  unfolding deliver
  Attempt-rendered parts w f le some_held same_held run =
      same-Attempt _ _ (on_result-ok (ensure_rendered_parts env r) _ _ w run) (
        Attempt-send parts r r w w refl f refl same_held refl (λ last. held some_held same_held)
          (omega (arith, ap length same_held)))

  Attempt-persist_parts :
      (parts : List Text) (w : World)
      → find r.event_id w.table ≡ some r
      → r.sent_parts ≤ length r.rendered_parts
      → r.rendered_parts ≡ []
      → IsMessage env r.original_payload parts
      → ensure_rendered_parts env r w ≡ persist_parts env r parts w
      → Attempt env r.event_id r w (deliver env r w).1
  unfolding deliver persist_parts save_rendered_parts after
  Attempt-persist_parts parts w f le empty message same =
      let change : Record → Record = rendered_row (join_rendered parts) parts (env.now w.calls) in
      let run = same ∙ on_result-ok _ _ _ w (write_quiet env q _ _ _ _ _ w) in
      same-Attempt _ _ (on_result-ok (ensure_rendered_parts env r) _ _ w run) (
        Attempt-send parts r (change r) w _ refl
          (find-update r.event_id change
              (record { same_id = λ s. refl; same_key = λ s. refl; same_payload = λ s. refl })
              w.table
            ∙ ap (Option.map change) f)
          refl refl refl (λ last. built empty message) (omega (arith, ap length empty)))

  Attempt-built :
      (payload : WebhookPayload) (result : Result (List Text)) (w : World)
      → find r.event_id w.table ≡ some r
      → r.sent_parts ≤ length r.rendered_parts
      → r.rendered_parts ≡ []
      → env.decode_payload r.original_payload ≡ ok payload
      → build_messages env w.calls payload ≡ result
      → ensure_rendered_parts env r w ≡ render_built env r result w
      → Attempt env r.event_id r w (deliver env r w).1
  Attempt-built payload (ok parts) w f le empty decoded made same =
      Attempt-persist_parts parts w f le empty (payload, (decoded, (w.calls, made))) same
  Attempt-built payload (err e) w f le empty decoded made same =
      Attempt-fail_render _ e w f le empty (e, inr (payload, (decoded, (w.calls, made)))) same

  Attempt-decoded :
      (decoded : Result WebhookPayload) (w : World)
      → find r.event_id w.table ≡ some r
      → r.sent_parts ≤ length r.rendered_parts
      → r.rendered_parts ≡ []
      → env.decode_payload r.original_payload ≡ decoded
      → ensure_rendered_parts env r w ≡ render_decoded env r decoded w
      → Attempt env r.event_id r w (deliver env r w).1
  Attempt-decoded (ok payload) w f le empty decoded same =
      Attempt-built payload (build_messages env w.calls payload) w f le empty decoded refl same
  Attempt-decoded (err e) w f le empty decoded same =
      Attempt-fail_render _ e w f le empty (e, inl decoded) same

  pub Attempt-parts :
      (held_parts : List Text) (w : World)
      → find r.event_id w.table ≡ some r
      → r.sent_parts ≤ length r.rendered_parts
      → r.rendered_parts ≡ held_parts
      → Attempt env r.event_id r w (deliver env r w).1
  unfolding ensure_rendered_parts
  Attempt-parts [] w f le e =
      Attempt-decoded (env.decode_payload r.original_payload) w f le e refl
        (ap (λ l. rendered_or env r l w) e)
  Attempt-parts (p ∷ ps) w f le e =
      Attempt-rendered (p ∷ ps) w f le (λ empty. cc) e (ap (λ l. rendered_or env r l w) e)
