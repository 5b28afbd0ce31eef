-- ===== src/Service/Delivery/Progress.antt =====
-- How far one pass of the sending loop gets, with a driver that answers.
use mathlib.Core.Option
use webhook_telegram_proxy.Prelude.{
  subst, ℕ, suc, ◌+◌, ◌<◌, String, Option, some, List, [], ◌∷◌, ◌++◌, ◌≡◌, refl, sym, ◌∙◌, ap,
  arith, Text, ◌⊎◌, inl, inr, length, take, append-nil, append_assoc,
}
use webhook_telegram_proxy.Errors.{Result, ok, err}
use webhook_telegram_proxy.Store.Record.{Record, delivered}
use webhook_telegram_proxy.Store.Queries.{update, find}
use webhook_telegram_proxy.Store.Rows.{KeepsIdentity, find-update}
use webhook_telegram_proxy.Store.Changes.{chunk_row, delivered_row}
use webhook_telegram_proxy.Store.Methods.{mark_chunk_sent, mark_delivered}
use webhook_telegram_proxy.Runtime.{tick, Env, World, clock}
use webhook_telegram_proxy.Runtime.Quiet.{
  IsQuiet, after, write_quiet, bind-ok, on_result-ok, on_result-err,
}
use webhook_telegram_proxy.Service.Delivery.{
  accept_text, Outcome, join_rendered, send_message, ending, send_from, first_message,
}
use webhook_telegram_proxy.Service.Delivery.Settling.{
  Settles-after, IsSettled, Settles, handle_send_error-Settles,
}

-- From `w` to `w'`, of the parts from `index` on the client reported the first `count` as accepted, in
-- order, and the row of the event says so. The row is delivered if that is all of them, and settled
-- otherwise.
pub record Progress (id : String) (parts : List Text) (index : ℕ) (rest : List Text) (w w' : World)
    : Type 0 where
  pub count : ℕ
  pub row : Record
  pub sent : w'.sent ≡ w.sent ++ take count rest
  pub found : find id w'.table ≡ some row
  pub advanced : row.sent_parts ≡ index + count
  pub same_parts : row.rendered_parts ≡ parts
  pub outcome :
      ((row.status ≡ delivered) × (count ≡ length rest))
      ⊎ (IsSettled row.status × (count < length rest))

module _ (env : Env) (q : IsQuiet env) (r : Record) (parts : List Text) where
  chunk_identity : (n : ℕ) (m : Option ℕ) (now : ℕ) → KeepsIdentity (chunk_row n m now)
  chunk_identity n m now = record {
    same_id = λ s. refl;
    same_key = λ s. refl;
    same_payload = λ s. refl;
  }

  -- the same run, written another way
  same_run :
      {index : ℕ} {rest : List Text} {w : World} (run run' : Result Outcome × World)
      → run ≡ run'
      → Progress r.event_id parts index rest w run'.1
      → Progress r.event_id parts index rest w run.1
  same_run {index} {rest} {w} run run' e p =
      subst (λ s. Progress r.event_id parts index rest w s.1) (sym e) p

  Progress-end :
      (index : ℕ) (w : World) (row : Record)
      → find r.event_id w.table ≡ some row
      → row.rendered_parts ≡ parts
      → index + length {A = Text} [] ≡ length parts
      → Progress r.event_id parts index [] w (send_from env r parts index [] w).1
  unfolding send_from mark_delivered clock ending after
  Progress-end index w row f p n =
      let change =
        delivered_row (join_rendered parts) env.cfg.telegram_chat_id (length parts)
          (env.now w.calls) in
      same_run _ _ (on_result-ok _ _ _ w (bind-ok _ _ w refl ∙ write_quiet env q _ _ _ _ _ _))
        (record {
          count = 0;
          row = change row;
          sent = sym (append-nil w.sent);
          found =
              find-update r.event_id change
                (record { same_id = λ s. refl; same_key = λ s. refl; same_payload = λ s. refl })
                w.table
              ∙ ap (Option.map change) f;
          advanced = omega arith;
          same_parts = p;
          outcome = inl (refl, refl);
        })

  -- the part was refused: the row is settled with its progress as it was
  Progress-refused :
      (index : ℕ) (part : Text) (rest : List Text) (w w' : World) (row : Record)
      → find r.event_id w.table ≡ some row
      → row.sent_parts ≡ index
      → row.rendered_parts ≡ parts
      → Settles r.event_id w w'
      → Progress r.event_id parts index (part ∷ rest) w w'
  Progress-refused index part rest w w' row f n p s = record {
    count = 0;
    row = s.change row;
    sent = s.nothing_sent ∙ sym (append-nil w.sent);
    found =
        ap (find r.event_id) s.written
        ∙ find-update r.event_id s.change s.settles.identity w.table
        ∙ ap (Option.map s.change) f;
    advanced = omega (arith, s.settles.same_sent row);
    same_parts = s.settles.same_parts row ∙ p;
    outcome = inr (s.settles.settled row, omega arith);
  }

  -- the part was accepted: the rest counts one less
  Progress-accepted :
      (index : ℕ) (part : Text) (rest : List Text) (w w₁ w' : World)
      → w₁.sent ≡ w.sent ++ part ∷ []
      → Progress r.event_id parts (index + 1) rest w₁ w'
      → Progress r.event_id parts index (part ∷ rest) w w'
  Progress-accepted index part rest w w₁ w' e p = record {
    count = suc p.count;
    row = p.row;
    sent =
        p.sent
        ∙ ap (λ l. l ++ take p.count rest) e
        ∙ append_assoc w.sent (part ∷ []) (take p.count rest);
    found = p.found;
    advanced = omega (arith, p.advanced);
    same_parts = p.same_parts;
    outcome = elim p.outcome [ inl (d, n) ↦ inl (d, ap suc n) | inr (s, n) ↦ inr (s, omega arith) ];
  }

  -- one part, by Telegram's answer, given what the rest of the loop does
  Progress-part :
      (index : ℕ) (part : Text) (rest : List Text) (w : World) (row : Record)
      → find r.event_id w.table ≡ some row
      → row.sent_parts ≡ index
      → row.rendered_parts ≡ parts
      → ((w₂ : World) (row' : Record)
          → find r.event_id w₂.table ≡ some row'
          → row'.sent_parts ≡ index + 1
          → row'.rendered_parts ≡ parts
          → Progress r.event_id parts
              (index + 1)
              rest
              w₂
              (send_from env r parts (index + 1) rest w₂).1)
      → (answer : Result ℕ) → env.reply w.calls part ≡ answer
      → Progress r.event_id parts index
          (part ∷ rest)
          w
          (send_from env r parts index (part ∷ rest) w).1
  unfolding send_from send_message mark_chunk_sent ending after
  Progress-part index part rest w row f n p next (err e) refused =
      same_run _ _
        (on_result-err (send_message env part) _ _ w (ap (λ a. accept_text env part a w) refused))
        (Progress-refused index part rest w _ row f n p (
          Settles-after env q r parts w (tick w) _ refl refl
            (handle_send_error-Settles env q r parts e (tick w))))
  Progress-part index part rest w row f n p next (ok m) accepted =
      let w₁ : World = (accept_text env part (ok m) w).1 in
      let change : Record → Record =
        chunk_row (index + 1) (first_message env index m) (env.now w₁.calls) in
      let w₂ : World = after "mark_chunk_sent" (update r.event_id change w.table) w₁ in
      same_run _ _
        (on_result-ok (send_message env part) _ _ w (ap (λ a. accept_text env part a w) accepted)
          ∙ on_result-ok _ _ _ w₁ (write_quiet env q _ _ _ _ _ _))
        (Progress-accepted index part rest w w₂ _ refl (
          next w₂ (change row)
            (find-update r.event_id change (chunk_identity _ _ _) w.table
              ∙ ap (Option.map change) f)
            refl p))

  pub send_from-Progress :
      (index : ℕ) (rest : List Text) (w : World) (row : Record)
      → find r.event_id w.table ≡ some row
      → row.sent_parts ≡ index
      → row.rendered_parts ≡ parts
      → index + length rest ≡ length parts
      → Progress r.event_id parts index rest w (send_from env r parts index rest w).1
  send_from-Progress index [] w row f n p h = Progress-end index w row f p h
  send_from-Progress index (part ∷ rest) w row f n p h =
      Progress-part index part rest w row f n p
        (λ w₂ row' f' n' p'. send_from-Progress (index + 1) rest w₂ row' f' n' p' (omega arith))
        (env.reply w.calls part) refl
