-- ===== src/Service/Delivery/Lifecycle.antt =====
-- What a delivery promises from the outside: the lifecycle of its status, which the recovery follows
-- whatever Telegram answers, with a driver that answers.
use mathlib.Core.Option.{some-injective}
use webhook_telegram_proxy.Prelude.{
  ℕ, zero, suc, ◌≤◌, String, true, some, List, [], ◌∷◌, ◌≡◌, refl, sym, ◌∙◌, ap, subst, arith, inl,
  inr, length, Bool-cases, same_text, same_text_iff,
}
use webhook_telegram_proxy.Store.Record.{
  Record, Status, sending, delivered, retry_scheduled, failed, dead_letter, is_claimable,
}
use webhook_telegram_proxy.Store.Queries.{find}
use webhook_telegram_proxy.Runtime.{Env, World, tick}
use webhook_telegram_proxy.Runtime.Quiet.{IsQuiet, after}
use webhook_telegram_proxy.Service.Delivery.{process_event_by_id, process_all, recover_pending}
use webhook_telegram_proxy.Service.Delivery.Settling.{IsSettled}
use webhook_telegram_proxy.Service.Delivery.Attempts.{Attempt}
use webhook_telegram_proxy.Service.Delivery.Processing.{
  process_event_by_id-Attempt, process_event_by_id-Untouched,
}
use webhook_telegram_proxy.Service.Delivery.Batch.{other, process_all-cons}
use webhook_telegram_proxy.Service.Delivery.Recovery.{due_ids, recover-run}

-- One step of the lifecycle: a claim, and the four ends of an attempt.
pub data Step : Status → Status → Type 0 where
  claimed : {s : Status} → is_claimable s ≡ true → Step s sending
  delivers : Step sending delivered
  retries : Step sending retry_scheduled
  fails : Step sending failed
  buries : Step sending dead_letter

-- Any number of steps.
pub data Steps : Status → Status → Type 0 where
  stay : {s : Status} → Steps s s
  go : {s t u : Status} → Step s t → Steps t u → Steps s u

Steps-trans : {s t u : Status} → Steps s t → Steps t u → Steps s u
Steps-trans stay q = q
Steps-trans (go p ps) q = go p (Steps-trans ps q)

settled-Steps : (s t : Status) → is_claimable s ≡ true → IsSettled t → Steps s t
settled-Steps s retry_scheduled c h = go (claimed c) (go retries stay)
settled-Steps s failed c h = go (claimed c) (go fails stay)
settled-Steps s dead_letter c h = go (claimed c) (go buries stay)
settled-Steps s _ c h = elim h [ ]

-- The row of the event is there, its status came from `s` by the lifecycle, and it counts no more sent
-- parts than it has.
pub record Follows (s : Status) (id : String) (w : World) : Type 0 where
  pub row : Record
  pub found : find id w.table ≡ some row
  pub steps : Steps s row.status
  pub within : row.sent_parts ≤ length row.rendered_parts

Attempt-Follows :
    (env : Env) (s : Status) (id : String) (before : Record) (w w' : World)
    → Steps s before.status
    → is_claimable before.status ≡ true
    → Attempt env id before w w'
    → Follows s id w'
Attempt-Follows env s id before w w' steps c a = record {
  row = a.row;
  found = a.found;
  steps = Steps-trans steps (elim a.outcome [
    | inl (d, _) ↦ subst (Steps before.status) (sym d) (go (claimed c) (go delivers stay))
    | inr (settled, _) ↦ settled-Steps before.status a.row.status c settled
  ]);
  within = elim a.outcome [
    | inl (_, e) ↦ omega (arith, ap length a.same_parts)
    | inr (_, e) ↦ omega (arith, ap length a.same_parts)
  ];
}

kept :
    (s : Status) (id : String) (w w' : World)
    → find id w'.table ≡ find id w.table
    → Follows s id w
    → Follows s id w'
kept s id w w' same f = record {
  row = f.row;
  found = same ∙ f.found;
  steps = f.steps;
  within = f.within;
}

module _ (env : Env) (q : IsQuiet env) (s : Status) where
  own-Follows :
      (id : String) (w : World) → Follows s id w → Follows s id (process_event_by_id env id w).1
  own-Follows id w f = elim (Bool-cases (is_claimable f.row.status)) [
    | inl c ↦
        Attempt-Follows env s id f.row w _ f.steps c
          (process_event_by_id-Attempt env q id w f.row f.found c f.within)
    | inr c ↦
        let u = process_event_by_id-Untouched env q id w (λ r g.
          ap (λ (t : Record). is_claimable t.status) (some-injective _ _ (sym g ∙ f.found)) ∙ c) in
        kept s id w _ (ap (find id) u.same_table) f
  ]

  one-Follows :
      (id j : String) (w : World) → Follows s j w → Follows s j (process_event_by_id env id w).1
  one-Follows id j w f = elim (Bool-cases (same_text id j)) [
    | inl same ↦
        let e : id ≡ j = (same_text_iff id j).0 same in
        subst (λ i. Follows s j (process_event_by_id env i w).1) (sym e) (own-Follows j w f)
    | inr differ ↦
        kept s j w _ (other env q id j w (λ e. let same = (same_text_iff id j).1 (sym e) in cc)) f
  ]

  process_all-Follows :
      (ids : List String) (j : String) (w : World)
      → Follows s j w
      → Follows s j (process_all env ids w).1
  unfolding process_all
  process_all-Follows [] j w f = f
  process_all-Follows (id ∷ ids) j w f =
      subst (λ t. Follows s j t.1) (sym (process_all-cons env q id ids w))
        (process_all-Follows ids j _ (one-Follows id j (tick w) (kept s j w (tick w) refl f)))

  recover_pending-Follows :
      (j : String) (w : World) → Follows s j w → Follows s j (recover_pending env w).1
  unfolding after
  recover_pending-Follows j w f =
      subst (λ t. Follows s j t.1) (sym (recover-run env q w))
        (process_all-Follows (due_ids env w) j _ (kept s j w _ refl f))

-- `n` recovery ticks
unfoldable pub recovery_ticks : Env → ℕ → World → World
recovery_ticks env zero w = w
recovery_ticks env (suc n) w = recovery_ticks env n (recover_pending env w).1

ticks-Follows :
    (env : Env) (q : IsQuiet env) (s : Status) (j : String) (n : ℕ) (w : World)
    → Follows s j w
    → Follows s j (recovery_ticks env n w)
unfolding recovery_ticks
ticks-Follows env q s j zero w f = f
ticks-Follows env q s j (suc n) w f =
    ticks-Follows env q s j n _ (recover_pending-Follows env q s j w f)

-- Where the driver answers every statement and the context is not done, and whatever Telegram answers,
-- any number of recovery ticks keeps a row that counts no more sent parts than it has, and moves its
-- status only along the lifecycle: from a claimable one to sending, and from sending to delivered,
-- retry_scheduled, failed or dead_letter.
pub recovery_ticks-Follows :
    (env : Env) (id : String) (n : ℕ) (w : World) (row : Record)
    → IsQuiet env
    → find id w.table ≡ some row
    → row.sent_parts ≤ length row.rendered_parts
    → Follows row.status id (recovery_ticks env n w)
recovery_ticks-Follows env id n w row q f le =
    ticks-Follows env q row.status id n w
      (record { row = row; found = f; steps = stay; within = le })
