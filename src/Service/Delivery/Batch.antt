-- ===== src/Service/Delivery/Batch.antt =====
-- The loop of `RecoverPending` over the listed ids (internal/service/delivery_service.go) delivers them.
use mathlib.Core.Option.{some-injective}
use webhook_telegram_proxy.Prelude.{
  ◌≤◌, String, true, false, some, List, [], ◌∷◌, ◌≡◌, ◌≢◌, refl, sym, ◌∙◌, ap, subst, ◌⊎◌, inl, inr,
  length, All, Bool-cases, same_text, same_text_iff,
}
use webhook_telegram_proxy.Errors.{Result, ok, err}
use webhook_telegram_proxy.Store.Record.{Record, Status, delivered, is_claimable}
use webhook_telegram_proxy.Store.Queries.{find}
use webhook_telegram_proxy.Store.Rows.{find-update_ne}
use webhook_telegram_proxy.Runtime.{Env, World, M, branch, pure, tick, ignore, on_result, is_done}
use webhook_telegram_proxy.Runtime.Quiet.{IsQuiet, bind-ok, then-ok}
use webhook_telegram_proxy.Service.Delivery.{process_event_by_id, process_all}
use webhook_telegram_proxy.Service.Delivery.Locality.{Keeps-process_event_by_id}
use webhook_telegram_proxy.Service.Delivery.Processing.{process_event_by_id-Untouched}
use webhook_telegram_proxy.Service.Delivery.Delivered.{
  Accepts, Renders, IsDelivered, process_event_by_id-Delivers,
}

-- The row can be claimed and has a message to send.
pub record CanDeliver (env : Env) (id : String) (w : World) : Type 0 where
  pub row : Record
  pub found : find id w.table ≡ some row
  pub claimable : is_claimable row.status ≡ true
  pub within : row.sent_parts ≤ length row.rendered_parts
  pub renders : Renders env row

abbrev pub IsOnItsWay : Env → World → String → Type 0
IsOnItsWay env w id = CanDeliver env id w ⊎ IsDelivered id w

claimable_delivered : (s : Status) → s ≡ delivered → is_claimable s ≡ false
claimable_delivered s e = ap is_claimable e

moved :
    (env : Env) (w w' : World) (id : String)
    → find id w'.table ≡ find id w.table
    → IsOnItsWay env w id
    → IsOnItsWay env w' id
moved env w w' id same (inl c) = inl (record {
  row = c.row;
  found = same ∙ c.found;
  claimable = c.claimable;
  within = c.within;
  renders = c.renders;
})
moved env w w' id same (inr (row, (f, d))) = inr (row, (same ∙ f, d))

pub All-moved :
    (env : Env) (w w' : World) (ids : List String)
    → w'.table ≡ w.table
    → All (IsOnItsWay env w) ids
    → All (IsOnItsWay env w') ids
All-moved env w w' [] same h = tt
All-moved env w w' (id ∷ ids) same (h, hs) =
    (moved env w w' id (ap (find id) same) h, All-moved env w w' ids same hs)

ignored :
    {A : Type 0} (r : Result A) (w : World) → branch r (λ _. pure tt) (λ _. pure tt) w ≡ (ok tt, w)
ignored (ok a) w = refl
ignored (err e) w = refl

ignore-run : {A : Type 0} (m : M A) (w : World) → ignore m w ≡ (ok tt, (m w).1)
unfolding ignore on_result
ignore-run m w = ignored (m w).0 (m w).1

module _ (env : Env) (q : IsQuiet env) where
  pub process_all-cons :
      (id : String) (ids : List String) (w : World)
      → process_all env (id ∷ ids) w ≡ process_all env ids (process_event_by_id env id (tick w)).1
  unfolding process_all is_done
  process_all-cons id ids w =
      bind-ok (is_done env) _ w refl
      ∙ rw (q.open_context w.calls)
          (then-ok _ _ (tick w) (ignore-run (process_event_by_id env id) (tick w)))

  pub other :
      (id j : String) (w : World)
      → j ≢ id
      → find j (process_event_by_id env id w).1.table ≡ find j w.table
  other id j w ne =
      (Keeps-process_event_by_id {P = λ t. find j t ≡ find j w.table} env id
          (record { at_update = λ f t k h. find-update_ne id f k j t ne ∙ h })).at
        w refl

module _ (env : Env) (q : IsQuiet env) (accepts : Accepts env) where
  own :
      (id : String) (w : World)
      → IsOnItsWay env w id
      → IsDelivered id (process_event_by_id env id w).1
  own id w (inl c) =
      let d =
        process_event_by_id-Delivers env id w c.row q accepts c.found c.claimable c.within
          c.renders in
      (d.row, (d.found, d.status))
  own id w (inr (row, (f, d))) =
      let u = process_event_by_id-Untouched env q id w (λ r g.
        claimable_delivered r.status
          (ap (λ (s : Record). s.status) (some-injective _ _ (sym g ∙ f)) ∙ d)) in
      (row, (ap (find id) u.same_table ∙ f, d))

  after-one :
      (id j : String) (w : World)
      → IsOnItsWay env w j
      → IsOnItsWay env (process_event_by_id env id w).1 j
  after-one id j w h = elim (Bool-cases (same_text id j)) [
    | inl same ↦
        let e : id ≡ j = (same_text_iff id j).0 same in
        inr (subst (λ i. IsDelivered j (process_event_by_id env i w).1) (sym e) (own j w h))
    | inr differ ↦
        moved env w _ j (other env q id j w (λ e. let same = (same_text_iff id j).1 (sym e) in cc))
          h
  ]

  All-after-one :
      (id : String) (ids : List String) (w : World)
      → All (IsOnItsWay env w) ids
      → All (IsOnItsWay env (process_event_by_id env id w).1) ids
  All-after-one id [] w h = tt
  All-after-one id (j ∷ ids) w (h, hs) = (after-one id j w h, All-after-one id ids w hs)

  stays-after-one :
      (id j : String) (w : World) → IsDelivered j w → IsDelivered j (process_event_by_id env id w).1
  stays-after-one id j w d = elim (Bool-cases (same_text id j)) [
    | inl same ↦
        let e : id ≡ j = (same_text_iff id j).0 same in
        subst (λ i. IsDelivered j (process_event_by_id env i w).1) (sym e) (own j w (inr d))
    | inr differ ↦
        let (row, (f, status)) = d in
        (
          row,
          (other env q id j w (λ e. let same = (same_text_iff id j).1 (sym e) in cc) ∙ f, status),
        )
  ]

  stays :
      (ids : List String) (j : String) (w : World)
      → IsDelivered j w
      → IsDelivered j (process_all env ids w).1
  unfolding process_all
  stays [] j w d = d
  stays (id ∷ ids) j w d =
      subst (λ s. IsDelivered j s.1) (sym (process_all-cons env q id ids w))
        (stays ids j _ (stays-after-one id j (tick w) d))

  pub All-subst :
      (ids : List String) (run run' : Result (Unit {0}) × World)
      → run ≡ run'
      → All (λ j. IsDelivered j run'.1) ids
      → All (λ j. IsDelivered j run.1) ids
  All-subst ids run run' e h = subst (λ s. All (λ j. IsDelivered j s.1) ids) (sym e) h

  pub process_all-IsDelivered :
      (ids : List String) (w : World)
      → All (IsOnItsWay env w) ids
      → All (λ j. IsDelivered j (process_all env ids w).1) ids
  process_all-IsDelivered [] w h = tt
  process_all-IsDelivered (id ∷ ids) w (h, hs) =
      let here = own id (tick w) (moved env w (tick w) id refl h) in
      let rest = All-after-one id ids (tick w) (All-moved env w (tick w) ids refl hs) in
      All-subst (id ∷ ids) _ _ (process_all-cons env q id ids w) (
        stays ids id _ here,
        process_all-IsDelivered ids (process_event_by_id env id (tick w)).1 rest,
      )
