-- ===== src/Service/Messages/Packing.antt =====
-- Greedy packing: each alert is in one chunk, in order, and each chunk fits the budget.
use mathlib.Core.List.{flatten}
use webhook_telegram_proxy.Prelude.{
  ◌<◌, ℕ, ◌+◌, ◌≤◌, List, [], ◌∷◌, ◌++◌, map, ◌≡◌, refl, ap, All, Bool-cases, inl, inr, arith, ltb,
  length, subst, append_assoc,
}
use webhook_telegram_proxy.Template.{AlertData}
use webhook_telegram_proxy.Service.Messages.{SizedAlert, pack_chunks}

abbrev pub total_size : List SizedAlert → ℕ
total_size [] = 0
total_size (e ∷ l) = e.size + total_size l

abbrev pub alerts_of : List SizedAlert → List AlertData
alerts_of [] = []
alerts_of (e ∷ l) = e.alert ∷ alerts_of l

-- a chunk has an alert, and its alerts fit the budget
pub record IsFitting (budget : ℕ) (group : List SizedAlert) : Type 0 where
  pub some_alert : 0 < length group
  pub fits : total_size group ≤ budget

-- The chunks are the alerts of groups that divide the sized alerts, in their order.
pub record IsPacked (budget : ℕ) (sized : List SizedAlert) (chunks : List (List AlertData))
    : Type 0 where
  pub groups : List (List SizedAlert)
  pub divides : flatten groups ≡ sized
  pub same_alerts : map alerts_of groups ≡ chunks
  pub fitting : All (IsFitting budget) groups

total_size-snoc :
    (l : List SizedAlert) (e : SizedAlert) → total_size (l ++ (e ∷ [])) ≡ total_size l + e.size
total_size-snoc [] e = omega arith
total_size-snoc (x ∷ l) e = omega (arith, total_size-snoc l e)

alerts_of-snoc :
    (l : List SizedAlert) (e : SizedAlert)
    → alerts_of (l ++ (e ∷ [])) ≡ alerts_of l ++ (e.alert ∷ [])
alerts_of-snoc [] e = refl
alerts_of-snoc (x ∷ l) e = ap (λ r. x.alert ∷ r) (alerts_of-snoc l e)

abbrev pub AllWithin : ℕ → List SizedAlert → Type 0
AllWithin budget sized = All (λ e. e.size ≤ budget) sized

module _ (budget : ℕ) where
  IsPacked-more :
      (g : List SizedAlert) (rest : List SizedAlert) (chunks : List (List AlertData))
      → 0 < length g
      → total_size g ≤ budget
      → IsPacked budget rest chunks
      → IsPacked budget (g ++ rest) (alerts_of g ∷ chunks)
  unfolding flatten
  IsPacked-more g rest chunks h le p = record {
    groups = g ∷ p.groups;
    divides = ap (λ l. g ++ l) p.divides;
    same_alerts = ap (λ l. alerts_of g ∷ l) p.same_alerts;
    fitting = (record { some_alert = h; fits = le }, p.fitting);
  }

  -- the chunks of what follows, seen from a group that takes one more alert
  IsPacked-snoc :
      (g rest : List SizedAlert) (e : SizedAlert) (size : ℕ)
      → IsPacked budget
          ((g ++ (e ∷ [])) ++ rest)
          (pack_chunks budget (alerts_of (g ++ (e ∷ []))) size rest)
      → IsPacked budget
          (g ++ (e ∷ rest))
          (pack_chunks budget (alerts_of g ++ (e.alert ∷ [])) size rest)
  IsPacked-snoc g rest e size p =
      subst (λ a. IsPacked budget (g ++ (e ∷ rest)) (pack_chunks budget a size rest))
        (alerts_of-snoc g e)
        (subst (λ l. IsPacked budget l (pack_chunks budget (alerts_of (g ++ (e ∷ []))) size rest))
          (append_assoc g (e ∷ []) rest) p)

  pack_chunks_from :
      (sized g : List SizedAlert) (size : ℕ)
      → total_size g ≡ size
      → size ≤ budget
      → AllWithin budget sized
      → IsPacked budget (g ++ sized) (pack_chunks budget (alerts_of g) size sized)
  unfolding pack_chunks flatten
  pack_chunks_from [] [] size same le h = record {
    groups = [];
    divides = refl;
    same_alerts = refl;
    fitting = tt;
  }
  pack_chunks_from [] (x ∷ g) size same le h =
      IsPacked-more (x ∷ g) [] [] (omega arith) (omega arith)
        (record { groups = []; divides = refl; same_alerts = refl; fitting = tt })
  pack_chunks_from (e ∷ rest) [] size same le (h, hs) =
      pack_chunks_from rest (e ∷ []) (size + e.size) (omega arith) (omega arith) hs
  pack_chunks_from (e ∷ rest) (x ∷ g) size same le (h, hs) =
      elim (Bool-cases (ltb budget (size + e.size))) [
        | inl full ↦ rw full (
            IsPacked-more (x ∷ g) (e ∷ rest) _ (omega arith) (omega arith)
              (pack_chunks_from rest (e ∷ []) (0 + e.size) (omega arith) (omega arith) hs))
        | inr fits ↦ rw fits (
            IsPacked-snoc (x ∷ g) rest e (size + e.size) (
              pack_chunks_from rest ((x ∷ g) ++ (e ∷ [])) (size + e.size)
                (omega (arith, total_size-snoc (x ∷ g) e)) (ground arith) hs))
      ]

  -- When no single alert exceeds the budget, `pack_chunks` divides the alerts in their order into
  -- chunks of at least one alert, each of whose sizes add up to at most the budget.
  pub pack_chunks_lem :
      (sized : List SizedAlert)
      → AllWithin budget sized
      → IsPacked budget sized (pack_chunks budget [] 0 sized)
  pack_chunks_lem sized h = pack_chunks_from sized [] 0 refl (omega arith) h
