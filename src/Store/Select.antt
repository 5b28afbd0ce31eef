-- ===== src/Store/Select.antt =====
-- What the pages of `SelectRotatable` and `ListDueEventIDs` hold.
pub mod Oldest
use webhook_telegram_proxy.Prelude.{
  subst, ℕ, zero, suc, ◌≤◌, String, Bool, true, false, some, [], ◌∷◌, map, ◌≡◌, ◌≢◌, refl, ◌∙◌, ap,
  arith, filter, take, length, length-take, All, All-take, leb, min, same_text, same_text_iff,
  Bool-cases, inl, inr,
}
use webhook_telegram_proxy.Store.Record.{Record, Table}
use webhook_telegram_proxy.Store.Queries.{
  find, find_where, insert_by, order_by, is_due, select_due, is_rotatable, select_rotatable,
  is_listed,
}
use webhook_telegram_proxy.Store.Unique.{Apart, IsUnique}

module _ (P : Record → Type 0) (key : Record → ℕ) where
  All-insert_by : (r : Record) (t : Table) → P r → All P t → All P (insert_by key r t)
  unfolding insert_by
  All-insert_by r [] h hs = (h, tt)
  All-insert_by r (s ∷ t) h (k, ks) = ground (arith, All-insert_by r t h ks)

  pub All-order_by : (t : Table) → All P t → All P (order_by key t)
  unfolding order_by
  All-order_by [] h = tt
  All-order_by (r ∷ t) (h, hs) = All-insert_by r (order_by key t) h (All-order_by t hs)

module _ (key : Record → ℕ) where
  length-insert_by : (r : Record) (t : Table) → length (insert_by key r t) ≡ suc (length t)
  unfolding insert_by
  length-insert_by r [] = refl
  length-insert_by r (s ∷ t) = ground (arith, length-insert_by r t)

  pub length-order_by : (t : Table) → length (order_by key t) ≡ length t
  unfolding order_by
  length-order_by [] = refl
  length-order_by (r ∷ t) = length-insert_by r (order_by key t) ∙ ap suc (length-order_by t)

  -- ascending keys
  abbrev pub IsOrdered : Table → Type 0
  IsOrdered [] = Unit
  IsOrdered (r ∷ t) = All (λ s. key r ≤ key s) t × IsOrdered t

  All-le_trans :
      (r s : Record) (t : Table)
      → key r ≤ key s
      → All (λ u. key s ≤ key u) t
      → All (λ u. key r ≤ key u) t
  All-le_trans r s [] le h = tt
  All-le_trans r s (u ∷ t) le (h, hs) = (omega arith, All-le_trans r s t le hs)

  insert_by-IsOrdered : (r : Record) (t : Table) → IsOrdered t → IsOrdered (insert_by key r t)
  unfolding insert_by
  insert_by-IsOrdered r [] h = (tt, tt)
  insert_by-IsOrdered r (s ∷ t) (h, hs) = elim (Bool-cases (leb (key r) (key s))) [
    | inl le ↦ rw le ((ground arith, All-le_trans r s t (ground arith) h), (h, hs))
    | inr gt ↦
        rw gt
          (All-insert_by (λ u. key s ≤ key u) key r t (ground arith) h, insert_by-IsOrdered r t hs)
  ]

  pub order_by-IsOrdered : (t : Table) → IsOrdered (order_by key t)
  unfolding order_by
  order_by-IsOrdered [] = tt
  order_by-IsOrdered (r ∷ t) = insert_by-IsOrdered r (order_by key t) (order_by-IsOrdered t)

  pub take-IsOrdered : (n : ℕ) (t : Table) → IsOrdered t → IsOrdered (take n t)
  take-IsOrdered zero t h = tt
  take-IsOrdered (suc n) [] h = tt
  take-IsOrdered (suc n) (r ∷ t) (h, hs) = (All-take _ n t h, take-IsOrdered n t hs)

pub All-filter_holds : (p : Record → Bool) (t : Table) → All (λ r. p r ≡ true) (filter p t)
All-filter_holds p [] = tt
All-filter_holds p (r ∷ t) = elim (Bool-cases (p r)) [
  | inl h ↦ rw h (h, All-filter_holds p t)
  | inr h ↦ rw h (All-filter_holds p t)
]

abbrev pub IsOtherThan : String → Record → Type 0
IsOtherThan j r = r.event_id ≢ j

pub not_listed :
    (j : String) (t : Table) → All (IsOtherThan j) t → is_listed (map (λ r. r.event_id) t) j ≡ false
not_listed j [] h = refl
not_listed j (r ∷ t) (h, hs) = ground (arith, same_text_iff j r.event_id, not_listed j t hs)

All-other :
    (r : Record) (p : Record → Bool) (t : Table)
    → All (Apart r) t
    → All (IsOtherThan r.event_id) (filter p t)
All-other r p [] h = tt
All-other r p (s ∷ t) (h, hs) = ground (arith, All-other r p t hs)

-- With unique ids, the rows that a filter keeps are others than a row that it drops.
filter_drops :
    (j : String) (r : Record) (p : Record → Bool) (t : Table)
    → IsUnique t
    → find j t ≡ some r
    → p r ≡ false
    → All (IsOtherThan j) (filter p t)
unfolding find find_where
filter_drops j r p [] u f h = tt
filter_drops j r p (s ∷ t) (a, u) f h = elim (Bool-cases (same_text s.event_id j)) [
  | inl here ↦
      let same : s ≡ r = ground (arith, f, here) in
      let dropped : p s ≡ false = ap p same ∙ h in
      let id_of : s.event_id ≡ j = (same_text_iff s.event_id j).0 here in
      rw dropped (subst (λ i. All (IsOtherThan i) (filter p t)) id_of (All-other s p t a))
  | inr other ↦
      let rest = filter_drops j r p t u (ground (arith, f, other)) h in
      ground (arith, rest, same_text_iff s.event_id j)
]

-- A row that may not be rotated is on no page of rotatable rows.
pub select_rotatable-not_listed :
    (j : String) (r : Record) (delivered_before terminal_before limit : ℕ) (t : Table)
    → IsUnique t
    → find j t ≡ some r
    → is_rotatable delivered_before terminal_before r ≡ false
    → is_listed
        (map (λ s. s.event_id) (select_rotatable delivered_before terminal_before limit t))
        j
      ≡ false
unfolding select_rotatable
select_rotatable-not_listed j r delivered_before terminal_before limit t u f h = not_listed j _ (
    All-take _ limit _ (
      All-order_by (IsOtherThan j) (λ s. s.updated_at) _
        (filter_drops j r (is_rotatable delivered_before terminal_before) t u f h)))

-- A page of due rows, before the ids are taken.
abbrev pub due_page : ℕ → ℕ → Table → Table
due_page now limit t = take limit (order_by (λ r. r.created_at) (filter (is_due now) t))
