-- ===== src/Store/Unique.antt =====
-- No two rows share an event id or an idempotency key: each statement keeps this.
use webhook_telegram_proxy.Prelude.{
  refl, some, String, Bool, false, List, [], ◌∷◌, ◌++◌, ◌≡◌, ◌≢◌, arith, any, filter, All,
  same_text_iff, if◌then◌else◌, Bool-cases, inl, inr,
}
use webhook_telegram_proxy.Store.Record.{Record, Table}
use webhook_telegram_proxy.Store.Queries.{
  find_where, find, conflicts, insert, update_where, update, delete_listed, has_id,
}
use webhook_telegram_proxy.Store.Rows.{KeepsIdentity, IsLocal}

abbrev pub Apart : Record → Record → Type 0
Apart r s = (r.event_id ≢ s.event_id) × (r.idempotency_key ≢ s.idempotency_key)

abbrev pub IsUnique : Table → Type 0
IsUnique [] = Unit
IsUnique (r ∷ t) = All (Apart r) t × IsUnique t

module _ (p : Record → Bool) (f : Record → Record) (k : KeepsIdentity f) where
  All-Apart-update_where :
      (r : Record) (t : Table) → All (Apart r) t → All (Apart r) (update_where p f t)
  unfolding update_where
  All-Apart-update_where r [] h = tt
  All-Apart-update_where r (s ∷ t) (h, hs) =
      (ground (arith, k.same_id s, k.same_key s), All-Apart-update_where r t hs)

  All-Apart-changed :
      (r : Record) (t : Table) → All (Apart r) t → All (Apart (if p r then f r else r)) t
  All-Apart-changed r [] h = tt
  All-Apart-changed r (s ∷ t) (h, hs) =
      (ground (arith, k.same_id r, k.same_key r), All-Apart-changed r t hs)

  pub update_where-IsUnique : (t : Table) → IsUnique t → IsUnique (update_where p f t)
  unfolding update_where
  update_where-IsUnique [] h = tt
  update_where-IsUnique (r ∷ t) (h, hs) =
      (All-Apart-changed r _ (All-Apart-update_where r t h), update_where-IsUnique t hs)

pub IsLocal-IsUnique : (id : String) → IsLocal id IsUnique
unfolding update
IsLocal-IsUnique id = record { at_update = λ f t k h. update_where-IsUnique (has_id id) f k t h }

All-filter : (P : Record → Type 0) (p : Record → Bool) (t : Table) → All P t → All P (filter p t)
All-filter P p [] h = tt
All-filter P p (r ∷ t) (h, hs) = ground (arith, All-filter P p t hs)

pub filter-IsUnique : (p : Record → Bool) (t : Table) → IsUnique t → IsUnique (filter p t)
filter-IsUnique p [] h = tt
filter-IsUnique p (r ∷ t) (h, hs) =
    ground (arith, filter-IsUnique p t hs, All-filter (Apart r) p t h)

pub delete_listed-IsUnique :
    (ids : List String) (t : Table) → IsUnique t → IsUnique (delete_listed ids t)
unfolding delete_listed
delete_listed-IsUnique ids t h = filter-IsUnique _ t h

Apart-of_no_conflict : (r s : Record) → conflicts r s ≡ false → Apart s r
Apart-of_no_conflict r s h =
    ground (
      arith,
      same_text_iff s.event_id r.event_id,
      same_text_iff s.idempotency_key r.idempotency_key,
    )

All-Apart-last :
    (r s : Record) (t : Table) → All (Apart s) t → Apart s r → All (Apart s) (t ++ r ∷ [])
All-Apart-last r s [] h a = (a, tt)
All-Apart-last r s (u ∷ t) (h, hs) a = (h, All-Apart-last r s t hs a)

append-IsUnique :
    (r : Record) (t : Table) → any (conflicts r) t ≡ false → IsUnique t → IsUnique (t ++ r ∷ [])
append-IsUnique r [] h u = (tt, tt)
append-IsUnique r (s ∷ t) h (a, u) = elim (Bool-cases (conflicts r s)) [
  | inl clash ↦ absurd (ground arith)
  | inr free ↦
      (All-Apart-last r s t a (Apart-of_no_conflict r s free), append-IsUnique r t (ground arith) u)
]

pub insert-IsUnique : (r : Record) (t : Table) → IsUnique t → IsUnique (insert r t).1
unfolding insert
insert-IsUnique r t u = elim (Bool-cases (any (conflicts r) t)) [
  | inl clash ↦ rw clash u
  | inr free ↦ rw free (append-IsUnique r t free u)
]

-- the rows of a table with distinct ids, under their ids
find-later :
    (r : Record) (t l : Table)
    → All (Apart r) l
    → All (λ (s : Record). find s.event_id t ≡ some s) l
    → All (λ (s : Record). find s.event_id (r ∷ t) ≡ some s) l
unfolding find find_where
find-later r t [] a h = tt
find-later r t (s ∷ l) ((ne, _), a) (f, h) =
    (ground (arith, ne, f, same_text_iff r.event_id s.event_id), find-later r t l a h)

pub find-own : (t : Table) → IsUnique t → All (λ (s : Record). find s.event_id t ≡ some s) t
unfolding find find_where
find-own [] u = tt
find-own (r ∷ t) (a, u) =
    (rw ((same_text_iff r.event_id r.event_id).1 refl) refl, find-later r t t a (find-own t u))
