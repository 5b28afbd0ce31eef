-- ===== src/Store/Rows.antt =====
-- Reading one row after a statement that changes the rows of an event.
use webhook_telegram_proxy.Prelude.{
  String, false, some, List, [], ◌∷◌, ◌≡◌, ◌≢◌, refl, arith, same_text, same_text_iff, Bool-cases,
  inl, inr,
}
use mathlib.Core.Option
use webhook_telegram_proxy.Store.Record.{Record, Table}
use webhook_telegram_proxy.Store.Queries.{
  find_where, update_where, find, update, is_listed, delete_listed,
}

-- A change of a row that leaves what identifies it, and its payload.
pub record KeepsIdentity (f : Record → Record) : Type 0 where
  pub same_id : (r : Record) → (f r).event_id ≡ r.event_id
  pub same_key : (r : Record) → (f r).idempotency_key ≡ r.idempotency_key
  pub same_payload : (r : Record) → (f r).original_payload ≡ r.original_payload

-- A property of the table that survives such a change of the rows of one event.
pub record IsLocal (id : String) (P : Table → Type 0) : Type 0 where
  pub at_update : (f : Record → Record) (t : Table) → KeepsIdentity f → P t → P (update id f t)

module _ (id : String) (f : Record → Record) (k : KeepsIdentity f) where
  pub find-update : (t : Table) → find id (update id f t) ≡ Option.map f (find id t)
  unfolding find find_where update update_where
  find-update [] = refl
  find-update (r ∷ t) = ground (arith, k.same_id r, find-update t)

  pub find-update_ne : (j : String) (t : Table) → j ≢ id → find j (update id f t) ≡ find j t
  unfolding find find_where update update_where
  find-update_ne j [] ne = refl
  find-update_ne j (r ∷ t) ne = ground (
    arith,
    k.same_id r,
    same_text_iff r.event_id id,
    same_text_iff r.event_id j,
    find-update_ne j t ne,
  )

-- Any row found under an id has that id.
pub find-has_id : (id : String) (t : Table) (r : Record) → find id t ≡ some r → r.event_id ≡ id
unfolding find find_where
find-has_id id [] r h = cc
find-has_id id (s ∷ t) r h = ground (arith, same_text_iff s.event_id id, find-has_id id t r)

-- Deleting the listed events leaves the rows of every other one.
pub find-delete_listed :
    (j : String) (ids : List String) (t : Table)
    → is_listed ids j ≡ false
    → find j (delete_listed ids t) ≡ find j t
unfolding find find_where delete_listed
find-delete_listed j ids [] h = refl
find-delete_listed j ids (r ∷ t) h =
    let ih = find-delete_listed j ids t h in
    elim (Bool-cases (same_text r.event_id j)) [
      | inl e ↦
          let kept : is_listed ids r.event_id ≡ false = rw ((same_text_iff r.event_id j).0 e) h in
          rw kept (rw e refl)
      | inr ne ↦ ground arith
    ]
