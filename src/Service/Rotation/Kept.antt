-- ===== src/Service/Rotation/Kept.antt =====
-- Which rows a rotation may never delete, whatever the driver, the clock and the file system answer.
use webhook_telegram_proxy.Prelude.{
  ◌<◌, inr, ◌⊎◌, inl, ℕ, zero, suc, ◌-◌, String, false, some, List, [], ◌∷◌, ◌≡◌, refl, ◌∙◌, arith,
  take, drop,
}
use webhook_telegram_proxy.Store.Record.{is_dead, is_delivered, Record, Table}
use webhook_telegram_proxy.Store.Queries.{find, is_rotatable, is_listed}
use webhook_telegram_proxy.Store.Rows.{find-delete_listed}
use webhook_telegram_proxy.Store.Unique.{IsUnique, delete_listed-IsUnique}
use webhook_telegram_proxy.Store.Select.{select_rotatable-not_listed}
use webhook_telegram_proxy.Runtime.{Env, World}
use webhook_telegram_proxy.Service.Rotation.Safety.{IsRotationSafe, Keeps-ensure_capacity}
use webhook_telegram_proxy.Service.Rotation.{ensure_capacity, rotation_page}

-- The table has distinct ids and keys, and holds the row of one event.
abbrev pub Holds : String → Record → Table → Type 0
Holds j r t = IsUnique t × (find j t ≡ some r)

abbrev pub LeavesOut : String → List String → Type 0
LeavesOut j ids = is_listed ids j ≡ false

-- What retention protects: a row that is neither delivered, nor failed, nor a dead letter, or that was
-- changed after the time before which such rows are deleted.
abbrev pub IsYoung : Record → ℕ → ℕ → Type 0
IsYoung r delivered_before terminal_before =
    ((is_delivered r.status ≡ false) ⊎ (delivered_before < r.updated_at))
    × ((is_dead r.status ≡ false) ⊎ (terminal_before < r.updated_at))

not_rotatable :
    (r : Record) (delivered_before terminal_before : ℕ)
    → IsYoung r delivered_before terminal_before
    → is_rotatable delivered_before terminal_before r ≡ false
not_rotatable r delivered_before terminal_before (inl open_row, inl living) = ground arith
not_rotatable r delivered_before terminal_before (inl open_row, inr young) = ground arith
not_rotatable r delivered_before terminal_before (inr young, inl living) = ground arith
not_rotatable r delivered_before terminal_before (inr young, inr young') = ground arith

take_not_listed :
    (j : String) (n : ℕ) (ids : List String)
    → is_listed ids j ≡ false
    → is_listed (take n ids) j ≡ false
take_not_listed j zero ids h = refl
take_not_listed j (suc n) [] h = refl
take_not_listed j (suc n) (id ∷ ids) h = ground (arith, take_not_listed j n ids)

drop_not_listed :
    (j : String) (n : ℕ) (ids : List String)
    → is_listed ids j ≡ false
    → is_listed (drop n ids) j ≡ false
drop_not_listed j zero ids h = h
drop_not_listed j (suc n) [] h = refl
drop_not_listed j (suc n) (id ∷ ids) h = ground (arith, drop_not_listed j n ids)

Holds-IsRotationSafe :
    (j : String) (r : Record) → IsRotationSafe (Holds j r) (LeavesOut j) (IsYoung r)
Holds-IsRotationSafe j r = record {
  at_take = take_not_listed j;
  at_drop = drop_not_listed j;
  at_delete = λ ids t q u. (delete_listed-IsUnique ids t u.0, find-delete_listed j ids t q ∙ u.1);
  at_select = λ a b t y u.
      select_rotatable-not_listed j r a b rotation_page t u.0 u.1 (not_rotatable r a b y);
}

pub IsUnique-IsRotationSafe : IsRotationSafe IsUnique (λ _. Unit {0}) (λ _ _. Unit {0})
IsUnique-IsRotationSafe = record {
  at_take = λ n ids q. tt;
  at_drop = λ n ids q. tt;
  at_delete = λ ids t q u. delete_listed-IsUnique ids t u;
  at_select = λ a b t y u. tt;
}

-- In a table with distinct ids and keys, making room for a webhook, rotation included, never deletes or
-- changes a row that at all times that the clock shows is neither delivered, nor failed, nor a dead
-- letter, or was last changed within the retention of its state, whatever the driver, the file system
-- and the contexts answer.
pub ensure_capacity_safe :
    (env : Env) (j : String) (r : Record) (w : World)
    → ((n m : ℕ)
        → IsYoung r
            (env.now n - env.cfg.store_retention_delivered)
            (env.now m - env.cfg.store_retention_dead_letter))
    → IsUnique w.table
    → find j w.table ≡ some r
    → find j (ensure_capacity env w).1.table ≡ some r
ensure_capacity_safe env j r w kept u f =
    ((Keeps-ensure_capacity env (Holds-IsRotationSafe j r) kept).at w (u, f)).1
