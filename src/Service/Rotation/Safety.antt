-- ===== src/Service/Rotation/Safety.antt =====
-- Which properties of the table a rotation keeps, whatever the driver, the clock and the file system
-- answer.
use webhook_telegram_proxy.Prelude.{
  subst, ℕ, zero, suc, ◌-◌, String, Option, none, some, List, [], ◌∷◌, map, ◌≡◌, arith, take, drop,
  length, ltb,
}
use webhook_telegram_proxy.Errors.{ok-injective, Error, ok}
use webhook_telegram_proxy.Store.Record.{Table}
use webhook_telegram_proxy.Store.Queries.{delete_listed, select_rotatable}
use webhook_telegram_proxy.Store.Methods.{
  rotatable_records, delete_batches, delete_by_event_ids, delete_batch_size,
}
use webhook_telegram_proxy.Runtime.{
  tick, Env, World, M, on_result, ◌>>=◌, clock, exec, query, observed, settle, driver_answer,
  request,
}
use webhook_telegram_proxy.Runtime.Keeps.{
  Keeps, Yields, Keeps-pure, Keeps-raise, Keeps-record_metric, Keeps-bind, Keeps-then, Keeps-if,
  Keeps-wrap_error, Keeps-observed, Keeps-query, Keeps-is_done, Keeps-bind-Yields,
  Yields-wrap_error, keeps_rules,
}
use webhook_telegram_proxy.Service.Rotation.Parts.{
  Keeps-rotation_step, Keeps-measured, Keeps-finish_rotation, Keeps-size_bytes,
  Keeps-rotatable_records, Yields-rotation_step,
}
use webhook_telegram_proxy.Service.Rotation.{
  Deleted, delete_candidates, rotate_page, rotation_loop, run_rotation_loop, rotate_rows,
  rotate_store, make_room, ensure_capacity, rotation_page,
}

-- What `P` needs of the pages that a rotation deletes: `Q` is said of a list of ids, `Ok` of the two
-- cutoff times.
pub record IsRotationSafe (P : Table → Type 0) (Q : List String → Type 0) (Ok : ℕ → ℕ → Type 0)
    : Type 0 where
  pub at_take : (n : ℕ) (ids : List String) → Q ids → Q (take n ids)
  pub at_drop : (n : ℕ) (ids : List String) → Q ids → Q (drop n ids)
  pub at_delete : (ids : List String) (t : Table) → Q ids → P t → P (delete_listed ids t)
  pub at_select :
      (a b : ℕ) (t : Table)
      → Ok a b
      → P t
      → Q (map (λ s. s.event_id) (select_rotatable a b rotation_page t))

module _ {P : Table → Type 0} {Q : List String → Type 0} {Ok : ℕ → ℕ → Type 0} (env : Env)
    (s : IsRotationSafe P Q Ok) where
  Keeps-delete_batches :
      (rounds : ℕ) (ids : List String) → Q ids → Keeps P (delete_batches env rounds ids)
  unfolding delete_batches
  Keeps-delete_batches zero ids h = Keeps-pure tt
  Keeps-delete_batches (suc rounds) [] h = Keeps-pure tt
  Keeps-delete_batches (suc rounds) (id ∷ ids) h =
      Keeps-then _ _
        (Keeps-query env request _
          (λ now t u. s.at_delete _ t (s.at_take delete_batch_size (id ∷ ids) h) u))
        (Keeps-delete_batches rounds _ (s.at_drop delete_batch_size (id ∷ ids) h))

  pub Keeps-delete_by_event_ids :
      (ids : List String) → Q ids → Keeps P (delete_by_event_ids env ids)
  unfolding delete_by_event_ids
  Keeps-delete_by_event_ids ids h =
      Keeps-wrap_error _ _ (Keeps-observed _ _ (Keeps-delete_batches (length ids) ids h))

  Keeps-delete_candidates :
      (t : Table) → Q (map (λ r. r.event_id) t) → Keeps P (delete_candidates env t)
  unfolding delete_candidates
  Keeps-delete_candidates t h =
      Keeps-then _ _
        (Keeps-rotation_step env _ (Keeps-wrap_error _ _ (Keeps-delete_by_event_ids _ h)))
        (Keeps-bind _ _ (Keeps-measured env _)
          (λ n. Keeps-then _ _ (Keeps-record_metric _) (Keeps-pure n)))

  abbrev PageOk : Table → Type 0
  PageOk t = Q (map (λ r. r.event_id) t)

  Keeps-rotate_page :
      (t : Table) (size : ℕ) (d : Deleted) (next : ℕ → Deleted → M (ℕ × Deleted))
      → Q (map (λ r. r.event_id) t)
      → ((n : ℕ) (d : Deleted) → Keeps P (next n d))
      → Keeps P (rotate_page env t size d next)
  Keeps-rotate_page [] size d next h k = Keeps-pure _
  Keeps-rotate_page (c ∷ cs) size d next h k =
      Keeps-bind _ _ (Keeps-delete_candidates (c ∷ cs) h) (λ n. k n _)

  settled_page :
      (a b : ℕ) (o : Option Error) (w : World) (t page : Table)
      → P t
      → Ok a b
      → (settle env o (ok (select_rotatable a b rotation_page t), t) w).0 ≡ ok page
      → Q (map (λ r. r.event_id) page)
  settled_page a b none w t page u y e =
      subst (λ l. Q (map (λ r. r.event_id) l)) (ok-injective e) (s.at_select a b t y u)
  settled_page a b (some x) w t page u y e = absurd (ground arith)

  Yields-rotatable_records :
      (a b : ℕ)
      → Ok a b
      → Yields P (λ page. Q (map (λ r. r.event_id) page)) (rotatable_records env a b rotation_page)
  unfolding rotatable_records exec observed query
  Yields-rotatable_records a b y = Yields-wrap_error _ _ (record {
    result =
        λ w page u e. settled_page a b (driver_answer env request w.calls) _ w.table page u y e;
  })

  Keeps-rotation_loop :
      (rounds a b size : ℕ) (d : Deleted) → Ok a b → Keeps P (rotation_loop env rounds a b size d)
  unfolding rotation_loop
  Keeps-rotation_loop zero a b size d y = Keeps-pure _
  Keeps-rotation_loop (suc rounds) a b size d y =
      Keeps-if (ltb env.cfg.store_rotation_low_watermark size) _ _
        (Keeps-bind _ _ (Keeps-is_done env) (λ stopped.
          Keeps-then _ _
            (Keeps-rotation_step env _ (Keeps-if stopped _ _ (Keeps-raise _) (Keeps-pure tt)))
            (Keeps-bind-Yields _ _
              (Keeps-rotation_step env _ (Keeps-wrap_error _ _ (Keeps-rotatable_records env a b)))
              (Yields-rotation_step _ (Yields-wrap_error _ _ (Yields-rotatable_records a b y)))
              (λ page out.
                Keeps-rotate_page page size d _ out
                  (λ n d'. Keeps-rotation_loop rounds a b n d' y)))))
        (Keeps-pure _)

  Keeps-run_rotation_loop : (a b size : ℕ) → Ok a b → Keeps P (run_rotation_loop env a b size)
  unfolding run_rotation_loop
  Keeps-run_rotation_loop a b size y = record {
    at = λ w h. (Keeps-rotation_loop _ a b size _ y).at w h;
  }

  -- the cutoffs at every time that the clock shows
  abbrev pub AllCutoffs : Type 0
  AllCutoffs =
      (n m : ℕ)
      → Ok (env.now n - env.cfg.store_retention_delivered)
          (env.now m - env.cfg.store_retention_dead_letter)

  Keeps-rotate_rows : (size : ℕ) → AllCutoffs → Keeps P (rotate_rows env size)
  unfolding rotate_rows clock ◌>>=◌ on_result
  Keeps-rotate_rows size kept = record {
    at = λ w h.
        (Keeps-bind _ _ (Keeps-run_rotation_loop _ _ size (kept w.calls (suc w.calls)))
            (λ done. Keeps-finish_rotation env done.1)).at
          (tick (tick w)) h;
  }

  pub Keeps-rotate_store : AllCutoffs → Keeps P (rotate_store env)
  unfolding rotate_store
  Keeps-rotate_store kept = Keeps-bind _ _ (Keeps-measured env _) (λ size.
      Keeps-then _ _ (Keeps-record_metric _)
        (Keeps-if _ _ _ (Keeps-record_metric _) (Keeps-rotate_rows size kept)))

  Keeps-make_room : AllCutoffs → Keeps P (make_room env)
  unfolding make_room
  Keeps-make_room kept =
      Keeps-then _ _
        (Keeps-if env.cfg.store_rotation_enabled _ _ (Keeps-rotate_store kept) (Keeps-pure tt))
        (Keeps-bind _ _ (Keeps-wrap_error _ _ (Keeps-size_bytes env))
          (λ size. search keeps_rules depth 9))

  pub Keeps-ensure_capacity : AllCutoffs → Keeps P (ensure_capacity env)
  unfolding ensure_capacity
  Keeps-ensure_capacity kept = Keeps-bind _ _ (Keeps-wrap_error _ _ (Keeps-size_bytes env)) (λ size.
      Keeps-then _ _ (Keeps-record_metric _)
        (Keeps-if _ _ _ (Keeps-record_metric _) (Keeps-make_room kept)))
