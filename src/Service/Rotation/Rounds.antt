-- ===== src/Service/Rotation/Rounds.antt =====
-- The rounds that the model gives to the rotation loop are enough.
use webhook_telegram_proxy.Prelude.{
  if◌then◌else◌, min, codes, min, subst, ℕ, zero, suc, ◌≤◌, ◌<◌, String, Bool, true, not, List, [],
  ◌∷◌, ◌≡◌, refl, arith, length, filter, any, take, All, All-take, length-filter-le, same_text,
  same_text_iff, Bool-cases, inl, inr, ltb,
}
use webhook_telegram_proxy.Errors.{context_canceled, ok-injective}
use webhook_telegram_proxy.Store.Record.{Record, Table}
use webhook_telegram_proxy.Store.Queries.{has_id, is_listed, delete_listed, select_rotatable}
use webhook_telegram_proxy.Store.Select.{All-order_by}
use webhook_telegram_proxy.Store.Methods.{
  delete_batch_size, delete_batches, delete_by_event_ids, rotatable_records,
}
use webhook_telegram_proxy.Runtime.{
  wrap_error, wrap_error, pure, raise, is_done, on_result, Env, World, M, ◌>>◌,
}
use webhook_telegram_proxy.Runtime.Keeps.{
  Keeps-raise, Keeps-if, Keeps-is_done, Keeps-record_metric, Keeps-query, Keeps-then, Keeps-bind,
  Keeps, Keeps-pure,
}
use webhook_telegram_proxy.Runtime.Gives.{
  Gives, Gives-Keeps, Gives-then, Gives-wrap_error, Gives-observed, Gives-query, Gives-exec,
  Gives-through, bind-agree, then-agree,
}
use webhook_telegram_proxy.Service.Rotation.Parts.{Keeps-measured, Keeps-rotation_step}
use webhook_telegram_proxy.Service.Rotation.{
  rotation_round, Deleted, rotation_step, delete_candidates, rotate_page, rotation_loop,
  rotation_page,
}

-- there is a row of the event
abbrev Has : String → Table → Type 0
Has id t = any (has_id id) t ≡ true

Has-later :
    (r : Record) (s t : Table) → All (λ u. Has u.event_id t) s → All (λ u. Has u.event_id (r ∷ t)) s
Has-later r [] t h = tt
Has-later r (u ∷ s) t (h, hs) = (ground (arith, h), Has-later r s t hs)

Has-self : (t : Table) → All (λ u. Has u.event_id t) t
Has-self [] = tt
Has-self (r ∷ t) =
    (rw ((same_text_iff r.event_id r.event_id).1 refl) refl, Has-later r t t (Has-self t))

All-filter_of : (P : Record → Type 0) (p : Record → Bool) (t : Table) → All P t → All P (filter p t)
All-filter_of P p [] h = tt
All-filter_of P p (r ∷ t) (h, hs) = ground (arith, All-filter_of P p t hs)

selected-Has :
    (a b limit : ℕ) (t : Table) → All (λ u. Has u.event_id t) (select_rotatable a b limit t)
unfolding select_rotatable
selected-Has a b limit t =
    All-take _ limit _ (
      All-order_by (λ u. Has u.event_id t) (λ r. r.updated_at) _ (All-filter_of _ _ t (Has-self t)))

shorter :
    (id : String) (ids : List String) (t : Table)
    → Has id t
    → length (delete_listed (id ∷ ids) t) < length t
unfolding delete_listed
shorter id ids [] h = cc
shorter id ids (r ∷ t) h = elim (Bool-cases (same_text r.event_id id)) [
  | inl same ↦
      rw same (omega (arith, length-filter-le (λ s. not (is_listed (id ∷ ids) s.event_id)) t))
  | inr other ↦ let rest = shorter id ids t (rw other at h) in ground (arith, rest)
]

abbrev Below : ℕ → Table → Type 0
Below n t = length t < n

abbrev Within : ℕ → Table → Type 0
Within n t = length t ≤ n

module _ (env : Env) where
  batches_shrink :
      (n rounds : ℕ) (ids : List String) → Keeps (Below n) (delete_batches env rounds ids)
  unfolding delete_batches delete_listed
  batches_shrink n zero ids = Keeps-pure tt
  batches_shrink n (suc rounds) [] = Keeps-pure tt
  batches_shrink n (suc rounds) (id ∷ ids) =
      Keeps-then _ _
        (Keeps-query env _ _ (λ _ t h. omega (
          arith,
          length-filter-le (λ s. not (is_listed (take delete_batch_size (id ∷ ids)) s.event_id)) t,
        )))
        (batches_shrink n rounds _)

  -- where the deletion of a row that is there returns, the table is shorter
  deletion_shrinks :
      (n : ℕ) (id : String) (ids : List String)
      → Gives (λ t. Within n t × Has id t) (λ _. Below n) (delete_by_event_ids env (id ∷ ids))
  unfolding delete_by_event_ids delete_batches
  deletion_shrinks n id ids = Gives-wrap_error _ _ (
      Gives-observed _ _ (
        Gives-then {Q = λ _. Below n} _ _
          (Gives-query env _ _
            (λ _ t a (le, has) h. omega (arith, shorter id (take 499 ids) t has)))
          (λ _. Gives-Keeps _ (batches_shrink n _ _))))

  Gives-rotation_step :
      {A : Type 0} {P : Table → Type 0} {Q : A → Table → Type 0} (m : M A)
      → Gives P Q m
      → Gives P Q (rotation_step m)
  unfolding rotation_step ◌>>◌ on_result
  Gives-rotation_step m km = Gives-through m _ (λ e v a h. cc) km

  round_shrinks :
      (n : ℕ) (c : Record) (cs : Table)
      → Gives (λ t. Within n t × Has c.event_id t) (λ _. Below n) (delete_candidates env (c ∷ cs))
  unfolding delete_candidates
  round_shrinks n c cs =
      Gives-then {Q = λ _. Below n} _ _
        (Gives-rotation_step _ (Gives-wrap_error _ _ (deletion_shrinks n c.event_id _)))
        (λ _. Gives-Keeps _ (
          Keeps-bind _ _ (Keeps-measured env _)
            (λ s. Keeps-then _ _ (Keeps-record_metric _) (Keeps-pure s))))

  -- The page that is read: of rows in the table.
  abbrev IsPage : ℕ → Table → Table → Type 0
  IsPage n page t = Within n t × All (λ u. Has u.event_id t) page

  IsPage-read : (n a b : ℕ) → Gives (Within n) (IsPage n) (rotatable_records env a b rotation_page)
  unfolding rotatable_records
  IsPage-read n a b = Gives-wrap_error _ _ (
      Gives-exec env _ _ _ (λ _ t page le h. (
        le,
        subst (All (λ u. Has u.event_id t)) (ok-injective h) (selected-Has a b rotation_page t),
      )))

  page_agree :
      (n : ℕ) (page : Table) (size : ℕ) (d : Deleted) (f g : ℕ → Deleted → M (ℕ × Deleted))
      (w : World)
      → IsPage n page w.table
      → ((size' : ℕ) (d' : Deleted) (w' : World) → Below n w'.table → f size' d' w' ≡ g size' d' w')
      → rotate_page env page size d f w ≡ rotate_page env page size d g w
  page_agree n [] size d f g w p same = refl
  page_agree n (c ∷ cs) size d f g w (le, (has, more)) same =
      bind-agree (delete_candidates env (c ∷ cs)) _ _ w (round_shrinks n c cs) (le, has)
        (λ size' w' h. same size' _ w' h)

  -- one round, with what follows it
  round_agree :
      (n a b size : ℕ) (d : Deleted) (f g : ℕ → Deleted → M (ℕ × Deleted)) (w : World)
      → Within n w.table
      → ((size' : ℕ) (d' : Deleted) (w' : World) → Below n w'.table → f size' d' w' ≡ g size' d' w')
      → rotation_round env a b size d f w ≡ rotation_round env a b size d g w
  unfolding is_done
  round_agree n a b size d f g w le same =
      bind-agree {Q = λ _. Within n} (is_done env) _ _ w (Gives-Keeps _ (Keeps-is_done env)) le
        (λ stopped v le'.
          then-agree {Q = λ _. Within n}
            (rotation_step (if stopped then raise context_canceled else pure tt)) _ _ v
            (Gives-Keeps _
              (Keeps-rotation_step env _ (Keeps-if stopped _ _ (Keeps-raise _) (Keeps-pure tt))))
            le'
            (λ _ u le''.
              bind-agree {Q = IsPage n}
                (rotation_step
                  (wrap_error (codes "select rotatable") (rotatable_records env a b rotation_page)))
                _ _ u (Gives-rotation_step _ (Gives-wrap_error _ _ (IsPage-read n a b))) le''
                (λ page v' p. page_agree n page size d f g v' p same)))

  -- Any two numbers of rounds that exceed the number of rows give `rotation_loop` the same run,
  -- whatever the driver, the clock, the file system and the contexts answer.
  pub rotation_loop-enough :
      (rounds rounds' a b size : ℕ) (d : Deleted) (w : World)
      → length w.table < rounds
      → length w.table < rounds'
      → rotation_loop env rounds a b size d w ≡ rotation_loop env rounds' a b size d w
  unfolding rotation_loop
  rotation_loop-enough zero rounds' a b size d w h k = absurd (omega arith)
  rotation_loop-enough (suc rounds) zero a b size d w h k = absurd (omega arith)
  rotation_loop-enough (suc rounds) (suc rounds') a b size d w h k =
      elim (Bool-cases (ltb env.cfg.store_rotation_low_watermark size)) [
        | inr low ↦ rw low refl
        | inl high ↦ rw high (
            round_agree (min rounds rounds') a b size d (rotation_loop env rounds a b)
              (rotation_loop env rounds' a b) w (omega arith)
              (λ size' d' w' less.
                rotation_loop-enough rounds rounds' a b size' d' w' (omega arith) (omega arith)))
      ]
