-- ===== src/Store/Methods.antt =====
-- The methods of `Store` (internal/store/sqlite.go). A statement that updates the rows of an event
-- changes nothing where there is no such row.
use webhook_telegram_proxy.Prelude.{
  ℕ, zero, suc, ◌+◌, ◌++◌, ◌-◌, String, Option, List, [], ◌∷◌, map, Text, codes, length, take, drop,
  filter, if◌then◌else◌,
}
use webhook_telegram_proxy.Errors.{
  wrap, external, already_exists, not_found, ok, err, is_already_exists,
}
use webhook_telegram_proxy.Store.Record.{
  Record, Table, Status, queued, failed, dead_letter, is_pending,
}
use webhook_telegram_proxy.Store.Queries.{
  find, find_key, update_where, update, insert, select_due, select_rotatable, delete_listed,
}
use webhook_telegram_proxy.Store.Changes.{
  done, claim_query, requeue_query, requeue_sending_row, is_stuck, queue_row, rendered_row,
  chunk_row, delivered_row, retry_row, terminal_row, oldest, age,
}
use webhook_telegram_proxy.Runtime.{
  query, observed, tick, FileInfo, Env, Context, request, M, pure, raise, on_result, ◌>>◌,
  wrap_error, exec,
}

abbrev pub delete_batch_size : ℕ
delete_batch_size = 500

-- what one file adds to the total, and what follows
abbrev pub add_size : Text → FileInfo → ℕ → (ℕ → M ℕ) → M ℕ
add_size path (FileInfo.size n) total next w = next (total + n) (tick w)
add_size path FileInfo.not_exist total next w = next total (tick w)
add_size path (FileInfo.stat_error e) total next w =
    (err (wrap (codes "stat " ++ path) (external e)), tick w)

module _ (env : Env) where
  unfoldable pub get_by_idempotency_key : String → M (Option Record)
  get_by_idempotency_key key =
      exec env "get_by_idempotency_key" request (λ _ t. done (find_key key t) t)

  unfoldable pub get_by_event_id : String → M (Option Record)
  get_by_event_id id = exec env "get_by_event_id" request (λ _ t. done (find id t) t)

  unfoldable pub create_received : Record → M (Unit {0})
  create_received r =
      on_result (exec env "create_received" request (λ _ t. insert r t))
        (λ e.
          if is_already_exists e
          then raise already_exists
          else wrap_error (codes "insert delivery") (raise e))
        pure

  -- `updateStatus`
  unfoldable pub update_status : String → String → Status → ℕ → Text → M (Unit {0})
  update_status op id status next_retry_at last_error = wrap_error (codes op) (
      exec env op request
        λ now t. done tt (update id (queue_row status next_retry_at last_error now) t))

  unfoldable pub mark_queued : String → ℕ → M (Unit {0})
  unfolding update_status
  mark_queued id next_retry_at = update_status "mark_queued" id queued next_retry_at []

  unfoldable pub requeue : String → ℕ → M (Unit {0})
  requeue id next_retry_at =
      on_result (exec env "requeue" request (requeue_query id next_retry_at))
        (λ e. elim e [
          | not_found ↦ raise not_found
          | other ↦ wrap_error (codes "requeue") (raise other)
        ])
        pure

  unfoldable pub requeue_sending : ℕ → M ℕ
  requeue_sending next_retry_at = wrap_error (codes "requeue sending") (
      exec env "requeue_sending" request λ now t.
        done (length (filter is_stuck t))
          (update_where is_stuck (requeue_sending_row next_retry_at now) t))

  unfoldable pub claim_for_send : String → ℕ → M (Option Record)
  claim_for_send id now = exec env "claim_for_send" request (λ _. claim_query id now)

  unfoldable pub save_rendered_parts : String → Text → List Text → M (Unit {0})
  save_rendered_parts id rendered_message parts = wrap_error (codes "save rendered parts") (
      exec env "save_rendered_parts" request
        λ now t. done tt (update id (rendered_row rendered_message parts now) t))

  unfoldable pub mark_chunk_sent : String → ℕ → Option ℕ → M (Unit {0})
  mark_chunk_sent id sent_parts first_message_id = wrap_error (codes "mark chunk sent") (
      exec env "mark_chunk_sent" request
        λ now t. done tt (update id (chunk_row sent_parts first_message_id now) t))

  unfoldable pub mark_delivered : String → Text → Text → ℕ → ℕ → M (Unit {0})
  mark_delivered id rendered_message chat_id split_count delivered_at =
      wrap_error (codes "mark delivered") (
        exec env "mark_delivered" request λ now t.
          done tt (update id (delivered_row rendered_message chat_id split_count delivered_at) t))

  unfoldable pub schedule_retry : Context → String → Text → Text → ℕ → M (Unit {0})
  schedule_retry ctx id rendered_message last_error next_retry_at =
      wrap_error (codes "schedule retry") (
        exec env "schedule_retry" ctx
          λ now t. done tt (update id (retry_row rendered_message last_error next_retry_at now) t))

  -- `markTerminal`
  unfoldable pub mark_terminal : Context → String → String → Status → Text → Text → M (Unit {0})
  mark_terminal ctx op id status rendered_message last_error = wrap_error (codes op) (
      exec env op ctx
        λ now t. done tt (update id (terminal_row status rendered_message last_error now) t))

  unfoldable pub mark_failed : Context → String → Text → Text → M (Unit {0})
  unfolding mark_terminal
  mark_failed ctx id = mark_terminal ctx "mark_failed" id failed

  unfoldable pub mark_dead_letter : Context → String → Text → Text → M (Unit {0})
  unfolding mark_terminal
  mark_dead_letter ctx id = mark_terminal ctx "mark_dead_letter" id dead_letter

  unfoldable pub list_due_event_ids : ℕ → ℕ → M (List String)
  list_due_event_ids now limit =
      wrap_error (codes "list due event ids")
        (exec env "list_due_event_ids" request (λ _ t. done (select_due now limit t) t))

  unfoldable pub count_queued : M ℕ
  count_queued = wrap_error (codes "count queued") (
      exec env "count_queued" request
        (λ _ t. done (length (filter (λ r. is_pending r.status) t)) t))

  unfoldable pub oldest_queued_age : ℕ → M ℕ
  oldest_queued_age now = wrap_error (codes "oldest queued age") (
      exec env "oldest_queued_age" request
        (λ _ t. done (age now (oldest (filter (λ r. is_pending r.status) t))) t))

  unfoldable pub rotatable_records : ℕ → ℕ → ℕ → M Table
  rotatable_records delivered_before terminal_before limit = wrap_error (codes "select rotatable") (
      exec env "select_rotatable" request
        (λ _ t. done (select_rotatable delivered_before terminal_before limit t) t))

  -- One round of the loop of `DeleteByEventIDs` for each batch. A round takes at least one id, so as
  -- many rounds as there are ids are enough.
  unfoldable pub delete_batches : ℕ → List String → M (Unit {0})
  delete_batches zero ids = pure tt
  delete_batches (suc rounds) [] = pure tt
  delete_batches (suc rounds) (id ∷ ids) =
      query env request (λ _ t. done tt (delete_listed (take delete_batch_size (id ∷ ids)) t))
      >> delete_batches rounds (drop delete_batch_size (id ∷ ids))

  unfoldable pub delete_by_event_ids : List String → M (Unit {0})
  delete_by_event_ids ids =
      wrap_error (codes "delete batch")
        (observed "delete_by_event_ids" (delete_batches (length ids) ids))

  unfoldable pub delete_terminal_before : ℕ → ℕ → ℕ → M ℕ
  delete_terminal_before delivered_before terminal_before limit =
      wrap_error (codes "delete terminal before") (
        exec env "delete_terminal_before" request λ _ t.
          let ids =
            map (λ r. r.event_id) (select_rotatable delivered_before terminal_before limit t) in
          done (length t - length (delete_listed ids t)) (delete_listed ids t))

  -- `Vacuum` and `CheckpointWAL` change the files and no row.
  unfoldable pub vacuum : M (Unit {0})
  vacuum = wrap_error (codes "vacuum") (exec env "vacuum" request (λ _ t. done tt t))

  unfoldable pub checkpoint_wal : M (Unit {0})
  checkpoint_wal = exec env "checkpoint_wal" request (λ _ t. done tt t)

  -- the loop of `SizeBytes`
  unfoldable pub stat_total : ℕ → List Text → M ℕ
  stat_total total [] w = (ok total, w)
  stat_total total (path ∷ paths) w =
      add_size path (env.stat w.calls w.table path) total (λ n. stat_total n paths) w

  unfoldable pub size_bytes : M ℕ
  size_bytes =
      let path = env.cfg.store_path in
      stat_total 0 (path ∷ (path ++ codes "-wal") ∷ (path ++ codes "-shm") ∷ [])
