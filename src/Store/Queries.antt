-- ===== src/Store/Queries.antt =====
-- The SQL statements of internal/store/sqlite.go as functions of the table.
-- Rows with equal sort keys keep their order of insertion.
use webhook_telegram_proxy.Prelude.{
  ℕ, ◌+◌, String, Bool, true, not, ◌&&◌, ◌||◌, Option, none, some, List, [], ◌∷◌, ◌++◌, map, leb,
  take, filter, any, if◌then◌else◌, same_text,
}
use webhook_telegram_proxy.Errors.{Result, ok, err, already_exists}
use webhook_telegram_proxy.Store.Record.{
  Record, Table, sending, is_claimable, is_dead, is_delivered,
}

abbrev pub has_id : String → Record → Bool
has_id id r = same_text r.event_id id

abbrev pub has_key : String → Record → Bool
has_key key r = same_text r.idempotency_key key

-- SELECT … WHERE p, of which the code reads the first row
unfoldable pub find_where : (Record → Bool) → Table → Option Record
find_where p [] = none
find_where p (r ∷ t) = let rest = find_where p t in if p r then some r else rest

-- UPDATE … SET f WHERE p
unfoldable pub update_where : (Record → Bool) → (Record → Record) → Table → Table
update_where p f [] = []
update_where p f (r ∷ t) = (if p r then f r else r) ∷ update_where p f t

unfoldable pub find : String → Table → Option Record
find id t = find_where (has_id id) t

unfoldable pub find_key : String → Table → Option Record
find_key key t = find_where (has_key key) t

unfoldable pub update : String → (Record → Record) → Table → Table
update id f t = update_where (has_id id) f t

-- INSERT, with the PRIMARY KEY on event_id and the UNIQUE column idempotency_key
abbrev pub conflicts : Record → Record → Bool
conflicts new r = has_id new.event_id r || has_key new.idempotency_key r

unfoldable pub insert : Record → Table → Result (Unit {0}) × Table
insert r t = if any (conflicts r) t then (err already_exists, t) else (ok tt, t ++ r ∷ [])

-- ORDER BY key ASC
unfoldable pub insert_by : (Record → ℕ) → Record → Table → Table
insert_by key r [] = r ∷ []
insert_by key r (s ∷ t) =
    let later = s ∷ insert_by key r t in if leb (key r) (key s) then r ∷ s ∷ t else later

unfoldable pub order_by : (Record → ℕ) → Table → Table
unfolding insert_by
order_by key [] = []
order_by key (r ∷ t) = insert_by key r (order_by key t)

-- next_retry_at IS NULL OR next_retry_at <= now
abbrev pub reached : Option ℕ → ℕ → Bool
reached none now = true
reached (some at) now = leb at now

abbrev pub is_due : ℕ → Record → Bool
is_due now r = is_claimable r.status && reached r.next_retry_at now

unfoldable pub select_due : ℕ → ℕ → Table → List String
select_due now limit t =
    map (λ r. r.event_id) (take limit (order_by (λ r. r.created_at) (filter (is_due now) t)))

abbrev pub is_rotatable : ℕ → ℕ → Record → Bool
is_rotatable delivered_before terminal_before r =
    (is_delivered r.status && leb r.updated_at delivered_before)
    || (is_dead r.status && leb r.updated_at terminal_before)

unfoldable pub select_rotatable : ℕ → ℕ → ℕ → Table → Table
select_rotatable delivered_before terminal_before limit t =
    take limit
      (order_by (λ r. r.updated_at) (filter (is_rotatable delivered_before terminal_before) t))

-- DELETE … WHERE event_id IN ids
abbrev pub is_listed : List String → String → Bool
is_listed ids j = any (λ id. same_text j id) ids

unfoldable pub delete_listed : List String → Table → Table
delete_listed ids t = filter (λ r. not (is_listed ids r.event_id)) t

unfoldable pub claim : ℕ → Record → Record
claim now r = record r {
  status = sending;
  attempt_count = r.attempt_count + 1;
  updated_at = now;
  last_attempt_at = some now;
  next_retry_at = none;
}
