-- ===== src/Tests/Delivery.antt =====
-- Instances of what is proved of the delivery and of the store.
use mathlib.Core.Option.{some-injective}
use webhook_telegram_proxy.Prelude.{pos, ◌+◌, same_text, same_text_iff, String}
use webhook_telegram_proxy.Store.Unique.{IsUnique}
use webhook_telegram_proxy.Runtime.{FileInfo, Env, exec, observed, query}
use webhook_telegram_proxy.Store.Batches.{IsDeleted, delete_by_event_ids_lem}
use webhook_telegram_proxy.Store.Record.{Table}
use webhook_telegram_proxy.Store.Select.Oldest.{IsOldestDue, select_due-IsOldestDue}
use webhook_telegram_proxy.Prelude.{
  inl, sym, ap, true, false, some, [], ◌∷◌, ◌≡◌, ◌≢◌, refl, arith, codes, All,
}
use webhook_telegram_proxy.Errors.{api, wrap, ApiError, ok, plain}
use webhook_telegram_proxy.Store.Record.{is_claimable, Record, is_claimable, queued, delivered}
use webhook_telegram_proxy.Store.Queries.{
  is_listed, update_where, update, claim, select_due, find, find_where,
}
use webhook_telegram_proxy.Store.Methods.{delete_by_event_ids, claim_for_send}
use webhook_telegram_proxy.Store.Claims.{
  IsClaimed, claim_for_send-exclusive, claim_for_send-IsClaimed,
}
use webhook_telegram_proxy.Service.Backoff.{backoff, exponential, backoff-exponential}
use webhook_telegram_proxy.Service.Delivery.{
  recover_pending, process_event_by_id, handle_send_error,
}
use webhook_telegram_proxy.Service.Delivery.Throttling.{handle_send_error-IsRespected}
use webhook_telegram_proxy.Service.Delivery.Settling.{Settles, handle_send_error-Settles}
use webhook_telegram_proxy.Service.Delivery.Attempts.{Attempt}
use webhook_telegram_proxy.Service.Delivery.Processing.{
  Untouched, process_event_by_id-Attempt, process_event_by_id-Untouched,
}
use webhook_telegram_proxy.Service.Delivery.Delivered.{
  Accepts, IsDelivered, Delivers, process_event_by_id-Delivers,
}
use webhook_telegram_proxy.Service.Delivery.Recovery.{
  HasMessage, due_ids, recover_pending-IsDelivered,
}
use webhook_telegram_proxy.Service.Delivery.Lifecycle.{
  Follows, recovery_ticks, recovery_ticks-Follows,
}
use webhook_telegram_proxy.Service.Delivery.Exact.{InStep, attempts, attempts-exact}
use webhook_telegram_proxy.Service.Rotation.Rounds.{rotation_loop-enough}
use webhook_telegram_proxy.Service.Rotation.{Deleted, rotation_loop, ensure_capacity}
use webhook_telegram_proxy.Service.Rotation.Kept.{ensure_capacity_safe}
use webhook_telegram_proxy.Tests.{World, calm, calm-IsQuiet, row, world}

abbrev fresh : Record
fresh = row queued [] 0

abbrev half : Record
half = row queued (codes "one" ∷ codes "two" ∷ []) 1

find-fresh : find "e1" (world fresh).table ≡ some fresh
unfolding find find_where
find-fresh = refl

find-half : find "e1" (world half).table ≡ some half
unfolding find find_where
find-half = refl

attempts-exact_example :
    InStep calm "e1" fresh.original_payload [] (attempts calm "e1" 2 (world fresh))
attempts-exact_example =
    attempts-exact calm "e1" 2 (world fresh) fresh calm-IsQuiet find-fresh refl refl (λ e. cc)

process_event_by_id-Attempt_example :
    Attempt calm "e1" half (world half) (process_event_by_id calm "e1" (world half)).1
process_event_by_id-Attempt_example =
    process_event_by_id-Attempt calm calm-IsQuiet "e1" (world half) half find-half refl
      (omega arith)

find_delivered :
    (r : Record)
    → find "e1" (world (row delivered [] 0)).table ≡ some r
    → is_claimable r.status ≡ false
unfolding find find_where
find_delivered r e = ap (λ s. is_claimable s.status) (sym (some-injective _ _ e))

process_event_by_id-Untouched_example :
    Untouched
      (world (row delivered [] 0))
      (process_event_by_id calm "e1" (world (row delivered [] 0))).1
process_event_by_id-Untouched_example =
    process_event_by_id-Untouched calm calm-IsQuiet "e1" (world (row delivered [] 0)) find_delivered

handle_send_error-Settles_example :
    Settles "e1"
      (world half)
      (handle_send_error calm half half.rendered_parts (plain (codes "refused")) (world half)).1
handle_send_error-Settles_example =
    handle_send_error-Settles calm calm-IsQuiet half half.rendered_parts (plain (codes "refused"))
      (world half)

abbrev too_many_requests : ApiError
too_many_requests = record {
  status_code = pos 429;
  error_code = pos 429;
  description = codes "Too Many Requests";
  retryable = true;
  retry_after = pos 30;
}

abbrev after_429 : World
after_429 =
    (handle_send_error calm half half.rendered_parts (wrap (codes "send") (api too_many_requests))
      (world half)).1

handle_send_error-IsRespected_example : is_listed (select_due 1031 10 after_429.table) "e1" ≡ false
handle_send_error-IsRespected_example =
    handle_send_error-IsRespected calm calm-IsQuiet half half.rendered_parts
      (wrap (codes "send") (api too_many_requests)) too_many_requests 30 1031 10 (world half) refl
      refl refl (ground arith) (ground arith)

backoff-exponential_example : backoff 4 10 100 ≡ exponential 3 10 100
backoff-exponential_example = backoff-exponential 3 10 100 (omega arith) (omega arith) (omega arith)

-- the world after a first claim
abbrev claimed_world : World
claimed_world = (claim_for_send calm "e1" 50 (world fresh)).1

claim-fresh : (claim_for_send calm "e1" 50 (world fresh)).0 ≡ ok (some (claim 50 fresh))
unfolding claim_for_send exec observed query find find_where update update_where claim
claim-fresh = refl

claim_for_send-IsClaimed_example : IsClaimed "e1" (claim 50 fresh) claimed_world.table
claim_for_send-IsClaimed_example =
    claim_for_send-IsClaimed calm "e1" 50 (world fresh) (claim 50 fresh) claim-fresh

claim_for_send-exclusive_example :
    (claim_for_send calm "e1" 60 claimed_world).0 ≢ ok (some (claim 60 fresh))
claim_for_send-exclusive_example =
    claim_for_send-exclusive calm "e1" 50 60 (world fresh) claimed_world (claim 50 fresh)
      (claim 60 fresh) claim-fresh refl

-- two due rows, the younger first, one that is not due yet, and one that is delivered
abbrev listed_rows : Table
listed_rows =
    record fresh { event_id = "e2"; created_at = 9 }
    ∷ fresh
    ∷ record fresh { next_retry_at = some 99 }
    ∷ row delivered [] 0
    ∷ []

select_due-IsOldestDue_example : IsOldestDue 50 1 listed_rows (select_due 50 1 listed_rows)
select_due-IsOldestDue_example = select_due-IsOldestDue 50 1 listed_rows

-- an environment whose store is above the high watermark, with a retention of ten
abbrev full : Env
full = record calm {
  stat = λ _ _ _. FileInfo.size 950;
  cfg = record calm.cfg { store_retention_delivered = 10; store_retention_dead_letter = 10 };
}

-- an old delivered row that the rotation deletes, and a fresh one
abbrev aged_world : World
aged_world = record (world fresh) {
  table = record (row delivered [] 0) { event_id = "e0"; idempotency_key = "k0" } ∷ fresh ∷ [];
}

different : (s t : String) → same_text s t ≡ false → s ≢ t
different s t h e = let same = (same_text_iff s t).1 e in cc

aged-IsUnique : IsUnique aged_world.table
aged-IsUnique = (((different "e0" "e1" refl, different "k0" "k1" refl), tt), (tt, tt))

find-aged : find "e1" aged_world.table ≡ some fresh
unfolding find find_where
find-aged = refl

ensure_capacity_safe_example : find "e1" (ensure_capacity full aged_world).1.table ≡ some fresh
ensure_capacity_safe_example =
    ensure_capacity_safe full "e1" fresh aged_world (λ n m. (inl refl, inl refl)) aged-IsUnique
      find-aged

abbrev none_deleted : Deleted
none_deleted = record { delivered_rows = 0; failed_rows = 0; dead_letter_rows = 0 }

rotation_loop-enough_example :
    rotation_loop full 3 990 990 950 none_deleted aged_world
    ≡ rotation_loop full 9 990 990 950 none_deleted aged_world
rotation_loop-enough_example =
    rotation_loop-enough full 3 9 990 990 950 none_deleted aged_world (omega arith) (omega arith)

delete_by_event_ids_lem_example :
    IsDeleted ("e0" ∷ "e7" ∷ []) aged_world (delete_by_event_ids calm ("e0" ∷ "e7" ∷ []) aged_world)
delete_by_event_ids_lem_example =
    delete_by_event_ids_lem calm calm-IsQuiet ("e0" ∷ "e7" ∷ []) aged_world

accepts : Accepts calm
accepts n text = (n + 1, refl)

process_event_by_id-Delivers_example :
    Delivers "e1" half (world half) (process_event_by_id calm "e1" (world half)).1
process_event_by_id-Delivers_example =
    process_event_by_id-Delivers calm "e1" (world half) half calm-IsQuiet accepts find-half refl
      (omega arith) (inl (λ e. cc))

half-HasMessage : All (HasMessage calm) (world half).table
half-HasMessage = ((omega arith, inl (λ e. cc)), tt)

recover_pending-IsDelivered_example :
    All (λ id. IsDelivered id (recover_pending calm (world half)).1) (due_ids calm (world half))
recover_pending-IsDelivered_example =
    recover_pending-IsDelivered calm (world half) calm-IsQuiet accepts (tt, tt) half-HasMessage

recovery_ticks-Follows_example : Follows queued "e1" (recovery_ticks calm 2 (world half))
recovery_ticks-Follows_example =
    recovery_ticks-Follows calm "e1" 2 (world half) half calm-IsQuiet find-half (omega arith)
