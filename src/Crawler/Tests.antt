-- ===== src/Crawler/Tests.antt =====
-- Examples: a queue with two catalogs, and the statements on it.
mod Batching
mod Finding
use mathlib.Core.List.{Memᴰ}
use beckn_onix.Base.{
  ℕ, Str, str, ◌==◌, Dict, lookup, insert, if◌then◌else◌, Bool, true, false, ltb, List, [], ◌∷◌,
  Option, none, some, ◌≡◌, ◌≢◌, refl, sym, ap, subst, ◌∙◌, arith, inl, inr, is_some,
}
use beckn_onix.Model.Error.{GoError}
use beckn_onix.Model.Result.{Result, ok, err}
use beckn_onix.Crawler.Rows.{
  QueueStatus, queued, in_progress, parked, Timestamp, at, infinity, Row, QueueItem, new_row, stamp,
  op_of, is_held, is_ready, is_free, is_due, is_before,
}
use beckn_onix.Crawler.Queue.{
  count_where, upsert_item, is_op_allowed, next_ready, sooner, claim_next, ClaimedItem,
  claimed_item, delete_held, update_where, enqueue, requeue_or_abandon_parked, reschedule, park,
}
use beckn_onix.Crawler.Cursors.{
  upsert_catalog, settled, failed_row, Catalog, CatalogCursor, PassReport, Envelope, complete,
  record_failure, get_catalog_cursor,
}
use beckn_onix.Crawler.Settling.{
  complete-get_catalog_cursor, record_failure-get_catalog_cursor, without_envelope, failed_cursor,
}
use beckn_onix.Crawler.Steps.{
  IsFresh, Step, enqueued, claimed, was_parked, were_revived, Reach, here, after, IsSound,
  Reach-IsSound,
}
use beckn_onix.Crawler.Claims.{
  IsClaim, IsTakable, claim_next-IsClaim, claim_next-IsTakable, claim_next-lost,
}
use beckn_onix.Crawler.Sweep.{IsSwept, requeue_or_abandon_parked-IsSwept}
use beckn_onix.Crawler.Tick.{
  Sync, synced, drained, finished, Settled, count_due, sync_tick, IsEnded, sync_tick-IsEnded,
}
use beckn_onix.Crawler.Scheduler.{
  cancel, Scheduler, new_scheduler, start, launch, run_once, stop_begin, stop_end, Run, here, after,
  started, launched, asked, task_ended, loop_ended, live, cancelled, unset, stop-IsQuiet,
}

abbrev item : Str → QueueItem
item catalog_id = record { catalog_id = catalog_id; index_url = str "u"; op = [] }

abbrev one_row : List Row
one_row = new_row 5 (str "i") (item (str "a")) ∷ []

abbrev two_rows : List Row
two_rows = new_row 5 (str "i") (item (str "a")) ∷ new_row 3 (str "j") (item (str "b")) ∷ []

abbrev unlocked : Str → Bool
unlocked id = false

first_item : enqueue 5 (str "i") (item (str "a")) [] ≡ ok one_row
unfolding str ◌==◌ enqueue upsert_item op_of is_op_allowed new_row
first_item = refl

second_item : enqueue 3 (str "j") (item (str "b")) one_row ≡ ok two_rows
unfolding str ◌==◌ enqueue upsert_item op_of is_op_allowed new_row
second_item = refl

second-IsFresh : IsFresh (str "j") one_row
unfolding str ◌==◌ new_row
second-IsFresh = (refl, tt)

reached : Reach [] two_rows
reached =
    after (after here (enqueued 5 (str "i") (item (str "a")) tt first_item))
      (enqueued 3 (str "j") (item (str "b")) second-IsFresh second_item)

reached_parked :
    Reach [] (park 9 (str "j") (str "c") (claim_next 8 (str "c") unlocked [] two_rows).1)
reached_parked =
    after (after reached (claimed 8 (str "c") unlocked [])) (was_parked 9 (str "j") (str "c"))

Reach-IsSound_example :
    IsSound (park 9 (str "j") (str "c") (claim_next 8 (str "c") unlocked [] two_rows).1)
Reach-IsSound_example = Reach-IsSound reached_parked

claim_next-IsClaim_example :
    IsClaim 8 (str "c") unlocked [] two_rows (claim_next 8 (str "c") unlocked [] two_rows)
claim_next-IsClaim_example = claim_next-IsClaim 8 (str "c") unlocked [] two_rows

-- The row of the earlier time is taken.
abbrev second : Row
second = new_row 3 (str "j") (item (str "b"))

abbrev after_claim : List Row
after_claim = new_row 5 (str "i") (item (str "a")) ∷ stamp 8 (str "c") second ∷ []

claims_second :
    claim_next 8 (str "c") unlocked [] two_rows
    ≡ (some (claimed_item (str "c") [] second), after_claim)
unfolding str ◌==◌ claim_next next_ready is_ready is_free new_row is_due sooner update_where
    is_before stamp
claims_second = refl

claim_next-IsTakable_example :
    (row : Row) × Memᴰ row two_rows
    × (claimed_item (str "c") [] second ≡ claimed_item (str "c") [] row)
    × IsTakable 8 row
claim_next-IsTakable_example =
    claim_next-IsTakable 8 (str "c") unlocked [] two_rows after_claim
      (claimed_item (str "c") [] second) reached claims_second

claim_next-lost_example :
    (reschedule (str "j") (str "old") 50 after_claim ≡ after_claim)
    × (park 9 (str "j") (str "old") after_claim ≡ after_claim)
    × (delete_held (str "j") (str "old") after_claim ≡ after_claim)
unfolding ◌==◌ str claimed_item new_row
claim_next-lost_example =
    claim_next-lost 8 (str "old") (str "c") unlocked [] two_rows after_claim
      (claimed_item (str "c") [] second) 9 50 claims_second refl

-- The row of one catalog is parked, and is due for the sweep.
abbrev with_parked : List Row
with_parked = park 9 (str "j") (str "c") after_claim

requeue_or_abandon_parked-IsSwept_example :
    IsSwept 20 21 10 1 with_parked (requeue_or_abandon_parked 20 (λ l. l) 21 10 1 with_parked)
requeue_or_abandon_parked-IsSwept_example =
    requeue_or_abandon_parked-IsSwept 20 21 10 1 (omega arith) with_parked

-- A `SyncNext` that completes each item at once.
abbrev settle : Option ClaimedItem × List Row → (Bool × Option GoError) × List Row
settle (none, left) = ((false, none), left)
settle (some i, left) = ((true, none), delete_held i.id (str "c") left)

abbrev complete_at_once : List Row → (Bool × Option GoError) × List Row
complete_at_once rows = settle (claim_next 8 (str "c") unlocked [] rows)

complete_at_once-Sync :
    (rows : List Row)
    → Sync 8 8 unlocked rows
        (complete_at_once rows).0.0
        (complete_at_once rows).0.1
        (complete_at_once rows).1
complete_at_once-Sync rows = by_claim (claim_next 8 (str "c") unlocked [] rows) refl
  where
    by_claim :
        (a : Option ClaimedItem × List Row)
        → claim_next 8 (str "c") unlocked [] rows ≡ a
        → Sync 8 8 unlocked rows (settle a).0.0 (settle a).0.1 (settle a).1
    by_claim (none, left) e =
        let (_, same) =
          subst (IsClaim 8 (str "c") unlocked [] rows) e
            (claim_next-IsClaim 8 (str "c") unlocked [] rows) in
        subst (Sync 8 8 unlocked rows false none) (sym same)
          (drained (str "c") [] (e ∙ ap (λ (l : List Row). (none, l)) same))
    by_claim (some i, left) e = synced (str "c") [] (omega arith) e finished

-- Both catalogs are synced, and the third call finds none.
sync_tick-IsEnded_example :
    IsEnded
      (λ (rows : List Row). rows)
      (λ rows. 8)
      (λ rows. unlocked)
      (λ rows. false)
      complete_at_once
      two_rows
      (sync_tick 3 (λ rows. false) complete_at_once two_rows)
unfolding count_where is_due new_row
sync_tick-IsEnded_example =
    sync_tick-IsEnded (λ (rows : List Row). rows) (λ rows. 8) (λ rows. unlocked) (λ rows. false)
      complete_at_once 8 complete_at_once-Sync 3 two_rows (omega arith)

abbrev cursor : CatalogCursor
cursor = record {
  catalog_id = str "b";
  index_url = str "u";
  participant_id = str "p";
  version = 2;
  entry_version = 4;
  retired = false;
  descriptor = str "{}";
  provider = [];
  catalog_type = [];
}

abbrev settled_catalogs : Dict Catalog
settled_catalogs = (str "b", settled 9 cursor none) ∷ []

completes : complete 9 (str "j") (str "c") cursor [] after_claim ≡ ok (settled_catalogs, one_row)
unfolding complete upsert_catalog delete_held is_held str ◌==◌ stamp new_row lookup insert
completes = refl

complete-get_catalog_cursor_example :
    (get_catalog_cursor (str "b") settled_catalogs ≡ (
      if str "b" == str "b"
      then some (without_envelope cursor)
      else get_catalog_cursor (str "b") []))
    × (one_row ≡ delete_held (str "j") (str "c") after_claim)
complete-get_catalog_cursor_example =
    complete-get_catalog_cursor 9 (str "j") (str "c") cursor [] after_claim settled_catalogs one_row
      completes (str "b")

abbrev report : PassReport
report = record {
  catalog_id = str "b";
  index_url = str "u";
  participant_id = str "p";
  error = str "no file";
}

abbrev failed_catalogs : Dict Catalog
failed_catalogs = (str "b", failed_row 12 report (some (settled 9 cursor none))) ∷ []

fails : record_failure 12 report settled_catalogs ≡ ok failed_catalogs
unfolding record_failure str ◌==◌ lookup insert
fails = refl

record_failure-get_catalog_cursor_example : get_catalog_cursor (str "b") failed_catalogs ≡ (
    if str "b" == str "b"
    then some (failed_cursor report (get_catalog_cursor (str "b") settled_catalogs))
    else get_catalog_cursor (str "b") settled_catalogs)
record_failure-get_catalog_cursor_example =
    record_failure-get_catalog_cursor 12 report settled_catalogs failed_catalogs fails (str "b")

-- A scheduler with its three loops and one task.
abbrev running : Scheduler
running = record { ctx = live; is_stopping = false; loops = 3; tasks = 1; starting = 0 }

abbrev waited : Scheduler
waited = record { ctx = cancelled; is_stopping = true; loops = 0; tasks = 0; starting = 0 }

waits : Run (stop_begin running) waited
unfolding stop_begin cancel
waits =
    after
      (after (after (after here (task_ended refl)) (loop_ended refl refl)) (loop_ended refl refl))
      (loop_ended refl refl)

asks : Run (stop_end waited) (run_once (stop_end waited)).1
unfolding stop_end
asks = after here (asked refl)

stop-IsQuiet_example :
    (Scheduler.loops (run_once (stop_end waited)).1 ≡ 0)
    × (Scheduler.tasks (run_once (stop_end waited)).1 ≡ 0)
    × (run_once (run_once (stop_end waited)).1 ≡ (false, (run_once (stop_end waited)).1))
stop-IsQuiet_example =
    stop-IsQuiet running waited (run_once (stop_end waited)).1 (λ e. cc) refl waits refl refl asks
