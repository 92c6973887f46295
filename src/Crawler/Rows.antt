-- ===== src/Crawler/Rows.antt =====
-- The table `crawler_queue` of internal/store/migrations: its rows, and the updates of single rows
-- that the statements of internal/store/queue.go make. Times are microseconds since 1970; NULL is
-- `none`. The columns from_version, to_version and entry_version, which are always 0, are left out.
use beckn_onix.Base.{
  ℕ, suc, ◌+◌, Str, str, ◌==◌, ltb, leb, Bool, true, false, ◌&&◌, [], Option, none, some,
  if◌then◌else◌,
}

-- the column `status`; `failed` stands in rows from before the migration that added `parked`
pub data QueueStatus : Type 0 where
  queued in_progress failed parked abandoned : QueueStatus

-- a `timestamptz`, which may be 'infinity'
pub data Timestamp : Type 0 where
  at : ℕ → Timestamp
  infinity : Timestamp

pub record Row : Type 0 where
  pub id : Str
  pub catalog_id : Str
  pub index_url : Str
  pub op : Str
  pub status : QueueStatus
  pub attempts : ℕ
  pub next_attempt_at : Timestamp
  pub claimed_at : Option ℕ
  pub claim_id : Option Str
  pub enqueued_at : ℕ
  pub park_count : ℕ
  pub parked_at : Option ℕ
  pub abandoned_at : Option ℕ

-- `crawlmanager.QueueItem`, the fields that `Enqueue` reads
pub record QueueItem : Type 0 where
  pub catalog_id : Str
  pub index_url : Str
  pub op : Str

-- `claimLease`
abbrev pub claim_lease : ℕ
claim_lease = 900_000_000

-- the operation of an item, "sync" if it names none
unfoldable pub op_of : QueueItem → Str
op_of item = if item.op == [] then str "sync" else item.op

-- the row that `Enqueue` inserts
unfoldable pub new_row : ℕ → Str → QueueItem → Row
new_row now id item = record {
  id = id;
  catalog_id = item.catalog_id;
  index_url = item.index_url;
  op = op_of item;
  status = queued;
  attempts = 0;
  next_attempt_at = at now;
  claimed_at = none;
  claim_id = none;
  enqueued_at = now;
  park_count = 0;
  parked_at = none;
  abandoned_at = none;
}

-- what `Enqueue` does to the row that is there: `ON CONFLICT (catalog_id) DO UPDATE`
unfoldable pub coalesce : ℕ → QueueItem → Row → Row
coalesce now item row = elim row.claimed_at [
  | none ↦ record row {
    index_url = item.index_url;
    op = op_of item;
    status = queued;
    attempts = 0;
    next_attempt_at = at now;
    parked_at = none;
    abandoned_at = none;
  }
  | some t ↦ record row { index_url = item.index_url; op = op_of item }
]

-- `next_attempt_at <= now()`
unfoldable pub is_due : ℕ → Timestamp → Bool
is_due now (at t) = leb t now
is_due now infinity = false

-- `claimed_at IS NULL OR claimed_at < now() - lease`
unfoldable pub is_free : ℕ → Option ℕ → Bool
is_free now none = true
is_free now (some t) = ltb (t + claim_lease) now

-- the condition of `ClaimNext`
unfoldable pub is_ready : ℕ → Row → Bool
is_ready now row = is_free now row.claimed_at && is_due now row.next_attempt_at

-- `ORDER BY next_attempt_at`
unfoldable pub is_before : Timestamp → Timestamp → Bool
is_before (at s) (at t) = ltb s t
is_before (at s) infinity = true
is_before infinity t = false

-- the row that `ClaimNext` stamps
unfoldable pub stamp : ℕ → Str → Row → Row
stamp now claim_id row = record row {
  claimed_at = some now;
  status = in_progress;
  claim_id = some claim_id;
}

-- `id = $1 AND claim_id = $2`
unfoldable pub is_held : Str → Str → Row → Bool
is_held id claim_id row = elim row.claim_id [
  | none ↦ false
  | some c ↦ row.id == id && c == claim_id
]

-- the row that `Reschedule` releases
unfoldable pub release : ℕ → Row → Row
release next_attempt_at row = record row {
  attempts = suc row.attempts;
  next_attempt_at = at next_attempt_at;
  claimed_at = none;
  claim_id = none;
  status = queued;
}

-- the row that `Park` parks
unfoldable pub park_row : ℕ → Row → Row
park_row now row = record row {
  attempts = suc row.attempts;
  claimed_at = none;
  claim_id = none;
  status = parked;
  next_attempt_at = infinity;
  park_count = suc row.park_count;
  parked_at = some now;
}

unfoldable pub is_parked : QueueStatus → Bool
is_parked parked = true
is_parked queued = false
is_parked in_progress = false
is_parked failed = false
is_parked abandoned = false

-- `parked_at <= now() - olderThan`
unfoldable pub is_parked_since : ℕ → ℕ → Option ℕ → Bool
is_parked_since now older_than none = false
is_parked_since now older_than (some t) = leb (t + older_than) now

-- the rows that a sweep of the parked rows takes up
unfoldable pub is_swept : ℕ → ℕ → Row → Bool
is_swept now older_than row = is_parked row.status && is_parked_since now older_than row.parked_at

unfoldable pub is_revivable : ℕ → ℕ → ℕ → Row → Bool
is_revivable now older_than max_park_count row =
    is_swept now older_than row && leb row.park_count max_park_count

unfoldable pub is_abandonable : ℕ → ℕ → ℕ → Row → Bool
is_abandonable now older_than max_park_count row =
    is_swept now older_than row && ltb max_park_count row.park_count

unfoldable pub revive : ℕ → Row → Row
revive now row = record row {
  status = queued;
  attempts = 0;
  next_attempt_at = at now;
  parked_at = none;
}

unfoldable pub abandon : ℕ → Row → Row
abandon now row = record row { status = abandoned; abandoned_at = some now }
