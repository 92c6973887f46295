-- ===== src/Crawler/Queue.antt =====
-- internal/store/queue.go: the statements on the table `crawler_queue`. Each runs atomically in the
-- database; a loss of the connection, which changes nothing, is left out. The identifiers that the
-- database generates are arguments.
use beckn_onix.Base.{
  ℕ, suc, Str, str, ◌==◌, Dict, lookup, Bool, not, ◌&&◌, ◌||◌, List, [], ◌∷◌, Option, none, some,
  get_or, if◌then◌else◌,
}
use beckn_onix.Model.Error.{errorf}
use beckn_onix.Model.Result.{Result, ok, ◌>>◌, fail_if}
use beckn_onix.Crawler.Rows.{
  Row, QueueItem, op_of, new_row, coalesce, is_ready, is_before, stamp, is_held, release, park_row,
  is_revivable, is_abandonable, revive, abandon,
}

-- `UPDATE crawler_queue SET … WHERE …`
unfoldable pub update_where : (Row → Bool) → (Row → Row) → List Row → List Row
update_where test f [] = []
update_where test f (row ∷ rows) =
    let rest = update_where test f rows in (if test row then f row else row) ∷ rest

-- `RowsAffected`
unfoldable pub count_where : (Row → Bool) → List Row → ℕ
count_where test [] = 0
count_where test (row ∷ rows) =
    let rest = count_where test rows in if test row then suc rest else rest

-- The `INSERT … ON CONFLICT (catalog_id) DO UPDATE` of `Enqueue`.
unfoldable pub upsert_item : ℕ → Str → QueueItem → List Row → List Row
upsert_item now id item [] = new_row now id item ∷ []
upsert_item now id item (row ∷ rows) =
    let rest = upsert_item now id item rows in
    if row.catalog_id == item.catalog_id then coalesce now item row ∷ rows else row ∷ rest

-- `CHECK (op IN ('sync','retire'))`
unfoldable pub is_op_allowed : Str → Bool
is_op_allowed op = op == str "sync" || op == str "retire"

-- `Enqueue`
unfoldable pub enqueue : ℕ → Str → QueueItem → List Row → Result (List Row)
enqueue now id item rows = do
  fail_if (not (is_op_allowed (op_of item))) (errorf (str "store: Enqueue: crawler_queue_op_check"))
  ok (upsert_item now id item rows)

-- The better of a row and what the rest of the table offers.
unfoldable pub sooner : Row → Option Row → Row
sooner row none = row
sooner row (some other) = if is_before other.next_attempt_at row.next_attempt_at then other else row

-- The subquery of `ClaimNext`: the first of the ready rows that no other transaction has locked. Of
-- rows with the same time the first in the table is taken.
unfoldable pub next_ready : ℕ → (Str → Bool) → List Row → Option Row
next_ready now locked [] = none
next_ready now locked (row ∷ rows) =
    let rest = next_ready now locked rows in
    if is_ready now row && not (locked row.id) then some (sooner row rest) else rest

-- `crawlmanager.ClaimedItem`
pub record ClaimedItem : Type 0 where
  pub id : Str
  pub claim_id : Str
  pub catalog_id : Str
  pub index_url : Str
  pub participant_id : Str
  pub op : Str
  pub attempts : ℕ

-- What `ClaimNext` scans; the participants of the table `crawler_index` by index URL
unfoldable pub claimed_item : Str → Dict Str → Row → ClaimedItem
claimed_item claim_id participants row = record {
  id = row.id;
  claim_id = claim_id;
  catalog_id = row.catalog_id;
  index_url = row.index_url;
  participant_id = get_or (lookup row.index_url participants) [];
  op = row.op;
  attempts = row.attempts;
}

-- `ClaimNext`
unfoldable pub claim_next :
    ℕ → Str → (Str → Bool) → Dict Str → List Row → Option ClaimedItem × List Row
claim_next now claim_id locked participants rows = elim (next_ready now locked rows) [
  | none ↦ (none, rows)
  | some row ↦ (
    some (claimed_item claim_id participants row),
    update_where (λ (r : Row). r.id == row.id) (stamp now claim_id) rows,
  )
]

-- `Reschedule`
unfoldable pub reschedule : Str → Str → ℕ → List Row → List Row
reschedule id claim_id next_attempt_at =
    update_where (is_held id claim_id) (release next_attempt_at)

-- `Park`
unfoldable pub park : ℕ → Str → Str → List Row → List Row
park now id claim_id = update_where (is_held id claim_id) (park_row now)

-- The first statement of `RequeueOrAbandonParked`: the number of rows that it revives, and the table.
unfoldable pub revive_parked : ℕ → ℕ → ℕ → List Row → ℕ × List Row
revive_parked now older_than max_park_count rows = (
  count_where (is_revivable now older_than max_park_count) rows,
  update_where (is_revivable now older_than max_park_count) (revive now) rows,
)

-- Its second statement, for the rows that it abandons.
unfoldable pub abandon_parked : ℕ → ℕ → ℕ → List Row → ℕ × List Row
abandon_parked now older_than max_park_count rows = (
  count_where (is_abandonable now older_than max_park_count) rows,
  update_where (is_abandonable now older_than max_park_count) (abandon now) rows,
)

-- `RequeueOrAbandonParked`: the rows revived, those abandoned, and the table. Each statement is a
-- transaction of its own, with its own `now()`; between them others may change the table.
unfoldable pub requeue_or_abandon_parked :
    ℕ → (List Row → List Row) → ℕ → ℕ → ℕ → List Row → ℕ × ℕ × List Row
requeue_or_abandon_parked now between later older_than max_park_count rows =
    let (revived, mid) = revive_parked now older_than max_park_count rows in
    let (given_up, after) = abandon_parked later older_than max_park_count (between mid) in
    (revived, given_up, after)

-- the `DELETE` of `Complete`
unfoldable pub delete_held : Str → Str → List Row → List Row
delete_held id claim_id [] = []
delete_held id claim_id (row ∷ rows) =
    let rest = delete_held id claim_id rows in if is_held id claim_id row then rest else row ∷ rest
