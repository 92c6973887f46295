-- ===== src/Crawler/Steps.antt =====
-- The queue as a state machine: workers and sweeps run its statements in any order, and every table
-- that is reached is sound.
use mathlib.Core.List.{Memᴰ}
use beckn_onix.Base.{
  ℕ, Str, ◌==◌, ==_iff, Dict, All, Bool, true, false, List, [], ◌∷◌, map, Option, none, some, ◌≡◌,
  refl, sym, subst, arith,
}
use beckn_onix.Model.Result.{ok, fail_if->>-eq-ok, ok-injective}
use beckn_onix.Crawler.Rows.{
  Row, QueueItem, new_row, coalesce, is_ready, stamp, is_held, release, park_row, is_revivable,
  is_abandonable, revive, abandon,
}
use beckn_onix.Crawler.Queue.{
  update_where, upsert_item, enqueue, next_ready, claim_next, ClaimedItem, claimed_item, reschedule,
  park, revive_parked, abandon_parked, delete_held,
}
use beckn_onix.Crawler.Tables.{
  Distinct, All-update_where, All-upsert_item, All-delete_held, map-update_where,
  Distinct-delete_held, Distinct-upsert_item, same_key,
}
use beckn_onix.Crawler.Ready.{IsChoice, next_ready-IsChoice}
use beckn_onix.Crawler.Sound.{
  IsSoundRow, new_row-IsSoundRow, coalesce-IsSoundRow, stamp-IsSoundRow, release-IsSoundRow,
  park_row-IsSoundRow, revive-IsSoundRow, abandon-IsSoundRow,
}

abbrev pub id_of : Row → Str
id_of r = r.id

abbrev pub catalog_of : Row → Str
catalog_of r = r.catalog_id

-- Every row fits its status, and identifiers and catalogs occur once.
pub record IsSound (rows : List Row) : Type 0 where
  pub rows_sound : All IsSoundRow rows
  pub ids : Distinct (map id_of rows)
  pub catalogs : Distinct (map catalog_of rows)

-- The identifier is that of no row.
abbrev pub IsFresh : Str → List Row → Type 0
IsFresh id = All (λ (r : Row). (id == r.id) ≡ false)

-- One statement of a worker or of the sweep; the database generates identifiers that are new.
pub data Step : List Row → List Row → Type 0 where
  enqueued :
      {rows rows' : List Row} (now : ℕ) (id : Str) (item : QueueItem)
      → IsFresh id rows
      → enqueue now id item rows ≡ ok rows'
      → Step rows rows'
  claimed :
      {rows : List Row} (now : ℕ) (claim_id : Str) (locked : Str → Bool) (participants : Dict Str)
      → Step rows (claim_next now claim_id locked participants rows).1
  rescheduled :
      {rows : List Row} (id claim_id : Str) (due : ℕ) → Step rows (reschedule id claim_id due rows)
  was_parked :
      {rows : List Row} (now : ℕ) (id claim_id : Str) → Step rows (park now id claim_id rows)
  were_revived :
      {rows : List Row} (now older_than max : ℕ)
      → Step rows (revive_parked now older_than max rows).1
  were_abandoned :
      {rows : List Row} (now older_than max : ℕ)
      → Step rows (abandon_parked now older_than max rows).1
  completed : {rows : List Row} (id claim_id : Str) → Step rows (delete_held id claim_id rows)

-- Any number of statements, one after the other.
pub data Reach (rows : List Row) : List Row → Type 0 where
  here : Reach rows rows
  after : {mid last : List Row} → Reach rows mid → Step mid last → Reach rows last

-- Of a sound table, the rows that `ClaimNext` stamps are ready.
stamped_rows :
    (now : ℕ) (row : Row) (rows : List Row)
    → Memᴰ row rows
    → is_ready now row ≡ true
    → Distinct (map id_of rows)
    → (claim_id : Str)
    → All
        (λ (r : Row). (r.id == row.id) ≡ true → IsSoundRow r → IsSoundRow (stamp now claim_id r))
        rows
stamped_rows now row rows m ready distinct claim_id = over rows (same_key id_of row rows m distinct)
  where
    over :
        (rs : List Row)
        → All (λ (r : Row). (r.id == row.id) ≡ true → r ≡ row) rs
        → All
            (λ (r : Row).
              (r.id == row.id) ≡ true → IsSoundRow r → IsSoundRow (stamp now claim_id r))
            rs
    over [] h = tt
    over (r ∷ rs) (h, hs) = (
      (λ e k.
          stamp-IsSoundRow now claim_id r k
            (subst (λ (x : Row). is_ready now x ≡ true) (sym (h e)) ready)),
      over rs hs,
    )

stamp_id : (now : ℕ) (claim_id : Str) (r : Row) → id_of (stamp now claim_id r) ≡ id_of r
unfolding stamp
stamp_id now claim_id r = refl

stamp_catalog :
    (now : ℕ) (claim_id : Str) (r : Row) → catalog_of (stamp now claim_id r) ≡ catalog_of r
unfolding stamp
stamp_catalog now claim_id r = refl

update_where-IsSound :
    (test : Row → Bool) (f : Row → Row) (rows : List Row)
    → ((r : Row) → id_of (f r) ≡ id_of r)
    → ((r : Row) → catalog_of (f r) ≡ catalog_of r)
    → All (λ r. test r ≡ true → IsSoundRow r → IsSoundRow (f r)) rows
    → IsSound rows
    → IsSound (update_where test f rows)
update_where-IsSound test f rows same_id same_catalog keep s = record {
  rows_sound = All-update_where IsSoundRow test f rows keep s.rows_sound;
  ids = rw (map-update_where id_of test f rows same_id) s.ids;
  catalogs = rw (map-update_where catalog_of test f rows same_catalog) s.catalogs;
}

everywhere : {P : Row → Type 0} (rows : List Row) → ((r : Row) → P r) → All P rows
everywhere [] h = tt
everywhere (r ∷ rows) h = (h r, everywhere rows h)

claim_next-IsSound :
    (now : ℕ) (claim_id : Str) (locked : Str → Bool) (participants : Dict Str) (rows : List Row)
    → IsSound rows
    → IsSound (claim_next now claim_id locked participants rows).1
unfolding claim_next
claim_next-IsSound now claim_id locked participants rows s =
    by_choice (next_ready now locked rows) (next_ready-IsChoice now locked rows)
  where
    by_choice :
        (o : Option Row)
        → IsChoice now locked rows o
        → IsSound
            (elim o as (λ _. Option ClaimedItem × List Row) [
              | none ↦ (none, rows)
              | some row ↦ (
                some (claimed_item claim_id participants row),
                update_where (λ (r : Row). r.id == row.id) (stamp now claim_id) rows,
              )
            ]).1
    by_choice none c = s
    by_choice (some row) (m, available, _) =
        update_where-IsSound (λ (r : Row). r.id == row.id) (stamp now claim_id) rows
          (stamp_id now claim_id) (stamp_catalog now claim_id)
          (stamped_rows now row rows m (ground arith) s.ids claim_id) s

reschedule-IsSound :
    (id claim_id : Str) (due : ℕ) (rows : List Row)
    → IsSound rows
    → IsSound (reschedule id claim_id due rows)
unfolding reschedule release
reschedule-IsSound id claim_id due rows =
    update_where-IsSound (is_held id claim_id) (release due) rows (λ r. refl) (λ r. refl)
      (everywhere rows (λ r e k. release-IsSoundRow id claim_id due r k e))

park-IsSound :
    (now : ℕ) (id claim_id : Str) (rows : List Row)
    → IsSound rows
    → IsSound (park now id claim_id rows)
unfolding park park_row
park-IsSound now id claim_id rows =
    update_where-IsSound (is_held id claim_id) (park_row now) rows (λ r. refl) (λ r. refl)
      (everywhere rows (λ r e k. park_row-IsSoundRow id claim_id now r k e))

revive_parked-IsSound :
    (now older_than max : ℕ) (rows : List Row)
    → IsSound rows
    → IsSound (revive_parked now older_than max rows).1
unfolding revive_parked revive
revive_parked-IsSound now older_than max rows =
    update_where-IsSound (is_revivable now older_than max) (revive now) rows (λ r. refl) (λ r. refl)
      (everywhere rows (λ r e k. revive-IsSoundRow now older_than max r k e))

abandon_parked-IsSound :
    (now older_than max : ℕ) (rows : List Row)
    → IsSound rows
    → IsSound (abandon_parked now older_than max rows).1
unfolding abandon_parked abandon
abandon_parked-IsSound now older_than max rows =
    update_where-IsSound (is_abandonable now older_than max) (abandon now) rows (λ r. refl)
      (λ r. refl) (everywhere rows (λ r e k. abandon-IsSoundRow now older_than max r k e))

coalesce_id : (now : ℕ) (item : QueueItem) (r : Row) → id_of (coalesce now item r) ≡ id_of r
unfolding coalesce
coalesce_id now item r = ground arith

coalesce_catalog :
    (now : ℕ) (item : QueueItem) (r : Row) → catalog_of (coalesce now item r) ≡ catalog_of r
unfolding coalesce
coalesce_catalog now item r = ground arith

fresh_ids :
    (id : Str) (item : QueueItem) (rows : List Row)
    → IsFresh id rows
    → All (λ (r : Row). (r.catalog_id == item.catalog_id) ≡ false → (id == r.id) ≡ false) rows
fresh_ids id item [] h = tt
fresh_ids id item (r ∷ rows) (h, hs) = ((λ _. h), fresh_ids id item rows hs)

new_catalogs :
    (item : QueueItem) (rows : List Row)
    → All
        (λ (r : Row).
          (r.catalog_id == item.catalog_id) ≡ false → (item.catalog_id == r.catalog_id) ≡ false)
        rows
new_catalogs item rows = everywhere rows (λ r e.
    ground (arith, ==_iff r.catalog_id item.catalog_id, ==_iff item.catalog_id r.catalog_id))

upsert_item-IsSound :
    (now : ℕ) (id : Str) (item : QueueItem) (rows : List Row)
    → IsFresh id rows
    → IsSound rows
    → IsSound (upsert_item now id item rows)
unfolding new_row
upsert_item-IsSound now id item rows fresh s = record {
  rows_sound =
      All-upsert_item IsSoundRow now id item rows (new_row-IsSoundRow now id item)
        (coalesce-IsSoundRow now item) s.rows_sound;
  ids =
      Distinct-upsert_item id_of now id item rows (coalesce_id now item)
        (fresh_ids id item rows fresh) s.ids;
  catalogs =
      Distinct-upsert_item catalog_of now id item rows (coalesce_catalog now item)
        (new_catalogs item rows) s.catalogs;
}

enqueue-IsSound :
    (now : ℕ) (id : Str) (item : QueueItem) (rows : List Row) {rows' : List Row}
    → IsFresh id rows
    → enqueue now id item rows ≡ ok rows'
    → IsSound rows
    → IsSound rows'
unfolding enqueue
enqueue-IsSound now id item rows {rows'} fresh e s =
    let (_, done) = fail_if->>-eq-ok _ _ _ e in
    subst IsSound (ok-injective done) (upsert_item-IsSound now id item rows fresh s)

delete_held-IsSound :
    (id claim_id : Str) (rows : List Row) → IsSound rows → IsSound (delete_held id claim_id rows)
delete_held-IsSound id claim_id rows s = record {
  rows_sound = All-delete_held IsSoundRow id claim_id rows s.rows_sound;
  ids = Distinct-delete_held id_of id claim_id rows s.ids;
  catalogs = Distinct-delete_held catalog_of id claim_id rows s.catalogs;
}

-- Every statement keeps the table sound.
pub Step-IsSound : {rows rows' : List Row} → Step rows rows' → IsSound rows → IsSound rows'
Step-IsSound {rows} (enqueued now id item fresh e) s = enqueue-IsSound now id item rows fresh e s
Step-IsSound {rows} (claimed now claim_id locked participants) s =
    claim_next-IsSound now claim_id locked participants rows s
Step-IsSound {rows} (rescheduled id claim_id due) s = reschedule-IsSound id claim_id due rows s
Step-IsSound {rows} (was_parked now id claim_id) s = park-IsSound now id claim_id rows s
Step-IsSound {rows} (were_revived now older_than max) s =
    revive_parked-IsSound now older_than max rows s
Step-IsSound {rows} (were_abandoned now older_than max) s =
    abandon_parked-IsSound now older_than max rows s
Step-IsSound {rows} (completed id claim_id) s = delete_held-IsSound id claim_id rows s

-- Whatever statements workers and sweeps have run on an empty table, in whatever order: no identifier
-- and no catalog stands in it twice, a row is claimed exactly while it is in progress, and parked and
-- abandoned rows were parked at least once, have their times and are never due.
pub Reach-IsSound : {rows : List Row} → Reach [] rows → IsSound rows
Reach-IsSound here = record { rows_sound = tt; ids = tt; catalogs = tt }
Reach-IsSound (after r st) = Step-IsSound st (Reach-IsSound r)
