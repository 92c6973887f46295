-- ===== src/Crawler/Sound.antt =====
-- What holds of every row of the queue, and that the updates of single rows keep it.
use beckn_onix.Base.{
  ℕ, ◌≤◌, Str, Bool, true, false, Option, none, some, is_some, ◌≡◌, refl, arith, ◌⊎◌, inl, inr,
}
use beckn_onix.Crawler.Rows.{
  QueueStatus, queued, in_progress, failed, parked, abandoned, Timestamp, at, infinity, Row,
  QueueItem, op_of, new_row, coalesce, is_ready, is_due, stamp, is_held, release, park_row,
  is_parked, is_swept, is_revivable, is_abandonable, revive, abandon,
}

abbrev pub is_finite : Timestamp → Bool
is_finite (at t) = true
is_finite infinity = false

-- The columns that belong to a status: a claim has a time and a token, and only rows in progress are
-- claimed; parked and abandoned rows have their times, were parked at least once, and are never due.
abbrev pub FitsStatus : QueueStatus → Row → Type 0
FitsStatus queued row =
    (row.claimed_at ≡ none)
    × (row.claim_id ≡ none)
    × (row.parked_at ≡ none)
    × (row.abandoned_at ≡ none)
    × (is_finite row.next_attempt_at ≡ true)
FitsStatus in_progress row =
    (is_some row.claimed_at ≡ true)
    × (is_some row.claim_id ≡ true)
    × (row.parked_at ≡ none)
    × (row.abandoned_at ≡ none)
    × (is_finite row.next_attempt_at ≡ true)
FitsStatus failed row = ⊥
FitsStatus parked row =
    (row.claimed_at ≡ none)
    × (row.claim_id ≡ none)
    × (is_some row.parked_at ≡ true)
    × (row.abandoned_at ≡ none)
    × (row.next_attempt_at ≡ infinity)
    × (1 ≤ row.park_count)
FitsStatus abandoned row =
    (row.claimed_at ≡ none)
    × (row.claim_id ≡ none)
    × (is_some row.parked_at ≡ true)
    × (is_some row.abandoned_at ≡ true)
    × (row.next_attempt_at ≡ infinity)
    × (1 ≤ row.park_count)

abbrev pub IsSoundRow : Row → Type 0
IsSoundRow row = FitsStatus row.status row

pub new_row-IsSoundRow : (now : ℕ) (id : Str) (item : QueueItem) → IsSoundRow (new_row now id item)
unfolding new_row
new_row-IsSoundRow now id item = (refl, refl, refl, refl, refl)

-- A row without a claim's time has no token, in every status.
unclaimed :
    (s : QueueStatus) (row : Row) → FitsStatus s row → row.claimed_at ≡ none → row.claim_id ≡ none
unclaimed queued row h e = h.1
unclaimed in_progress row h e = ground arith
unclaimed failed row h e = absurd h
unclaimed parked row h e = h.1
unclaimed abandoned row h e = h.1

-- A row that a worker holds is in progress.
held :
    (s : QueueStatus) (row : Row) → FitsStatus s row → is_some row.claim_id ≡ true → s ≡ in_progress
held queued row h e = ground arith
held in_progress row h e = refl
held failed row h e = absurd h
held parked row h e = ground arith
held abandoned row h e = ground arith

pub coalesce-IsSoundRow :
    (now : ℕ) (item : QueueItem) (row : Row) → IsSoundRow row → IsSoundRow (coalesce now item row)
unfolding coalesce
coalesce-IsSoundRow now item row h = by_claim row.claimed_at refl
  where
    by_claim :
        (c : Option ℕ)
        → row.claimed_at ≡ c
        → IsSoundRow (elim c [
          | none ↦ record row {
            index_url = item.index_url;
            op = op_of item;
            status = queued;
            attempts = 0;
            next_attempt_at = at now;
            parked_at = none;
            abandoned_at = none;
          }
          | some t ↦ record row { index_url = item.index_url; op = op_of item }
        ])
    by_claim none e = (e, unclaimed row.status row h e, refl, refl, refl)
    by_claim (some t) e = same_columns row.status h
      where
        same_columns :
            (s : QueueStatus)
            → FitsStatus s row
            → FitsStatus s (record row { index_url = item.index_url; op = op_of item })
        same_columns queued k = k
        same_columns in_progress k = k
        same_columns failed k = k
        same_columns parked k = k
        same_columns abandoned k = k

-- A ready row is queued, or in progress with a claim that has run out.
pub ready_status :
    (s : QueueStatus) (now : ℕ) (row : Row)
    → FitsStatus s row
    → is_ready now row ≡ true
    → (s ≡ queued) ⊎ (s ≡ in_progress)
unfolding is_ready is_due
ready_status queued now row h e = inl refl
ready_status in_progress now row h e = inr refl
ready_status failed now row h e = absurd h
ready_status parked now row h e = ground arith
ready_status abandoned now row h e = ground arith

stampable :
    (s : QueueStatus) (row : Row)
    → FitsStatus s row
    → (s ≡ queued) ⊎ (s ≡ in_progress)
    → (row.parked_at ≡ none) × (row.abandoned_at ≡ none) × (is_finite row.next_attempt_at ≡ true)
stampable queued row (a, b, c, d, e) h = (c, d, e)
stampable in_progress row (a, b, c, d, e) h = (c, d, e)
stampable failed row h k = absurd h
stampable parked row h (inl e) = cc
stampable parked row h (inr e) = cc
stampable abandoned row h (inl e) = cc
stampable abandoned row h (inr e) = cc

pub stamp-IsSoundRow :
    (now : ℕ) (claim_id : Str) (row : Row)
    → IsSoundRow row
    → is_ready now row ≡ true
    → IsSoundRow (stamp now claim_id row)
unfolding stamp
stamp-IsSoundRow now claim_id row h e =
    let (unparked, kept, finite) =
      stampable row.status row h (ready_status row.status now row h e) in
    (refl, refl, unparked, kept, finite)

held-is_some :
    (id claim_id : Str) (row : Row) → is_held id claim_id row ≡ true → is_some row.claim_id ≡ true
unfolding is_held
held-is_some id claim_id row e = ground arith

in_progress_columns :
    (s : QueueStatus) (row : Row)
    → FitsStatus s row
    → s ≡ in_progress
    → (row.parked_at ≡ none) × (row.abandoned_at ≡ none)
in_progress_columns s row h e = let (a, b, c) = stampable s row h (inr e) in (a, b)

pub release-IsSoundRow :
    (id claim_id : Str) (next : ℕ) (row : Row)
    → IsSoundRow row
    → is_held id claim_id row ≡ true
    → IsSoundRow (release next row)
unfolding release
release-IsSoundRow id claim_id next row h e =
    let (unparked, kept) =
      in_progress_columns row.status row h
        (held row.status row h (held-is_some id claim_id row e)) in
    (refl, refl, unparked, kept, refl)

pub park_row-IsSoundRow :
    (id claim_id : Str) (now : ℕ) (row : Row)
    → IsSoundRow row
    → is_held id claim_id row ≡ true
    → IsSoundRow (park_row now row)
unfolding park_row
park_row-IsSoundRow id claim_id now row h e =
    let (unparked, kept) =
      in_progress_columns row.status row h
        (held row.status row h (held-is_some id claim_id row e)) in
    (refl, refl, refl, kept, refl, omega arith)

parked_columns :
    (s : QueueStatus) (row : Row) → FitsStatus s row → is_parked s ≡ true → FitsStatus parked row
unfolding is_parked
parked_columns queued row h e = cc
parked_columns in_progress row h e = cc
parked_columns failed row h e = absurd h
parked_columns parked row h e = h
parked_columns abandoned row h e = cc

pub revive-IsSoundRow :
    (now older_than max : ℕ) (row : Row)
    → IsSoundRow row
    → is_revivable now older_than max row ≡ true
    → IsSoundRow (revive now row)
unfolding revive is_revivable is_swept
revive-IsSoundRow now older_than max row h e =
    let (a, b, c, d, f, g) = parked_columns row.status row h (ground arith) in (a, b, refl, d, refl)

pub abandon-IsSoundRow :
    (now older_than max : ℕ) (row : Row)
    → IsSoundRow row
    → is_abandonable now older_than max row ≡ true
    → IsSoundRow (abandon now row)
unfolding abandon is_abandonable is_swept
abandon-IsSoundRow now older_than max row h e =
    let (a, b, c, d, f, g) = parked_columns row.status row h (ground arith) in (a, b, c, refl, f, g)
