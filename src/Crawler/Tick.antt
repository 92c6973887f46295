-- ===== src/Crawler/Tick.antt =====
-- scheduler.go, `syncTick`: the loop that drains the queue. `SyncNext` is a parameter, a function from
-- one state of the world to its answer and the next state.
use mathlib.Core.List.{Memᴰ}
use beckn_onix.Base.{
  ℕ, zero, suc, ◌≤◌, ◌<◌, Str, ◌==◌, ==_refl, Dict, any, All, is_some, Bool, true, false, ◌&&◌,
  List, [], ◌∷◌, Option, none, some, ◌≡◌, refl, ap, subst, arith, Bool-cases, inl, inr, ◌⊎◌, ◌∙◌,
}
use beckn_onix.Model.Error.{GoError}
use beckn_onix.Crawler.Rows.{
  Timestamp, at, infinity, Row, is_due, is_ready, stamp, is_held, release, park_row,
}
use beckn_onix.Crawler.Queue.{
  update_where, count_where, claim_next, ClaimedItem, claimed_item, reschedule, park, delete_held,
}
use beckn_onix.Crawler.Ready.{is_available}
use beckn_onix.Crawler.Claims.{IsClaim, claim_next-IsClaim}

-- `syncTick`: the error that it logs, if any, and the state in which it ends; `none` if the fuel runs
-- out. `is_done` says whether the context is cancelled.
unfoldable pub sync_tick {ℓ} :
    {S : Type ℓ}
    → ℕ
    → (S → Bool)
    → (S → (Bool × Option GoError) × S)
    → S
    → Option (Option GoError × S)
sync_tick zero is_done sync_next s = none
sync_tick (suc fuel) is_done sync_next s = elim (is_done s) [
  | true ↦ some (none, s)
  | false ↦
      let ((claimed, error), after) = sync_next s in
      elim claimed [ true ↦ sync_tick fuel is_done sync_next after | false ↦ some (error, after) ]
]

-- The rows whose time comes until the horizon.
abbrev pub count_due : ℕ → List Row → ℕ
count_due horizon = count_where (λ (r : Row). is_due horizon r.next_attempt_at)

-- What `SyncNext` does with the item that it has claimed: one of the three statements that end a claim.
-- A retry is due after the horizon.
pub data Settled (horizon : ℕ) (id claim_id : Str) (rows : List Row) : List Row → Type 0 where
  finished : Settled horizon id claim_id rows (delete_held id claim_id rows)
  given_up : (now : ℕ) → Settled horizon id claim_id rows (park now id claim_id rows)
  delayed :
      (due : ℕ) → horizon < due → Settled horizon id claim_id rows (reschedule id claim_id due rows)

-- One call of `SyncNext` at a time not after the horizon, while others have locked these rows: it
-- claims a row and settles it, or finds none to claim, or fails to claim.
pub data Sync (horizon now : ℕ) (locked : Str → Bool) (rows : List Row)
    : Bool → Option GoError → List Row → Type 0 where
  synced :
      {error : Option GoError} {claimed_rows rows' : List Row} {item : ClaimedItem} (claim_id : Str)
      (participants : Dict Str)
      → now ≤ horizon
      → claim_next now claim_id locked participants rows ≡ (some item, claimed_rows)
      → Settled horizon item.id claim_id claimed_rows rows'
      → Sync horizon now locked rows true error rows'
  drained :
      (claim_id : Str) (participants : Dict Str)
      → claim_next now claim_id locked participants rows ≡ (none, rows)
      → Sync horizon now locked rows false none rows
  broken :
      {rows' : List Row} (error : GoError) → Sync horizon now locked rows false (some error) rows'

count-update_where_same :
    (horizon : ℕ) (id : Str) (now : ℕ) (claim_id : Str) (rows : List Row)
    → count_due horizon (update_where (λ (r : Row). r.id == id) (stamp now claim_id) rows)
      ≡ count_due horizon rows
unfolding update_where count_where stamp
count-update_where_same horizon id now claim_id [] = refl
count-update_where_same horizon id now claim_id (r ∷ rows) = elim (Bool-cases (r.id == id)) [
  | inl same ↦ rw (same, count-update_where_same horizon id now claim_id rows) refl
  | inr other ↦ rw (other, count-update_where_same horizon id now claim_id rows) refl
]

-- Some row is held and due.
abbrev is_holding : ℕ → Str → Str → List Row → Bool
is_holding horizon id claim_id =
    any (λ (r : Row). is_held id claim_id r && is_due horizon r.next_attempt_at)

module _ (horizon : ℕ) (id claim_id : Str) where
  count-update_where_le :
      (f : Row → Row) (rows : List Row)
      → ((r : Row) → is_due horizon (Row.next_attempt_at (f r)) ≡ false)
      → count_due horizon (update_where (is_held id claim_id) f rows) ≤ count_due horizon rows
  unfolding update_where count_where
  count-update_where_le f [] h = omega arith
  count-update_where_le f (r ∷ rows) h = ground (arith, h r, count-update_where_le f rows h)

  count-update_where_lt :
      (f : Row → Row) (rows : List Row)
      → ((r : Row) → is_due horizon (Row.next_attempt_at (f r)) ≡ false)
      → is_holding horizon id claim_id rows ≡ true
      → count_due horizon (update_where (is_held id claim_id) f rows) < count_due horizon rows
  unfolding update_where count_where
  count-update_where_lt f [] h e = cc
  count-update_where_lt f (r ∷ rows) h e =
      ground (arith, h r, count-update_where_le f rows h, count-update_where_lt f rows h)

  count-delete_held_le :
      (rows : List Row) → count_due horizon (delete_held id claim_id rows) ≤ count_due horizon rows
  unfolding delete_held count_where
  count-delete_held_le [] = omega arith
  count-delete_held_le (r ∷ rows) = ground (arith, count-delete_held_le rows)

  count-delete_held_lt :
      (rows : List Row)
      → is_holding horizon id claim_id rows ≡ true
      → count_due horizon (delete_held id claim_id rows) < count_due horizon rows
  unfolding delete_held count_where
  count-delete_held_lt [] e = cc
  count-delete_held_lt (r ∷ rows) e =
      ground (arith, count-delete_held_le rows, count-delete_held_lt rows)

-- A row that was just claimed is held and due.
is_holding-stamp :
    (horizon now : ℕ) (claim_id : Str) (row : Row) (rows : List Row)
    → now ≤ horizon
    → Memᴰ row rows
    → is_ready now row ≡ true
    → is_holding horizon row.id claim_id
        (update_where (λ (r : Row). r.id == row.id) (stamp now claim_id) rows)
      ≡ true
unfolding update_where stamp is_held is_ready is_due
is_holding-stamp horizon now claim_id row [] le m ready = elim m [ ]
is_holding-stamp horizon now claim_id row (r ∷ rows) le (Memᴰ.head e) ready =
    subst
      (λ (x : Row).
        is_holding horizon row.id claim_id
          (update_where (λ (y : Row). y.id == row.id) (stamp now claim_id) (x ∷ rows))
        ≡ true)
      e
      (rw
        (
          ==_refl row.id,
          ==_refl row.id,
          ==_refl claim_id,
          due_later row.next_attempt_at (ground arith),
        )
        refl)
  where
    due_later : (t : Timestamp) → is_due now t ≡ true → is_due horizon t ≡ true
    due_later (at t) h = ground arith
    due_later infinity h = h
is_holding-stamp horizon now claim_id row (r ∷ rows) le (Memᴰ.tail m) ready =
    ground (arith, is_holding-stamp horizon now claim_id row rows le m ready)

Settled-lt :
    (horizon : ℕ) (id claim_id : Str) {rows rows' : List Row}
    → Settled horizon id claim_id rows rows'
    → is_holding horizon id claim_id rows ≡ true
    → count_due horizon rows' < count_due horizon rows
unfolding park reschedule park_row release is_due
Settled-lt horizon id claim_id {rows} finished h = count-delete_held_lt horizon id claim_id rows h
Settled-lt horizon id claim_id {rows} (given_up now) h =
    count-update_where_lt horizon id claim_id (park_row now) rows (λ r. refl) h
Settled-lt horizon id claim_id {rows} (delayed due late) h =
    count-update_where_lt horizon id claim_id (release due) rows (λ r. ground arith) h

-- A claimed row is due no more when it is settled, and no other becomes due.
Sync-lt :
    (horizon now : ℕ) (locked : Str → Bool) {rows rows' : List Row} {answer : Bool}
    {error : Option GoError}
    → Sync horizon now locked rows answer error rows'
    → answer ≡ true
    → count_due horizon rows' < count_due horizon rows
unfolding claimed_item
Sync-lt horizon now locked {rows} {rows'}
      (synced {claimed_rows} {item} claim_id participants le e settled) h =
    let (row, m, available, _, same, done) =
      subst (IsClaim now claim_id locked participants rows) e
        (claim_next-IsClaim now claim_id locked participants rows) in
    let same_id : item.id ≡ row.id = ap (λ (i : ClaimedItem). i.id) same in
    let holding : is_holding horizon item.id claim_id claimed_rows ≡ true =
      rw (done, same_id) (is_holding-stamp horizon now claim_id row rows le m (ground arith)) in
    let less : count_due horizon rows' < count_due horizon claimed_rows =
      Settled-lt horizon item.id claim_id settled holding in
    subst (λ n. count_due horizon rows' < n)
      (ap (count_due horizon) done ∙ count-update_where_same horizon row.id now claim_id rows) less
Sync-lt horizon now locked (drained claim_id participants e) h = cc
Sync-lt horizon now locked (broken error) h = cc

-- A call that claimed nothing: it failed, or no row of the table could be claimed, and it is unchanged.
abbrev pub IsIdle : ℕ → (Str → Bool) → List Row → Option GoError → List Row → Type 0
IsIdle now locked rows error rows' =
    (is_some error ≡ true) ⊎ ((rows' ≡ rows) × All (λ r. is_available now locked r ≡ false) rows)

Sync-IsIdle :
    (horizon now : ℕ) (locked : Str → Bool) {rows rows' : List Row} {answer : Bool}
    {error : Option GoError}
    → Sync horizon now locked rows answer error rows'
    → answer ≡ false
    → IsIdle now locked rows error rows'
Sync-IsIdle horizon now locked (synced claim_id participants le e settled) h = cc
Sync-IsIdle horizon now locked {rows} (drained claim_id participants e) h =
    let (none_available, _) =
      subst (IsClaim now claim_id locked participants rows) e
        (claim_next-IsClaim now claim_id locked participants rows) in
    inr (refl, none_available)
Sync-IsIdle horizon now locked (broken error) h = inl refl

-- The calls of `SyncNext` that a tick makes, each of which claims, while the context is not cancelled.
pub data Calls {ℓ} {S : Type ℓ} (is_done : S → Bool) (sync_next : S → (Bool × Option GoError) × S)
    : S → S → Type ℓ where
  no_calls : {s : S} → Calls is_done sync_next s s
  called :
      {s last : S}
      → is_done s ≡ false
      → (sync_next s).0.0 ≡ true
      → Calls is_done sync_next (sync_next s).1 last
      → Calls is_done sync_next s last

module _ {S : Type 0} (queue : S → List Row) (clock : S → ℕ) (locked : S → Str → Bool)
    (is_done : S → Bool) (sync_next : S → (Bool × Option GoError) × S) where
  -- The last call, which claims nothing.
  abbrev pub IsLast : S → Option GoError → S → Type 0
  IsLast mid error last =
      (is_done mid ≡ false)
      × (sync_next mid ≡ ((false, error), last))
      × IsIdle (clock mid) (locked mid) (queue mid) error (queue last)

  -- How a tick may end: behind calls that claimed, the context is cancelled, or a call claims nothing.
  abbrev pub IsEnded : S → Option (Option GoError × S) → Type 0
  IsEnded start none = ⊥
  IsEnded start (some (error, last)) =
      (Calls is_done sync_next start last × (is_done last ≡ true) × (error ≡ none))
      ⊎ ((mid : S) × Calls is_done sync_next start mid × IsLast mid error last)

  prepend :
      (s : S) (out : Option (Option GoError × S))
      → is_done s ≡ false
      → (sync_next s).0.0 ≡ true
      → IsEnded (sync_next s).1 out
      → IsEnded s out
  prepend s none live claims ended = ended
  prepend s (some (error, last)) live claims (inl (calls, done, same)) =
      inl (called live claims calls, done, same)
  prepend s (some (error, last)) live claims (inr (mid, calls, idle)) =
      inr (mid, called live claims calls, idle)

  -- If each `SyncNext` claims a row at a time not after the horizon and ends the claim by `Complete`,
  -- by `Park` or by `Reschedule` to a time after the horizon, or claims nothing, then a tick ends
  -- after at most as many calls as rows are due by the horizon, and one more. All its calls but the
  -- last claim a row, the context being live at each; it ends without an error when the context is
  -- cancelled, or with the error of a call that claims nothing: a claim that failed, or, at the time
  -- of this call, no row of the table could be claimed but for those that others had locked then.
  pub sync_tick-IsEnded :
      (horizon : ℕ)
      → ((s : S)
          → Sync horizon
              (clock s)
              (locked s)
              (queue s)
              (sync_next s).0.0
              (sync_next s).0.1
              (queue (sync_next s).1))
      → (fuel : ℕ) (s : S) → count_due horizon (queue s) < fuel
      → IsEnded s (sync_tick fuel is_done sync_next s)
  unfolding sync_tick
  sync_tick-IsEnded horizon step zero s le = absurd (omega arith)
  sync_tick-IsEnded horizon step (suc fuel) s le =
      by_context (sync_tick-IsEnded horizon step fuel (sync_next s).1) (is_done s) refl
    where
      after_lt : (m n : ℕ) → n < m → m < suc fuel → n < fuel
      after_lt m n h k = omega arith

      by_answer :
          (a : (Bool × Option GoError) × S)
          → sync_next s ≡ a
          → is_done s ≡ false
          → (a.0.0 ≡ true → IsEnded s (sync_tick fuel is_done sync_next a.1))
          → (a.0.0 ≡ false → IsIdle (clock s) (locked s) (queue s) a.0.1 (queue a.1))
          → IsEnded s (
              let ((claimed, error), after) = a in
              elim claimed [
                | true ↦ sync_tick fuel is_done sync_next after
                | false ↦ some (error, after)
              ])
      by_answer ((true, error), after) e live more idle = more refl
      by_answer ((false, error), after) e live more idle = inr (s, no_calls, (live, e, idle refl))

      by_context :
          (count_due horizon (queue (sync_next s).1) < fuel
            → IsEnded (sync_next s).1 (sync_tick fuel is_done sync_next (sync_next s).1))
          → (b : Bool) → is_done s ≡ b
          → IsEnded s (elim b [
            | true ↦ some (none, s)
            | false ↦
                let ((claimed, error), after) = sync_next s in
                elim claimed [
                  | true ↦ sync_tick fuel is_done sync_next after
                  | false ↦ some (error, after)
                ]
          ])
      by_context more true e = inl (no_calls, e, refl)
      by_context more false e =
          by_answer (sync_next s) refl e
            (λ t. prepend s _ e t (
              more (
                after_lt (count_due horizon (queue s)) _
                  (Sync-lt horizon (clock s) (locked s) (step s) t) le)))
            (Sync-IsIdle horizon (clock s) (locked s) (step s))
