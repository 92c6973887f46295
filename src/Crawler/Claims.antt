-- ===== src/Crawler/Claims.antt =====
-- What a claim gives a worker: which row it takes, and that a worker whose claim is lost changes nothing.
use mathlib.Core.List.{Memᴰ}
use beckn_onix.Base.{
  ℕ, Str, ◌==◌, Dict, All, Bool, true, false, List, [], ◌∷◌, Option, none, some, ◌≡◌, refl, sym, ap,
  subst, arith, Bool-cases, inl, inr, ◌⊎◌,
}
use beckn_onix.Crawler.Rows.{
  QueueStatus, queued, in_progress, failed, parked, abandoned, Row, is_ready, is_free, stamp,
  is_held, release, park_row,
}
use beckn_onix.Crawler.Queue.{
  update_where, next_ready, claim_next, ClaimedItem, claimed_item, reschedule, park, delete_held,
}
use beckn_onix.Crawler.Ready.{is_available, IsEarliest, IsChoice, next_ready-IsChoice}
use beckn_onix.Crawler.Sound.{FitsStatus, IsSoundRow, ready_status}
use beckn_onix.Crawler.Steps.{Reach, Reach-IsSound, IsSound}

-- What `ClaimNext` may return on a table: nothing, with the table as it was, if no row is available, or
-- the item of an available row that none precedes, with that row claimed.
abbrev pub IsClaim :
    ℕ → Str → (Str → Bool) → Dict Str → List Row → Option ClaimedItem × List Row → Type 0
IsClaim now claim_id locked participants rows (none, after) =
    All (λ r. is_available now locked r ≡ false) rows × (after ≡ rows)
IsClaim now claim_id locked participants rows (some item, after) =
    (row : Row) × Memᴰ row rows
    × (is_available now locked row ≡ true)
    × IsEarliest now locked row rows
    × (item ≡ claimed_item claim_id participants row)
    × (after ≡ update_where (λ (r : Row). r.id == row.id) (stamp now claim_id) rows)

-- `ClaimNext` returns an item exactly if there is a row that is not locked, whose time has come and
-- that is unclaimed or claimed for longer than the lease; the item is that of the earliest such row,
-- which it stamps with the time and the token of the claim.
pub claim_next-IsClaim :
    (now : ℕ) (claim_id : Str) (locked : Str → Bool) (participants : Dict Str) (rows : List Row)
    → IsClaim now claim_id locked participants rows
        (claim_next now claim_id locked participants rows)
unfolding claim_next
claim_next-IsClaim now claim_id locked participants rows =
    by_choice (next_ready now locked rows) (next_ready-IsChoice now locked rows)
  where
    by_choice :
        (o : Option Row)
        → IsChoice now locked rows o
        → IsClaim now claim_id locked participants rows
            (elim o as (λ _. Option ClaimedItem × List Row) [
              | none ↦ (none, rows)
              | some row ↦ (
                some (claimed_item claim_id participants row),
                update_where (λ (r : Row). r.id == row.id) (stamp now claim_id) rows,
              )
            ])
    by_choice none c = (c, refl)
    by_choice (some row) (m, available, earliest) = (row, m, available, earliest, refl, refl)

all-Memᴰ : (P : Row → Type 0) (row : Row) (rows : List Row) → Memᴰ row rows → All P rows → P row
all-Memᴰ P row [] m h = elim m [ ]
all-Memᴰ P row (r ∷ rows) (Memᴰ.head e) (h, hs) = subst P (sym e) h
all-Memᴰ P row (r ∷ rows) (Memᴰ.tail m) (h, hs) = all-Memᴰ P row rows m hs

-- A row that is waiting, or one in progress whose claim is older than the lease.
abbrev pub IsTakable : ℕ → Row → Type 0
IsTakable now row =
    ((row.status ≡ queued) × (row.claimed_at ≡ none))
    ⊎ ((row.status ≡ in_progress) × (is_free now row.claimed_at ≡ true))

takable :
    (now : ℕ) (row : Row) → FitsStatus row.status row → is_ready now row ≡ true → IsTakable now row
unfolding is_ready
takable now row h ready = by_status row.status h (ready_status row.status now row h ready)
  where
    by_status :
        (s : QueueStatus)
        → FitsStatus s row
        → (s ≡ queued) ⊎ (s ≡ in_progress)
        → ((s ≡ queued) × (row.claimed_at ≡ none))
          ⊎ ((s ≡ in_progress) × (is_free now row.claimed_at ≡ true))
    by_status queued k e = inl (refl, k.0)
    by_status in_progress k e = inr (refl, ground arith)
    by_status failed k e = absurd k
    by_status parked k e = ground arith
    by_status abandoned k e = ground arith

-- Whatever statements have run before: the item that `ClaimNext` returns is that of a row of the table
-- that is queued and unclaimed, or in progress with a claim older than the lease. So parked and
-- abandoned rows are never claimed, nor one whose claim is younger.
pub claim_next-IsTakable :
    (now : ℕ) (claim_id : Str) (locked : Str → Bool) (participants : Dict Str)
    (rows rows' : List Row) (item : ClaimedItem)
    → Reach [] rows
    → claim_next now claim_id locked participants rows ≡ (some item, rows')
    → (row : Row) × Memᴰ row rows
      × (item ≡ claimed_item claim_id participants row)
      × IsTakable now row
claim_next-IsTakable now claim_id locked participants rows rows' item reach e =
    let (row, m, available, _, same, _) =
      subst (IsClaim now claim_id locked participants rows) e
        (claim_next-IsClaim now claim_id locked participants rows) in
    (
      row,
      m,
      same,
      takable now row (all-Memᴰ IsSoundRow row rows m (IsSound.rows_sound (Reach-IsSound reach)))
          (ground arith),
    )

-- No row of the table is held under this token.
abbrev pub IsLost : Str → Str → List Row → Type 0
IsLost id claim_id = All (λ r. is_held id claim_id r ≡ false)

lost-update_where :
    (id claim_id : Str) (f : Row → Row) (rows : List Row)
    → IsLost id claim_id rows
    → update_where (is_held id claim_id) f rows ≡ rows
unfolding update_where
lost-update_where id claim_id f [] h = refl
lost-update_where id claim_id f (r ∷ rows) (h, hs) =
    rw (h, lost-update_where id claim_id f rows hs) refl

lost-delete_held :
    (id claim_id : Str) (rows : List Row)
    → IsLost id claim_id rows
    → delete_held id claim_id rows ≡ rows
unfolding delete_held
lost-delete_held id claim_id [] h = refl
lost-delete_held id claim_id (r ∷ rows) (h, hs) = rw (h, lost-delete_held id claim_id rows hs) refl

-- After another claim of the row, no row is held under the old token.
IsLost-after :
    (now : ℕ) (id old claim_id : Str) (rows : List Row)
    → (claim_id == old) ≡ false
    → IsLost id old (update_where (λ (r : Row). r.id == id) (stamp now claim_id) rows)
unfolding update_where stamp is_held
IsLost-after now id old claim_id [] h = tt
IsLost-after now id old claim_id (r ∷ rows) h = elim (Bool-cases (r.id == id)) [
  | inl same ↦ rw same (ground arith, IsLost-after now id old claim_id rows h)
  | inr other ↦ rw other (not_held r other, IsLost-after now id old claim_id rows h)
]
  where
    not_held : (r : Row) → (r.id == id) ≡ false → is_held id old r ≡ false
    not_held r other = ground arith

-- Once `ClaimNext` has given a row to a worker, the worker that held it before under another token
-- changes nothing in the queue any more: neither its `Reschedule` nor its `Park` nor the delete of its
-- `Complete` touches a row.
pub claim_next-lost :
    (now : ℕ) (old claim_id : Str) (locked : Str → Bool) (participants : Dict Str)
    (rows rows' : List Row) (item : ClaimedItem) (later due : ℕ)
    → claim_next now claim_id locked participants rows ≡ (some item, rows')
    → (claim_id == old) ≡ false
    → (reschedule item.id old due rows' ≡ rows')
      × (park later item.id old rows' ≡ rows')
      × (delete_held item.id old rows' ≡ rows')
unfolding reschedule park claimed_item
claim_next-lost now old claim_id locked participants rows rows' item later due e other =
    let (row, _, _, _, same, done) =
      subst (IsClaim now claim_id locked participants rows) e
        (claim_next-IsClaim now claim_id locked participants rows) in
    let same_id : item.id ≡ row.id = ap (λ (i : ClaimedItem). i.id) same in
    let lost : IsLost item.id old rows' =
      rw (done, same_id) (IsLost-after now row.id old claim_id rows other) in
    (
      lost-update_where item.id old (release due) rows' lost,
      lost-update_where item.id old (park_row later) rows' lost,
      lost-delete_held item.id old rows' lost,
    )
