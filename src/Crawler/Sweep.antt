-- ===== src/Crawler/Sweep.antt =====
-- What a sweep of the parked rows leaves.
use beckn_onix.Base.{
  ℕ, ◌≤◌, leb, true, false, List, [], ◌∷◌, if◌then◌else◌, ◌≡◌, refl, arith, Bool-cases, inl, inr,
  Option, none, some,
}
use beckn_onix.Crawler.Rows.{
  Row, is_parked, is_parked_since, is_swept, is_revivable, is_abandonable, revive, abandon,
}
use beckn_onix.Crawler.Queue.{
  update_where, count_where, revive_parked, abandon_parked, requeue_or_abandon_parked,
}

-- What the sweep makes of a row: the first statement runs at `now`, the second at `later`.
abbrev pub swept_row : ℕ → ℕ → ℕ → ℕ → Row → Row
swept_row now later older_than max_park_count row =
    if leb row.park_count max_park_count
    then (if is_swept now older_than row then revive now row else row)
    else (if is_swept later older_than row then abandon later row else row)

-- Row by row.
abbrev pub swept_rows : ℕ → ℕ → ℕ → ℕ → List Row → List Row
swept_rows now later older_than max_park_count [] = []
swept_rows now later older_than max_park_count (row ∷ rows) =
    swept_row now later older_than max_park_count row
    ∷ swept_rows now later older_than max_park_count rows

-- The sweep as one pass, its counts, and the rows that it leaves.
abbrev pub IsSwept : ℕ → ℕ → ℕ → ℕ → List Row → ℕ × ℕ × List Row → Type 0
IsSwept now later older_than max_park_count rows (revived, given_up, after) =
    (after ≡ swept_rows now later older_than max_park_count rows)
    × (revived ≡ count_where (is_revivable now older_than max_park_count) rows)
    × (given_up ≡ count_where (is_abandonable later older_than max_park_count) rows)
    × (count_where (is_swept now older_than) after ≡ 0)
    × (count_where (is_abandonable later older_than max_park_count) after ≡ 0)

is_parked_since-later :
    (now later older_than : ℕ) (parked_at : Option ℕ)
    → now ≤ later
    → is_parked_since later older_than parked_at ≡ false
    → is_parked_since now older_than parked_at ≡ false
unfolding is_parked_since
is_parked_since-later now later older_than none le h = refl
is_parked_since-later now later older_than (some t) le h = ground arith

-- A row that is not due for the sweep is not due at an earlier time.
is_swept-later :
    (now later older_than : ℕ) (row : Row)
    → now ≤ later
    → is_swept later older_than row ≡ false
    → is_swept now older_than row ≡ false
unfolding is_swept
is_swept-later now later older_than row le h =
    ground (arith, is_parked_since-later now later older_than row.parked_at le)

-- The cases of one row: what the tests of the two statements say of it.
data Fate (now later older_than max : ℕ) (row : Row) : Type 0 where
  waiting :
      leb row.park_count max ≡ true
      → is_swept now older_than row ≡ false
      → is_revivable now older_than max row ≡ false
      → is_abandonable later older_than max row ≡ false
      → Fate now later older_than max row
  revived :
      leb row.park_count max ≡ true
      → is_swept now older_than row ≡ true
      → is_revivable now older_than max row ≡ true
      → is_abandonable later older_than max row ≡ false
      → Fate now later older_than max row
  spared :
      leb row.park_count max ≡ false
      → is_swept later older_than row ≡ false
      → is_swept now older_than row ≡ false
      → is_revivable now older_than max row ≡ false
      → is_abandonable later older_than max row ≡ false
      → Fate now later older_than max row
  given_up :
      leb row.park_count max ≡ false
      → is_swept later older_than row ≡ true
      → is_revivable now older_than max row ≡ false
      → is_abandonable later older_than max row ≡ true
      → Fate now later older_than max row

fate : (now later older_than max : ℕ) (row : Row) → now ≤ later → Fate now later older_than max row
unfolding is_revivable is_abandonable
fate now later older_than max row le = elim (Bool-cases (leb row.park_count max)) [
  | inl few ↦ elim (Bool-cases (is_swept now older_than row)) [
    | inl s ↦ revived few s (ground arith) (ground arith)
    | inr u ↦ waiting few u (ground arith) (ground arith)
  ]
  | inr many ↦ elim (Bool-cases (is_swept later older_than row)) [
    | inl s ↦ given_up many s (ground arith) (ground arith)
    | inr u ↦
        spared many u (is_swept-later now later older_than row le u) (ground arith) (ground arith)
  ]
]

-- A row that was revived or abandoned is parked no more.
revive_unswept :
    (now later older_than max : ℕ) (row : Row)
    → (is_swept now older_than (revive now row) ≡ false)
      × (is_abandonable later older_than max (revive now row) ≡ false)
unfolding revive is_abandonable is_swept is_parked
revive_unswept now later older_than max row = (refl, refl)

abandon_unswept :
    (now later older_than max : ℕ) (row : Row)
    → (is_swept now older_than (abandon later row) ≡ false)
      × (is_abandonable later older_than max (abandon later row) ≡ false)
unfolding abandon is_abandonable is_swept is_parked
abandon_unswept now later older_than max row = (refl, refl)

module _ (now later older_than max : ℕ) (le : now ≤ later) where
  sweep_rows :
      (rows : List Row)
      → update_where
          (is_abandonable later older_than max)
          (abandon later)
          (update_where (is_revivable now older_than max) (revive now) rows)
        ≡ swept_rows now later older_than max rows
  unfolding update_where
  sweep_rows [] = refl
  sweep_rows (row ∷ rows) = elim (fate now later older_than max row le) [
    | waiting l u r g ↦ rw (l, u, r, g, sweep_rows rows) refl
    | revived l s r g ↦
        rw (l, s, r, (revive_unswept now later older_than max row).1, sweep_rows rows) refl
    | spared l v u r g ↦ rw (l, v, r, g, sweep_rows rows) refl
    | given_up l s r g ↦ rw (l, s, r, g, sweep_rows rows) refl
  ]

  -- The first statement leaves the rows of the second as they are.
  abandoned_count :
      (rows : List Row)
      → count_where
          (is_abandonable later older_than max)
          (update_where (is_revivable now older_than max) (revive now) rows)
        ≡ count_where (is_abandonable later older_than max) rows
  unfolding update_where count_where
  abandoned_count [] = refl
  abandoned_count (row ∷ rows) = elim (fate now later older_than max row le) [
    | waiting l u r g ↦ rw (r, g, abandoned_count rows) refl
    | revived l s r g ↦
        rw (r, g, (revive_unswept now later older_than max row).1, abandoned_count rows) refl
    | spared l v u r g ↦ rw (r, g, abandoned_count rows) refl
    | given_up l s r g ↦ rw (r, g, abandoned_count rows) refl
  ]

  none_left :
      (rows : List Row)
      → (count_where (is_swept now older_than) (swept_rows now later older_than max rows) ≡ 0)
        × (count_where
              (is_abandonable later older_than max)
              (swept_rows now later older_than max rows)
            ≡ 0)
  unfolding count_where
  none_left [] = (refl, refl)
  none_left (row ∷ rows) =
      let (h, k) = none_left rows in
      elim (fate now later older_than max row le) [
        | waiting l u r g ↦ (rw (l, u, u, h) refl, rw (l, u, g, k) refl)
        | revived l s r g ↦
            let (undue, never) = revive_unswept now later older_than max row in
            (rw (l, s, undue, h) refl, rw (l, s, never, k) refl)
        | spared l v u r g ↦ (rw (l, v, u, h) refl, rw (l, v, g, k) refl)
        | given_up l s r g ↦
            let (undue, never) = abandon_unswept now later older_than max row in
            (rw (l, s, undue, h) refl, rw (l, s, never, k) refl)
      ]

  -- If no other statement runs between the two of a sweep, and the clock does not go back: the sweep
  -- revives exactly the rows that at its first statement have been parked for long enough and were
  -- parked at most the allowed number of times, abandons exactly those that at its second statement
  -- have been parked for long enough and were parked more often, leaves all others as they are, and
  -- returns the numbers of the two kinds. No row is left that was due at the first statement, and
  -- none that was parked more often and due at the second.
  pub requeue_or_abandon_parked-IsSwept :
      (rows : List Row)
      → IsSwept now later older_than max rows
          (requeue_or_abandon_parked now (λ l. l) later older_than max rows)
  unfolding requeue_or_abandon_parked revive_parked abandon_parked
  requeue_or_abandon_parked-IsSwept rows =
      let (none_due, none_more) = none_left rows in
      (
        sweep_rows rows,
        refl,
        abandoned_count rows,
        rw (sweep_rows rows) none_due,
        rw (sweep_rows rows) none_more,
      )
