-- ===== src/Crawler/Ready.antt =====
-- Which row `ClaimNext` picks: one of the rows that are ready and not locked, of the earliest time.
use mathlib.Core.List.{Memᴰ}
use beckn_onix.Base.{
  ℕ, Str, All, Bool, true, false, not, ◌&&◌, List, [], ◌∷◌, Option, none, some, if◌then◌else◌, ◌≡◌,
  refl, arith, Bool-cases, inl, inr,
}
use beckn_onix.Crawler.Rows.{Timestamp, at, infinity, Row, is_ready, is_before}
use beckn_onix.Crawler.Queue.{sooner, next_ready}

-- The row may be claimed now.
abbrev pub is_available : ℕ → (Str → Bool) → Row → Bool
is_available now locked row = is_ready now row && not (locked row.id)

before_trans :
    (r s t : Timestamp) → is_before r s ≡ false → is_before s t ≡ false → is_before r t ≡ false
unfolding is_before
before_trans (at a) (at b) (at c) h k = ground arith
before_trans (at a) (at b) infinity h k = cc
before_trans (at a) infinity (at c) h k = cc
before_trans (at a) infinity infinity h k = cc
before_trans infinity s t h k = refl

before_asym : (s t : Timestamp) → is_before s t ≡ true → is_before t s ≡ false
unfolding is_before
before_asym (at a) (at b) h = ground arith
before_asym (at a) infinity h = refl
before_asym infinity t h = cc

before_irrefl : (t : Timestamp) → is_before t t ≡ false
unfolding is_before
before_irrefl (at a) = ground arith
before_irrefl infinity = refl

-- No available row is before this one.
abbrev pub IsEarliest : ℕ → (Str → Bool) → Row → List Row → Type 0
IsEarliest now locked row = All (λ (r : Row).
    is_available now locked r ≡ true → is_before r.next_attempt_at row.next_attempt_at ≡ false)

-- The choice of `ClaimNext`: nothing if no row is available, or the earliest of the available rows.
abbrev pub IsChoice : ℕ → (Str → Bool) → List Row → Option Row → Type 0
IsChoice now locked rows none = All (λ r. is_available now locked r ≡ false) rows
IsChoice now locked rows (some row) =
    Memᴰ row rows × (is_available now locked row ≡ true) × IsEarliest now locked row rows

none-IsEarliest :
    (now : ℕ) (locked : Str → Bool) (row : Row) (rows : List Row)
    → All (λ r. is_available now locked r ≡ false) rows
    → IsEarliest now locked row rows
none-IsEarliest now locked row [] h = tt
none-IsEarliest now locked row (r ∷ rows) (h, hs) =
    (λ k. cc, none-IsEarliest now locked row rows hs)

IsEarliest-trans :
    (now : ℕ) (locked : Str → Bool) (row other : Row) (rows : List Row)
    → is_before other.next_attempt_at row.next_attempt_at ≡ false
    → IsEarliest now locked other rows
    → IsEarliest now locked row rows
IsEarliest-trans now locked row other [] e h = tt
IsEarliest-trans now locked row other (r ∷ rows) e (h, hs) = (
  λ k. before_trans r.next_attempt_at other.next_attempt_at row.next_attempt_at (h k) e,
  IsEarliest-trans now locked row other rows e hs,
)

choose :
    (now : ℕ) (locked : Str → Bool) (x : Row) (rows : List Row) (rest : Option Row)
    → is_available now locked x ≡ true
    → IsChoice now locked rows rest
    → IsChoice now locked (x ∷ rows) (some (sooner x rest))
unfolding sooner
choose now locked x rows none e h = (
  Memᴰ.head refl,
  e,
  ((λ _. before_irrefl x.next_attempt_at), none-IsEarliest now locked x rows h),
)
choose now locked x rows (some other) e (m, k, h) =
    by_time (is_before other.next_attempt_at x.next_attempt_at) refl
  where
    by_time :
        (b : Bool)
        → is_before other.next_attempt_at x.next_attempt_at ≡ b
        → IsChoice now locked (x ∷ rows) (some (if b then other else x))
    by_time true before =
        (Memᴰ.tail m, k, ((λ _. before_asym other.next_attempt_at x.next_attempt_at before), h))
    by_time false after = (
      Memᴰ.head refl,
      e,
      ((λ _. before_irrefl x.next_attempt_at), IsEarliest-trans now locked x other rows after h),
    )

skip_row :
    (now : ℕ) (locked : Str → Bool) (x : Row) (rows : List Row) (rest : Option Row)
    → is_available now locked x ≡ false
    → IsChoice now locked rows rest
    → IsChoice now locked (x ∷ rows) rest
skip_row now locked x rows none e h = (e, h)
skip_row now locked x rows (some row) e (m, k, h) = (Memᴰ.tail m, k, ((λ a. cc), h))

-- The subquery of `ClaimNext` finds the earliest of the rows that are ready and not locked, or none if
-- there is none.
pub next_ready-IsChoice :
    (now : ℕ) (locked : Str → Bool) (rows : List Row)
    → IsChoice now locked rows (next_ready now locked rows)
unfolding next_ready
next_ready-IsChoice now locked [] = tt
next_ready-IsChoice now locked (x ∷ rows) = elim (Bool-cases (is_available now locked x)) [
  | inl available ↦
      rw available (choose now locked x rows _ available (next_ready-IsChoice now locked rows))
  | inr taken ↦ rw taken (skip_row now locked x rows _ taken (next_ready-IsChoice now locked rows))
]
