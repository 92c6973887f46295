-- ===== src/Crawler/Tables.antt =====
-- Lemmas on tables as lists of rows: what an update of some rows keeps, and keys that occur once.
use mathlib.Core.List.{Memᴰ}
use beckn_onix.Base.{
  ℕ, Str, ◌==◌, ==_iff, ==_refl, any, All, Bool, true, false, List, [], ◌∷◌, map, ◌≡◌, refl, ap,
  sym, subst, arith, Bool-cases, inl, inr,
}
use beckn_onix.Crawler.Rows.{Row, QueueItem, new_row, coalesce, is_held}
use beckn_onix.Crawler.Queue.{update_where, upsert_item, delete_held}

-- No text stands twice in the list.
abbrev pub Distinct : List Str → Type 0
Distinct [] = Unit
Distinct (k ∷ ks) = (any (λ j. j == k) ks ≡ false) × Distinct ks

module _ {κ} (P : Row → Type κ) where
  -- An update keeps a property of all rows if it keeps it on the rows that it changes.
  pub All-update_where :
      (test : Row → Bool) (f : Row → Row) (rows : List Row)
      → All (λ r. test r ≡ true → P r → P (f r)) rows
      → All P rows
      → All P (update_where test f rows)
  unfolding update_where
  All-update_where test f [] h k = tt
  All-update_where test f (row ∷ rows) (h, hs) (k, ks) = elim (Bool-cases (test row)) [
    | inl taken ↦ rw taken (h taken k, All-update_where test f rows hs ks)
    | inr left ↦ rw left (k, All-update_where test f rows hs ks)
  ]

  -- The same where the update keeps it on every row that the test takes.
  pub All-update_where-All :
      (test : Row → Bool) (f : Row → Row) (rows : List Row)
      → ((r : Row) → test r ≡ true → P r → P (f r))
      → All P rows
      → All P (update_where test f rows)
  All-update_where-All test f rows h = All-update_where test f rows (everywhere rows)
    where
      everywhere : (rs : List Row) → All (λ r. test r ≡ true → P r → P (f r)) rs
      everywhere [] = tt
      everywhere (r ∷ rs) = (h r, everywhere rs)

  pub All-upsert_item :
      (now : ℕ) (id : Str) (item : QueueItem) (rows : List Row)
      → P (new_row now id item)
      → ((r : Row) → P r → P (coalesce now item r))
      → All P rows
      → All P (upsert_item now id item rows)
  unfolding upsert_item
  All-upsert_item now id item [] fresh keep h = (fresh, tt)
  All-upsert_item now id item (row ∷ rows) fresh keep (h, hs) =
      elim (Bool-cases (row.catalog_id == item.catalog_id)) [
        | inl same ↦ rw same (keep row h, hs)
        | inr other ↦ rw other (h, All-upsert_item now id item rows fresh keep hs)
      ]

  pub All-delete_held :
      (id claim_id : Str) (rows : List Row) → All P rows → All P (delete_held id claim_id rows)
  unfolding delete_held
  All-delete_held id claim_id [] h = tt
  All-delete_held id claim_id (row ∷ rows) (h, hs) = elim (Bool-cases (is_held id claim_id row)) [
    | inl taken ↦ rw taken (All-delete_held id claim_id rows hs)
    | inr left ↦ rw left (h, All-delete_held id claim_id rows hs)
  ]

module _ (key : Row → Str) where
  -- An update that keeps a key keeps the list of the keys.
  pub map-update_where :
      (test : Row → Bool) (f : Row → Row) (rows : List Row)
      → ((r : Row) → key (f r) ≡ key r)
      → map key (update_where test f rows) ≡ map key rows
  unfolding update_where
  map-update_where test f [] h = refl
  map-update_where test f (row ∷ rows) h = elim (Bool-cases (test row)) [
    | inl taken ↦ rw (taken, h row, map-update_where test f rows h) refl
    | inr left ↦ rw (left, map-update_where test f rows h) refl
  ]

  -- A row that is deleted leaves no new key behind.
  any-delete_held :
      (k id claim_id : Str) (rows : List Row)
      → any (λ j. j == k) (map key rows) ≡ false
      → any (λ j. j == k) (map key (delete_held id claim_id rows)) ≡ false
  unfolding delete_held
  any-delete_held k id claim_id [] h = h
  any-delete_held k id claim_id (row ∷ rows) h = ground (arith, any-delete_held k id claim_id rows)

  pub Distinct-delete_held :
      (id claim_id : Str) (rows : List Row)
      → Distinct (map key rows)
      → Distinct (map key (delete_held id claim_id rows))
  unfolding delete_held
  Distinct-delete_held id claim_id [] h = tt
  Distinct-delete_held id claim_id (row ∷ rows) (h, hs) =
      elim (Bool-cases (is_held id claim_id row)) [
        | inl taken ↦ rw taken (Distinct-delete_held id claim_id rows hs)
        | inr left ↦
            rw left (
              any-delete_held (key row) id claim_id rows h,
              Distinct-delete_held id claim_id rows hs,
            )
      ]

  -- An item of a catalog that has no row adds its key; one of a catalog that has a row adds none.
  any-upsert_item :
      (k : Str) (now : ℕ) (id : Str) (item : QueueItem) (rows : List Row)
      → ((r : Row) → key (coalesce now item r) ≡ key r)
      → (key (new_row now id item) == k) ≡ false
      → any (λ j. j == k) (map key rows) ≡ false
      → any (λ j. j == k) (map key (upsert_item now id item rows)) ≡ false
  unfolding upsert_item
  any-upsert_item k now id item [] keep fresh h = ground arith
  any-upsert_item k now id item (row ∷ rows) keep fresh h =
      ground (arith, keep row, any-upsert_item k now id item rows keep fresh)

  -- Distinct keys stay distinct if the item's own is new, or is the one by which rows are matched.
  pub Distinct-upsert_item :
      (now : ℕ) (id : Str) (item : QueueItem) (rows : List Row)
      → ((r : Row) → key (coalesce now item r) ≡ key r)
      → All
          (λ r.
            (r.catalog_id == item.catalog_id) ≡ false
            → (key (new_row now id item) == key r) ≡ false)
          rows
      → Distinct (map key rows)
      → Distinct (map key (upsert_item now id item rows))
  unfolding upsert_item
  Distinct-upsert_item now id item [] keep fresh h = (refl, tt)
  Distinct-upsert_item now id item (row ∷ rows) keep (fresh, freshs) (h, hs) =
      elim (Bool-cases (row.catalog_id == item.catalog_id)) [
        | inl same ↦ rw (same, keep row) (h, hs)
        | inr other ↦ rw other (
          any-upsert_item (key row) now id item rows keep (fresh other) h,
          Distinct-upsert_item now id item rows keep freshs hs,
        )
      ]

-- A row of the list has its key among the keys.
any-Memᴰ :
    (key : Row → Str) (row : Row) (rows : List Row)
    → Memᴰ row rows
    → any (λ j. j == key row) (map key rows) ≡ true
any-Memᴰ key row [] m = elim m [ ]
any-Memᴰ key row (x ∷ rows) (Memᴰ.head e) = ground (arith, ==_refl (key row), ap key e)
any-Memᴰ key row (x ∷ rows) (Memᴰ.tail m) = ground (arith, any-Memᴰ key row rows m)

-- Where the keys are distinct, the rows with a row's key are that row.
pub same_key :
    (key : Row → Str) (row : Row) (rows : List Row)
    → Memᴰ row rows
    → Distinct (map key rows)
    → All (λ r. (key r == key row) ≡ true → r ≡ row) rows
same_key key row [] m h = tt
same_key key row (x ∷ rows) (Memᴰ.head e) (h, hs) =
    (λ _. sym e, others rows (subst (λ r. any (λ j. j == key r) (map key rows) ≡ false) (sym e) h))
  where
    others :
        (rs : List Row)
        → any (λ j. j == key row) (map key rs) ≡ false
        → All (λ r. (key r == key row) ≡ true → r ≡ row) rs
    others [] k = tt
    others (r ∷ rs) k = (λ same. ground arith, others rs (ground arith))
same_key key row (x ∷ rows) (Memᴰ.tail m) (h, hs) = (
  λ same. ground (arith, ==_iff (key x) (key row), any-Memᴰ key row rows m),
  same_key key row rows m hs,
)
