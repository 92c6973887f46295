-- ===== src/Crawler/Settling.antt =====
-- What the cursors tell after a catalog is settled, after a failure, and after an index is polled.
use beckn_onix.Base.{
  ℕ, Str, ◌==◌, ==_iff, Dict, lookup, insert, lookup-insert, Bool, true, false, List, [], Option,
  none, some, get_or, if◌then◌else◌, ◌≡◌, refl, ap, sym, arith, Bool-cases, ◌⊎◌, inl, inr,
}
use beckn_onix.Model.Error.{GoError}
use beckn_onix.Model.Result.{ok, ◌>>=◌, ◌>>◌, fail_if, fail_if->>-eq-ok, ok-injective}
use beckn_onix.Crawler.Rows.{Row}
use beckn_onix.Crawler.Queue.{delete_held}
use beckn_onix.Crawler.Cursors.{
  Catalog, CatalogCursor, null_str, settled, upsert_catalog, PassReport, failed_row, record_failure,
  or_zero, get_catalog_cursor, complete, IndexCursor, IndexRow, upsert_index_cursor,
  get_index_cursor,
}

pub get_or-null_str : (s : Str) → get_or (null_str s) [] ≡ s
unfolding null_str
get_or-null_str s = ground (arith, ==_iff s [])

-- What a row tells to `GetCatalogCursor`.
abbrev cursor_of : Str → Catalog → CatalogCursor
cursor_of catalog_id c = record {
  catalog_id = catalog_id;
  index_url = c.index_url;
  participant_id = get_or c.participant_id [];
  version = or_zero c.version;
  entry_version = or_zero c.entry_version;
  retired = c.retired;
  descriptor = [];
  provider = [];
  catalog_type = [];
}

get-insert :
    (catalog_id asked : Str) (c : Catalog) (catalogs : Dict Catalog)
    → get_catalog_cursor asked (insert catalog_id c catalogs) ≡ (
        if catalog_id == asked then some (cursor_of asked c) else get_catalog_cursor asked catalogs)
unfolding get_catalog_cursor
get-insert catalog_id asked c catalogs = elim (Bool-cases (catalog_id == asked)) [
  | inl same ↦ rw (lookup-insert asked catalog_id c catalogs, same, get_catalog_cursor) refl
  | inr other ↦ rw (lookup-insert asked catalog_id c catalogs, other, get_catalog_cursor) refl
]

-- The cursor without the envelope, which `GetCatalogCursor` does not read.
abbrev pub without_envelope : CatalogCursor → CatalogCursor
without_envelope c = record c { descriptor = []; provider = []; catalog_type = [] }

cursor_of-settled :
    (now : ℕ) (c : CatalogCursor) (old : Option Catalog)
    → cursor_of c.catalog_id (settled now c old) ≡ without_envelope c
unfolding settled
cursor_of-settled now c old = rw (get_or-null_str c.participant_id) refl

pub complete-eq-ok :
    (now : ℕ) (id claim_id : Str) (c : CatalogCursor) (catalogs : Dict Catalog) (rows : List Row)
    {after : Dict Catalog × List Row}
    → complete now id claim_id c catalogs rows ≡ ok after
    → after ≡ (
      insert c.catalog_id (settled now c (lookup c.catalog_id catalogs)) catalogs,
      delete_held id claim_id rows,
    )
unfolding complete upsert_catalog
complete-eq-ok now id claim_id c catalogs rows {after} =
    by_url (c.index_url == []) _
      (insert c.catalog_id (settled now c (lookup c.catalog_id catalogs)) catalogs)
  where
    by_url :
        (b : Bool) (failure : GoError) (d : Dict Catalog)
        → ((fail_if b failure >> ok d) >>= λ settled_catalogs.
            ok (settled_catalogs, delete_held id claim_id rows))
          ≡ ok after
        → after ≡ (d, delete_held id claim_id rows)
    by_url true failure d e = cc
    by_url false failure d e = sym (ok-injective e)

-- After a `Complete` that succeeds, `GetCatalogCursor` returns the cursor that was settled, without its
-- envelope, and for every other catalog what it returned before; the queue has lost the rows that were
-- held under the claim.
pub complete-get_catalog_cursor :
    (now : ℕ) (id claim_id : Str) (c : CatalogCursor) (catalogs : Dict Catalog) (rows : List Row)
    (catalogs' : Dict Catalog) (rows' : List Row)
    → complete now id claim_id c catalogs rows ≡ ok (catalogs', rows')
    → (asked : Str)
    → (get_catalog_cursor asked catalogs' ≡ (
        if c.catalog_id == asked
        then some (without_envelope c)
        else get_catalog_cursor asked catalogs))
      × (rows' ≡ delete_held id claim_id rows)
complete-get_catalog_cursor now id claim_id c catalogs rows catalogs' rows' e asked =
    let same : (catalogs', rows') ≡ _ = complete-eq-ok now id claim_id c catalogs rows e in
    (
      by_id (Bool-cases (c.catalog_id == asked))
          (ap (λ (p : Dict Catalog × List Row). get_catalog_cursor asked p.0) same),
      ap (λ (p : Dict Catalog × List Row). p.1) same,
    )
  where
    row : Catalog
    row = settled now c (lookup c.catalog_id catalogs)

    by_id :
        ((c.catalog_id == asked) ≡ true) ⊎ ((c.catalog_id == asked) ≡ false)
        → get_catalog_cursor asked catalogs'
          ≡ get_catalog_cursor asked (insert c.catalog_id row catalogs)
        → get_catalog_cursor asked catalogs' ≡ (
            if c.catalog_id == asked
            then some (without_envelope c)
            else get_catalog_cursor asked catalogs)
    by_id (inl found) same =
        rw
          (
            found,
            same,
            get-insert c.catalog_id asked row catalogs,
            found,
            ← (==_iff c.catalog_id asked).0 found,
            cursor_of-settled now c (lookup c.catalog_id catalogs),
          )
          refl
    by_id (inr other) same =
        rw (other, same, get-insert c.catalog_id asked row catalogs, other) refl

-- What `GetCatalogCursor` returns after a failure, from what it returned before.
abbrev pub failed_cursor : PassReport → Option CatalogCursor → CatalogCursor
failed_cursor report none = record {
  catalog_id = report.catalog_id;
  index_url = report.index_url;
  participant_id = report.participant_id;
  version = 0;
  entry_version = 0;
  retired = false;
  descriptor = [];
  provider = [];
  catalog_type = [];
}
failed_cursor report (some c) = record c {
  index_url = report.index_url;
  participant_id = report.participant_id;
}

record_failure-eq-ok :
    (now : ℕ) (report : PassReport) (catalogs : Dict Catalog) {catalogs' : Dict Catalog}
    → record_failure now report catalogs ≡ ok catalogs'
    → catalogs'
      ≡ insert report.catalog_id
          (failed_row now report (lookup report.catalog_id catalogs))
          catalogs
unfolding record_failure
record_failure-eq-ok now report catalogs e =
    let (_, inserted) = fail_if->>-eq-ok (report.index_url == []) _ _ e in
    sym (ok-injective inserted)

cursor_of-failed_row :
    (now : ℕ) (report : PassReport) (catalogs : Dict Catalog)
    → cursor_of report.catalog_id (failed_row now report (lookup report.catalog_id catalogs))
      ≡ failed_cursor report (get_catalog_cursor report.catalog_id catalogs)
unfolding get_catalog_cursor failed_row
cursor_of-failed_row now report catalogs = by_row (lookup report.catalog_id catalogs)
  where
    by_row :
        (o : Option Catalog)
        → cursor_of report.catalog_id (failed_row now report o)
          ≡ failed_cursor report
              (elim o [ none ↦ none | some c ↦ some (cursor_of report.catalog_id c) ])
    by_row none = rw (get_or-null_str report.participant_id) refl
    by_row (some c) = rw (get_or-null_str report.participant_id) refl

-- A failure that is recorded does not advance a catalog's cursor: afterwards `GetCatalogCursor` returns
-- the versions and the retirement that it returned before, or version 0 for a catalog that was never
-- settled, with the index and the participant of the report; for other catalogs it returns the same.
pub record_failure-get_catalog_cursor :
    (now : ℕ) (report : PassReport) (catalogs catalogs' : Dict Catalog)
    → record_failure now report catalogs ≡ ok catalogs'
    → (asked : Str)
    → get_catalog_cursor asked catalogs' ≡ (
        if report.catalog_id == asked
        then some (failed_cursor report (get_catalog_cursor asked catalogs))
        else get_catalog_cursor asked catalogs)
record_failure-get_catalog_cursor now report catalogs catalogs' e asked =
    by_id (Bool-cases (report.catalog_id == asked)) (record_failure-eq-ok now report catalogs e)
  where
    row : Catalog
    row = failed_row now report (lookup report.catalog_id catalogs)

    by_id :
        ((report.catalog_id == asked) ≡ true) ⊎ ((report.catalog_id == asked) ≡ false)
        → catalogs' ≡ insert report.catalog_id row catalogs
        → get_catalog_cursor asked catalogs' ≡ (
            if report.catalog_id == asked
            then some (failed_cursor report (get_catalog_cursor asked catalogs))
            else get_catalog_cursor asked catalogs)
    by_id (inl found) same =
        rw
          (
            same,
            get-insert report.catalog_id asked row catalogs,
            found,
            ← (==_iff report.catalog_id asked).0 found,
            cursor_of-failed_row now report catalogs,
          )
          refl
    by_id (inr other) same = rw (same, get-insert report.catalog_id asked row catalogs, other) refl

-- `GetIndexCursor` returns what `UpsertIndexCursor` has stored last, for the index that it was stored
-- for, and what it returned before for every other.
pub upsert_index_cursor-get_index_cursor :
    (c : IndexCursor) (indexes : Dict IndexRow) (asked : Str)
    → get_index_cursor asked (upsert_index_cursor c indexes)
      ≡ (if c.index_url == asked then some c else get_index_cursor asked indexes)
unfolding upsert_index_cursor get_index_cursor
upsert_index_cursor-get_index_cursor c indexes asked = elim (Bool-cases (c.index_url == asked)) [
  | inl found ↦
      rw
        (
          lookup-insert asked c.index_url (index_row c) indexes,
          found,
          get_index_cursor,
          ← (==_iff c.index_url asked).0 found,
          get_or-null_str c.participant_id,
          get_or-null_str c.etag,
          get_or-null_str c.last_modified,
        )
        refl
  | inr other ↦
      rw (lookup-insert asked c.index_url (index_row c) indexes, other, get_index_cursor) refl
]
  where
    index_row : IndexCursor → IndexRow
    index_row d = record {
      participant_id = null_str d.participant_id;
      etag = null_str d.etag;
      last_modified = null_str d.last_modified;
    }
