-- ===== src/Crawler/Cursors.antt =====
-- internal/store/cursor.go, indexstate.go and `Complete` of queue.go: the tables `crawler_catalog` and
-- `crawler_index`, and the transaction that settles a catalog. JSON columns are kept as texts.
use beckn_onix.Base.{
  ℕ, Str, str, ◌==◌, Dict, lookup, insert, Bool, false, List, [], Option, none, some, get_or,
  if◌then◌else◌, is_some, ◌||◌,
}
use beckn_onix.Model.Error.{errorf}
use beckn_onix.Model.Result.{Result, ok, ◌>>=◌, ◌>>◌, fail_if}
use beckn_onix.Crawler.Rows.{Row}
use beckn_onix.Crawler.Queue.{delete_held}

-- a row of the table `crawler_catalog`, under its catalog's identifier
pub record Catalog : Type 0 where
  pub index_url : Str
  pub participant_id : Option Str
  pub version : Option ℕ
  pub entry_version : Option ℕ
  pub retired : Bool
  pub reason : Option Str
  pub descriptor : Option Str
  pub provider : Option Str
  pub catalog_type : Option Str
  pub updated_at : ℕ

-- `crawlmanager.CatalogCursor`
pub record CatalogCursor : Type 0 where
  pub catalog_id : Str
  pub index_url : Str
  pub participant_id : Str
  pub version : ℕ
  pub entry_version : ℕ
  pub retired : Bool
  pub descriptor : Str
  pub provider : Str
  pub catalog_type : Str

-- `nullStr` and `nullBytes`
unfoldable pub null_str : Str → Option Str
null_str s = if s == [] then none else some s

-- `COALESCE(a, b)`
unfoldable pub coalesce_str : Option Str → Option Str → Option Str
coalesce_str none b = b
coalesce_str (some a) b = some a

-- A column of the row that is there, NULL where there is none.
unfoldable pub column : (Catalog → Option Str) → Option Catalog → Option Str
column f none = none
column f (some c) = f c

-- the row that `upsertCatalog` leaves
unfoldable pub settled : ℕ → CatalogCursor → Option Catalog → Catalog
settled now c old = record {
  index_url = c.index_url;
  participant_id = null_str c.participant_id;
  version = some c.version;
  entry_version = some c.entry_version;
  retired = c.retired;
  reason = none;
  descriptor = coalesce_str (null_str c.descriptor) (column (λ (o : Catalog). o.descriptor) old);
  provider = coalesce_str (null_str c.provider) (column (λ (o : Catalog). o.provider) old);
  catalog_type =
      coalesce_str (null_str c.catalog_type) (column (λ (o : Catalog). o.catalog_type) old);
  updated_at = now;
}

-- `upsertCatalog`; the column index_url is NOT NULL
unfoldable pub upsert_catalog : ℕ → CatalogCursor → Dict Catalog → Result (Dict Catalog)
upsert_catalog now c catalogs = do
  fail_if (c.index_url == []) (errorf (str "store: upsertCatalog: null value in column index_url"))
  ok (insert c.catalog_id (settled now c (lookup c.catalog_id catalogs)) catalogs)

-- `crawlmanager.PassReport`, the fields that `RecordFailure` reads
pub record PassReport : Type 0 where
  pub catalog_id : Str
  pub index_url : Str
  pub participant_id : Str
  pub error : Str

-- the row that `RecordFailure` leaves
unfoldable pub failed_row : ℕ → PassReport → Option Catalog → Catalog
failed_row now report none = record {
  index_url = report.index_url;
  participant_id = null_str report.participant_id;
  version = none;
  entry_version = none;
  retired = false;
  reason = null_str report.error;
  descriptor = none;
  provider = none;
  catalog_type = none;
  updated_at = now;
}
failed_row now report (some c) = record c {
  index_url = report.index_url;
  participant_id = null_str report.participant_id;
  reason = null_str report.error;
  updated_at = now;
}

-- `RecordFailure`
unfoldable pub record_failure : ℕ → PassReport → Dict Catalog → Result (Dict Catalog)
record_failure now report catalogs = do
  fail_if (report.index_url == [])
      (errorf (str "store: RecordFailure: null value in column index_url"))
  ok (insert report.catalog_id (failed_row now report (lookup report.catalog_id catalogs)) catalogs)

abbrev pub or_zero : Option ℕ → ℕ
or_zero none = 0
or_zero (some n) = n

-- `GetCatalogCursor`
unfoldable pub get_catalog_cursor : Str → Dict Catalog → Option CatalogCursor
get_catalog_cursor catalog_id catalogs = elim (lookup catalog_id catalogs) [
  | none ↦ none
  | some c ↦ some (record {
    catalog_id = catalog_id;
    index_url = c.index_url;
    participant_id = get_or c.participant_id [];
    version = or_zero c.version;
    entry_version = or_zero c.entry_version;
    retired = c.retired;
    descriptor = [];
    provider = [];
    catalog_type = [];
  })
]

-- What `GetCatalogEnvelope` returns: descriptor, provider, catalog type, participant.
pub record Envelope : Type 0 where
  pub descriptor : Str
  pub provider : Str
  pub catalog_type : Str
  pub participant_id : Str

-- `GetCatalogEnvelope`
unfoldable pub get_catalog_envelope : Str → Dict Catalog → Option Envelope
get_catalog_envelope catalog_id catalogs = elim (lookup catalog_id catalogs) [
  | none ↦ none
  | some c ↦
      if is_some c.descriptor || is_some c.provider
      then some (record {
        descriptor = get_or c.descriptor [];
        provider = get_or c.provider [];
        catalog_type = get_or c.catalog_type [];
        participant_id = get_or c.participant_id [];
      })
      else none
]

-- `Complete`: the cursor and the queue after the transaction, which an error rolls back
unfoldable pub complete :
    ℕ → Str → Str → CatalogCursor → Dict Catalog → List Row → Result (Dict Catalog × List Row)
complete now id claim_id cursor catalogs rows =
    upsert_catalog now cursor catalogs >>= λ settled_catalogs.
    ok (settled_catalogs, delete_held id claim_id rows)

-- a row of the table `crawler_index`, as `crawlmanager.IndexCursor`
pub record IndexCursor : Type 0 where
  pub index_url : Str
  pub participant_id : Str
  pub etag : Str
  pub last_modified : Str

-- the columns as they are stored
pub record IndexRow : Type 0 where
  pub participant_id : Option Str
  pub etag : Option Str
  pub last_modified : Option Str

-- `UpsertIndexCursor`
unfoldable pub upsert_index_cursor : IndexCursor → Dict IndexRow → Dict IndexRow
upsert_index_cursor c = insert c.index_url (record {
  participant_id = null_str c.participant_id;
  etag = null_str c.etag;
  last_modified = null_str c.last_modified;
})

-- `GetIndexCursor`
unfoldable pub get_index_cursor : Str → Dict IndexRow → Option IndexCursor
get_index_cursor index_url indexes = elim (lookup index_url indexes) [
  | none ↦ none
  | some r ↦ some (record {
    index_url = index_url;
    participant_id = get_or r.participant_id [];
    etag = get_or r.etag [];
    last_modified = get_or r.last_modified [];
  })
]
