-- ===== src/Crawler/Envelopes.antt =====
-- The envelope of a catalog, which a settling without one keeps.
use beckn_onix.Base.{
  ℕ, Str, ◌==◌, ==_refl, Dict, lookup, lookup-insert, Bool, true, false, not, List, [], Option,
  none, some, get_or, is_some, ◌||◌, if◌then◌else◌, ◌≡◌, refl, ap, sym, ◌∙◌, arith,
}
use beckn_onix.Model.Result.{ok}
use beckn_onix.Crawler.Rows.{Row}
use beckn_onix.Crawler.Cursors.{
  Catalog, CatalogCursor, null_str, coalesce_str, column, settled, Envelope, get_catalog_envelope,
  complete,
}
use beckn_onix.Crawler.Settling.{get_or-null_str, complete-eq-ok}

-- The fields that a settling without an envelope leaves to the older one.
abbrev pub has_envelope : CatalogCursor → Bool
has_envelope c = not (c.descriptor == []) || not (c.provider == []) || not (c.catalog_type == [])

null_str-empty : (s : Str) → (s == []) ≡ true → null_str s ≡ none
unfolding null_str
null_str-empty s h = ground arith

-- What a row tells to `GetCatalogEnvelope`.
abbrev envelope_of : Option Catalog → Option Envelope
envelope_of none = none
envelope_of (some c) =
    if is_some c.descriptor || is_some c.provider
    then some (record {
      descriptor = get_or c.descriptor [];
      provider = get_or c.provider [];
      catalog_type = get_or c.catalog_type [];
      participant_id = get_or c.participant_id [];
    })
    else none

get_catalog_envelope_lem :
    (asked : Str) (catalogs : Dict Catalog)
    → get_catalog_envelope asked catalogs ≡ envelope_of (lookup asked catalogs)
unfolding get_catalog_envelope
get_catalog_envelope_lem asked catalogs =
    elim (lookup asked catalogs)
      as (λ o.
        elim o as (λ _. Option Envelope) [
          | none ↦ none
          | some c ↦
              if is_some c.descriptor || is_some c.provider
              then some (record {
                descriptor = get_or c.descriptor [];
                provider = get_or c.provider [];
                catalog_type = get_or c.catalog_type [];
                participant_id = get_or c.participant_id [];
              })
              else none
        ]
        ≡ envelope_of o) [ none ↦ refl | some c ↦ refl ]

envelope_of-settled :
    (now : ℕ) (c : CatalogCursor) (envelope : Envelope) (old : Option Catalog)
    → has_envelope c ≡ false
    → envelope_of old ≡ some envelope
    → envelope_of (some (settled now c old))
      ≡ some (record envelope { participant_id = c.participant_id })
unfolding settled coalesce_str column
envelope_of-settled now c envelope none bare kept = cc
envelope_of-settled now c envelope (some o) bare kept =
    rw
      (
        null_str-empty c.descriptor (ground arith),
        null_str-empty c.provider (ground arith),
        null_str-empty c.catalog_type (ground arith),
        get_or-null_str c.participant_id,
      )
      (by_test (is_some o.descriptor || is_some o.provider) kept)
  where
    by_test :
        (b : Bool)
        → (if b
            then some (record {
              descriptor = get_or o.descriptor [];
              provider = get_or o.provider [];
              catalog_type = get_or o.catalog_type [];
              participant_id = get_or o.participant_id [];
            })
            else none)
          ≡ some envelope
        → (if b
            then some (record {
              descriptor = get_or o.descriptor [];
              provider = get_or o.provider [];
              catalog_type = get_or o.catalog_type [];
              participant_id = c.participant_id;
            })
            else none)
          ≡ some (record envelope { participant_id = c.participant_id })
    by_test true k =
        ap
          (λ (v : Option Envelope). elim v as (λ _. Option Envelope) [
            | none ↦ none
            | some w ↦ some (record w { participant_id = c.participant_id })
          ])
          k
    by_test false k = cc

-- A settling that carries no envelope, as that of a retired catalog, keeps the envelope that an earlier
-- one has captured; only the participant is that of the new cursor.
pub complete-get_catalog_envelope :
    (now : ℕ) (id claim_id : Str) (c : CatalogCursor) (catalogs : Dict Catalog) (rows : List Row)
    (catalogs' : Dict Catalog) (rows' : List Row) (envelope : Envelope)
    → complete now id claim_id c catalogs rows ≡ ok (catalogs', rows')
    → has_envelope c ≡ false
    → get_catalog_envelope c.catalog_id catalogs ≡ some envelope
    → get_catalog_envelope c.catalog_id catalogs'
      ≡ some (record envelope { participant_id = c.participant_id })
complete-get_catalog_envelope now id claim_id c catalogs rows catalogs' rows' envelope e bare kept =
    let same : (catalogs', rows') ≡ _ = complete-eq-ok now id claim_id c catalogs rows e in
    let row : Catalog = settled now c (lookup c.catalog_id catalogs) in
    let stored : lookup c.catalog_id catalogs' ≡ some row =
      rw
        (
          ap (λ (p : Dict Catalog × List Row). p.0) same,
          lookup-insert c.catalog_id c.catalog_id row catalogs,
          ==_refl c.catalog_id,
        )
        refl in
    rw (get_catalog_envelope_lem c.catalog_id catalogs', stored)
      (envelope_of-settled now c envelope (lookup c.catalog_id catalogs) bare
        (sym (get_catalog_envelope_lem c.catalog_id catalogs) ∙ kept))
