-- ===== src/Crawler/Split.antt =====
-- `BatchCatalog` as a whole: it ends, and gives the catalog itself or the batches of the loop.
use beckn_onix.Base.{
  ℕ, ◌≤◌, Str, str, leb, eqb, Dict, length, Bool, true, false, ◌||◌, List, [], ◌∷◌, Option, none,
  some, if◌then◌else◌, ◌≡◌, refl, sym, subst, ◌∙◌, arith, ◌⊎◌, inl, inr, ◌<◌, Bool-cases,
}
use beckn_onix.Model.Error.{wrapf}
use beckn_onix.Model.Result.{Result, ok, err}
use beckn_onix.Crawler.Batch.{
  BatchCodec, CatalogBatch, resources_key, raw_array, batch_loop, or_whole, batch_catalog,
}
use beckn_onix.Crawler.Batches.{
  Rounds, done, round, round_shorter, batch_loop-Rounds, batch_loop_total,
}

-- `BatchCatalog` ends: the fuel of a round per resource is enough, whatever the codec answers.
pub batch_catalog_total :
    (codec : BatchCodec) (catalog : Str) (max : ℕ) (base_mode : Str)
    → (result : Result (List CatalogBatch)) × (batch_catalog codec catalog max base_mode
        ≡ some result)
unfolding batch_catalog or_whole
batch_catalog_total codec catalog max base_mode = by_size (eqb max 0 || leb (length catalog) max)
  where
    whole : List CatalogBatch
    whole = record { doc = catalog; update_mode = base_mode } ∷ []

    by_loop :
        (o : Option (Result (List CatalogBatch)))
        → ((r : Result (List CatalogBatch)) × (o ≡ some r))
        → (result : Result (List CatalogBatch)) × (or_whole catalog base_mode o ≡ some result)
    by_loop none (r, e) = cc
    by_loop (some (err failure)) (r, e) = (err failure, refl)
    by_loop (some (ok [])) (r, e) = (ok whole, refl)
    by_loop (some (ok (b ∷ rest))) (r, e) = (ok (b ∷ rest), refl)

    by_doc :
        (a : Result (Dict Str))
        → (result : Result (List CatalogBatch)) × ((elim a
              as (λ _. Option (Result (List CatalogBatch))) [
                | err e ↦
                    some (err (wrapf (str "catalogcrawler: reading catalog for batching: ") e))
                | ok doc ↦
                    elim (raw_array codec doc resources_key)
                      as (λ _. Option (Result (List CatalogBatch))) [
                        | err e ↦ some (err e)
                        | ok resources ↦
                            or_whole catalog base_mode
                              (batch_loop codec max base_mode doc (length resources) true resources)
                      ]
              ])
            ≡ some result)
    by_doc (err e) = (err _, refl)
    by_doc (ok doc) = by_array (raw_array codec doc resources_key)
      where
        by_array :
            (a : Result (List Str))
            → (result : Result (List CatalogBatch)) × ((elim a
                  as (λ _. Option (Result (List CatalogBatch))) [
                    | err e ↦ some (err e)
                    | ok resources ↦
                        or_whole catalog base_mode
                          (batch_loop codec max base_mode doc (length resources) true resources)
                  ])
                ≡ some result)
        by_array (err e) = (err e, refl)
        by_array (ok resources) = by_loop _ (
            batch_loop_total codec max base_mode doc (length resources) true resources
              (omega arith))

    by_size :
        (b : Bool)
        → (result : Result (List CatalogBatch)) × ((if b
              then some (ok whole)
              else elim (codec.unmarshal_map catalog)
                  as (λ _. Option (Result (List CatalogBatch))) [
                    | err e ↦
                        some (err (wrapf (str "catalogcrawler: reading catalog for batching: ") e))
                    | ok doc ↦
                        elim (raw_array codec doc resources_key)
                          as (λ _. Option (Result (List CatalogBatch))) [
                            | err e ↦ some (err e)
                            | ok resources ↦ or_whole catalog base_mode (
                                batch_loop codec max base_mode doc
                                  (length resources)
                                  true
                                  resources)
                          ]
                  ])
            ≡ some result)
    by_size true = (ok whole, refl)
    by_size false = by_doc (codec.unmarshal_map catalog)

whole_or_rounds :
    (codec : BatchCodec) (catalog : Str) (max : ℕ) (base_mode : Str) (doc : Dict Str)
    (resources : List Str)
    → codec.unmarshal_map catalog ≡ ok doc
    → raw_array codec doc resources_key ≡ ok resources
    → batch_catalog codec catalog max base_mode ≡ (
        if eqb max 0 || leb (length catalog) max
        then some (ok (record { doc = catalog; update_mode = base_mode } ∷ []))
        else or_whole catalog base_mode
            (batch_loop codec max base_mode doc (length resources) true resources))
unfolding batch_catalog
whole_or_rounds codec catalog max base_mode doc resources decoded held = rw (decoded, held) refl

-- A catalog that is sent whole: there is no limit, it fits, or it has no resources.
abbrev pub IsWhole : Str → ℕ → List Str → Type 0
IsWhole catalog max resources = (max ≡ 0) ⊎ ((length catalog ≤ max) ⊎ (length resources ≡ 0))

-- Any other.
abbrev pub IsSplit : Str → ℕ → List Str → Type 0
IsSplit catalog max resources = (0 < max) × (max < length catalog) × (0 < length resources)

no-Rounds :
    {codec : BatchCodec} {max : ℕ} {base_mode : Str} {doc : Dict Str} {first : Bool}
    {resources : List Str}
    → Rounds codec max base_mode doc first resources []
    → length resources ≡ 0
no-Rounds done = refl

some-Rounds :
    (codec : BatchCodec) (max : ℕ) (base_mode : Str) (doc : Dict Str) {first : Bool}
    {resources : List Str} {b : CatalogBatch} {rest : List CatalogBatch}
    → Rounds codec max base_mode doc first resources (b ∷ rest)
    → 0 < length resources
some-Rounds codec max base_mode doc (round i more) =
    let shorter = round_shorter codec max base_mode doc i in omega arith

-- The batches are the catalog as it is, if it is sent whole, and those of the loop's rounds otherwise.
pub batch_catalog-Rounds :
    (codec : BatchCodec) (catalog : Str) (max : ℕ) (base_mode : Str) (doc : Dict Str)
    (resources : List Str) (batches : List CatalogBatch)
    → codec.unmarshal_map catalog ≡ ok doc
    → raw_array codec doc resources_key ≡ ok resources
    → batch_catalog codec catalog max base_mode ≡ some (ok batches)
    → (IsWhole catalog max resources
        × (batches ≡ record { doc = catalog; update_mode = base_mode } ∷ []))
      ⊎ (IsSplit catalog max resources
          × (1 ≤ length batches)
          × Rounds codec max base_mode doc true resources batches)
unfolding or_whole
batch_catalog-Rounds codec catalog max base_mode doc resources batches decoded held e =
    by_size (eqb max 0 || leb (length catalog) max) refl
      (sym (whole_or_rounds codec catalog max base_mode doc resources decoded held) ∙ e)
  where
    whole : List CatalogBatch
    whole = record { doc = catalog; update_mode = base_mode } ∷ []

    Batched : Type 0
    Batched =
        (IsWhole catalog max resources × (batches ≡ whole))
        ⊎ (IsSplit catalog max resources
            × (1 ≤ length batches)
            × Rounds codec max base_mode doc true resources batches)

    by_loop :
        (o : Option (Result (List CatalogBatch)))
        → (0 < max) × (max < length catalog)
        → ((found : List CatalogBatch)
            → o ≡ some (ok found)
            → Rounds codec max base_mode doc true resources found)
        → or_whole catalog base_mode o ≡ some (ok batches)
        → Batched
    by_loop none large rounds k = cc
    by_loop (some (err failure)) large rounds k = cc
    by_loop (some (ok [])) large rounds k =
        let same : whole ≡ batches = cc in inl (inr (inr (no-Rounds (rounds [] refl))), sym same)
    by_loop (some (ok (b ∷ rest))) large rounds k =
        let same : b ∷ rest ≡ batches = cc in
        let ran = rounds (b ∷ rest) refl in
        inr (
          (large.0, large.1, some-Rounds codec max base_mode doc ran),
          subst (λ (l : List CatalogBatch). 1 ≤ length l) same (omega arith),
          subst (Rounds codec max base_mode doc true resources) same ran,
        )

    by_size :
        (b : Bool)
        → (eqb max 0 || leb (length catalog) max) ≡ b
        → (if b
            then some (ok whole)
            else or_whole catalog base_mode
                (batch_loop codec max base_mode doc (length resources) true resources))
          ≡ some (ok batches)
        → Batched
    by_size true fits k =
        let same : whole ≡ batches = cc in
        inl (
          (elim (Bool-cases (eqb max 0)) [
            | inl z ↦ inl (ground arith)
            | inr n ↦ inr (inl (ground arith))
          ]),
          sym same,
        )
    by_size false large k =
        by_loop _ (ground arith, ground arith)
          (λ found.
            batch_loop-Rounds codec max base_mode doc (length resources) true resources found)
          k
