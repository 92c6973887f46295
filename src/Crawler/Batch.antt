-- ===== src/Crawler/Batch.antt =====
-- internal/sink/batch.go: a catalog is split into push batches by its serialized size. encoding/json is
-- no code of the program: its functions are the fields of `BatchCodec`.
use beckn_onix.Base.{
  ℕ, zero, suc, ◌+◌, Str, str, ◌==◌, ltb, leb, eqb, Dict, lookup, insert, erase, length, Bool, true,
  false, ◌&&◌, ◌||◌, List, [], ◌∷◌, ◌++◌, Option, none, some, get_or, if◌then◌else◌,
}
use beckn_onix.Model.Error.{wrapf}
use beckn_onix.Model.Result.{Result, ok, err, ◌>>=◌}

-- What the file takes from encoding/json, on objects and arrays of raw values.
pub record BatchCodec : Type 0 where
  pub unmarshal_map : Str → Result (Dict Str)
  pub unmarshal_array : Str → Result (List Str)
  pub marshal_map : Dict Str → Result Str
  pub marshal_array : List Str → Result Str

-- `CatalogBatch`
pub record CatalogBatch : Type 0 where
  pub doc : Str
  pub update_mode : Str

-- `UpdateModeMerge`
abbrev pub update_mode_merge : Str
update_mode_merge = str "MERGE"

abbrev pub resources_key : Str
resources_key = str "resources"

abbrev pub offers_key : Str
offers_key = str "offers"

-- `rawArray`
unfoldable pub raw_array : BatchCodec → Dict Str → Str → Result (List Str)
raw_array codec doc name = elim (lookup name doc) [
  | none ↦ ok []
  | some raw ↦ if raw == [] then ok [] else elim (codec.unmarshal_array raw) [
    | err e ↦ err (wrapf (str "catalogcrawler: reading " ++ name ++ str " for batching: ") e)
    | ok items ↦ ok items
  ]
]

-- `cloneWithout`
unfoldable pub clone_without : Dict Str → Str → Dict Str
clone_without [] name = []
clone_without ((k, v) ∷ doc) name =
    let out = clone_without doc name in if k == name then out else insert k v out

-- What the batches share: everything but the resources, and but the offers after the first batch.
unfoldable pub base_doc : Dict Str → Bool → Dict Str
base_doc doc first =
    let base = clone_without doc resources_key in if first then base else erase offers_key base

-- `if len(offers) > 0 { slice["offers"] = offers }`
unfoldable pub with_offers : Str → Dict Str → Dict Str
with_offers offers slice = if offers == [] then slice else insert offers_key offers slice

-- The document of one batch.
unfoldable pub slice_doc : Dict Str → Bool → Str → Dict Str
slice_doc doc first res_bytes =
    let slice = insert resources_key res_bytes (clone_without doc resources_key) in
    if first then with_offers (get_or (lookup offers_key doc) []) slice else erase offers_key slice

-- The inner loop: the resources of a batch, and those that spill to the next. The budget is
-- `maxDocBytes - len(baseBytes)`, which may be negative, so the base is added on the other side.
unfoldable pub fill : ℕ → ℕ → Bool → ℕ → List Str → List Str × List Str
fill max_doc_bytes base started used [] = ([], [])
fill max_doc_bytes base started used (r ∷ rs) =
    let cost = length r + 1 in
    let (taken, left) = fill max_doc_bytes base true (used + cost) rs in
    if started && ltb max_doc_bytes (base + (used + cost)) then ([], r ∷ rs) else (r ∷ taken, left)

unfoldable pub mode_of : Str → Bool → Str
mode_of base_mode first = if first then base_mode else update_mode_merge

-- One round of the outer loop: the batch, and the resources that are left.
unfoldable pub next_batch :
    BatchCodec → ℕ → Str → Dict Str → Bool → List Str → Result (CatalogBatch × List Str)
next_batch codec max_doc_bytes base_mode doc first resources = do
  base_bytes ← codec.marshal_map (base_doc doc first)
  let (taken, left) = fill max_doc_bytes (length base_bytes) false 0 resources
  res_bytes ← codec.marshal_array taken
  b ← codec.marshal_map (slice_doc doc first res_bytes)
  ok (record { doc = b; update_mode = mode_of base_mode first }, left)

-- `append(batches, b)`, for the batches that follow
unfoldable pub with_batch :
    CatalogBatch → Option (Result (List CatalogBatch)) → Option (Result (List CatalogBatch))
with_batch b none = none
with_batch b (some (err e)) = some (err e)
with_batch b (some (ok rest)) = some (ok (b ∷ rest))

-- The outer loop, on fuel; `none` if it runs out.
unfoldable pub batch_loop :
    BatchCodec → ℕ → Str → Dict Str → ℕ → Bool → List Str → Option (Result (List CatalogBatch))
batch_loop codec max_doc_bytes base_mode doc fuel first [] = some (ok [])
batch_loop codec max_doc_bytes base_mode doc zero first (r ∷ rs) = none
batch_loop codec max_doc_bytes base_mode doc (suc fuel) first (r ∷ rs) =
    elim (next_batch codec max_doc_bytes base_mode doc first (r ∷ rs)) [
      | err e ↦ some (err e)
      | ok round ↦
          with_batch round.0 (batch_loop codec max_doc_bytes base_mode doc fuel false round.1)
    ]

-- `len(batches) == 0`: a catalog without resources is one batch.
unfoldable pub or_whole :
    Str → Str → Option (Result (List CatalogBatch)) → Option (Result (List CatalogBatch))
or_whole catalog base_mode none = none
or_whole catalog base_mode (some (err e)) = some (err e)
or_whole catalog base_mode (some (ok [])) =
    some (ok (record { doc = catalog; update_mode = base_mode } ∷ []))
or_whole catalog base_mode (some (ok (b ∷ rest))) = some (ok (b ∷ rest))

-- `BatchCatalog`, with fuel for a round per resource. A negative limit counts as 0.
unfoldable pub batch_catalog : BatchCodec → Str → ℕ → Str → Option (Result (List CatalogBatch))
batch_catalog codec catalog max_doc_bytes base_mode =
    if eqb max_doc_bytes 0 || leb (length catalog) max_doc_bytes
    then some (ok (record { doc = catalog; update_mode = base_mode } ∷ []))
    else elim (codec.unmarshal_map catalog) [
      | err e ↦ some (err (wrapf (str "catalogcrawler: reading catalog for batching: ") e))
      | ok doc ↦ elim (raw_array codec doc resources_key) [
        | err e ↦ some (err e)
        | ok resources ↦
            or_whole catalog base_mode
              (batch_loop codec max_doc_bytes base_mode doc (length resources) true resources)
      ]
    ]

abbrev count : Result (List Str) → ℕ
count (err e) = 0
count (ok items) = length items

-- `DocCounts`
unfoldable pub doc_counts : BatchCodec → Str → ℕ × ℕ
doc_counts codec b = elim (codec.unmarshal_map b) [
  | err e ↦ (0, 0)
  | ok doc ↦ (count (raw_array codec doc resources_key), count (raw_array codec doc offers_key))
]
