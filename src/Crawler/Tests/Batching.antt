-- ===== src/Crawler/Tests/Batching.antt =====
-- A codec for the batches: maps and arrays as framed texts. It is compact by itself.
use beckn_onix.Base.{
  ◌+◌, Str, str, ◌==◌, Dict, lookup, insert, erase, length, length-append, Bool-cases, All, true,
  false, List, [], ◌∷◌, map, Option, none, some, if◌then◌else◌, ◌≡◌, refl, sym, ap, arith, inl, inr,
  ◌⊎◌,
}
use beckn_onix.Base.Frames.{frame, unframe, unframe-frame}
use beckn_onix.Model.Error.{errorf}
use beckn_onix.Model.Result.{Result, ok, err}
use beckn_onix.Crawler.Batch.{
  BatchCodec, CatalogBatch, resources_key, offers_key, raw_array, batch_catalog, or_whole,
  batch_loop, with_batch, next_batch, fill, base_doc, slice_doc, with_offers, clone_without,
  mode_of,
}
use beckn_onix.Crawler.Batches.{room}
use beckn_onix.Crawler.Split.{IsWhole, IsSplit, batch_catalog_total}
use beckn_onix.Crawler.Pushed.{IsBatchCodec, map_option, collect, IsLed, batch_catalog-IsLed}
use beckn_onix.Crawler.Sizes.{HasSizes, FitsLimit, batch_catalog-FitsLimit}

flatten : Dict Str → List Str
flatten [] = []
flatten ((k, v) ∷ d) = k ∷ v ∷ flatten d

pairs : List Str → Dict Str
pairs [] = []
pairs (k ∷ []) = []
pairs (k ∷ v ∷ rest) = (k, v) ∷ pairs rest

pairs-flatten : (d : Dict Str) → pairs (flatten d) ≡ d
unfolding pairs flatten
pairs-flatten [] = refl
pairs-flatten ((k, v) ∷ d) = ap (λ (rest : Dict Str). (k, v) ∷ rest) (pairs-flatten d)

abbrev decode : Str → Result (List Str)
decode [] = err (errorf (str "unexpected end of JSON input"))
decode (n ∷ raw) = ok (unframe n raw)

abbrev encode : List Str → Str
encode l = length l ∷ frame l

abbrev pairs_of : Result (List Str) → Result (Dict Str)
pairs_of (err e) = err e
pairs_of (ok l) = ok (pairs l)

abbrev codec : BatchCodec
codec = record {
  unmarshal_map = λ raw. pairs_of (decode raw);
  unmarshal_array = decode;
  marshal_map = λ d. ok (encode (flatten d));
  marshal_array = λ l. ok (encode l);
}

abbrev same_text : Str → Str
same_text s = s

map_option-same_text : (o : Option Str) → map_option same_text o ≡ o
map_option-same_text none = refl
map_option-same_text (some s) = refl

map-same_text : (l : List Str) → map same_text l ≡ l
map-same_text [] = refl
map-same_text (s ∷ l) = ap (λ (rest : List Str). s ∷ rest) (map-same_text l)

codec-IsBatchCodec : IsBatchCodec codec same_text
unfolding ◌==◌
codec-IsBatchCodec = record {
  map_back = λ d t e.
      let same : encode (flatten d) ≡ t = cc in
      (
        d,
        rw (← same, unframe-frame (flatten d), pairs-flatten d) refl,
        λ k. sym (map_option-same_text (lookup k d)),
      );
  array_back = λ l t e.
      let same : encode l ≡ t = cc in
      rw (← same, unframe-frame l, map-same_text l) (refl, refl, refl);
}

length-frame : (l : List Str) → length (frame l) ≡ room l
unfolding frame
length-frame [] = refl
length-frame (s ∷ l) = omega (arith, length-append s (frame l), length-frame l)

-- A new entry takes the room of its key and its value.
room-insert :
    (v : Str) (d : Dict Str)
    → lookup resources_key d ≡ none
    → room (flatten (insert resources_key v d)) ≡ room (flatten d) + 11 + length v
unfolding insert lookup flatten str
room-insert v [] h = omega arith
room-insert v ((k, held) ∷ d) h = elim (Bool-cases (k == resources_key)) [
  | inl same ↦ absurd (not_there same h)
  | inr other ↦ rw other (further (room-insert v d (rest_absent other h)))
]
  where
    not_there :
        (k == resources_key) ≡ true
        → (if k == resources_key then some held else lookup resources_key d) ≡ none
        → ⊥
    not_there same e = cc

    rest_absent :
        (k == resources_key) ≡ false
        → (if k == resources_key then some held else lookup resources_key d) ≡ none
        → lookup resources_key d ≡ none
    rest_absent other e = cc

    further :
        room (flatten (insert resources_key v d)) ≡ room (flatten d) + 11 + length v
        → room (flatten ((k, held) ∷ insert resources_key v d))
          ≡ room (flatten ((k, held) ∷ d)) + 11 + length v
    further e = omega arith

codec-HasSizes : HasSizes codec same_text
codec-HasSizes = record {
  entry_size = λ d v t u fresh e k.
      let shorter : encode (flatten d) ≡ u = cc in
      let longer : encode (flatten (insert resources_key v d)) ≡ t = cc in
      rw
        (
          ← shorter,
          ← longer,
          length-frame (flatten d),
          length-frame (flatten (insert resources_key v d)),
          room-insert v d fresh,
        )
        (omega arith);
  array_size = λ l t some e.
      let same : encode l ≡ t = cc in rw (← same, map-same_text l, length-frame l) (omega arith);
}

abbrev resource_texts : List Str
resource_texts = str "aaaa" ∷ str "bbbb" ∷ str "cccc" ∷ str "dddd" ∷ []

abbrev catalog_doc : Dict Str
catalog_doc = (offers_key, str "o") ∷ (resources_key, encode resource_texts) ∷ []

abbrev catalog : Str
catalog = encode (flatten catalog_doc)

abbrev lead : CatalogBatch
lead = record {
  doc = encode (flatten ((offers_key, str "o") ∷ (resources_key, encode (str "aaaa" ∷ [])) ∷ []));
  update_mode = str "FULL";
}

abbrev appended : CatalogBatch
appended = record {
  doc = encode (flatten ((resources_key, encode (str "bbbb" ∷ str "cccc" ∷ str "dddd" ∷ [])) ∷ []));
  update_mode = str "MERGE";
}

decodes : codec.unmarshal_map catalog ≡ ok catalog_doc
unfolding unframe frame pairs flatten str
decodes = refl

has_resources : raw_array codec catalog_doc resources_key ≡ ok resource_texts
unfolding raw_array unframe frame str ◌==◌ lookup
has_resources = refl

splits : batch_catalog codec catalog 16 (str "FULL") ≡ some (ok (lead ∷ appended ∷ []))
unfolding batch_catalog or_whole raw_array batch_loop with_batch next_batch fill base_doc slice_doc
    with_offers clone_without mode_of unframe frame pairs flatten str ◌==◌ lookup insert erase
splits = refl

-- The second batch is longer than the limit.
second_length : length appended.doc ≡ 28
unfolding flatten frame str
second_length = refl

batch_catalog_total_example :
    (result : Result (List CatalogBatch)) × (batch_catalog codec catalog 16 (str "FULL")
      ≡ some result)
batch_catalog_total_example = batch_catalog_total codec catalog 16 (str "FULL")

batch_catalog-IsLed_example :
    (IsWhole catalog 16 resource_texts
      × (lead ∷ appended ∷ [] ≡ record { doc = catalog; update_mode = str "FULL" } ∷ []))
    ⊎ (IsSplit catalog 16 resource_texts
        × (collect codec (lead ∷ appended ∷ []) ≡ ok (map same_text resource_texts))
        × IsLed codec same_text codec-IsBatchCodec (str "FULL") catalog_doc (lead ∷ appended ∷ []))
batch_catalog-IsLed_example =
    batch_catalog-IsLed codec same_text codec-IsBatchCodec catalog 16 (str "FULL") catalog_doc
      resource_texts (lead ∷ appended ∷ []) decodes has_resources splits

batch_catalog-FitsLimit_example :
    (lead ∷ appended ∷ [] ≡ record { doc = catalog; update_mode = str "FULL" } ∷ [])
    ⊎ All (FitsLimit codec same_text codec-IsBatchCodec codec-HasSizes 16) (lead ∷ appended ∷ [])
batch_catalog-FitsLimit_example =
    batch_catalog-FitsLimit codec same_text codec-IsBatchCodec codec-HasSizes catalog 16
      (str "FULL") catalog_doc resource_texts (lead ∷ appended ∷ [])
      (omega arith, (omega arith, (omega arith, (omega arith, tt)))) decodes has_resources splits
