-- ===== src/Crawler/Pushed.antt =====
-- What Discovery receives: the batches of a catalog, read back.
use beckn_onix.Base.{
  ℕ, ◌≤◌, Str, str, ◌==◌, ==_iff, Dict, lookup, insert, lookup-insert, lookup-erase, length, All,
  Bool, true, false, not, ◌&&◌, List, [], ◌∷◌, ◌++◌, map, Option, none, some, get_or, if◌then◌else◌,
  ◌≡◌, refl, ap, ◌∙◌, arith, Bool-cases, ◌⊎◌, inl, inr,
}
use beckn_onix.Model.Result.{Result, ok, ◌>>=◌}
use beckn_onix.Crawler.Batch.{
  BatchCodec, CatalogBatch, update_mode_merge, resources_key, offers_key, raw_array, clone_without,
  with_offers, slice_doc, mode_of, batch_catalog,
}
use beckn_onix.Crawler.Split.{IsWhole, IsSplit, batch_catalog-Rounds}
use beckn_onix.Crawler.Batches.{IsRound, Rounds, done, round}

-- A value as encoding/json writes it inside another one.
abbrev pub map_option : (Str → Str) → Option Str → Option Str
map_option f none = none
map_option f (some s) = some (f s)

-- What the theorems rely on of encoding/json: a map or an array that is encoded and decoded again has
-- the same entries in compact form, and an encoded array is compact.
pub record IsBatchCodec (codec : BatchCodec) (compact : Str → Str) : Type 0 where
  pub map_back :
      (d : Dict Str) (t : Str)
      → codec.marshal_map d ≡ ok t
      → (d' : Dict Str) × (codec.unmarshal_map t ≡ ok d')
        × ((k : Str) → lookup k d' ≡ map_option compact (lookup k d))
  pub array_back :
      (l : List Str) (t : Str)
      → codec.marshal_array l ≡ ok t
      → (codec.unmarshal_array t ≡ ok (map compact l)) × (compact t ≡ t) × ((t == []) ≡ false)

-- The resources of an encoded document, and its offers.
abbrev pub resources_in : BatchCodec → Str → Result (List Str)
resources_in codec text = codec.unmarshal_map text >>= λ d. raw_array codec d resources_key

abbrev pub offers_in : BatchCodec → Str → Result (Option Str)
offers_in codec text = codec.unmarshal_map text >>= λ d. ok (lookup offers_key d)

-- The resources of all batches, one batch after the other.
abbrev pub collect : BatchCodec → List CatalogBatch → Result (List Str)
collect codec [] = ok []
collect codec (b ∷ batches) =
    resources_in codec b.doc >>= λ xs. (collect codec batches >>= λ ys. ok (xs ++ ys))

pub lookup-clone_without :
    (asked name : Str) (doc : Dict Str)
    → lookup asked (clone_without doc name) ≡ (if name == asked then none else lookup asked doc)
unfolding clone_without lookup
lookup-clone_without asked name [] = ground arith
lookup-clone_without asked name ((k, v) ∷ doc) = ground (
  arith,
  ==_iff k name,
  ==_iff name asked,
  ==_iff k asked,
  lookup-clone_without asked name doc,
  lookup-insert asked k v (clone_without doc name),
)

lookup-with_offers :
    (asked offers : Str) (slice : Dict Str)
    → lookup asked (with_offers offers slice)
      ≡ (if offers_key == asked && not (offers == []) then some offers else lookup asked slice)
unfolding with_offers
lookup-with_offers asked offers slice = ground (arith, lookup-insert asked offers_key offers slice)

slice_resources :
    (doc : Dict Str) (first : Bool) (v : Str)
    → lookup resources_key (slice_doc doc first v) ≡ some v
unfolding slice_doc ◌==◌ str
slice_resources doc true v =
    rw
      (
        lookup-with_offers resources_key (get_or (lookup offers_key doc) [])
            (insert resources_key v (clone_without doc resources_key)),
        lookup-insert resources_key resources_key v (clone_without doc resources_key),
      )
      refl
slice_resources doc false v =
    rw
      (
        lookup-erase resources_key offers_key
            (insert resources_key v (clone_without doc resources_key)),
        lookup-insert resources_key resources_key v (clone_without doc resources_key),
      )
      refl

slice_offers :
    (doc : Dict Str) (first : Bool) (v : Str)
    → lookup offers_key (slice_doc doc first v) ≡ (if first then lookup offers_key doc else none)
unfolding slice_doc ◌==◌ str
slice_offers doc true v =
    rw
      (
        lookup-with_offers offers_key (get_or (lookup offers_key doc) [])
            (insert resources_key v (clone_without doc resources_key)),
        lookup-insert offers_key resources_key v (clone_without doc resources_key),
        lookup-clone_without offers_key resources_key doc,
      )
      (by_offers (lookup offers_key doc))
  where
    by_offers : (o : Option Str) → (if not (get_or o [] == []) then some (get_or o []) else o) ≡ o
    by_offers none = refl
    by_offers (some offers) = elim (Bool-cases (offers == [])) [
      | inl e ↦ rw e refl
      | inr e ↦ rw e refl
    ]
slice_offers doc false v =
    rw
      (lookup-erase offers_key offers_key
        (insert resources_key v (clone_without doc resources_key)))
      refl

pub map-append : (f : Str → Str) (xs ys : List Str) → map f (xs ++ ys) ≡ map f xs ++ map f ys
map-append f [] ys = refl
map-append f (x ∷ xs) ys = ap (λ (l : List Str). f x ∷ l) (map-append f xs ys)

raw_array-eq-ok :
    (codec : BatchCodec) (doc : Dict Str) (name : Str) {raw : Str} {items : List Str}
    → lookup name doc ≡ some raw
    → (raw == []) ≡ false
    → codec.unmarshal_array raw ≡ ok items
    → raw_array codec doc name ≡ ok items
unfolding raw_array
raw_array-eq-ok codec doc name held not_empty decoded =
    rw (held, not_empty, decoded, raw_array) refl

module _ (codec : BatchCodec) (compact : Str → Str) (laws : IsBatchCodec codec compact) where
  -- A batch, read back, has the resources of its round.
  pub round_resources :
      (max : ℕ) (base_mode : Str) (doc : Dict Str) (first : Bool) {resources left : List Str}
      {b : CatalogBatch}
      → (i : IsRound codec max base_mode doc first resources left b)
      → resources_in codec b.doc ≡ ok (map compact i.taken)
  round_resources max base_mode doc first i =
      let (read, decoded, same) = laws.map_back _ _ i.doc_encoded in
      let (items, is_compact, not_empty) = laws.array_back _ _ i.resources_encoded in
      let held : lookup resources_key read ≡ some i.res_bytes =
        same resources_key ∙ rw (slice_resources doc first i.res_bytes, is_compact) refl in
      rw decoded (raw_array-eq-ok codec read resources_key held not_empty items)

  round_offers :
      (max : ℕ) (base_mode : Str) (doc : Dict Str) (first : Bool) {resources left : List Str}
      {b : CatalogBatch}
      → IsRound codec max base_mode doc first resources left b
      → offers_in codec b.doc
        ≡ ok (map_option compact (if first then lookup offers_key doc else none))
  round_offers max base_mode doc first i =
      let (read, decoded, same) = laws.map_back _ _ i.doc_encoded in
      rw (decoded, same offers_key, slice_offers doc first i.res_bytes) refl

  Rounds-collect :
      (max : ℕ) (base_mode : Str) (doc : Dict Str) (first : Bool) (resources : List Str)
      (batches : List CatalogBatch)
      → Rounds codec max base_mode doc first resources batches
      → collect codec batches ≡ ok (map compact resources)
  Rounds-collect max base_mode doc first resources batches done = refl
  Rounds-collect max base_mode doc first resources batches (round {left} {rest} i more) =
      rw
        (
          round_resources max base_mode doc first i,
          Rounds-collect max base_mode doc false left rest more,
          ← map-append compact i.taken left,
          i.in_order,
        )
        refl

  -- Appended batches: `MERGE`, and without offers.
  abbrev pub IsAppended : List CatalogBatch → Type 0
  IsAppended = All (λ (b : CatalogBatch).
      (b.update_mode ≡ update_mode_merge) × (offers_in codec b.doc ≡ ok none))

  -- A lead batch with the mode and the offers of the catalog, and batches that are appended to it.
  abbrev pub IsLed : Str → Dict Str → List CatalogBatch → Type 0
  IsLed base_mode doc [] = ⊥
  IsLed base_mode doc (b ∷ rest) =
      (b.update_mode ≡ base_mode)
      × (offers_in codec b.doc ≡ ok (map_option compact (lookup offers_key doc)))
      × IsAppended rest

  Rounds-IsAppended :
      (max : ℕ) (base_mode : Str) (doc : Dict Str) (first : Bool) (resources : List Str)
      (batches : List CatalogBatch)
      → first ≡ false
      → Rounds codec max base_mode doc first resources batches
      → IsAppended batches
  unfolding mode_of
  Rounds-IsAppended max base_mode doc first resources batches e done = tt
  Rounds-IsAppended max base_mode doc first resources batches e (round {left} {rest} i more) = (
    (i.mode ∙ rw e refl, round_offers max base_mode doc first i ∙ rw e refl),
    Rounds-IsAppended max base_mode doc false left rest refl more,
  )

  Rounds-IsLed :
      (max : ℕ) (base_mode : Str) (doc : Dict Str) (first : Bool) (resources : List Str)
      (batches : List CatalogBatch)
      → first ≡ true
      → 1 ≤ length batches
      → Rounds codec max base_mode doc first resources batches
      → IsLed base_mode doc batches
  unfolding mode_of
  Rounds-IsLed max base_mode doc first resources batches e h done = absurd (omega arith)
  Rounds-IsLed max base_mode doc first resources batches e h (round {left} {rest} i more) = (
    i.mode ∙ rw e refl,
    round_offers max base_mode doc first i ∙ rw e refl,
    Rounds-IsAppended max base_mode doc false left rest refl more,
  )

  -- A catalog with resources that is longer than the limit, where there is one, is split: reading
  -- the batches back, one after the other, gives its resources in their order, each in compact form,
  -- so none is lost and none is sent twice; the first batch has the base mode and the catalog's
  -- offers, and every other one is a `MERGE` without offers. Without a limit, within it, or without
  -- resources, the one batch is the catalog as it is, with the base mode.
  pub batch_catalog-IsLed :
      (catalog : Str) (max : ℕ) (base_mode : Str) (doc : Dict Str) (resources : List Str)
      (batches : List CatalogBatch)
      → codec.unmarshal_map catalog ≡ ok doc
      → raw_array codec doc resources_key ≡ ok resources
      → batch_catalog codec catalog max base_mode ≡ some (ok batches)
      → (IsWhole catalog max resources
          × (batches ≡ record { doc = catalog; update_mode = base_mode } ∷ []))
        ⊎ (IsSplit catalog max resources
            × (collect codec batches ≡ ok (map compact resources))
            × IsLed base_mode doc batches)
  batch_catalog-IsLed catalog max base_mode doc resources batches decoded held e =
      elim (batch_catalog-Rounds codec catalog max base_mode doc resources batches decoded held e) [
        | inl whole ↦ inl whole
        | inr (split, some_batch, rounds) ↦ inr (
          split,
          Rounds-collect max base_mode doc true resources batches rounds,
          Rounds-IsLed max base_mode doc true resources batches refl some_batch rounds,
        )
      ]
