-- ===== src/Crawler/Sizes.antt =====
-- How long a batch may be: the budget of `BatchCatalog` leaves out the key and the brackets of the
-- resources.
use beckn_onix.Base.{
  ℕ, ◌+◌, ◌≤◌, Str, str, ◌==◌, ==_iff, Dict, lookup, insert, erase, lookup-insert, lookup-erase,
  length, All, Bool, true, false, List, [], ◌∷◌, ◌++◌, map, Option, none, some, get_or, ◌≡◌, refl,
  ap, ◌∙◌, arith, Bool-cases, ◌⊎◌, inl, inr,
}
use beckn_onix.Model.Result.{ok}
use beckn_onix.Crawler.Batch.{
  BatchCodec, CatalogBatch, resources_key, offers_key, raw_array, clone_without, base_doc,
  with_offers, slice_doc, batch_catalog,
}
use beckn_onix.Crawler.Split.{batch_catalog-Rounds}
use beckn_onix.Crawler.Batches.{IsRound, Rounds, done, round, room}
use beckn_onix.Crawler.Pushed.{IsBatchCodec, resources_in, lookup-clone_without, round_resources}
use beckn_onix.Crawler.Split.{batch_catalog-Rounds}

-- What encoding/json adds round an entry of a map, and round and between the elements of an array.
pub record HasSizes (codec : BatchCodec) (compact : Str → Str) : Type 0 where
  pub entry_size :
      (d : Dict Str) (v t u : Str)
      → lookup resources_key d ≡ none
      → codec.marshal_map d ≡ ok u
      → codec.marshal_map (insert resources_key v d) ≡ ok t
      → length t ≤ length u + 13 + length (compact v)
  pub array_size :
      (l : List Str) (t : Str)
      → 1 ≤ length l
      → codec.marshal_array l ≡ ok t
      → length t ≤ 1 + room (map compact l)

insert_same : (k v : Str) (d : Dict Str) → lookup k d ≡ some v → insert k v d ≡ d
unfolding insert lookup
insert_same k v [] h = cc
insert_same k v ((name, held) ∷ d) h = elim (Bool-cases (name == k)) [
  | inl same ↦ ground (arith, ==_iff name k)
  | inr other ↦ ground (arith, insert_same k v d)
]

erase-insert :
    (j k v : Str) (d : Dict Str)
    → (j == k) ≡ false
    → erase j (insert k v d) ≡ insert k v (erase j d)
unfolding insert erase
erase-insert j k v [] h = ground (arith, ==_iff k j, ==_iff j k)
erase-insert j k v ((name, held) ∷ d) h =
    ground (arith, ==_iff name k, ==_iff name j, ==_iff j k, erase-insert j k v d h)

-- A batch's document is what it shares with the others, and its resources.
slice_doc-base_doc :
    (doc : Dict Str) (first : Bool) (v : Str)
    → slice_doc doc first v ≡ insert resources_key v (base_doc doc first)
unfolding slice_doc base_doc with_offers ◌==◌ str
slice_doc-base_doc doc true v = by_offers (lookup offers_key doc) refl
  where
    slice : Dict Str
    slice = insert resources_key v (clone_without doc resources_key)

    held : lookup offers_key slice ≡ lookup offers_key doc
    held =
        rw
          (
            lookup-insert offers_key resources_key v (clone_without doc resources_key),
            lookup-clone_without offers_key resources_key doc,
          )
          refl

    by_offers :
        (o : Option Str) → lookup offers_key doc ≡ o → with_offers (get_or o []) slice ≡ slice
    by_offers none e = refl
    by_offers (some offers) e = elim (Bool-cases (offers == [])) [
      | inl empty ↦ rw empty refl
      | inr full ↦ rw full (insert_same offers_key offers slice (held ∙ e))
    ]
slice_doc-base_doc doc false v =
    erase-insert offers_key resources_key v (clone_without doc resources_key) refl

base_resources : (doc : Dict Str) (first : Bool) → lookup resources_key (base_doc doc first) ≡ none
unfolding base_doc ◌==◌ str
base_resources doc true = lookup-clone_without resources_key resources_key doc
base_resources doc false =
    rw
      (
        lookup-erase resources_key offers_key (clone_without doc resources_key),
        lookup-clone_without resources_key resources_key doc,
      )
      refl

-- The resource is not longer in compact form.
abbrev pub IsShrunk : (Str → Str) → List Str → Type 0
IsShrunk compact = All (λ (r : Str). length (compact r) ≤ length r)

room-compact :
    (compact : Str → Str) (l : List Str) → IsShrunk compact l → room (map compact l) ≤ room l
room-compact compact [] h = omega arith
room-compact compact (r ∷ l) (h, hs) = omega (arith, room-compact compact l hs)

IsShrunk-parts :
    (compact : Str → Str) (xs ys : List Str)
    → IsShrunk compact (xs ++ ys)
    → IsShrunk compact xs × IsShrunk compact ys
IsShrunk-parts compact [] ys h = (tt, h)
IsShrunk-parts compact (x ∷ xs) ys (h, hs) =
    let (a, b) = IsShrunk-parts compact xs ys hs in ((h, a), b)

module _ (codec : BatchCodec) (compact : Str → Str) (laws : IsBatchCodec codec compact)
    (sizes : HasSizes codec compact) where
  -- The batch's document is at most 14 bytes longer than the limit, or it has a single resource.
  abbrev pub FitsLimit : ℕ → CatalogBatch → Type 0
  FitsLimit max b =
      (length b.doc ≤ max + 14) ⊎ ((r : Str) × (resources_in codec b.doc ≡ ok (r ∷ [])))

  round_size :
      (max : ℕ) (base_mode : Str) (doc : Dict Str) (first : Bool) {resources left : List Str}
      {b : CatalogBatch}
      → (i : IsRound codec max base_mode doc first resources left b) → IsShrunk compact i.taken
      → length i.base_bytes + room i.taken ≤ max
      → length b.doc ≤ max + 14
  round_size max base_mode doc first {resources} {left} {b} i shrunk fits =
      let compact_res : compact i.res_bytes ≡ i.res_bytes =
        (laws.array_back _ _ i.resources_encoded).1 in
      let as_insert : codec.marshal_map (insert resources_key i.res_bytes (base_doc doc first))
          ≡ ok b.doc =
        rw (← slice_doc-base_doc doc first i.res_bytes) i.doc_encoded in
      let entry = sizes.entry_size _ _ _ _ (base_resources doc first) i.base_encoded as_insert in
      let array = sizes.array_size _ _ i.not_empty i.resources_encoded in
      let smaller = room-compact compact i.taken shrunk in
      let same : length (compact i.res_bytes) ≡ length i.res_bytes =
        ap (λ (t : Str). length t) compact_res in
      omega arith

  round_fits :
      (max : ℕ) (base_mode : Str) (doc : Dict Str) (first : Bool) {resources left : List Str}
      {b : CatalogBatch}
      → (i : IsRound codec max base_mode doc first resources left b) → IsShrunk compact i.taken
      → FitsLimit max b
  round_fits max base_mode doc first {resources} {left} {b} i shrunk = by_room i.fits
    where
      by_length :
          (taken : List Str)
          → length taken ≡ 1
          → resources_in codec b.doc ≡ ok (map compact taken)
          → (r : Str) × (resources_in codec b.doc ≡ ok (r ∷ []))
      by_length [] n e = cc
      by_length (r ∷ []) n e = (compact r, e)
      by_length (r ∷ s ∷ taken) n e = absurd (omega arith)

      by_room : (length i.taken ≡ 1) ⊎ (length i.base_bytes + room i.taken ≤ max) → FitsLimit max b
      by_room (inl one) =
          inr (by_length i.taken one (round_resources codec compact laws max base_mode doc first i))
      by_room (inr fits) = inl (round_size max base_mode doc first i shrunk fits)

  Rounds-FitsLimit :
      (max : ℕ) (base_mode : Str) (doc : Dict Str) (first : Bool) (resources : List Str)
      (batches : List CatalogBatch)
      → IsShrunk compact resources
      → Rounds codec max base_mode doc first resources batches
      → All (FitsLimit max) batches
  Rounds-FitsLimit max base_mode doc first resources batches shrunk done = tt
  Rounds-FitsLimit max base_mode doc first resources batches shrunk (round {left} {rest} i more) =
      let (here, later) = IsShrunk-parts compact i.taken left (rw i.in_order shrunk) in
      (
        round_fits max base_mode doc first i here,
        Rounds-FitsLimit max base_mode doc false left rest later more,
      )

  -- A batch of a catalog that is split is at most 14 bytes longer than the limit, if compact form makes
  -- no resource longer, or it carries a single resource: the budget does not count the key and the
  -- brackets of the resources.
  pub batch_catalog-FitsLimit :
      (catalog : Str) (max : ℕ) (base_mode : Str) (doc : Dict Str) (resources : List Str)
      (batches : List CatalogBatch)
      → IsShrunk compact resources
      → codec.unmarshal_map catalog ≡ ok doc
      → raw_array codec doc resources_key ≡ ok resources
      → batch_catalog codec catalog max base_mode ≡ some (ok batches)
      → (batches ≡ record { doc = catalog; update_mode = base_mode } ∷ [])
        ⊎ All (FitsLimit max) batches
  batch_catalog-FitsLimit catalog max base_mode doc resources batches shrunk decoded held e =
      elim (batch_catalog-Rounds codec catalog max base_mode doc resources batches decoded held e) [
        | inl (_, whole) ↦ inl whole
        | inr (_, _, rounds) ↦
            inr (Rounds-FitsLimit max base_mode doc true resources batches shrunk rounds)
      ]
