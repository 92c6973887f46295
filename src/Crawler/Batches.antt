-- ===== src/Crawler/Batches.antt =====
-- What the batches of a catalog are, and that the loop ends.
use beckn_onix.Base.{
  ℕ, zero, suc, ◌+◌, ◌≤◌, ◌<◌, Str, ltb, Dict, length, length-append, Bool, true, false, ◌&&◌, List,
  [], ◌∷◌, ◌++◌, Option, none, some, ◌≡◌, refl, sym, ap, subst, ◌∙◌, arith, Bool-cases, ◌⊎◌, inl,
  inr,
}
use beckn_onix.Model.Result.{Result, ok, err, >>=-eq-ok, ok-injective}
use beckn_onix.Crawler.Batch.{
  BatchCodec, CatalogBatch, base_doc, slice_doc, fill, mode_of, next_batch, with_batch, batch_loop,
}

-- The room that resources take in a batch: their texts, each with a separator.
abbrev pub room : List Str → ℕ
room [] = 0
room (r ∷ rs) = length r + 1 + room rs

fill-append :
    (max base : ℕ) (started : Bool) (used : ℕ) (rs : List Str)
    → (fill max base started used rs).0 ++ (fill max base started used rs).1 ≡ rs
unfolding fill
fill-append max base started used [] = refl
fill-append max base started used (r ∷ rs) =
    elim (Bool-cases (started && ltb max (base + (used + (length r + 1))))) [
      | inl spill ↦ rw spill refl
      | inr fits ↦ rw (fits, fill-append max base true (used + (length r + 1)) rs) refl
    ]

-- Once a batch is started, what it takes more fits the limit.
fill-room :
    (max base used : ℕ) (rs : List Str)
    → ((fill max base true used rs).0 ≡ [])
      ⊎ (base + (used + room (fill max base true used rs).0) ≤ max)
unfolding fill
fill-room max base used [] = inl refl
fill-room max base used (r ∷ rs) = elim (Bool-cases (ltb max (base + (used + (length r + 1))))) [
  | inl spill ↦ inl (rw spill refl)
  | inr fits ↦ inr (
      rw fits (
        more (fill max base true (used + (length r + 1)) rs).0
          (fill-room max base (used + (length r + 1)) rs) fits))
]
  where
    more :
        (taken : List Str)
        → (taken ≡ []) ⊎ (base + (used + (length r + 1) + room taken) ≤ max)
        → ltb max (base + (used + (length r + 1))) ≡ false
        → base + (used + (length r + 1 + room taken)) ≤ max
    more taken (inl e) fits = rw e (ground arith)
    more taken (inr h) fits = omega arith

-- The first resource of a batch is always taken.
fill_first :
    (max base : ℕ) (r : Str) (rs : List Str)
    → (fill max base false 0 (r ∷ rs)).0 ≡ r ∷ (fill max base true (0 + (length r + 1)) rs).0
unfolding fill
fill_first max base r rs = refl

-- One round: the resources that a batch carries are the next ones, at least one, and more than one only
-- where they fit the limit together with what the batches share.
pub record IsRound (codec : BatchCodec) (max : ℕ) (base_mode : Str) (doc : Dict Str) (first : Bool)
    (resources left : List Str) (b : CatalogBatch) : Type 0 where
  pub taken : List Str
  pub base_bytes : Str
  pub res_bytes : Str
  pub in_order : taken ++ left ≡ resources
  pub not_empty : 1 ≤ length taken
  pub fits : (length taken ≡ 1) ⊎ (length base_bytes + room taken ≤ max)
  pub base_encoded : codec.marshal_map (base_doc doc first) ≡ ok base_bytes
  pub resources_encoded : codec.marshal_array taken ≡ ok res_bytes
  pub doc_encoded : codec.marshal_map (slice_doc doc first res_bytes) ≡ ok b.doc
  pub mode : b.update_mode ≡ mode_of base_mode first

module _ (codec : BatchCodec) (max : ℕ) (base_mode : Str) (doc : Dict Str) where
  next_batch-IsRound :
      (first : Bool) (r : Str) (rs left : List Str) (b : CatalogBatch)
      → next_batch codec max base_mode doc first (r ∷ rs) ≡ ok (b, left)
      → IsRound codec max base_mode doc first (r ∷ rs) left b
  unfolding next_batch
  next_batch-IsRound first r rs left b e =
      let (base_bytes, base_encoded, e1) = >>=-eq-ok (codec.marshal_map (base_doc doc first)) _ e in
      let (res_bytes, resources_encoded, e2) =
        >>=-eq-ok (codec.marshal_array (fill max (length base_bytes) false 0 (r ∷ rs)).0) _ e1 in
      let (text, doc_encoded, e3) =
        >>=-eq-ok (codec.marshal_map (slice_doc doc first res_bytes)) _ e2 in
      let same : (
        record { doc = text; update_mode = mode_of base_mode first },
        (fill max (length base_bytes) false 0 (r ∷ rs)).1,
      )
          ≡ (b, left) =
        ok-injective e3 in
      record {
        taken = (fill max (length base_bytes) false 0 (r ∷ rs)).0;
        base_bytes = base_bytes;
        res_bytes = res_bytes;
        in_order =
            rw (← ap (λ (p : CatalogBatch × List Str). p.1) same)
              (fill-append max (length base_bytes) false 0 (r ∷ rs));
        not_empty = rw (fill_first max (length base_bytes) r rs) one_more;
        fits = rw (fill_first max (length base_bytes) r rs) (
            room_of (length base_bytes)
              (fill max (length base_bytes) true (0 + (length r + 1)) rs).0
              (fill-room max (length base_bytes) (0 + (length r + 1)) rs));
        base_encoded = base_encoded;
        resources_encoded = resources_encoded;
        doc_encoded = doc_encoded ∙ ap (λ (p : CatalogBatch × List Str). ok p.0.doc) same;
        mode = sym (ap (λ (p : CatalogBatch × List Str). p.0.update_mode) same);
      }
    where
      one_more : {n : ℕ} → 1 ≤ suc n
      one_more = omega arith

      room_of :
          (base : ℕ) (more : List Str)
          → (more ≡ []) ⊎ (base + (0 + (length r + 1) + room more) ≤ max)
          → (suc (length more) ≡ 1) ⊎ (base + (length r + 1 + room more) ≤ max)
      room_of base more (inl none_more) = inl (rw none_more refl)
      room_of base more (inr h) = inr (omega arith)

  -- The rounds of the loop.
  pub data Rounds : Bool → List Str → List CatalogBatch → Type 0 where
    done : {first : Bool} → Rounds first [] []
    round :
        {first : Bool} {resources left : List Str} {b : CatalogBatch} {rest : List CatalogBatch}
        → IsRound codec max base_mode doc first resources left b
        → Rounds false left rest
        → Rounds first resources (b ∷ rest)

  -- The loop's batches are those of its rounds.
  pub batch_loop-Rounds :
      (fuel : ℕ) (first : Bool) (resources : List Str) (batches : List CatalogBatch)
      → batch_loop codec max base_mode doc fuel first resources ≡ some (ok batches)
      → Rounds first resources batches
  unfolding batch_loop with_batch
  batch_loop-Rounds fuel first [] batches e =
      let same : [] ≡ batches = cc in subst (Rounds first []) same done
  batch_loop-Rounds zero first (r ∷ rs) batches e = cc
  batch_loop-Rounds (suc fuel) first (r ∷ rs) batches e =
      by_round (next_batch codec max base_mode doc first (r ∷ rs)) (next_batch-IsRound first r rs)
        (batch_loop-Rounds fuel false) e
    where
      by_rest :
          (b : CatalogBatch) (left : List Str) (o : Option (Result (List CatalogBatch)))
          → IsRound codec max base_mode doc first (r ∷ rs) left b
          → ((rest : List CatalogBatch) → o ≡ some (ok rest) → Rounds false left rest)
          → with_batch b o ≡ some (ok batches)
          → Rounds first (r ∷ rs) batches
      by_rest b left none is_round rounds k = cc
      by_rest b left (some (err failure)) is_round rounds k = cc
      by_rest b left (some (ok rest)) is_round rounds k =
          let same : b ∷ rest ≡ batches = cc in
          subst (Rounds first (r ∷ rs)) same (round is_round (rounds rest refl))

      by_round :
          (a : Result (CatalogBatch × List Str))
          → ((left : List Str) (b : CatalogBatch)
              → a ≡ ok (b, left)
              → IsRound codec max base_mode doc first (r ∷ rs) left b)
          → ((left : List Str) (rest : List CatalogBatch)
              → batch_loop codec max base_mode doc fuel false left ≡ some (ok rest)
              → Rounds false left rest)
          → (elim a as (λ _. Option (Result (List CatalogBatch))) [
            | err failure ↦ some (err failure)
            | ok next ↦ with_batch next.0 (batch_loop codec max base_mode doc fuel false next.1)
          ])
            ≡ some (ok batches)
          → Rounds first (r ∷ rs) batches
      by_round (err failure) is_round rounds k = cc
      by_round (ok (b, left)) is_round rounds k =
          by_rest b left (batch_loop codec max base_mode doc fuel false left) (is_round left b refl)
            (rounds left) k

  pub round_shorter :
      {first : Bool} {resources left : List Str} {b : CatalogBatch}
      → IsRound codec max base_mode doc first resources left b
      → length left < length resources
  round_shorter {first} {resources} {left} i =
      let split : length i.taken + length left ≡ length resources =
        sym (length-append i.taken left) ∙ ap (λ (l : List Str). length l) i.in_order in
      let some_taken = i.not_empty in omega arith

  -- With fuel for a round per resource the loop ends.
  pub batch_loop_total :
      (fuel : ℕ) (first : Bool) (resources : List Str)
      → length resources ≤ fuel
      → (result : Result (List CatalogBatch)) × (batch_loop codec max base_mode doc fuel first
            resources
          ≡ some result)
  unfolding batch_loop with_batch
  batch_loop_total fuel first [] h = (ok [], refl)
  batch_loop_total zero first (r ∷ rs) h = absurd (omega arith)
  batch_loop_total (suc fuel) first (r ∷ rs) h =
      by_round (next_batch codec max base_mode doc first (r ∷ rs))
        (λ left b e. round_shorter (next_batch-IsRound first r rs left b e))
        (batch_loop_total fuel false)
    where
      by_rest :
          (b : CatalogBatch) (result : Result (List CatalogBatch))
          → (out : Result (List CatalogBatch)) × (with_batch b (some result) ≡ some out)
      by_rest b (err failure) = (err failure, refl)
      by_rest b (ok rest) = (ok (b ∷ rest), refl)

      by_round :
          (a : Result (CatalogBatch × List Str))
          → ((left : List Str) (b : CatalogBatch)
              → a ≡ ok (b, left)
              → length left < suc (length rs))
          → ((left : List Str)
              → length left ≤ fuel
              → (result : Result (List CatalogBatch)) × (batch_loop codec max base_mode doc fuel
                    false left
                  ≡ some result))
          → (result : Result (List CatalogBatch)) × ((elim a
                as (λ _. Option (Result (List CatalogBatch))) [
                  | err failure ↦ some (err failure)
                  | ok next ↦
                      with_batch next.0 (batch_loop codec max base_mode doc fuel false next.1)
                ])
              ≡ some result)
      by_round (err failure) shorter ends = (err failure, refl)
      by_round (ok (b, left)) shorter ends =
          let (result, e) = ends left (below (shorter left b refl) h) in
          let (out, k) = by_rest b result in (out, ap (with_batch b) e ∙ k)
        where
          below : {n : ℕ} → n < suc (length rs) → suc (length rs) ≤ suc fuel → n ≤ fuel
          below m k = omega arith
