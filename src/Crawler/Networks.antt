-- ===== src/Crawler/Networks.antt =====
-- `registryDiscoverer.Discover` and `multiSource.Discover` as a whole.
use mathlib.Core.List.{Memᴰ}
use beckn_onix.Base.{
  ℕ, suc, ◌+◌, ◌≤◌, Str, ◌==◌, eqb, eqb_iff, Dict, length, length-append, all, trim_space, Bool,
  true, false, not, ◌&&◌, List, [], ◌∷◌, ◌++◌, map, Option, none, some, if◌then◌else◌, ◌≡◌, refl,
  sym, ap, ◌∙◌, arith, Bool-cases, ◌⊎◌, inl, inr,
}
use beckn_onix.Model.Error.{GoError}
use beckn_onix.Model.Result.{Result, ok, err, is_err}
use beckn_onix.Crawler.Tables.{Distinct}
use beckn_onix.Crawler.Discovery.{
  IndexRef, SubscriberRecord, Found, nothing_found, add_ref, add_entry, add_entries, add_records,
  record_failed_lookup, record_success, network_error, query_networks, err_if_all_failed, or_refs,
  discover_networks, add_refs, union_sources, discover_sources,
}
use beckn_onix.Crawler.Discovered.{
  url_of, has_url, IsFound, nothing_found-IsFound, Grows, Grows-trans, add_records-Grows,
  failing-Grows, records_has,
}

result_cases {ℓ} :
    {V : Type ℓ} (a : Result V) → ((e : GoError) × (a ≡ err e)) ⊎ ((v : V) × (a ≡ ok v))
result_cases (err e) = inl (e, refl)
result_cases (ok v) = inr (v, refl)

add_ref-failed : (ref : IndexRef) (found : Found) → Found.failed (add_ref ref found) ≡ found.failed
unfolding add_ref
add_ref-failed ref found = ground arith

add_entries-failed :
    (id : Str) (entries : List Str) (found : Found)
    → Found.failed (add_entries id entries found) ≡ found.failed
unfolding add_entries add_entry
add_entries-failed id [] found = refl
add_entries-failed id (entry ∷ entries) found =
    add_entries-failed id entries (add_entry id entry found) ∙ add_entry-failed
  where
    add_entry-failed : Found.failed (add_entry id entry found) ≡ found.failed
    add_entry-failed = elim (Bool-cases (trim_space entry == [])) [
      | inl blank ↦ rw blank refl
      | inr full ↦ rw full (add_ref-failed _ found)
    ]

add_records-failed :
    (records : List SubscriberRecord) (found : Found)
    → Found.failed (add_records records found) ≡ found.failed
unfolding add_records
add_records-failed [] found = refl
add_records-failed (rec ∷ records) found =
    add_records-failed records (add_entries rec.subscriber_id rec.catalog_index_urls found)
    ∙ add_entries-failed rec.subscriber_id rec.catalog_index_urls found

-- How many of the calls failed.
abbrev failures {ℓ} : {A : Type ℓ} → (A → Bool) → List A → ℕ
failures test [] = 0
failures test (x ∷ xs) = if test x then suc (failures test xs) else failures test xs

failures_le {ℓ} : {A : Type ℓ} (test : A → Bool) (xs : List A) → failures test xs ≤ length xs
failures_le test [] = omega arith
failures_le test (x ∷ xs) = ground (arith, failures_le test xs)

all-failures {ℓ} :
    {A : Type ℓ} (test : A → Bool) (xs : List A) → eqb (failures test xs) (length xs) ≡ all test xs
all-failures test [] = refl
all-failures test (x ∷ xs) = ground (
  arith,
  failures_le test xs,
  all-failures test xs,
  eqb_iff (failures test xs) (length xs),
  eqb_iff (failures test xs) (suc (length xs)),
  eqb_iff (suc (failures test xs)) (suc (length xs)),
)

err_if_all_failed-is_err :
    (join : List GoError → GoError) (total : ℕ) (errs : List GoError) (what : Str)
    (refs : List IndexRef)
    → is_err (or_refs (err_if_all_failed join total errs what) refs)
      ≡ (not (eqb total 0) && eqb (length errs) total)
unfolding err_if_all_failed or_refs
err_if_all_failed-is_err join total errs what refs = ground arith

module _ (query : Str → Result (List SubscriberRecord)) where
  step_err :
      (id : Str) (ids : List Str) (found : Found) (streaks : Dict ℕ) (e : GoError)
      → query id ≡ err e
      → query_networks query (id ∷ ids) found streaks
        ≡ query_networks query ids
            (record found { failed = found.failed ++ network_error id e ∷ [] })
            (record_failed_lookup id streaks).1
  unfolding query_networks
  step_err id ids found streaks e q = rw (q, query_networks) refl

  step_ok :
      (id : Str) (ids : List Str) (found : Found) (streaks : Dict ℕ)
      (records : List SubscriberRecord)
      → query id ≡ ok records
      → query_networks query (id ∷ ids) found streaks
        ≡ query_networks query ids (add_records records found) (record_success id streaks)
  unfolding query_networks
  step_ok id ids found streaks records q = rw (q, query_networks) refl

  query_networks-Grows :
      (ids : List Str) (found : Found) (streaks : Dict ℕ)
      → Grows found (query_networks query ids found streaks).0
  unfolding query_networks
  query_networks-Grows [] found streaks = ((λ f. f), λ url e. e)
  query_networks-Grows (id ∷ ids) found streaks = elim (result_cases (query id)) [
    | inl (e, q) ↦
        rw (step_err id ids found streaks e q)
          (Grows-trans _ _ _ (failing-Grows found _) (query_networks-Grows ids _ _))
    | inr (records, q) ↦
        rw (step_ok id ids found streaks records q)
          (Grows-trans _ _ _ (add_records-Grows records found) (query_networks-Grows ids _ _))
  ]

  query_networks-failed :
      (ids : List Str) (found : Found) (streaks : Dict ℕ)
      → length (Found.failed (query_networks query ids found streaks).0)
        ≡ length found.failed + failures (λ id. is_err (query id)) ids
  unfolding query_networks
  query_networks-failed [] found streaks = omega arith
  query_networks-failed (id ∷ ids) found streaks = elim (result_cases (query id)) [
    | inl (e, q) ↦
        rw (step_err id ids found streaks e q, q)
          (one_more e _ _ (
            query_networks-failed ids
              (record found { failed = found.failed ++ network_error id e ∷ [] })
              (record_failed_lookup id streaks).1))
    | inr (records, q) ↦
        rw (step_ok id ids found streaks records q, q)
          (query_networks-failed ids (add_records records found) (record_success id streaks)
            ∙ ap (λ (l : List GoError). length l + failures (λ id. is_err (query id)) ids)
                (add_records-failed records found))
  ]
    where
      one_more :
          (e : GoError) (m n : ℕ)
          → m ≡ length (found.failed ++ network_error id e ∷ []) + n
          → m ≡ length found.failed + suc n
      one_more e m n h = omega (arith, length-append found.failed (network_error id e ∷ []))

  networks_has :
      (id : Str) (ids : List Str) (found : Found) (streaks : Dict ℕ)
      (records : List SubscriberRecord) (rec : SubscriberRecord) (entry : Str)
      → IsFound found
      → Memᴰ id ids
      → query id ≡ ok records
      → Memᴰ rec records
      → Memᴰ entry rec.catalog_index_urls
      → (trim_space entry == []) ≡ false
      → has_url (trim_space entry) (Found.refs (query_networks query ids found streaks).0) ≡ true
  networks_has id [] found streaks records rec entry f m q n k full = elim m [ ]
  networks_has id (i ∷ ids) found streaks records rec entry f (Memᴰ.head same) q n k full =
      rw (step_ok i ids found streaks records (ap query (sym same) ∙ q)) (
        (query_networks-Grows ids (add_records records found) (record_success i streaks)).1 _
          (records_has entry rec records found f n k full))
  networks_has id (i ∷ ids) found streaks records rec entry f (Memᴰ.tail m) q n k full =
      elim (result_cases (query i)) [
        | inl (e, r) ↦
            rw (step_err i ids found streaks e r)
              (networks_has id ids _ _ records rec entry ((failing-Grows found _).0 f) m q n k full)
        | inr (found_records, r) ↦ rw (step_ok i ids found streaks found_records r) (
            networks_has id ids _ _ records rec entry ((add_records-Grows found_records found).0 f)
              m q n k full)
      ]

-- An index that a network declares, through one of its records.
pub record IsDeclared (query : Str → Result (List SubscriberRecord)) (ids : List Str) (url : Str)
    : Type 0 where
  pub network_id : Str
  pub records : List SubscriberRecord
  pub rec : SubscriberRecord
  pub entry : Str
  pub configured : Memᴰ network_id ids
  pub answered : query network_id ≡ ok records
  pub listed : Memᴰ rec records
  pub declared : Memᴰ entry rec.catalog_index_urls
  pub not_blank : (trim_space entry == []) ≡ false
  pub trimmed : trim_space entry ≡ url

or_refs-eq-ok :
    (e : Option GoError) (refs refs' : List IndexRef) → or_refs e refs ≡ ok refs' → refs ≡ refs'
unfolding or_refs
or_refs-eq-ok none refs refs' h = cc
or_refs-eq-ok (some e) refs refs' h = cc

-- The references that `Discover` returns for the configured networks have different index URLs, and
-- every URL, trimmed, that a record of a network declares is among them, if the registry has answered
-- for that network: a network for which it fails does not hide those of the others.
pub discover_networks-refs :
    (join : List GoError → GoError) (query : Str → Result (List SubscriberRecord)) (ids : List Str)
    (streaks : Dict ℕ) (refs : List IndexRef) (url : Str)
    → (discover_networks join query ids streaks).0 ≡ ok refs
    → IsDeclared query ids url
    → Distinct (map url_of refs) × (has_url url refs ≡ true)
unfolding discover_networks
discover_networks-refs join query ids streaks refs url e d =
    let same = or_refs-eq-ok _ _ _ e in
    rw (← same, ← d.trimmed)
      (
        IsFound.once
            ((query_networks-Grows query ids nothing_found streaks).0 nothing_found-IsFound),
        networks_has query d.network_id ids nothing_found streaks d.records d.rec d.entry
            nothing_found-IsFound d.configured d.answered d.listed d.declared d.not_blank,
      )

-- `Discover` over the networks returns an error exactly if there is a network and the registry has
-- failed for every one.
pub discover_networks-is_err :
    (join : List GoError → GoError) (query : Str → Result (List SubscriberRecord)) (ids : List Str)
    (streaks : Dict ℕ)
    → is_err (discover_networks join query ids streaks).0
      ≡ (not (eqb (length ids) 0) && all (λ id. is_err (query id)) ids)
unfolding discover_networks nothing_found
discover_networks-is_err join query ids streaks =
    err_if_all_failed-is_err join (length ids) _ _ _
    ∙ ap (λ n. not (eqb (length ids) 0) && eqb n (length ids))
        (query_networks-failed query ids nothing_found streaks ∙ zero_plus)
    ∙ ap (λ b. not (eqb (length ids) 0) && b) (all-failures (λ id. is_err (query id)) ids)
  where
    zero_plus : {n : ℕ} → 0 + n ≡ n
    zero_plus = omega arith

add_refs-failed :
    (refs : List IndexRef) (found : Found) → Found.failed (add_refs refs found) ≡ found.failed
unfolding add_refs
add_refs-failed [] found = refl
add_refs-failed (ref ∷ refs) found =
    add_refs-failed refs (add_ref ref found) ∙ add_ref-failed ref found

union_sources-failed :
    (answers : List (Result (List IndexRef))) (found : Found)
    → length (Found.failed (union_sources answers found))
      ≡ length found.failed + failures is_err answers
unfolding union_sources
union_sources-failed [] found = omega arith
union_sources-failed (err e ∷ answers) found =
    let rest = union_sources-failed answers (record found { failed = found.failed ++ e ∷ [] }) in
    omega (arith, rest, length-append found.failed (e ∷ []))
union_sources-failed (ok refs ∷ answers) found =
    union_sources-failed answers (add_refs refs found)
    ∙ ap (λ (l : List GoError). length l + failures is_err answers) (add_refs-failed refs found)

-- The union of the sources is an error exactly if there is a source and every one has failed: one that
-- fails does not discard what another has found.
pub discover_sources-is_err :
    (join : List GoError → GoError) (answers : List (Result (List IndexRef)))
    → is_err (discover_sources join answers) ≡ (not (eqb (length answers) 0) && all is_err answers)
unfolding discover_sources nothing_found
discover_sources-is_err join answers =
    err_if_all_failed-is_err join (length answers) _ _ _
    ∙ ap (λ n. not (eqb (length answers) 0) && eqb n (length answers))
        (union_sources-failed answers nothing_found ∙ zero_plus)
    ∙ ap (λ b. not (eqb (length answers) 0) && b) (all-failures is_err answers)
  where
    zero_plus : {n : ℕ} → 0 + n ≡ n
    zero_plus = omega arith
