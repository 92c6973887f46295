-- ===== src/Crawler/Discovery.antt =====
-- catalogcrawler.go: `registryDiscoverer`, `multiSource`, and the helpers of the configuration. The
-- registry plugin is a parameter, the function that answers for a network; `errors.Join` is one, too.
-- What is only logged is left out.
use beckn_onix.Base.{
  ℕ, suc, Str, str, ◌==◌, eqb, Dict, lookup, insert, erase, length, trim_space, Bool, true, false,
  not, ◌||◌, List, [], ◌∷◌, ◌++◌, Option, none, some, get_or, if◌then◌else◌,
}
use beckn_onix.Model.Error.{GoError, wrapf}
use beckn_onix.Model.Result.{Result, ok, err}

-- `crawlmanager.IndexRef`
pub record IndexRef : Type 0 where
  pub index_url : Str
  pub participant_id : Str

-- A record of the registry: the subscriber, and its `catalog_index_urls`.
pub record SubscriberRecord : Type 0 where
  pub subscriber_id : Str
  pub catalog_index_urls : List Str

-- What a call of `Discover` collects: the URLs seen, the references, and the errors.
pub record Found : Type 0 where
  pub seen : Dict Bool
  pub refs : List IndexRef
  pub failed : List GoError

unfoldable pub nothing_found : Found
nothing_found = record { seen = []; refs = []; failed = [] }

-- `if seen[url] { continue }; seen[url] = true; refs = append(refs, …)`
unfoldable pub add_ref : IndexRef → Found → Found
add_ref ref found =
    if get_or (lookup ref.index_url found.seen) false
    then found
    else record found { seen = insert ref.index_url true found.seen; refs = found.refs ++ ref ∷ [] }

-- One entry of `catalog_index_urls`.
unfoldable pub add_entry : Str → Str → Found → Found
add_entry subscriber_id entry found =
    let idx = trim_space entry in
    if idx == []
    then found
    else add_ref (record { index_url = idx; participant_id = subscriber_id }) found

unfoldable pub add_entries : Str → List Str → Found → Found
add_entries subscriber_id [] found = found
add_entries subscriber_id (entry ∷ entries) found =
    add_entries subscriber_id entries (add_entry subscriber_id entry found)

unfoldable pub add_records : List SubscriberRecord → Found → Found
add_records [] found = found
add_records (rec ∷ records) found =
    add_records records (add_entries rec.subscriber_id rec.catalog_index_urls found)

-- `recordFailure`: the streak of the network, and the streaks
unfoldable pub record_failed_lookup : Str → Dict ℕ → ℕ × Dict ℕ
record_failed_lookup network_id streaks =
    let streak = suc (get_or (lookup network_id streaks) 0) in
    (streak, insert network_id streak streaks)

-- `recordSuccess`
unfoldable pub record_success : Str → Dict ℕ → Dict ℕ
record_success network_id = erase network_id

-- `networkId "…": …`
unfoldable pub network_error : Str → GoError → GoError
network_error network_id = wrapf (str "networkId \"" ++ network_id ++ str "\": ")

-- The loop of `registryDiscoverer.Discover`.
unfoldable pub query_networks :
    (Str → Result (List SubscriberRecord)) → List Str → Found → Dict ℕ → Found × Dict ℕ
query_networks query [] found streaks = (found, streaks)
query_networks query (network_id ∷ network_ids) found streaks = elim (query network_id) [
  | err e ↦
      query_networks query network_ids
        (record found { failed = found.failed ++ network_error network_id e ∷ [] })
        (record_failed_lookup network_id streaks).1
  | ok records ↦
      query_networks query network_ids (add_records records found)
        (record_success network_id streaks)
]

-- `errIfAllFailed`
unfoldable pub err_if_all_failed :
    (List GoError → GoError) → ℕ → List GoError → Str → Option GoError
err_if_all_failed join total errs what =
    if eqb total 0 || not (eqb (length errs) total)
    then none
    else some (wrapf (what ++ str ": ") (join errs))

-- What is returned, by the error that `errIfAllFailed` gives.
unfoldable pub or_refs : Option GoError → List IndexRef → Result (List IndexRef)
or_refs none refs = ok refs
or_refs (some e) refs = err e

-- `registryDiscoverer.Discover`: the references, and the streaks that the discoverer keeps
unfoldable pub discover_networks :
    (List GoError → GoError)
    → (Str → Result (List SubscriberRecord))
    → List Str
    → Dict ℕ
    → Result (List IndexRef) × Dict ℕ
discover_networks join query network_ids streaks =
    let (found, after) = query_networks query network_ids nothing_found streaks in
    (
      or_refs
          (err_if_all_failed join (length network_ids) found.failed
            (str "registry lookup failed for all configured network(s)"))
          found.refs,
      after,
    )

unfoldable pub add_refs : List IndexRef → Found → Found
add_refs [] found = found
add_refs (ref ∷ refs) found = add_refs refs (add_ref ref found)

-- The loop of `multiSource.Discover`, over what the sources answer.
unfoldable pub union_sources : List (Result (List IndexRef)) → Found → Found
union_sources [] found = found
union_sources (err e ∷ answers) found =
    union_sources answers (record found { failed = found.failed ++ e ∷ [] })
union_sources (ok refs ∷ answers) found = union_sources answers (add_refs refs found)

-- `multiSource.Discover`
unfoldable pub discover_sources :
    (List GoError → GoError) → List (Result (List IndexRef)) → Result (List IndexRef)
discover_sources join answers =
    let found = union_sources answers nothing_found in
    or_refs
      (err_if_all_failed join (length answers) found.failed (str "all discovery source(s) failed"))
      found.refs
