-- ===== src/Crawler/Tests/Finding.antt =====
-- A registry with two networks, one of which fails.
use mathlib.Core.List.{Memᴰ}
use beckn_onix.Base.{
  Str, str, trim_space, ◌==◌, eqb, length, all, true, not, ◌&&◌, List, [], ◌∷◌, map, if◌then◌else◌,
  ◌≡◌, refl, lookup, insert,
}
use beckn_onix.Model.Error.{GoError, errorf}
use beckn_onix.Model.Result.{Result, ok, err, is_err}
use beckn_onix.Crawler.Tables.{Distinct}
use beckn_onix.Crawler.Discovery.{
  IndexRef, SubscriberRecord, discover_networks, query_networks, add_records, add_entries,
  add_entry, add_ref, nothing_found, err_if_all_failed, or_refs,
}
use beckn_onix.Crawler.Discovered.{url_of, has_url}
use beckn_onix.Crawler.Networks.{IsDeclared, discover_networks-refs, discover_networks-is_err}

abbrev provider : SubscriberRecord
provider = record { subscriber_id = str "p"; catalog_index_urls = str "u" ∷ str "w" ∷ str "u" ∷ [] }

abbrev query : Str → Result (List SubscriberRecord)
query network_id =
    if network_id == str "n" then ok (provider ∷ []) else err (errorf (str "not found"))

abbrev networks : List Str
networks = str "m" ∷ str "n" ∷ []

abbrev first_error : List GoError → GoError
first_error [] = errorf []
first_error (e ∷ errors) = e

abbrev references : List IndexRef
references =
    record { index_url = str "u"; participant_id = str "p" }
    ∷ record { index_url = str "w"; participant_id = str "p" }
    ∷ []

discovers : (discover_networks first_error query networks []).0 ≡ ok references
unfolding discover_networks query_networks add_records add_entries add_entry add_ref nothing_found
    err_if_all_failed or_refs str ◌==◌ lookup insert trim_space
discovers = refl

declares : IsDeclared query networks (str "w")
unfolding str ◌==◌ trim_space
declares = record {
  network_id = str "n";
  records = provider ∷ [];
  rec = provider;
  entry = str "w";
  configured = Memᴰ.tail (Memᴰ.head refl);
  answered = refl;
  listed = Memᴰ.head refl;
  declared = Memᴰ.tail (Memᴰ.head refl);
  not_blank = refl;
  trimmed = refl;
}

discover_networks-refs_example :
    Distinct (map url_of references) × (has_url (str "w") references ≡ true)
discover_networks-refs_example =
    discover_networks-refs first_error query networks [] references (str "w") discovers declares

discover_networks-is_err_example :
    is_err (discover_networks first_error query networks []).0
    ≡ (not (eqb (length networks) 0) && all (λ id. is_err (query id)) networks)
discover_networks-is_err_example = discover_networks-is_err first_error query networks []
