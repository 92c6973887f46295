-- ===== src/Router/Tests.antt =====
-- The router on a small file of rules, and the theorems at it.
use mathlib.Core.List.{Memᴰ}
use beckn_onix.Base.{
  Str, str, ◌==◌, Dict, lookup, insert, split, has_prefix, clean, join_path, trim_space, true,
  false, List, [], ◌∷◌, Option, none, some, ◌≡◌, refl, sym, ap, subst, ◌∙◌, ◌≤◌, is_some,
}
use beckn_onix.Model.Error.{errorf}
use beckn_onix.Model.Result.{ok, err}
use beckn_onix.Model.Json.{string, object, field, no_fields, to_dict, Codec}
use beckn_onix.Model.Version.{first_string, string_field}
use beckn_onix.Model.Context.{Url, Route, extract_context, context_of}
use beckn_onix.Router.Rules.{
  Files, RoutingRule, Rules, Routes, kind_of, is_v2_version, join_url_path, validate_rule,
  validate_rules, new_route, versions_of, routes_of, find_route, ensure_domain, ensure_version,
  set_route, rule_domain, add_endpoints, build_rules, load_rules,
}
use beckn_onix.Router.Lookup.{
  canonical_role_name, handle_protocol_mapping, forward_query, bodyless_route, bodyless_loop,
  route_bodyless, select_route, finish_route, route_context, route,
}
use beckn_onix.Router.Spec.{declared}
use beckn_onix.Router.Loading.{find_route-load_rules, load_rules-occurrences, occurrences}
use beckn_onix.Router.Routing.{IsOrder, IsFinal, route-IsFinal}
use beckn_onix.Router.Order.{route_bodyless_order}

-- What a test computes with.
loading : Unit {0}
unfolding str ◌==◌ lookup insert split has_prefix clean join_path kind_of is_v2_version
    join_url_path validate_rule validate_rules new_route versions_of routes_of find_route
    ensure_domain ensure_version set_route rule_domain add_endpoints build_rules load_rules
loading = tt

routing : Unit {0}
unfolding loading trim_space first_string string_field extract_context context_of to_dict
    canonical_role_name handle_protocol_mapping forward_query bodyless_route bodyless_loop
    route_bodyless select_route finish_route route_context route
routing = tt

abbrev search_rule : RoutingRule
search_rule = record {
  domain = str "retail";
  version = str "2.0.0";
  target_type = str "url";
  target = record { url = str "u"; publisher_id = []; exclude_action = false };
  endpoints = str "search" ∷ [];
}

abbrev select_rule : RoutingRule
select_rule = record {
  domain = [];
  version = str "2.0.0";
  target_type = str "bpp";
  target = record { url = []; publisher_id = []; exclude_action = false };
  endpoints = str "select" ∷ [];
}

abbrev rules : List RoutingRule
rules = search_rule ∷ select_rule ∷ []

-- A parser that knows one URL, and takes any other text for a path.
abbrev files : Files
files = record {
  read_file = λ path. ok path;
  unmarshal_yaml = λ text. ok rules;
  parse_url = λ text. ok (record { origin = str "http://h"; path = []; raw_query = [] });
}

abbrev search_route : Route
search_route = record {
  target_type = str "url";
  publisher_id = [];
  url = some (record { origin = str "http://h"; path = str "/search"; raw_query = [] });
}

abbrev select_route_value : Route
select_route_value = record { target_type = str "bpp"; publisher_id = []; url = none }

abbrev loaded : Rules
loaded =
    (
      str "*",
      (
        str "2.0.0",
        (str "search", some search_route) ∷ (str "select", some select_route_value) ∷ [],
      )
          ∷ [],
    )
    ∷ []

load_test : load_rules files (str "f") ≡ ok loaded
unfolding loading
load_test = refl

duplicate_test :
    load_rules
      (record files { unmarshal_yaml = λ text. ok (search_rule ∷ search_rule ∷ []) })
      (str "f")
    ≡ err (
        errorf (
          str
            "duplicate endpoint 'search' found for version 2.0.0. For v2.x.x, domain is ignored, so you can only define each endpoint once per version. Please remove the duplicate rule"))
unfolding loading
duplicate_test = refl

abbrev codec : Codec
codec = record {
  unmarshal_map = λ body. ok (
      (
        str "context",
        object (
            field (str "version") (string (str "2.0.0"))
              (field (str "bppUri") (string (str " v ")) no_fields)),
      )
      ∷ []);
  unmarshal_context_field = λ f body. none;
  unmarshal_context = λ body. ok none;
  marshal_response = λ e. [];
}

abbrev here : Dict Routes → Dict Routes
here m = m

here-IsOrder : IsOrder here
here-IsOrder = record { taken = λ m x k. k; kept = λ m x k. k }

abbrev ask : Str → Str → Option Url
ask path query = some (record { origin = []; path = path; raw_query = query })

abbrev answer : Str → Str → Route
answer path query = record {
  target_type = str "url";
  publisher_id = [];
  url = some (record { origin = str "http://h"; path = path; raw_query = query });
}

select_test :
    route files here codec loaded (ask (str "select") (str "q=1")) (str "{}")
    ≡ ok (answer (str "/select") (str "q=1"))
unfolding routing
select_test = refl

bodyless_test :
    route files here codec loaded (ask (str "search") (str "q=1")) []
    ≡ ok (answer (str "/search") (str "q=1"))
unfolding routing
bodyless_test = refl

find_route-load_rules_example :
    find_route (str "*") (str "2.0.0") (str "select") loaded
    ≡ declared files (str "*") (str "2.0.0") (str "select") none rules
find_route-load_rules_example =
    find_route-load_rules files (str "f") (str "f") rules (str "*") (str "2.0.0") (str "select")
      refl refl load_test

load_rules-occurrences_example : occurrences (str "2.0.0") (str "select") rules ≤ 1
unfolding loading
load_rules-occurrences_example =
    load_rules-occurrences files (str "2.0.0") (str "select") refl (str "f") (str "f") rules refl
      refl load_test

route-IsFinal_example : IsFinal (str "q=1") (answer (str "/select") (str "q=1"))
route-IsFinal_example =
    route-IsFinal files codec here (str "f") (ask (str "select") (str "q=1")) (str "{}")
      here-IsOrder load_test select_test

-- Two versions, of which one has the endpoint, ranged over in both orders.
abbrev two_versions : Dict Routes
two_versions =
    (str "2.0.0", (str "search", some search_route) ∷ [])
    ∷ (str "2.1.0", (str "select", some select_route_value) ∷ [])
    ∷ []

abbrev swapped : Dict Routes → Dict Routes
swapped [] = []
swapped (x ∷ []) = x ∷ []
swapped (x ∷ y ∷ []) = y ∷ x ∷ []
swapped (x ∷ y ∷ z ∷ rest) = x ∷ y ∷ z ∷ rest

swapped-Memᴰ : (m : Dict Routes) (x : Str × Routes) → Memᴰ x m → Memᴰ x (swapped m)
swapped-Memᴰ (a ∷ []) x k = k
swapped-Memᴰ (a ∷ b ∷ []) x (Memᴰ.head e) = Memᴰ.tail (Memᴰ.head e)
swapped-Memᴰ (a ∷ b ∷ []) x (Memᴰ.tail (Memᴰ.head e)) = Memᴰ.head e
swapped-Memᴰ (a ∷ b ∷ []) x (Memᴰ.tail (Memᴰ.tail k)) = elim k [ ]
swapped-Memᴰ (a ∷ b ∷ c ∷ rest) x k = k
swapped-Memᴰ [] x k = k

swapped_twice : (m : Dict Routes) → swapped (swapped m) ≡ m
swapped_twice [] = refl
swapped_twice (a ∷ []) = refl
swapped_twice (a ∷ b ∷ []) = refl
swapped_twice (a ∷ b ∷ c ∷ rest) = refl

swapped-IsOrder : IsOrder swapped
swapped-IsOrder = record {
  taken = λ m x k. subst (λ l. Memᴰ x l) (swapped_twice m) (swapped-Memᴰ (swapped m) x k);
  kept = swapped-Memᴰ;
}

abbrev two : Rules
two = (str "*", two_versions) ∷ []

only_search :
    (x y : Str × Routes)
    → Memᴰ x two_versions
    → Memᴰ y two_versions
    → is_some (lookup (str "search") x.1) ≡ true
    → is_some (lookup (str "search") y.1) ≡ true
    → y ≡ x
unfolding lookup str ◌==◌
only_search x y (Memᴰ.head e) (Memᴰ.head f) h k = f ∙ sym e
only_search x y (Memᴰ.head e) (Memᴰ.tail (Memᴰ.head f)) h k =
    absurd (cc (k, ap (λ (z : Str × Routes). is_some (lookup (str "search") z.1)) f))
only_search x y (Memᴰ.head e) (Memᴰ.tail (Memᴰ.tail f)) h k = elim f [ ]
only_search x y (Memᴰ.tail (Memᴰ.head e)) f h k =
    absurd (cc (h, ap (λ (z : Str × Routes). is_some (lookup (str "search") z.1)) e))
only_search x y (Memᴰ.tail (Memᴰ.tail e)) f h k = elim e [ ]

two_found : lookup (str "*") two ≡ some two_versions
unfolding loading
two_found = refl

route_bodyless_order_example :
    route_bodyless here two (str "search") [] ≡ route_bodyless swapped two (str "search") []
route_bodyless_order_example =
    route_bodyless_order (str "search") [] here swapped two two_versions here-IsOrder
      swapped-IsOrder two_found only_search
