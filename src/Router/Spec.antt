-- ===== src/Router/Spec.antt =====
-- The routes that a list of rules declares, without the maps of the router.
use beckn_onix.Base.{
  Str, ◌==◌, ==_iff, lookup, insert, lookup-insert, Bool, false, ◌&&◌, List, [], ◌∷◌, any, Option,
  none, some, is_some, if◌then◌else◌, ◌≡◌, ◌∙◌, ap, arith,
}
use beckn_onix.Model.Result.{ok, err, >>=-eq-ok, fail_if->>-eq-ok}
use beckn_onix.Model.Context.{Route}
use beckn_onix.Router.Rules.{
  Files, RoutingRule, Rules, new_route, rule_domain, find_route, routes_of, versions_of, set_route,
  ensure_domain, ensure_version, add_endpoints, build_rules, is_v2_version,
}

-- Setting one route changes that route and no other.
pub find_route-set_route :
    (d v e d' v' e' : Str) (o : Option Route) (m : Rules)
    → find_route d v e (set_route d' v' e' o m)
      ≡ (if d' == d && (v' == v && e' == e) then some o else find_route d v e m)
unfolding find_route set_route routes_of versions_of
find_route-set_route d v e d' v' e' o m = ground (
  arith,
  ==_iff d' d,
  ==_iff v' v,
  ==_iff e' e,
  lookup-insert d d' (insert v' (insert e' o (routes_of d' v' m)) (versions_of d' m)) m,
  lookup-insert v v' (insert e' o (routes_of d' v' m)) (versions_of d' m),
  lookup-insert e e' o (routes_of d' v' m),
)

pub find_route-ensure_domain :
    (d v e d' : Str) (m : Rules) → find_route d v e (ensure_domain d' m) ≡ find_route d v e m
unfolding find_route ensure_domain routes_of versions_of lookup
find_route-ensure_domain d v e d' m = ground (arith, ==_iff d' d, lookup-insert d d' [] m)

pub find_route-ensure_version :
    (d v e d' v' : Str) (m : Rules) → find_route d v e (ensure_version d' v' m) ≡ find_route d v e m
unfolding find_route ensure_version routes_of versions_of lookup
find_route-ensure_version d v e d' v' m = ground (
  arith,
  ==_iff d' d,
  ==_iff v' v,
  lookup-insert d d' (insert v' [] (versions_of d' m)) m,
  lookup-insert v v' [] (versions_of d' m),
)

abbrev pub member : Str → List Str → Bool
member e = any (λ x. x == e)

-- The rule is filed under the domain and the version, and lists the endpoint.
abbrev pub covers : Str → Str → Str → RoutingRule → Bool
covers d v e rule = rule_domain rule == d && (rule.version == v && member e rule.endpoints)

module _ (files : Files) where
  -- The route that a rule makes for an endpoint, if its URL can be parsed.
  unfoldable pub rule_route : RoutingRule → Str → Option (Option Route)
  rule_route rule e = elim (new_route files rule e) [ ok route ↦ some route | err _ ↦ none ]

  -- The route of the last rule that covers the endpoint.
  unfoldable pub declared :
      Str → Str → Str → Option (Option Route) → List RoutingRule → Option (Option Route)
  declared d v e found [] = found
  declared d v e found (rule ∷ rules) =
      declared d v e (if covers d v e rule then rule_route rule e else found) rules

  -- What a round of the inner loop has done.
  pub add_endpoints-cons :
      (rule : RoutingRule) (x : Str) (es : List Str) (m : Rules) {m' : Rules}
      → add_endpoints files rule (x ∷ es) m ≡ ok m'
      → (o : Option Route) × (new_route files rule x ≡ ok o)
        × ((is_v2_version rule.version && is_some (find_route (rule_domain rule) rule.version x m))
            ≡ false)
        × (add_endpoints files rule es (set_route (rule_domain rule) rule.version x o m) ≡ ok m')
  unfolding add_endpoints
  add_endpoints-cons rule x es m h =
      let (o, made, h₁) = >>=-eq-ok (new_route files rule x) _ h in
      let (fresh, h₂) = fail_if->>-eq-ok _ _ _ h₁ in (o, made, fresh, h₂)

  find_route-add_endpoints :
      (d v e : Str) (rule : RoutingRule) (es : List Str) (m : Rules) {m' : Rules}
      → add_endpoints files rule es m ≡ ok m'
      → find_route d v e m' ≡ (
          if rule_domain rule == d && (rule.version == v && member e es)
          then rule_route rule e
          else find_route d v e m)
  unfolding add_endpoints rule_route
  find_route-add_endpoints d v e rule [] m h = ground arith
  find_route-add_endpoints d v e rule (x ∷ es) m h =
      let (o, made, _, rest) = add_endpoints-cons rule x es m h in
      let m₁ : Rules = set_route (rule_domain rule) rule.version x o m in
      ground (
        arith,
        ==_iff x e,
        made,
        find_route-add_endpoints d v e rule es m₁ rest,
        find_route-set_route d v e (rule_domain rule) rule.version x o m,
      )

  -- After the rules are loaded, the map holds for each domain, version and endpoint the route of the
  -- last rule that covers it, and no other.
  pub find_route-build_rules :
      (d v e : Str) (rules : List RoutingRule) (m : Rules) {m' : Rules}
      → build_rules files rules m ≡ ok m'
      → find_route d v e m' ≡ declared d v e (find_route d v e m) rules
  unfolding build_rules declared
  find_route-build_rules d v e [] m h = ground arith
  find_route-build_rules d v e (rule ∷ rules) m h =
      let (m₁, added, h₁) = >>=-eq-ok (add_endpoints files rule rule.endpoints _) _ h in
      let here = find_route-add_endpoints d v e rule rule.endpoints _ added in
      find_route-build_rules d v e rules m₁ h₁
      ∙ ap (λ found. declared d v e found rules)
          (ground (
            arith,
            here,
            find_route-ensure_version d v e (rule_domain rule) rule.version
                (ensure_domain (rule_domain rule) m),
            find_route-ensure_domain d v e (rule_domain rule) m,
          ))
