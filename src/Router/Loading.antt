-- ===== src/Router/Loading.antt =====
-- What a router that was loaded holds: the last rule's route, at most one rule to an endpoint of a
-- v2 version, and routes of known target types only.
use beckn_onix.Base.{
  ℕ, suc, ◌+◌, ◌≤◌, Str, str, ◌==◌, ==_iff, lookup, true, List, [], ◌∷◌, Option, none, some,
  if◌then◌else◌, ◌≡◌, ap, subst, arith,
}
use beckn_onix.Model.Result.{Result, ok, err, >>=-eq-ok, fail_if->>-eq-ok, or_wrap}
use beckn_onix.Model.Context.{Route}
use beckn_onix.Router.Rules.{
  Files, RoutingRule, Rules, validate_rules, rule_domain, find_route, set_route, ensure_domain,
  routes_of, versions_of, add_endpoints, build_rules, load_rules, is_v2_version,
}
use beckn_onix.Router.Spec.{
  declared, find_route-build_rules, find_route-set_route, find_route-ensure_domain,
  find_route-ensure_version, add_endpoints-cons,
}

module _ (files : Files) where
  or_wrap-eq-ok {ℓ} :
      {A : Type ℓ} (prefix : Str) (r : Result A) {a : A} → or_wrap prefix r ≡ ok a → r ≡ ok a
  or_wrap-eq-ok prefix (ok a) h = h
  or_wrap-eq-ok prefix (err e) h = cc

  -- What `loadRules` has gone through when it succeeds.
  pub load_rules_steps :
      (path : Str) {m : Rules}
      → load_rules files path ≡ ok m
      → (text : Str) × (rules : List RoutingRule) × (files.read_file path ≡ ok text)
        × (files.unmarshal_yaml text ≡ ok rules)
        × (validate_rules files rules ≡ ok tt)
        × (build_rules files rules [] ≡ ok m)
  unfolding load_rules
  load_rules_steps path h =
      let (_, h₁) = fail_if->>-eq-ok _ _ _ h in
      let (text, read, h₂) = >>=-eq-ok (or_wrap _ (files.read_file path)) _ h₁ in
      let (rules, parsed, h₃) = >>=-eq-ok (or_wrap _ (files.unmarshal_yaml text)) _ h₂ in
      let (_, valid, h₄) = >>=-eq-ok (or_wrap _ (validate_rules files rules)) _ h₃ in
      (text, rules, or_wrap-eq-ok _ _ read, or_wrap-eq-ok _ _ parsed, or_wrap-eq-ok _ _ valid, h₄)

  -- A router that was loaded holds for each domain, version and endpoint the route that the last
  -- rule of the file for them declares, and none where no rule covers them.
  pub find_route-load_rules :
      (path text : Str) (rules : List RoutingRule) (d v e : Str) {m : Rules}
      → files.read_file path ≡ ok text
      → files.unmarshal_yaml text ≡ ok rules
      → load_rules files path ≡ ok m
      → find_route d v e m ≡ declared files d v e none rules
  unfolding find_route routes_of versions_of lookup
  find_route-load_rules path text rules d v e {m} read parsed h =
      let (text', rules', read', parsed', _, built) = load_rules_steps path h in
      let same_text : text' ≡ text = cc in
      let same : rules' ≡ rules = cc (ap files.unmarshal_yaml same_text) in
      subst (λ r. find_route d v e m ≡ declared files d v e none r) same
        (find_route-build_rules files d v e rules' [] built)

-- How often the rules of a version list an endpoint.
abbrev pub listed : Str → List Str → ℕ
listed e [] = 0
listed e (x ∷ es) = if x == e then suc (listed e es) else listed e es

abbrev pub occurrences : Str → Str → List RoutingRule → ℕ
occurrences v e [] = 0
occurrences v e (rule ∷ rules) =
    (if rule.version == v then listed e rule.endpoints else 0) + occurrences v e rules

abbrev held : Option (Option Route) → ℕ
held none = 0
held (some o) = 1

rule_domain_v2 :
    (rule : RoutingRule) → is_v2_version rule.version ≡ true → rule_domain rule ≡ str "*"
unfolding rule_domain
rule_domain_v2 rule h = rw h

module _ (files : Files) (v e : Str) (v2 : is_v2_version v ≡ true) where
  add_endpoints-held :
      (rule : RoutingRule) (es : List Str) (m : Rules) {m' : Rules}
      → add_endpoints files rule es m ≡ ok m'
      → (if rule.version == v then listed e es else 0) + held (find_route (str "*") v e m)
        ≡ held (find_route (str "*") v e m')
  unfolding add_endpoints
  add_endpoints-held rule [] m h = ground arith
  add_endpoints-held rule (x ∷ es) m h =
      let (o, made, fresh, rest) = add_endpoints-cons files rule x es m h in
      let m₁ : Rules = set_route (rule_domain rule) rule.version x o m in
      ground (
        arith,
        ==_iff rule.version v,
        ==_iff x e,
        ==_iff (rule_domain rule) (str "*"),
        rule_domain_v2 rule,
        add_endpoints-held rule es m₁ rest,
        find_route-set_route (str "*") v e (rule_domain rule) rule.version x o m,
      )

  build_rules-held :
      (rules : List RoutingRule) (m : Rules) {m' : Rules}
      → build_rules files rules m ≡ ok m'
      → occurrences v e rules + held (find_route (str "*") v e m)
        ≡ held (find_route (str "*") v e m')
  unfolding build_rules
  build_rules-held [] m h = ground arith
  build_rules-held (rule ∷ rules) m h =
      let (m₁, added, h₁) = >>=-eq-ok (add_endpoints files rule rule.endpoints _) _ h in
      ground (
        arith,
        add_endpoints-held rule rule.endpoints _ added,
        build_rules-held rules m₁ h₁,
        find_route-ensure_version (str "*") v e (rule_domain rule) rule.version
            (ensure_domain (rule_domain rule) m),
        find_route-ensure_domain (str "*") v e (rule_domain rule) m,
      )

  -- A file that lists an endpoint of a v2 version twice is refused: in a router that was loaded each
  -- endpoint of a v2 version stands at most once among the rules, whatever their domains.
  pub load_rules-occurrences :
      (path text : Str) (rules : List RoutingRule) {m : Rules}
      → files.read_file path ≡ ok text
      → files.unmarshal_yaml text ≡ ok rules
      → load_rules files path ≡ ok m
      → occurrences v e rules ≤ 1
  load_rules-occurrences path text rules {m} read parsed h =
      let (text', rules', read', parsed', _, built) = load_rules_steps files path h in
      let same_text : text' ≡ text = cc in
      let same : rules' ≡ rules = cc (ap files.unmarshal_yaml same_text) in
      subst (λ r. occurrences v e r ≤ 1) same (ground (arith, build_rules-held rules' [] built))
