-- ===== src/Router/Known.antt =====
-- The routes of a router that was loaded are of known target types.
use beckn_onix.Base.{
  Str, ◌==◌, Dict, insert, lookup, true, false, List, [], ◌∷◌, All, Option, get_or, none, some,
  is_some, if◌then◌else◌, ◌≡◌, refl, arith, ◌≢◌, subst, inl, inr, Bool-cases,
}
use mathlib.Core.Option.{some-injective}
use beckn_onix.Model.Result.{ok, >>=-eq-ok}
use beckn_onix.Model.Context.{Route}
use beckn_onix.Router.Rules.{
  Files, RoutingRule, Rules, Routes, kind_url, kind_unknown, kind_of, validate_rule, validate_rules,
  new_route, rule_domain, set_route, ensure_domain, routes_of, versions_of, ensure_version,
  add_endpoints, build_rules, load_rules,
}
use beckn_onix.Router.Spec.{add_endpoints-cons}
use beckn_onix.Router.Loading.{load_rules_steps}

-- A route that the switches of the router and the handler know: a publisher, a URL that is there, or
-- a target that the request names.
abbrev pub IsKnown : Option Route → Type 0
IsKnown none = ⊥
IsKnown (some r) =
    (kind_of r.target_type ≢ kind_unknown)
    × (kind_of r.target_type ≡ kind_url → is_some r.url ≡ true)

-- Every route of the map is known.
abbrev pub AreKnown : Rules → Type 0
AreKnown = All (λ (_, versions). All (λ (_, routes). All (λ (_, o). IsKnown o) routes) versions)

module _ {ℓ κ} {V : Type ℓ} (P : V → Type κ) where
  pub All-insert :
      (k : Str) (v : V) (m : Dict V)
      → P v
      → All (λ (_, w). P w) m
      → All (λ (_, w). P w) (insert k v m)
  unfolding insert
  All-insert k v [] p h = (p, tt)
  All-insert k v ((j, w) ∷ m) p (q, h) =
      elim (j == k)
        as (λ b. All (λ (_, w). P w) (if b then (k, v) ∷ m else (j, w) ∷ insert k v m)) [
          | true ↦ (p, h)
          | false ↦ (q, All-insert k v m p h)
        ]

  pub All-lookup :
      (k : Str) (m : Dict V) {v : V} → All (λ (_, w). P w) m → lookup k m ≡ some v → P v
  unfolding lookup
  All-lookup k [] h e = cc
  All-lookup k ((j, w) ∷ m) {v} (q, h) e = elim (Bool-cases (j == k)) [
    | inl same ↦ subst P (some-injective w v (rw same at e)) q
    | inr other ↦ All-lookup k m h (rw other at e)
  ]

module _ {ℓ κ} {V : Type ℓ} (Q : List (Str × V) → Type κ) where
  -- A map that is missing is read as empty.
  All-get_or :
      (o : Option (List (Str × V)))
      → Q []
      → ((m : List (Str × V)) → o ≡ some m → Q m)
      → Q (get_or o [])
  All-get_or none base step = base
  All-get_or (some m) base step = step m refl

module _ (files : Files) where
  new_route-IsKnown :
      (rule : RoutingRule) (e : Str) {o : Option Route}
      → validate_rule files rule ≡ ok tt
      → new_route files rule e ≡ ok o
      → IsKnown o
  unfolding new_route validate_rule
  new_route-IsKnown rule e {o} valid made = ground arith

abbrev pub KnownRoutes : Routes → Type 0
KnownRoutes = All (λ (_, o). IsKnown o)

abbrev pub KnownVersions : Dict Routes → Type 0
KnownVersions = All (λ (_, routes). KnownRoutes routes)

pub versions_of-KnownVersions : (d : Str) (m : Rules) → AreKnown m → KnownVersions (versions_of d m)
unfolding versions_of
versions_of-KnownVersions d m h =
    All-get_or KnownVersions (lookup d m) tt (λ vs e. All-lookup KnownVersions d m h e)

routes_of-KnownRoutes : (d v : Str) (m : Rules) → AreKnown m → KnownRoutes (routes_of d v m)
unfolding routes_of
routes_of-KnownRoutes d v m h =
    All-get_or KnownRoutes (lookup v (versions_of d m)) tt
      (λ rs e. All-lookup KnownRoutes v (versions_of d m) (versions_of-KnownVersions d m h) e)

set_route-AreKnown :
    (d v e : Str) (o : Option Route) (m : Rules)
    → IsKnown o
    → AreKnown m
    → AreKnown (set_route d v e o m)
unfolding set_route
set_route-AreKnown d v e o m k h =
    All-insert KnownVersions d _ m
      (All-insert KnownRoutes v _ (versions_of d m)
        (All-insert IsKnown e o (routes_of d v m) k (routes_of-KnownRoutes d v m h))
        (versions_of-KnownVersions d m h))
      h

ensure_domain-AreKnown : (d : Str) (m : Rules) → AreKnown m → AreKnown (ensure_domain d m)
unfolding ensure_domain
ensure_domain-AreKnown d m h = elim (Bool-cases (is_some (lookup d m))) [
  | inl there ↦ rw there h
  | inr missing ↦ rw missing (All-insert KnownVersions d [] m tt h)
]

ensure_version-AreKnown : (d v : Str) (m : Rules) → AreKnown m → AreKnown (ensure_version d v m)
unfolding ensure_version
ensure_version-AreKnown d v m h = elim (Bool-cases (is_some (lookup v (versions_of d m)))) [
  | inl there ↦ rw there h
  | inr missing ↦ rw missing (
      All-insert KnownVersions d _ m
        (All-insert KnownRoutes v [] (versions_of d m) tt (versions_of-KnownVersions d m h)) h)
]

module _ (files : Files) where
  add_endpoints-AreKnown :
      (rule : RoutingRule) (es : List Str) (m : Rules) {m' : Rules}
      → validate_rule files rule ≡ ok tt
      → AreKnown m
      → add_endpoints files rule es m ≡ ok m'
      → AreKnown m'
  unfolding add_endpoints
  add_endpoints-AreKnown rule [] m {m'} valid h e = let same : m ≡ m' = cc in subst AreKnown same h
  add_endpoints-AreKnown rule (x ∷ es) m valid h e =
      let (o, made, _, rest) = add_endpoints-cons files rule x es m e in
      add_endpoints-AreKnown rule es _ valid
        (set_route-AreKnown (rule_domain rule) rule.version x o m
          (new_route-IsKnown files rule x valid made) h)
        rest

  build_rules-AreKnown :
      (rules : List RoutingRule) (m : Rules) {m' : Rules}
      → validate_rules files rules ≡ ok tt
      → AreKnown m
      → build_rules files rules m ≡ ok m'
      → AreKnown m'
  unfolding build_rules validate_rules
  build_rules-AreKnown [] m {m'} valid h e = let same : m ≡ m' = cc in subst AreKnown same h
  build_rules-AreKnown (rule ∷ rules) m valid h e =
      let (u, here, later) = >>=-eq-ok (validate_rule files rule) _ valid in
      let (m₁, added, rest) = >>=-eq-ok (add_endpoints files rule rule.endpoints _) _ e in
      build_rules-AreKnown rules m₁ later
        (add_endpoints-AreKnown rule rule.endpoints _ here
          (ensure_version-AreKnown (rule_domain rule) rule.version _
            (ensure_domain-AreKnown (rule_domain rule) m h))
          added)
        rest

  -- A router that was loaded holds no nil route and none of an unknown target type, and every route of
  -- the type "url" has a URL.
  pub load_rules-AreKnown : (path : Str) {m : Rules} → load_rules files path ≡ ok m → AreKnown m
  load_rules-AreKnown path h =
      let (text, rules, _, _, valid, built) = load_rules_steps files path h in
      build_rules-AreKnown rules [] valid tt built
