-- ===== src/Router/Rules.antt =====
-- router.go: rules, their validation, and the map of routes that is built from them.
use beckn_onix.Base.{
  Str, str, ◌==◌, has_prefix, join_path, Dict, lookup, insert, Bool, not, ◌&&◌, ◌||◌, List, [], ◌∷◌,
  ◌++◌, Option, none, some, get_or, is_some, if◌then◌else◌,
}
use beckn_onix.Model.Error.{errorf}
use beckn_onix.Model.Result.{Result, ok, err, ◌>>=◌, ◌>>◌, or_wrap, fail_if}
use beckn_onix.Model.Context.{Url, Route}

-- `target`
pub record Target : Type 0 where
  pub url : Str
  pub publisher_id : Str
  pub exclude_action : Bool

-- `routingRule`
pub record RoutingRule : Type 0 where
  pub domain : Str
  pub version : Str
  pub target_type : Str
  pub target : Target
  pub endpoints : List Str

-- What the router calls and does not implement.
pub record Files : Type 0 where
  pub read_file : Str → Result Str
  pub unmarshal_yaml : Str → Result (List RoutingRule)
  pub parse_url : Str → Result Url

-- The cases of the switches over a target type.
pub data TargetKind : Type 0 where
  kind_url kind_publisher kind_bpp kind_bap kind_unknown : TargetKind

unfoldable pub kind_of : Str → TargetKind
kind_of t =
    if t == str "url"
    then kind_url
    else if t == str "publisher"
    then kind_publisher
    else if t == str "bpp" || t == str "receiver"
    then kind_bpp
    else if t == str "bap" || t == str "sender"
    then kind_bap
    else kind_unknown

-- domain → version → endpoint → `*Route`, which is nil for a rule of an unknown target type
abbrev pub Routes : Type 0
Routes = Dict (Option Route)

abbrev pub Rules : Type 0
Rules = Dict (Dict Routes)

-- `isV2Version`
unfoldable pub is_v2_version : Str → Bool
is_v2_version version = has_prefix version (str "2.")

-- `joinPath`
unfoldable pub join_url_path : Url → Str → Str
join_url_path u endpoint = join_path (if u.path == [] then str "/" else u.path) endpoint

module _ (files : Files) where
  -- The checks of one rule in `validateRules`.
  unfoldable pub validate_rule : RoutingRule → Result (Unit {0})
  validate_rule rule = do
    fail_if (rule.version == [] || rule.target_type == [])
        (errorf (str "invalid rule: version and targetType are required"))
    fail_if (not (is_v2_version rule.version) && rule.domain == [])
        (errorf (str "invalid rule: domain is required for version " ++ rule.version))
    elim (kind_of rule.target_type) [
      | kind_url ↦ do
        fail_if (rule.target.url == [])
            (errorf (str "invalid rule: url is required for targetType 'url'"))
        u ←
            or_wrap (str "invalid URL - " ++ (rule.target.url ++ str ": "))
              (files.parse_url rule.target.url)
        ok tt
      | kind_publisher ↦
          fail_if (rule.target.publisher_id == [])
            (errorf (str "invalid rule: publisherID is required for targetType 'publisher'"))
      | kind_unknown ↦
          err (errorf (str "invalid rule: unknown targetType '" ++ (rule.target_type ++ str "'")))
      | _ ↦ if rule.target.url == [] then ok tt else do
        u ←
            or_wrap
              (str "invalid URL - "
                ++ (rule.target.url
                    ++ (str " defined in routing config for target type "
                        ++ (rule.target_type ++ str ": "))))
              (files.parse_url rule.target.url)
        ok tt
    ]

  -- `validateRules`
  unfoldable pub validate_rules : List RoutingRule → Result (Unit {0})
  validate_rules [] = ok tt
  validate_rules (rule ∷ rules) = do validate_rule rule; validate_rules rules

  -- The route that `loadRules` makes for one endpoint of a rule.
  unfoldable pub new_route : RoutingRule → Str → Result (Option Route)
  new_route rule endpoint = elim (kind_of rule.target_type) [
    | kind_publisher ↦ ok (
        some (record {
          target_type = rule.target_type;
          publisher_id = rule.target.publisher_id;
          url = none;
        }))
    | kind_url ↦ do
      u ← or_wrap (str "invalid URL in rule: ") (files.parse_url rule.target.url)
      let path = if rule.target.exclude_action then u.path else join_url_path u endpoint
      ok (
          some (record {
            target_type = rule.target_type;
            publisher_id = [];
            url = some (record u { path = path });
          }))
    | kind_unknown ↦ ok none
    | _ ↦
        if rule.target.url == []
        then ok (some (record { target_type = rule.target_type; publisher_id = []; url = none }))
        else do
          u ← or_wrap (str "invalid URL in rule: ") (files.parse_url rule.target.url)
          ok (
              some (record {
                target_type = rule.target_type;
                publisher_id = [];
                url = some (record u { path = join_url_path u endpoint });
              }))
  ]

-- `r.rules[domain][version][endpoint]`
unfoldable pub versions_of : Str → Rules → Dict Routes
versions_of domain rules = get_or (lookup domain rules) []

unfoldable pub routes_of : Str → Str → Rules → Routes
routes_of domain version rules = get_or (lookup version (versions_of domain rules)) []

unfoldable pub find_route : Str → Str → Str → Rules → Option (Option Route)
find_route domain version endpoint rules = lookup endpoint (routes_of domain version rules)

-- The domain's map, made if it is not there, and the version's map in it.
unfoldable pub ensure_domain : Str → Rules → Rules
ensure_domain domain rules = if is_some (lookup domain rules) then rules else insert domain [] rules

unfoldable pub ensure_version : Str → Str → Rules → Rules
ensure_version domain version rules =
    if is_some (lookup version (versions_of domain rules))
    then rules
    else insert domain (insert version [] (versions_of domain rules)) rules

-- `r.rules[domain][version][endpoint] = route`
unfoldable pub set_route : Str → Str → Str → Option Route → Rules → Rules
set_route domain version endpoint route rules =
    insert domain
      (insert version (insert endpoint route (routes_of domain version rules))
        (versions_of domain rules))
      rules

-- The domain under which a rule is filed.
unfoldable pub rule_domain : RoutingRule → Str
rule_domain rule = if is_v2_version rule.version then str "*" else rule.domain

module _ (files : Files) where
  -- The inner loop of `loadRules`.
  unfoldable pub add_endpoints : RoutingRule → List Str → Rules → Result Rules
  add_endpoints rule [] rules = ok rules
  add_endpoints rule (endpoint ∷ rest) rules = do
    route ← new_route files rule endpoint
    fail_if
        (is_v2_version rule.version
          && is_some (find_route (rule_domain rule) rule.version endpoint rules))
        (errorf (
          str "duplicate endpoint '"
          ++ (endpoint
              ++ (str "' found for version "
                  ++ (rule.version
                      ++ str
                          ". For v2.x.x, domain is ignored, so you can only define each endpoint once per version. Please remove the duplicate rule")))))
    add_endpoints rule rest (set_route (rule_domain rule) rule.version endpoint route rules)

  -- The outer loop of `loadRules`.
  unfoldable pub build_rules : List RoutingRule → Rules → Result Rules
  build_rules [] rules = ok rules
  build_rules (rule ∷ rest) rules = do
    rules' ←
        add_endpoints rule rule.endpoints
          (ensure_version (rule_domain rule) rule.version (ensure_domain (rule_domain rule) rules))
    build_rules rest rules'

  -- `loadRules`
  unfoldable pub load_rules : Str → Result Rules
  load_rules config_path = do
    fail_if (config_path == []) (errorf (str "routingConfig path is empty"))
    text ←
        or_wrap (str "error reading config file at " ++ (config_path ++ str ": "))
          (files.read_file config_path)
    rules ← or_wrap (str "error parsing YAML: ") (files.unmarshal_yaml text)
    or_wrap (str "invalid routing rules: ") (validate_rules files rules)
    build_rules rules []

  -- `New`
  unfoldable pub new : Option Str → Result Rules
  new none = err (errorf (str "config cannot be nil"))
  new (some routing_config) =
      or_wrap (str "failed to load routing rules: ") (load_rules routing_config)
