-- ===== src/Router/Lookup.antt =====
-- router.go: the route of a request.
use beckn_onix.Base.{
  Str, str, ◌==◌, trim_space, Dict, lookup, [], ◌∷◌, ◌++◌, map, Option, none, some, if◌then◌else◌,
  to_upper_byte,
}
use beckn_onix.Model.Error.{GoError, errorf, wrapf, new_bad_req_err, caused_by}
use beckn_onix.Model.Result.{Result, ok, err, ◌>>=◌}
use beckn_onix.Model.Json.{Json, Codec}
use beckn_onix.Model.Version.{first_string}
use beckn_onix.Model.Context.{
  Url, Route, extracted, not_extracted, extract_context, wrap_extract_context_err,
}
use beckn_onix.Router.Rules.{
  Files, Routes, Rules, kind_url, kind_bpp, kind_bap, kind_of, is_v2_version, join_url_path,
}

-- `canonicalRoleName`
unfoldable pub canonical_role_name : Str → Str
canonical_role_name t = elim (kind_of t) [
  | kind_bpp ↦ str "BPP"
  | kind_bap ↦ str "BAP"
  | _ ↦ map to_upper_byte t
]

-- A clone of the URL with the inbound query, if there is one.
abbrev pub with_query : Str → Url → Url
with_query raw_query u = if raw_query == [] then u else record u { raw_query = raw_query }

abbrev pub url_route : Option Url → Route
url_route u = record { target_type = str "url"; publisher_id = []; url = u }

-- The use of a route that is nil.
abbrev pub nil_route : GoError
nil_route = errorf (str "runtime error: invalid memory address or nil pointer dereference")

module _ (files : Files) where
  -- `handleProtocolMapping`
  unfoldable pub handle_protocol_mapping : Route → Str → Str → Str → Result Route
  handle_protocol_mapping route np_uri endpoint raw_query =
      let target = trim_space np_uri in
      let role = canonical_role_name route.target_type in
      if target == []
      then elim route.url [
        | none ↦ err (
            errorf (
              str "could not determine destination for endpoint '"
              ++ (endpoint
                  ++ (str "': neither request contained a "
                      ++ (role ++ str " URI nor was a default URL configured in routing rules")))))
        | some u ↦ ok (url_route (some (with_query raw_query u)))
      ]
      else elim (files.parse_url target) [
        | err e ↦ err (
            new_bad_req_err (str "SCH_INVALID_FORMAT") (
              caused_by (
                wrapf
                  (str "invalid "
                    ++ (role
                        ++ (str " URI - "
                            ++ (target
                                ++ (str " in request body for " ++ (endpoint ++ str ": "))))))
                  e)))
        | ok u ↦
            ok (
              url_route
                (some (with_query raw_query (record u { path = join_url_path u endpoint }))))
      ]

-- A route with a URL of its own, for a request with a query.
unfoldable pub forward_query : Str → Route → Route
forward_query raw_query route = elim route.url [
  | none ↦ route
  | some u ↦
      if raw_query == [] then route else url_route (some (record u { raw_query = raw_query }))
]

-- One round of the loop of `routeBodyless`.
unfoldable pub bodyless_route : Str → Str → Str → Option Route → Result Route
bodyless_route version endpoint raw_query none = err nil_route
bodyless_route version endpoint raw_query (some route) =
    let rejected : Result Route = err (
      errorf (
        str "bodyless endpoint '"
        ++ (endpoint
            ++ (str "' (version "
                ++ (version
                    ++ (str ") is configured with target type '"
                        ++ (route.target_type
                            ++ str
                                "': dynamic BAP/BPP URI routing is not supported for bodyless requests"))))))) in
    elim (kind_of route.target_type) [
      | kind_bpp ↦ rejected
      | kind_bap ↦ rejected
      | kind_url ↦ ok (forward_query raw_query route)
      | _ ↦ ok route
    ]

-- The loop of `routeBodyless`, over the versions in the order in which `range` gives them, which Go
-- does not fix.
unfoldable pub bodyless_loop : Str → Str → Dict Routes → Result Route
bodyless_loop endpoint raw_query [] =
    err (errorf (str "endpoint '" ++ (endpoint ++ str "' is not supported in v2 routing config")))
bodyless_loop endpoint raw_query ((version, routes) ∷ rest) =
    let later = bodyless_loop endpoint raw_query rest in
    elim (lookup endpoint routes) [
      | none ↦ later
      | some route ↦ bodyless_route version endpoint raw_query route
    ]

-- `routeBodyless`. `order` puts the entries of the map in the order of this run.
unfoldable pub route_bodyless : (Dict Routes → Dict Routes) → Rules → Str → Str → Result Route
route_bodyless order rules endpoint raw_query = elim (lookup (str "*") rules) [
  | none ↦ err (errorf (str "no v2 routing rules found; bodyless requests require a v2 config"))
  | some versions ↦ bodyless_loop endpoint raw_query (order versions)
]

abbrev no_rules : Str → Str → Str → GoError
no_rules domain version text =
    if domain == str "*"
    then errorf (str "no routing rules found for version " ++ version)
    else errorf (str "no routing rules found for domain " ++ (domain ++ text))

-- The route that the rules hold, with the three errors of `Route`.
unfoldable pub select_route : Rules → Str → Str → Str → Result (Option Route)
select_route rules domain version endpoint = elim (lookup domain rules) [
  | none ↦ err (no_rules domain version [])
  | some versions ↦ elim (lookup version versions) [
    | none ↦ err (no_rules domain version (str " version " ++ version))
    | some routes ↦ elim (lookup endpoint routes) [
      | none ↦ err (
          if domain == str "*"
          then errorf (
              str "endpoint '"
              ++ (endpoint
                  ++ (str "' is not supported for version "
                      ++ (version ++ str " in routing config"))))
          else errorf (
              str "endpoint '"
              ++ (endpoint
                  ++ (str "' is not supported for domain "
                      ++ (domain
                          ++ (str " and version " ++ (version ++ str " in routing config")))))))
      | some route ↦ ok route
    ]
  ]
]

module _ (files : Files) where
  -- The switch at the end of `Route`.
  unfoldable pub finish_route : Dict Json → Str → Str → Option Route → Result Route
  finish_route ctx endpoint raw_query none = err nil_route
  finish_route ctx endpoint raw_query (some route) =
      let bpp_uri = first_string ctx (str "bpp_uri" ∷ str "bppUri" ∷ str "receiverUri" ∷ []) in
      let bap_uri = first_string ctx (str "bap_uri" ∷ str "bapUri" ∷ str "senderUri" ∷ []) in
      elim (kind_of route.target_type) [
        | kind_bpp ↦ handle_protocol_mapping files route bpp_uri endpoint raw_query
        | kind_bap ↦ handle_protocol_mapping files route bap_uri endpoint raw_query
        | kind_url ↦ ok (forward_query raw_query route)
        | _ ↦ ok route
      ]

  -- The part of `Route` behind the decoding of the body.
  unfoldable pub route_context : Rules → Dict Json → Str → Str → Result Route
  route_context rules ctx endpoint raw_query =
      let version = first_string ctx (str "version" ∷ []) in
      let domain =
        if is_v2_version version then str "*" else first_string ctx (str "domain" ∷ []) in
      do
        route ← select_route rules domain version endpoint
        finish_route ctx endpoint raw_query route

  -- `Route`
  unfoldable pub route :
      (Dict Routes → Dict Routes) → Codec → Rules → Option Url → Str → Result Route
  route order codec rules none body = err (errorf (str "reqURL must not be nil"))
  route order codec rules (some req_url) [] =
      route_bodyless order rules req_url.path req_url.raw_query
  route order codec rules (some req_url) (b ∷ bs) = elim (extract_context codec (b ∷ bs)) [
    | not_extracted e ↦ err (wrap_extract_context_err (str "error parsing request body") e)
    | extracted req ctx ↦ route_context rules ctx req_url.path req_url.raw_query
  ]
