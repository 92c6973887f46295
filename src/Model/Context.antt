-- ===== src/Model/Context.antt =====
-- pkg/model/model.go: `ExtractContext` and the context and route types of a step.
use beckn_onix.Base.{ℕ, Str, str, Dict, lookup, insert, Bool, ◌++◌, [], Option, none, some, get_or}
use beckn_onix.Model.Error.{
  BecknError, GoError, wrapf, beckn_error, caused_by, code_of, error_text, new_coded_error,
  new_coded_error_with_cause, new_bad_req_err,
}
use beckn_onix.Model.Result.{ok, err}
use beckn_onix.Model.Json.{Json, object, to_dict, Codec}
use beckn_onix.Model.Version.{Role}

-- What `ExtractContext` returns: the decoded body and its context, or the classified failure.
pub data Extracted : Type 0 where
  extracted : Dict Json → Dict Json → Extracted
  not_extracted : BecknError → Extracted

-- `req["context"].(map[string]interface{})`
unfoldable pub context_of : Dict Json → Option (Dict Json)
context_of req = elim (lookup (str "context") req) [
  | some (object fields) ↦ some (to_dict fields)
  | _ ↦ none
]

unfoldable pub extract_context : Codec → Str → Extracted
extract_context codec body = elim (codec.unmarshal_map body) [
  | err e ↦ not_extracted (
      new_coded_error_with_cause (str "SCH_INVALID_JSON")
        (str "failed to decode request body: " ++ error_text e) [] (caused_by e))
  | ok req ↦ elim (context_of req) [
    | none ↦ not_extracted (
        new_coded_error (str "SCH_REQUIRED_FIELD_MISSING")
          (str "context field not found or invalid"))
    | some ctx ↦ extracted req ctx
  ]
]

-- `WrapExtractContextErr`
unfoldable pub wrap_extract_context_err : Str → BecknError → GoError
wrap_extract_context_err prefix e =
    new_bad_req_err (code_of e) (caused_by (wrapf (prefix ++ str ": ") (beckn_error e)))

-- `url.URL`: what stands before the path, the path, and the raw query
pub record Url : Type 0 where
  pub origin : Str
  pub path : Str
  pub raw_query : Str

pub record Route : Type 0 where
  pub target_type : Str
  pub publisher_id : Str
  pub url : Option Url

-- `http.Header`: canonical names, one value to a name
abbrev pub Header : Type 0
Header = Dict Str

-- `h.Get(name)`
unfoldable pub get : Header → Str → Str
get h name = get_or (lookup name h) []

-- `h.Set(name, value)`
unfoldable pub set : Header → Str → Str → Header
set h name value = insert name value h

abbrev pub auth_header_subscriber : Str
auth_header_subscriber = str "Authorization"

abbrev pub auth_header_gateway : Str
auth_header_gateway = str "X-Gateway-Authorization"

abbrev pub una_authorized_header_subscriber : Str
una_authorized_header_subscriber = str "WWW-Authenticate"

abbrev pub una_authorized_header_gateway : Str
una_authorized_header_gateway = str "Proxy-Authenticate"

-- `http.Request`, without the body, which the step context carries
pub record Request : Type 0 where
  pub method : Str
  pub url : Url
  pub header : Header
  pub host : Str

-- `StepContext`. `values` are the texts that the Go context holds under the `ContextKey`s.
pub record StepContext : Type 0 where
  pub values : Dict Str
  pub request : Request
  pub body : Str
  pub route : Option Route
  pub sub_id : Str
  pub role : Role
  pub resp_header : Header
  pub protocol_version : Str
  pub message_id : Str
  pub inbound_auth_signature : Str
  pub is_caller_handler : Bool

-- `ctx.Value(key).(string)`, or "" where there is none
unfoldable pub value : Dict Str → Str → Str
value values key = get_or (lookup key values) []

-- `ResponseStepContext`
pub record ResponseStepContext : Type 0 where
  pub status_code : ℕ
  pub header : Header
  pub body : Str
