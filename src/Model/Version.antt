-- ===== src/Model/Version.antt =====
-- pkg/model/model.go: the protocol version, roles, and the identities that a message declares.
use beckn_onix.Base.{
  Str, str, ◌==◌, Dict, lookup, split_two, parse_int, ℤ, pos, le_int, Bool, true, false, List, [],
  ◌∷◌, Option, none, some, if◌then◌else◌,
}
use beckn_onix.Model.Json.{Json, string}

abbrev at_least_two : Option ℤ → Bool
at_least_two none = false
at_least_two (some major) = le_int (pos 2) major

-- The first of the two parts of `strings.SplitN(version, ".", 2)`.
abbrev head_part : List Str → Str
head_part [] = []
head_part (p ∷ ps) = p

-- `IsAtLeastV2`
unfoldable pub is_at_least_v2 : Str → Bool
is_at_least_v2 version =
    if version == [] then false else at_least_two (parse_int (head_part (split_two b'.' version)))

pub data Role : Type 0 where
  no_role role_bap role_bpp role_gateway role_registery role_discovery : Role

-- `Role.UnmarshalYAML`, from the decoded text
unfoldable pub parse_role : Str → Option Role
parse_role name =
    if name == str "bap"
    then some role_bap
    else if name == str "bpp"
    then some role_bpp
    else if name == str "gateway"
    then some role_gateway
    else if name == str "registery"
    then some role_registery
    else if name == str "discovery"
    then some role_discovery
    else none

unfoldable pub role_text : Role → Str
role_text no_role = []
role_text role_bap = str "bap"
role_text role_bpp = str "bpp"
role_text role_gateway = str "gateway"
role_text role_registery = str "registery"
role_text role_discovery = str "discovery"

-- `v, ok := m[k].(string); ok && v != ""`
unfoldable pub string_field : Dict Json → Str → Option Str
string_field m k = elim (lookup k m) [
  | some (string s) ↦ if s == [] then none else some s
  | _ ↦ none
]

-- The first text that is not empty under one of the keys, or "".
unfoldable pub first_string : Dict Json → List Str → Str
first_string m [] = []
first_string m (k ∷ ks) =
    let rest = first_string m ks in elim (string_field m k) [ none ↦ rest | some v ↦ v ]

abbrev bap_keys : List Str
bap_keys = str "bap_id" ∷ str "bapId" ∷ str "senderId" ∷ []

abbrev bpp_keys : List Str
bpp_keys = str "bpp_id" ∷ str "bppId" ∷ str "receiverId" ∷ []

-- `ResolveCallerID`
unfoldable pub resolve_caller_id : Dict Json → Role → Str
resolve_caller_id m role_bap = first_string m bpp_keys
resolve_caller_id m role_bpp = first_string m bap_keys
resolve_caller_id m no_role = []
resolve_caller_id m role_gateway = []
resolve_caller_id m role_registery = []
resolve_caller_id m role_discovery = []

-- `ResolveSubscriberID`
unfoldable pub resolve_subscriber_id : Dict Json → Role → Str
resolve_subscriber_id m role_bap = first_string m bap_keys
resolve_subscriber_id m role_bpp = first_string m bpp_keys
resolve_subscriber_id m no_role = []
resolve_subscriber_id m role_gateway = []
resolve_subscriber_id m role_registery = []
resolve_subscriber_id m role_discovery = []

-- `ResolveNetworkID`
unfoldable pub resolve_network_id : Dict Json → Str
resolve_network_id m = first_string m (str "network_id" ∷ str "networkId" ∷ [])

-- `IsKeyStatusUsable`
unfoldable pub is_key_status_usable : Str → Bool
is_key_status_usable status =
    if status == str "EXPIRED"
    then false
    else if status == str "UNSUBSCRIBED"
    then false
    else if status == str "INVALID_SSL"
    then false
    else true
