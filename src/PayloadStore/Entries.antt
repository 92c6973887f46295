-- ===== src/PayloadStore/Entries.antt =====
-- pkg/plugin/implementation/payloadstore/payloadstore.go: keys, entries, and how an entry is written
-- into the cache. JSON, gzip and base64 are arguments.
use beckn_onix.Base.{
  ℕ, ◌+◌, Str, str, ◌==◌, strip_prefix, Dict, lookup, ltb, length, take, Bool, not, ◌&&◌, List, [],
  ◌∷◌, ◌++◌, Option, none, some, if◌then◌else◌,
}
use beckn_onix.Model.Result.{Result, ok, err, ◌>>=◌, or_wrap}
use beckn_onix.Model.Version.{Role}

-- `definition.PayloadEntry`
pub record PayloadEntry : Type 0 where
  pub message_id : Str
  pub transaction_id : Str
  pub network_id : Str
  pub action : Str
  pub subscriber_id : Str
  pub role : Role
  pub request_body : Str
  pub signature : Str
  pub stored_at : ℕ
  pub expires_at : ℕ

-- `Config`; durations in nanoseconds
pub record Config : Type 0 where
  pub ttl : ℕ
  pub index_ttl : ℕ
  pub max_body_bytes : ℕ
  pub store_body : Bool
  pub store_signature : Bool
  pub compress : Bool

-- `json.Marshal` and `json.Unmarshal` of an entry and of a list of identifiers, gzip, and base64
pub record Encoding : Type 0 where
  -- `json.Unmarshal(body, &w)` for `w struct{Context map[string]json.RawMessage}`: the encoded values
  -- of the context, none where it is missing
  pub unmarshal_raw_context : Str → Result (Dict Str)
  -- `json.Unmarshal(raw, &s)` for `s string`, `none` where decoding fails
  pub unmarshal_string : Str → Option Str
  pub marshal_json : PayloadEntry → Str
  pub unmarshal_json : Str → Result PayloadEntry
  pub marshal_ids : List Str → Str
  pub unmarshal_ids : Str → Result (List Str)
  pub gzip : Str → Str
  pub gunzip : Str → Result Str
  pub encode_base64 : Str → Str
  pub decode_base64 : Str → Result Str

-- `msgKey` and `txnIndexKey`
unfoldable pub msg_key : Str → Str → Str
msg_key namespace message_id = str "payload:" ++ (namespace ++ (str ":msg:" ++ message_id))

unfoldable pub txn_index_key : Str → Str → Str
txn_index_key namespace transaction_id =
    str "payload:" ++ (namespace ++ (str ":txn:" ++ (transaction_id ++ str ":index")))

-- What follows a format marker, if something does.
abbrev pub marked : Str → Str → Option Str
marked marker raw = elim (strip_prefix marker raw) [
  | none ↦ none
  | some rest ↦ if rest == [] then none else some rest
]

module _ (encoding : Encoding) where
  -- `marshalEntry`
  unfoldable pub marshal_entry : PayloadEntry → Bool → Str
  marshal_entry entry compress =
      let text = encoding.marshal_json entry in
      if not compress
      then str "j:" ++ text
      else str "c:" ++ encoding.encode_base64 (encoding.gzip text)

  -- The JSON text in what the cache holds; an entry without a marker is plain JSON.
  unfoldable pub json_of : Str → Result Str
  json_of raw = elim (marked (str "c:") raw) [
    | some rest ↦ do
      decoded ← or_wrap (str "payloadstore: base64 decode: ") (encoding.decode_base64 rest)
      or_wrap (str "payloadstore: gzip read: ") (encoding.gunzip decoded)
    | none ↦ elim (marked (str "j:") raw) [ some rest ↦ ok rest | none ↦ ok raw ]
  ]

  -- `unmarshalEntry`
  unfoldable pub unmarshal_entry : Str → Result PayloadEntry
  unmarshal_entry raw = do
    text ← json_of raw
    or_wrap (str "payloadstore: unmarshal entry: ") (encoding.unmarshal_json text)

-- `becknCtxFields`
pub record BecknCtxFields : Type 0 where
  pub message_id : Str
  pub transaction_id : Str
  pub network_id : Str
  pub action : Str

-- `firstJSONString`
unfoldable pub first_json_string : Encoding → Dict Str → List Str → Str
first_json_string encoding m [] = []
first_json_string encoding m (key ∷ keys) =
    let rest = first_json_string encoding m keys in
    elim (lookup key m) [
      | none ↦ rest
      | some raw ↦ elim (encoding.unmarshal_string raw) [
        | none ↦ rest
        | some s ↦ if s == [] then rest else s
      ]
    ]

-- `parseBecknCtx`
unfoldable pub parse_beckn_ctx : Encoding → Str → BecknCtxFields
parse_beckn_ctx encoding body = elim (encoding.unmarshal_raw_context body) [
  | err e ↦ record { message_id = []; transaction_id = []; network_id = []; action = [] }
  | ok c ↦ record {
    message_id = first_json_string encoding c (str "message_id" ∷ str "messageId" ∷ []);
    transaction_id = first_json_string encoding c (str "transaction_id" ∷ str "transactionId" ∷ []);
    network_id = first_json_string encoding c (str "network_id" ∷ str "networkId" ∷ []);
    action = first_json_string encoding c (str "action" ∷ []);
  }
]

-- The policies that `persist` applies to an entry, and its times.
unfoldable pub apply_policies : Config → ℕ → PayloadEntry → PayloadEntry
apply_policies config now entry =
    let body = if config.store_body then entry.request_body else [] in
    record entry {
      request_body =
          if ltb 0 config.max_body_bytes && ltb config.max_body_bytes (length body)
          then take config.max_body_bytes body
          else body;
      signature = if config.store_signature then entry.signature else [];
      stored_at = now;
      expires_at = now + config.ttl;
    }
