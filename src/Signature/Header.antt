-- ===== src/Signature/Header.antt =====
-- The Authorization and Signature headers: how step.go and responsestep.go write them, and how
-- step.go and signvalidator.go read them.
use beckn_onix.Base.{
  Str, str, ◌==◌, trim, trim_space, trim_prefix, split, split_two, contains, after_first,
  before_first, decimal_int, ℤ, parse_int, Dict, lookup, insert, get_or, Bool, false, not, List, [],
  ◌∷◌, ◌++◌, Option, none, some, if◌then◌else◌,
}
use beckn_onix.Model.Error.{GoError, errorf, new_sign_validation_err, caused_by}
use beckn_onix.Model.Result.{Result, ok, err, ◌>>=◌, ◌>>◌, fail_if}

-- `generateAuthHeader`
unfoldable pub generate_auth_header : Str → Str → ℤ → ℤ → Str → Str → Str
generate_auth_header sub_id key_id created_at valid_till signature request_sig =
    str "Signature keyId=\""
    ++ (sub_id
        ++ (str "|"
            ++ (key_id
                ++ (str "|ed25519\",algorithm=\"ed25519\",created=\""
                    ++ (decimal_int created_at
                        ++ (str "\",expires=\""
                            ++ (decimal_int valid_till
                                ++ (str "\""
                                    ++ (if request_sig == []
                                        then str
                                            ",headers=\"(created) (expires) digest\",signature=\""
                                          ++ (signature ++ str "\"")
                                        else str
                                            ",headers=\"(created) (expires) digest request-signature\",signature=\""
                                          ++ (signature ++ str "\""))))))))))

-- `buildSignatureHeader`
unfoldable pub build_signature_header : Str → Str → ℤ → ℤ → Str → Str
build_signature_header sub_id key_id created_at valid_till signature =
    str "Signature keyId=\""
    ++ (sub_id
        ++ (str "|"
            ++ (key_id
                ++ (str "|ed25519\",algorithm=\"ed25519\",created=\""
                    ++ (decimal_int created_at
                        ++ (str "\",expires=\""
                            ++ (decimal_int valid_till
                                ++ (str
                                      "\",headers=\"(created) (expires) digest request-signature\",signature=\""
                                    ++ (signature ++ str "\"")))))))))

-- `authHeaderIncludesRequestSig`
unfoldable pub auth_header_includes_request_sig : Str → Bool
auth_header_includes_request_sig header = elim (after_first header (str "headers=\"")) [
  | none ↦ false
  | some rest ↦ elim (before_first rest b'"') [
    | none ↦ false
    | some listed ↦ contains listed (str "request-signature")
  ]
]

-- `authHeader`
pub record AuthHeader : Type 0 where
  pub subscriber_id : Str
  pub unique_id : Str
  pub algorithm : Str

-- The value of the attribute `keyId`, or "".
unfoldable pub key_id_part : Str → Str
key_id_part header = elim (after_first header (str "keyId=\"")) [
  | none ↦ []
  | some rest ↦ elim (before_first rest b'"') [ none ↦ [] | some part ↦ trim_space part ]
]

abbrev wrong_components : Str → GoError
wrong_components part =
    errorf
      (str "keyId parameter has incorrect format, expected 3 components separated by '|': " ++ part)

unfoldable pub three_components : Str → List Str → Result AuthHeader
three_components part (a ∷ b ∷ c ∷ []) =
    ok (record { subscriber_id = trim_space a; unique_id = trim_space b; algorithm = trim_space c })
three_components part [] = err (wrong_components part)
three_components part (a ∷ []) = err (wrong_components part)
three_components part (a ∷ b ∷ []) = err (wrong_components part)
three_components part (a ∷ b ∷ c ∷ d ∷ rest) = err (wrong_components part)

-- `parseHeader`
unfoldable pub parse_header : Str → Result AuthHeader
parse_header header =
    let part = key_id_part header in
    do
      fail_if (part == []) (errorf (str "keyId parameter not found in Authorization header"))
      three_components part (split b'|' part)

-- `extractAuthSignature`
unfoldable pub extract_auth_signature : Str → Str
extract_auth_signature header = elim (after_first header (str ",signature=\"")) [
  | none ↦ []
  | some rest ↦ get_or (before_first rest b'"') []
]

-- signvalidator.go: what `parseAuthHeader` returns
pub record Parsed : Type 0 where
  pub created : ℤ
  pub expires : ℤ
  pub signature : Str
  pub subscriber_id : Str

-- One round of the loop over the parts.
unfoldable pub add_attribute : Dict Str → Str → Dict Str
add_attribute m part = elim (split_two b'=' (trim_space part)) [
  | k ∷ (v ∷ []) ↦ insert (trim_space k) (trim b'"' v) m
  | _ ↦ m
]

unfoldable pub attributes : Dict Str → List Str → Dict Str
attributes m [] = m
attributes m (part ∷ parts) = attributes (add_attribute m part) parts

-- `signatureMap[name]`
abbrev pub attribute : Dict Str → Str → Str
attribute m name = get_or (lookup name m) []

abbrev pub invalid_signature : Str → GoError
invalid_signature text =
    new_sign_validation_err (str "AUT_SIGNATURE_INVALID") (caused_by (errorf text))

-- The signer that the attribute `keyId` names.
unfoldable pub signer_of : Str → Str
signer_of key_id = elim (split_two b'|' key_id) [ sub ∷ (rest ∷ []) ↦ trim_space sub | _ ↦ [] ]

abbrev timestamp : Str → Option ℤ → Result ℤ
timestamp text none = err (invalid_signature text)
timestamp text (some t) = ok t

-- The checks of `parseAuthHeader` on the map of attributes.
unfoldable pub check_attributes : Dict Str → Result Parsed
check_attributes m = do
  fail_if (not (attribute m (str "algorithm") == str "ed25519"))
      (invalid_signature (str "unsupported algorithm: only ed25519 is permitted"))
  created ← timestamp (str "invalid created timestamp") (parse_int (attribute m (str "created")))
  expires ← timestamp (str "invalid expires timestamp") (parse_int (attribute m (str "expires")))
  fail_if (attribute m (str "signature") == []) (
      new_sign_validation_err (str "AUT_SIGNATURE_MISSING")
        (caused_by (errorf (str "signature missing in header"))))
  ok (record {
    created = created;
    expires = expires;
    signature = attribute m (str "signature");
    subscriber_id = signer_of (attribute m (str "keyId"));
  })

-- `parseAuthHeader`
unfoldable pub parse_auth_header : Str → Result Parsed
parse_auth_header header =
    check_attributes (attributes [] (split b',' (trim_prefix header (str "Signature "))))
