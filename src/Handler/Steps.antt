-- ===== src/Handler/Steps.antt =====
-- core/module/handler/step.go: the steps of the pipeline. A step takes the step context and gives it
-- back, changed or not, with `nil` or an error. A plugin that may be absent is an `Option`. The two
-- readings of the clock are arguments, in nanoseconds since 1970; metrics and spans are left out.
use beckn_onix.Base.{
  ℕ, ◌+◌, ◌*◌, ◌/◌, Str, str, ◌==◌, ℤ, pos, has_prefix, trim_prefix, get_or, Bool, true, false, not,
  ◌&&◌, ◌||◌, [], ◌++◌, Option, none, some, if◌then◌else◌,
}
use beckn_onix.Model.Error.{GoError, errorf, caused_by, new_bad_req_err, new_sign_validation_err}
use beckn_onix.Model.Result.{Result, ok, err, ◌>>=◌, ◌>>◌, or_wrap, fail_if}
use beckn_onix.Model.Json.{Codec}
use beckn_onix.Model.Version.{Role, role_gateway, is_at_least_v2}
use beckn_onix.Model.Context.{
  StepContext, Url, get, set, auth_header_subscriber, auth_header_gateway,
  una_authorized_header_subscriber, una_authorized_header_gateway,
}
use beckn_onix.Signature.Header.{
  generate_auth_header, parse_header, auth_header_includes_request_sig,
}
use beckn_onix.Signature.Validator.{second}
use beckn_onix.Handler.Interfaces.{
  Keyset, KeyManager, Signer, SignValidator, SignatureLookup, SchemaValidator, RouteFinder,
}

-- What a step gives back.
abbrev pub Outcome : Type 0
Outcome = StepContext × Result (Unit {0})

abbrev pub Step : Type 0
Step = StepContext → Outcome

-- `extractBecknAction`, `extractProtocolVersion`, `extractMessageID`
unfoldable pub extract_beckn_action : Codec → Str → Str
extract_beckn_action codec body =
    if body == [] then [] else get_or (codec.unmarshal_context_field (str "action") body) []

unfoldable pub extract_protocol_version : Codec → Str → Str
extract_protocol_version codec body = get_or (codec.unmarshal_context_field (str "version") body) []

unfoldable pub extract_message_id : Codec → Str → Str
extract_message_id codec body = get_or (codec.unmarshal_context_field (str "messageId") body) []

-- `ctx.Request.Header.Set(name, value)` and `ctx.RespHeader.Set(name, value)`
unfoldable pub set_request_header : StepContext → Str → Str → StepContext
set_request_header ctx name value = record ctx {
  request = record (ctx.request) { header = set ctx.request.header name value };
}

unfoldable pub set_resp_header : StepContext → Str → Str → StepContext
set_resp_header ctx name value = record ctx { resp_header = set ctx.resp_header name value }

-- Unix seconds now, and five minutes after the later reading.
abbrev pub created_at : ℕ → ℤ
created_at now = pos (now / second)

abbrev pub valid_till : ℕ → ℤ
valid_till later = pos ((later + 300 * second) / second)

-- The signature of the entry that a lookup gave, or "".
abbrev found_signature : Result (Option Str) → Str
found_signature (err e) = []
found_signature (ok none) = []
found_signature (ok (some signature)) = signature

module _ (codec : Codec) (signer : Signer) (km : KeyManager) (store : Option SignatureLookup)
    (now later : ℕ) where
  -- `lookupRequestSignature`
  unfoldable pub lookup_request_signature : StepContext → Str
  lookup_request_signature ctx = elim store [
    | none ↦ []
    | some s ↦
        let action = extract_beckn_action codec ctx.body in
        if has_prefix action (str "on_")
        then found_signature (s.get_by_message_id ctx.message_id (trim_prefix action (str "on_")))
        else []
  ]

  -- The choice between `SignAck` and `Sign`.
  unfoldable pub sign_body : StepContext → Keyset → Str → Result Str
  sign_body ctx keys request_sig =
      if not (request_sig == [])
      then signer.sign_ack ctx.body request_sig keys.signing_private (created_at now)
          (valid_till later)
      else signer.sign ctx.body keys.signing_private (created_at now) (valid_till later)

  -- The value of the header that `signStep.Run` sets.
  unfoldable pub signed_header : StepContext → Result Str
  signed_header ctx = do
    fail_if (ctx.sub_id == [])
        (new_bad_req_err [] (caused_by (errorf (str "subscriberID not set"))))
    keys ← or_wrap (str "failed to get signing key: ") (km.keyset ctx.sub_id)
    signature ←
        or_wrap (str "failed to sign request: ") (sign_body ctx keys (lookup_request_signature ctx))
    ok (
        generate_auth_header ctx.sub_id keys.unique_key_id (created_at now) (valid_till later)
          signature (lookup_request_signature ctx))

  unfoldable pub is_gateway : Role → Bool
  is_gateway role = elim role [ role_gateway ↦ true | _ ↦ false ]

  -- `signStep.Run`
  unfoldable pub sign_step : Step
  sign_step ctx = elim (signed_header ctx) [
    | err e ↦ (ctx, err e)
    | ok header ↦ (
      set_request_header ctx
          (if is_gateway ctx.role then auth_header_gateway else auth_header_subscriber) header,
      ok tt,
    )
  ]

module _ (codec : Codec) (validator : SignValidator) (km : KeyManager)
    (store : Option SignatureLookup) where
  -- `validateSignStep.validate`
  unfoldable pub validate_header : StepContext → Str → Str → Bool → Result (Unit {0})
  validate_header ctx header request_sig check_identity = elim (parse_header header) [
    | err e ↦ err (errorf (str "failed to parse header"))
    | ok parsed ↦ do
      fail_if (not (parsed.algorithm == str "ed25519")) (
          errorf (
            str "unsupported algorithm "
            ++ (parsed.algorithm ++ str ": only ed25519 is permitted")))
      key ←
          or_wrap (str "failed to get validation key: ")
            (km.lookup_np_keys parsed.subscriber_id parsed.unique_id)
      or_wrap (str "sign validation failed: ") (
          if not (request_sig == [])
          then validator.validate_ack ctx ctx.body header request_sig key check_identity
          else validator.validate ctx header key check_identity)
  ]

  -- The condition under which `lookupCallbackRequestSig` looks nothing up.
  unfoldable pub needs_no_request_sig : StepContext → Str → Bool
  needs_no_request_sig ctx header =
      not (is_at_least_v2 ctx.protocol_version) || not (auth_header_includes_request_sig header)

  abbrev lookup_failed : Str → GoError
  lookup_failed action =
      errorf (str "validateSign: no outbound signature on record for action=" ++ action)

  -- `lookupCallbackRequestSig`
  unfoldable pub lookup_callback_request_sig : StepContext → Str → Result Str
  lookup_callback_request_sig ctx header = elim store [
    | none ↦ ok []
    | some s ↦
        let action = trim_prefix (extract_beckn_action codec ctx.body) (str "on_") in
        if needs_no_request_sig ctx header
        then ok []
        else if action == []
        then ok []
        else (or_wrap (str "validateSign: outbound signature lookup failed: ")
              (s.get_by_message_id ctx.message_id action)
            >>= λ entry. elim entry [
              | none ↦ err (lookup_failed action)
              | some signature ↦ ok signature
            ])
  ]

  abbrev unauth_header : StepContext → Str
  unauth_header ctx =
      str "Signature realm=\"" ++ (ctx.sub_id ++ str "\",headers=\"(created) (expires) digest\"")

  -- The part of `validateHeaders` on the gateway's header.
  unfoldable pub validate_gateway : StepContext → Result (Unit {0})
  validate_gateway ctx =
      let header = get ctx.request.header auth_header_gateway in
      if header == []
      then ok tt
      else or_wrap (str "failed to validate X-Gateway-Authorization: ")
          (validate_header ctx header [] false)

  -- The part of `validateHeaders` on the subscriber's header.
  unfoldable pub validate_subscriber : StepContext → Result (Unit {0})
  validate_subscriber ctx =
      let header = get ctx.request.header auth_header_subscriber in
      do
        fail_if (header == []) (
            new_sign_validation_err (str "AUT_SIGNATURE_MISSING")
              (caused_by (errorf (str "WWW-Authenticate missing"))))
        elim (lookup_callback_request_sig ctx header) [
          | err e ↦ err (new_sign_validation_err [] (caused_by e))
          | ok request_sig ↦
              or_wrap (str "failed to validate Authorization: ")
                (validate_header ctx header request_sig true)
        ]

  -- The copy of the step context that `validateSignStep.Run` makes: it leaves two fields out.
  unfoldable pub copy_for_validation : StepContext → StepContext
  copy_for_validation ctx = record ctx { inbound_auth_signature = []; is_caller_handler = false }

  -- `validateSignStep.Run` with `validateHeaders`; the copy shares the response header
  unfoldable pub validate_sign_step : Step
  validate_sign_step ctx = elim (validate_gateway (copy_for_validation ctx)) [
    | err e ↦ (set_resp_header ctx una_authorized_header_gateway (unauth_header ctx), err e)
    | ok _ ↦ elim (validate_subscriber (copy_for_validation ctx)) [
      | err e ↦ (set_resp_header ctx una_authorized_header_subscriber (unauth_header ctx), err e)
      | ok _ ↦ (ctx, ok tt)
    ]
  ]

-- `stripBasePath`
unfoldable pub strip_base_path : Url → Str → Url
strip_base_path u base_path = record u {
  path = trim_prefix (trim_prefix u.path base_path) (str "/");
}

-- `validateSchemaStep.Run`
unfoldable pub validate_schema_step : SchemaValidator → Str → Step
validate_schema_step validator base_path ctx = (
  ctx,
  or_wrap (str "schema validation failed: ") (
      if ctx.body == [] && ctx.request.method == str "POST"
      then err (new_bad_req_err [] (caused_by (errorf (str "POST request requires a body"))))
      else validator.validate (some (strip_base_path ctx.request.url base_path)) ctx.body),
)

-- `addRouteStep.Run`
unfoldable pub add_route_step : RouteFinder → Str → Step
add_route_step router base_path ctx =
    elim (or_wrap (str "failed to determine route: ")
      (router.route (some (strip_base_path ctx.request.url base_path)) ctx.body)) [
        | err e ↦ (ctx, err e)
        | ok route ↦ (record ctx { route = some route }, ok tt)
      ]
