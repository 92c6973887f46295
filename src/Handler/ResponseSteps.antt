-- ===== src/Handler/ResponseSteps.antt =====
-- core/module/handler/responsestep.go: the response steps `signAck` and `validateAckSign`.
use beckn_onix.Base.{ℕ, Str, str, ◌==◌, false, not, [], Option, none, some, if◌then◌else◌}
use beckn_onix.Model.Error.{is_panic, errorf, caused_by, new_bad_req_err}
use beckn_onix.Model.Result.{Result, ok, err, ◌>>=◌, ◌>>◌, or_wrap, fail_if}
use beckn_onix.Model.Json.{Codec}
use beckn_onix.Model.Version.{is_at_least_v2}
use beckn_onix.Model.Context.{StepContext, ResponseStepContext, get, set, auth_header_subscriber}
use beckn_onix.Signature.Header.{build_signature_header, parse_header, extract_auth_signature}
use beckn_onix.Handler.Interfaces.{KeyManager, Signer, SignValidator}
use beckn_onix.Handler.Responses.{build_ack_body}
use beckn_onix.Handler.Steps.{created_at, valid_till, set_resp_header}

-- The two contexts as a response step leaves them; there is no response on the publisher path.
abbrev pub ResponseOutcome : Type 0
ResponseOutcome = StepContext × Option ResponseStepContext × Result (Unit {0})

abbrev pub ResponseStep : Type 0
ResponseStep = StepContext → Option ResponseStepContext → ResponseOutcome

-- `ackSignerStep`, with the two readings of the clock
pub record AckSigner : Type 0 where
  pub signer : Signer
  pub km : KeyManager
  pub now : ℕ
  pub later : ℕ

-- `computeSigHeader`
unfoldable pub compute_sig_header : AckSigner → StepContext → Str → Result Str
compute_sig_header a ctx body = do
  keys ← or_wrap (str "ackSigner: failed to get signing key: ") (a.km.keyset ctx.sub_id)
  signature ← or_wrap (str "ackSigner: failed to sign: ") (
      a.signer.sign_ack body ctx.inbound_auth_signature keys.signing_private (created_at a.now)
        (valid_till a.later))
  ok (
      build_signature_header ctx.sub_id keys.unique_key_id (created_at a.now) (valid_till a.later)
        signature)

-- `signBodyAndSetHeader`
unfoldable pub sign_body_and_set_header :
    AckSigner → StepContext → Str → StepContext × Result (Unit {0})
sign_body_and_set_header a ctx body = elim (compute_sig_header a ctx body) [
  | err e ↦ (ctx, err e)
  | ok header ↦ (set_resp_header ctx (str "Signature") header, ok tt)
]

-- `ackSignerStep.RunOnResponse` for a v2 message with a subscriber
unfoldable pub sign_response : Codec → AckSigner → ResponseStep
sign_response codec a ctx none =
    let (signed, result) = sign_body_and_set_header a ctx (build_ack_body codec ctx.message_id) in
    (signed, none, result)
sign_response codec a ctx (some r) = elim (compute_sig_header a ctx r.body) [
  | err e ↦ (ctx, some r, err e)
  | ok header ↦ (ctx, some (record r { header = set r.header (str "Signature") header }), ok tt)
]

-- `ackSignerStep.RunOnResponse`
unfoldable pub ack_signer_step : Codec → AckSigner → ResponseStep
ack_signer_step codec a ctx response =
    if not (is_at_least_v2 ctx.protocol_version)
    then (ctx, response, ok tt)
    else if ctx.sub_id == []
    then (ctx, response, err (new_bad_req_err [] (caused_by (errorf (str "subscriberID not set")))))
    else sign_response codec a ctx response

-- The verification in `validateAckSignatureStep.RunOnResponse`, whose failures are logged.
unfoldable pub verify_response :
    SignValidator → KeyManager → StepContext → ResponseStepContext → Result (Unit {0})
verify_response validator km ctx r =
    let header = get r.header (str "Signature") in
    let outbound = extract_auth_signature (get ctx.request.header auth_header_subscriber) in
    do
      fail_if (header == []) (errorf (str "missing Signature response header"))
      parsed ← parse_header header
      key ← km.lookup_np_keys parsed.subscriber_id parsed.unique_id
      validator.validate_ack ctx r.body header outbound key false

-- `validateAckSignatureStep.RunOnResponse`: the verdict is logged, and the response goes on, but for a
-- panic
unfoldable pub validate_ack_signature_step : SignValidator → KeyManager → ResponseStep
validate_ack_signature_step validator km ctx none = (ctx, none, ok tt)
validate_ack_signature_step validator km ctx (some r) =
    if not (is_at_least_v2 ctx.protocol_version)
    then (ctx, some r, ok tt)
    else elim (verify_response validator km ctx r) [
      | err e ↦ (ctx, some r, if is_panic e then err e else ok tt)
      | ok _ ↦ (ctx, some r, ok tt)
    ]
