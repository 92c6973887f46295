-- ===== src/Handler/Serving.antt =====
-- core/module/handler/stdHandler.go: `ServeHTTP`, `route` and `proxy`. What a request leads to is a
-- list of events: messages published, requests forwarded, and the answer. The HTTP client with
-- `httputil.ReverseProxy`, and the publisher, are arguments; logs, metrics and spans are left out.
use beckn_onix.Base.{
  Str, str, ◌==◌, Dict, lookup, insert, has_prefix, Bool, true, false, not, ◌||◌, List, [], ◌∷◌,
  ◌++◌, Option, none, some, get_or, if◌then◌else◌,
}
use beckn_onix.Model.Error.{GoError, errorf, is_panic}
use beckn_onix.Model.Result.{Result, ok, err}
use beckn_onix.Model.Json.{Codec}
use beckn_onix.Model.Version.{Role, role_bap, role_text, is_at_least_v2}
use beckn_onix.Model.Context.{
  StepContext, ResponseStepContext, Request, Route, Url, Header, get, set, value,
  auth_header_subscriber,
}
use beckn_onix.Signature.Header.{extract_auth_signature}
use beckn_onix.Handler.Responses.{Answer, send_ack, send_nack, nack_bytes}
use beckn_onix.Handler.Steps.{
  Outcome, Step, extract_beckn_action, extract_protocol_version, extract_message_id,
  set_request_header,
}
use beckn_onix.Handler.ResponseSteps.{ResponseStep, AckSigner, sign_body_and_set_header}

pub data Event : Type 0 where
  published : Str → Str → Event
  forwarded : Url → Request → Str → Event
  answered : Answer → Event
  -- a panic, which the HTTP server recovers: it closes the connection without an answer
  panicked : Event

pub data HandlerDirection : Type 0 where
  direction_caller direction_receiver : HandlerDirection

-- `deriveDirection`
unfoldable pub derive_direction : Role → Str → HandlerDirection
derive_direction role action = elim role [
  | role_bap ↦ if has_prefix action (str "on_") then direction_receiver else direction_caller
  | _ ↦ if has_prefix action (str "on_") then direction_caller else direction_receiver
]

abbrev is_caller : HandlerDirection → Bool
is_caller direction_caller = true
is_caller direction_receiver = false

-- `stdHandler`, the fields that serving reads
pub record StdHandler : Type 0 where
  pub steps : List Step
  pub response_steps : List ResponseStep
  pub publisher : Option (Str → Str → Result (Unit {0}))
  pub ack_signer : Option AckSigner
  pub subscriber_id : Str
  pub role : Role
  pub module_name : Str
  -- the client: target, request and body to the upstream response, or `none` where there is none
  pub round_trip : Url → Request → Str → Option ResponseStepContext
  -- how the proxy adds the upstream's headers to those of the answer
  pub copy_header : Header → Header → Header

-- `resolveDirection`: sender, receiver
unfoldable pub resolve_direction : StdHandler → Dict Str → Str → Str × Str
resolve_direction h values action =
    if is_caller (derive_direction h.role action)
    then (h.subscriber_id, value values (str "remote_id"))
    else (value values (str "remote_id"), h.subscriber_id)

-- The loop over `h.steps`.
unfoldable pub run_steps : List Step → Step
run_steps [] ctx = (ctx, ok tt)
run_steps (step ∷ steps) ctx =
    let (ctx', result) = step ctx in
    elim result [ err e ↦ (ctx', err e) | ok _ ↦ run_steps steps ctx' ]

-- The loops over the response steps.
unfoldable pub run_response_steps : List ResponseStep → ResponseStep
run_response_steps [] ctx response = (ctx, response, ok tt)
run_response_steps (step ∷ steps) ctx response =
    let (ctx', response', result) = step ctx response in
    elim result [
      | err e ↦ (ctx', response', err e)
      | ok _ ↦ run_response_steps steps ctx' response'
    ]

module _ (codec : Codec) (h : StdHandler) where
  -- `signNackResponse`: what a failure to sign leaves is the context as it was
  unfoldable pub sign_nack_response : StepContext → GoError → StepContext
  sign_nack_response ctx e = elim h.ack_signer [
    | none ↦ ctx
    | some a ↦
        let (signed, result) = sign_body_and_set_header a ctx (nack_bytes codec ctx.values e) in
        if not (is_at_least_v2 ctx.protocol_version) || ctx.sub_id == [] then ctx else signed
  ]

  -- A NACK is signed, then sent.
  unfoldable pub answer_nack : StepContext → GoError → Event
  answer_nack ctx e =
      let signed = sign_nack_response ctx e in
      answered (send_nack codec signed.values signed.resp_header e)

  -- What an error leads to; a panic ends the request without an answer.
  unfoldable pub answer_error : StepContext → GoError → Event
  answer_error ctx e = if is_panic e then panicked else answer_nack ctx e

  unfoldable pub answer_result : StepContext → Result (Unit {0}) → Event
  answer_result ctx (err e) = answer_error ctx e
  answer_result ctx (ok _) = answered (send_ack codec ctx.values ctx.resp_header)

  -- An ACK is sent after the response steps, without an upstream response.
  unfoldable pub answer_ack : StepContext → Event
  answer_ack ctx =
      let (ctx', response, result) = run_response_steps h.response_steps ctx none in
      answer_result ctx' result

  abbrev bad_gateway : StepContext → Answer
  bad_gateway ctx = record { status_code = 502; header = ctx.resp_header; body = [] }

  -- The headers of the upstream response, which the steps share with the proxy.
  abbrev header_of : Option ResponseStepContext → Header
  header_of none = []
  header_of (some r) = r.header

  -- `modifyResponse`, and what the proxy writes
  unfoldable pub modify_response : StepContext → ResponseStepContext → Event
  modify_response ctx r =
      let (ctx', response, result) = run_response_steps h.response_steps ctx (some r) in
      elim result [
        | err e ↦ if is_panic e then panicked else answered (bad_gateway ctx')
        | ok _ ↦ answered (record {
          status_code = r.status_code;
          header = h.copy_header ctx'.resp_header (header_of response);
          body = r.body;
        })
      ]

  -- The proxy, whose director dereferences the URL.
  unfoldable pub forward_to : StepContext → Option Url → List Event
  forward_to ctx none = panicked ∷ []
  forward_to ctx (some url) =
      forwarded url ctx.request ctx.body
      ∷ elim (h.round_trip url ctx.request ctx.body) [
        | none ↦ answered (bad_gateway ctx)
        | some r ↦ modify_response ctx r
      ]
      ∷ []

  -- `proxy`
  unfoldable pub proxy : StepContext → Route → List Event
  proxy ctx target =
      forward_to (set_request_header ctx (str "X-Forwarded-Host") ctx.request.host) target.url

  -- The case `publisher` of `route`.
  unfoldable pub publish : StepContext → Route → List Event
  publish ctx target = elim h.publisher [
    | none ↦ answer_nack ctx (errorf (str "publisher plugin not configured")) ∷ []
    | some send ↦ elim (send target.publisher_id ctx.body) [
      | err e ↦ answer_error ctx e ∷ []
      | ok _ ↦ published target.publisher_id ctx.body ∷ answer_ack ctx ∷ []
    ]
  ]

  -- `route`
  unfoldable pub route_message : StepContext → Route → List Event
  route_message ctx target =
      if target.target_type == str "url"
      then proxy ctx target
      else if target.target_type == str "publisher"
      then publish ctx target
      else answer_nack ctx (errorf (str "unknown route type: " ++ target.target_type)) ∷ []

  -- `subID`
  unfoldable pub sub_id_of : Dict Str → Str
  sub_id_of values = get_or (lookup (str "subscriber_id") values) h.subscriber_id

  -- `stepCtx`, from the values of the request's context, the request, its body and the answer's header
  unfoldable pub step_ctx : Dict Str → Request → Str → Header → StepContext
  step_ctx values request body resp_header = record {
    values =
        insert (str "message_id") (extract_message_id codec body)
          (insert (str "protocol_version") (extract_protocol_version codec body) values);
    request = request;
    body = body;
    route = none;
    sub_id = sub_id_of values;
    role = h.role;
    resp_header = resp_header;
    protocol_version = extract_protocol_version codec body;
    message_id = extract_message_id codec body;
    inbound_auth_signature = extract_auth_signature (get request.header auth_header_subscriber);
    is_caller_handler = is_caller (derive_direction h.role (extract_beckn_action codec body));
  }

  -- What follows the steps.
  unfoldable pub after_steps : Outcome → List Event
  after_steps (ctx, err e) = answer_error ctx e ∷ []
  after_steps (ctx, ok _) = elim ctx.route [
    | none ↦ answer_ack ctx ∷ []
    | some target ↦ route_message ctx target
  ]

  -- `http.Error` for a body that cannot be read
  abbrev unreadable : Header → Answer
  unreadable header = record {
    status_code = 500;
    header =
        set (set header (str "Content-Type") (str "text/plain; charset=utf-8"))
          (str "X-Content-Type-Options") (str "nosniff");
    body = str "failed to read request body\n";
  }

  -- The request with the headers for the instrumentation, which are deleted when the handler returns.
  unfoldable pub with_module_headers : Request → Request
  with_module_headers request = record request {
    header =
        set (set request.header (str "X-Module-Name") h.module_name) (str "X-Role")
          (role_text h.role);
  }

  -- `ServeHTTP`, from what reading the body gives
  unfoldable pub serve_http : Dict Str → Request → Result Str → Header → List Event
  serve_http values request (err e) resp_header = answered (unreadable resp_header) ∷ []
  serve_http values request (ok body) resp_header =
      after_steps
        (run_steps h.steps (step_ctx values (with_module_headers request) body resp_header))
