-- ===== src/Handler/Tests.antt =====
-- Examples for the handler: a receiver with one published route, and an exchange of both ends.
mod Setup
use beckn_onix.Base.{
  ◌*◌, Str, str, ◌==◌, has_prefix, parse_int, split_two, lookup, true, false, [], ◌∷◌, ◌++◌, none,
  some, pos, ◌≡◌, ◌≢◌, ◌↔◌, refl, arith, inl,
}
use beckn_onix.Model.Error.{errorf, new_bad_req_err, no_cause}
use beckn_onix.Model.Result.{ok, err}
use beckn_onix.Model.Version.{role_bap, role_bpp, is_at_least_v2}
use beckn_onix.Model.Context.{StepContext, ResponseStepContext, get, value, auth_header_subscriber}
use beckn_onix.Signature.Header.{
  generate_auth_header, build_signature_header, extract_auth_signature,
}
use beckn_onix.Signature.Extracting.{extract_auth_signature-generate_auth_header}
use beckn_onix.Signature.Signer.{sign_ack}
use beckn_onix.Signature.RoundTrip.{validate_ack-sign_ack}
use beckn_onix.Signature.Validator.{second, validate_ack}
use beckn_onix.Signature.Tests.{
  toy, toy-IsCrypto, codec, ctx, sub, key, seed, length-seed, sub-IsPlain, key-IsPlain, timely,
}
use beckn_onix.Handler.Interfaces.{KeyManager, Signer}
use beckn_onix.Handler.Responses.{nack_beckn_error}
use beckn_onix.Handler.Wrapping.{
  wrap_all, nack_beckn_error-wrap_all, IsNackStatus, nack_beckn_error-IsNackStatus,
}
use beckn_onix.Handler.Steps.{Step}
use beckn_onix.Handler.Instrumented.{instrumented_response}
use beckn_onix.Handler.ResponseSteps.{AckSigner, ack_signer_step, verify_response}
use beckn_onix.Handler.Serving.{
  StdHandler, run_steps, step_ctx, with_module_headers, serve_http, answer_nack, answer_ack,
}
use beckn_onix.Handler.Pipeline.{IsServed, serve_http-IsServed}
use beckn_onix.Handler.Running.{Ran, Failed, run_steps_iff}
use beckn_onix.Handler.Signing.{
  IsConsistent, CanSign, IsSignedBy, IsSignedAnswer, answer_nack-IsSignedAnswer, IsSignedAck,
  answer_ack-IsSignedAck,
}
use beckn_onix.Handler.Bilateral.{plugin_signer, plugin_validator, verify_response-IsSignedBy}

abbrev km : KeyManager
km = record {
  keyset = λ id. ok (record { unique_key_id = key; signing_private = toy.encode_base64 seed });
  lookup_np_keys = λ id k. ok (toy.encode_base64 seed);
}

abbrev a_signer : Signer
a_signer = record { sign = λ body k c e. ok body; sign_ack = λ body r k c e. ok body }

abbrev ack_signer : AckSigner
ack_signer = record { signer = a_signer; km = km; now = 1_000 * second; later = 1_000 * second }

abbrev set_route : Step
set_route c = (
  record c {
    route = some (record { target_type = str "publisher"; publisher_id = str "topic"; url = none });
  },
  ok tt,
)

abbrev fail : Step
fail c = (c, err (errorf (str "no")))

abbrev clear : Step
clear c = (record c { body = [] }, ok tt)

abbrev handler : StdHandler
handler = record {
  steps = set_route ∷ [];
  response_steps = instrumented_response true (ack_signer_step codec ack_signer) ∷ [];
  publisher = some (λ id body. ok tt);
  ack_signer = some ack_signer;
  subscriber_id = sub;
  role = role_bpp;
  module_name = str "bppReceiver";
  round_trip = λ url request body. none;
  copy_header = λ a b. a;
}

abbrev started : StepContext
started = step_ctx codec handler [] ctx.request (str "{}") []

nack_beckn_error-IsNackStatus_example :
    IsNackStatus [] (nack_beckn_error [] (new_bad_req_err [] no_cause))
nack_beckn_error-IsNackStatus_example =
    nack_beckn_error-IsNackStatus [] (new_bad_req_err [] no_cause)

nack_beckn_error-wrap_all_example :
    nack_beckn_error [] (wrap_all (str "a: " ∷ str "b: " ∷ []) (new_bad_req_err [] no_cause))
    ≡ nack_beckn_error [] (new_bad_req_err [] no_cause)
nack_beckn_error-wrap_all_example =
    nack_beckn_error-wrap_all [] (str "a: " ∷ str "b: " ∷ []) (new_bad_req_err [] no_cause)

-- The step behind the one that fails does not run.
run_steps_iff_example :
    ((run_steps (set_route ∷ fail ∷ clear ∷ []) ctx ≡ ((set_route ctx).0, ok tt))
      ↔ Ran (set_route ∷ fail ∷ clear ∷ []) ctx (set_route ctx).0)
    × ((run_steps (set_route ∷ fail ∷ clear ∷ []) ctx
          ≡ ((set_route ctx).0, err (errorf (str "no"))))
        ↔ Failed (set_route ∷ fail ∷ clear ∷ []) ctx (set_route ctx).0 (errorf (str "no")))
run_steps_iff_example =
    run_steps_iff (set_route ∷ fail ∷ clear ∷ []) ctx (set_route ctx).0 (errorf (str "no"))

serve_http-IsServed_example :
    IsServed codec handler
      (step_ctx codec handler [] (with_module_headers codec handler ctx.request) (str "{}") [])
      (serve_http codec handler [] ctx.request (ok (str "{}")) [])
serve_http-IsServed_example = serve_http-IsServed codec handler [] ctx.request (str "{}") []

abbrev v2_ctx : StepContext
v2_ctx = record ctx {
  values = (str "protocol_version", str "2.0.0") ∷ (str "message_id", str "m1") ∷ [];
}

v2_ctx-IsConsistent : IsConsistent v2_ctx
unfolding value lookup str ◌==◌
v2_ctx-IsConsistent = record { version = refl; message = refl }

can_sign : CanSign ack_signer v2_ctx
can_sign = record {
  keys = record { unique_key_id = key; signing_private = toy.encode_base64 seed };
  keys_eq = refl;
  signs = λ body. (body, refl);
}

v2 : is_at_least_v2 v2_ctx.protocol_version ≡ true
unfolding is_at_least_v2 str ◌==◌ parse_int split_two
v2 = refl

named : v2_ctx.sub_id ≢ []
unfolding str
named = cc

answer_nack-IsSignedAnswer_example :
    IsSignedAnswer ack_signer v2_ctx (answer_nack codec handler v2_ctx (errorf (str "no")))
answer_nack-IsSignedAnswer_example =
    answer_nack-IsSignedAnswer codec handler ack_signer v2_ctx (errorf (str "no")) refl v2 named
      can_sign

answer_ack-IsSignedAck_example :
    IsSignedAck codec ack_signer v2_ctx (answer_ack codec handler v2_ctx)
answer_ack-IsSignedAck_example =
    answer_ack-IsSignedAck codec handler true ack_signer v2_ctx refl v2_ctx-IsConsistent v2 named
      can_sign

-- The caller's request carries the signature that the receiver took from it.
abbrev request_header : Str
request_header = generate_auth_header sub key (pos 1_000) (pos 1_300) (str "in") []

abbrev caller : StepContext
caller = record ctx {
  request = record {
    method = str "POST";
    url = ctx.request.url;
    header = (str "Authorization", request_header) ∷ [];
    host = [];
  };
}

request_signature :
    extract_auth_signature (get caller.request.header auth_header_subscriber) ≡ str "in"
unfolding get lookup str ◌==◌
request_signature =
    extract_auth_signature-generate_auth_header sub key (str "in") [] 1_000 1_300 sub-IsPlain.comma
      key-IsPlain.comma (ground arith)

-- The receiver's signature over its answer.
answer_signed :
    (signature : Str) × (sign_ack toy
        (str "{}")
        (str "in")
        (toy.encode_base64 seed)
        (pos 1_000)
        (pos 1_300)
      ≡ ok signature)
    × (validate_ack toy codec
          (1_000 * second)
          (5 * second)
          ctx
          (str "{}")
          (generate_auth_header sub key (pos 1_000) (pos 1_300) signature (str "in"))
          (str "in")
          (toy.encode_base64 seed)
          false
        ≡ ok tt)
answer_signed =
    validate_ack-sign_ack toy codec (λ s. s) toy-IsCrypto (1_000 * second) (5 * second) ctx
      (str "{}") sub key seed (str "in") 1_000 1_300 false timely length-seed sub-IsPlain
      key-IsPlain (inl refl)

abbrev answer : ResponseStepContext
answer = record {
  status_code = 200;
  header =
      (str "Signature", build_signature_header sub key (pos 1_000) (pos 1_300) answer_signed.0)
      ∷ [];
  body = str "{}";
}

answer-IsSignedBy :
    IsSignedBy
      (record { signer = plugin_signer toy; km = km; now = 1_000 * second; later = 1_000 * second })
      ctx
      (str "{}")
      (get answer.header (str "Signature"))
unfolding get lookup str ◌==◌
answer-IsSignedBy = record {
  keys = record { unique_key_id = key; signing_private = toy.encode_base64 seed };
  signature = answer_signed.0;
  keys_eq = refl;
  signature_eq = answer_signed.1;
  header_eq = refl;
}

sub_text : ctx.sub_id ≡ b'b' ∷ str "ap.in"
unfolding str
sub_text = refl

inbound-ne-nil : ctx.inbound_auth_signature ≢ []
unfolding str
inbound-ne-nil = cc

verify_response-IsSignedBy_example :
    verify_response (plugin_validator toy codec (1_000 * second) (5 * second)) km caller answer
    ≡ ok tt
unfolding str
verify_response-IsSignedBy_example =
    verify_response-IsSignedBy toy codec (λ s. s) toy-IsCrypto (1_000 * second) (1_000 * second)
      (1_000 * second) (5 * second) km km ctx caller answer b'b' (str "ap.in") key seed sub_text
      refl refl length-seed (omega arith, omega arith) sub-IsPlain key-IsPlain timely
      request_signature inbound-ne-nil answer-IsSignedBy
