-- ===== src/Handler/Signing.antt =====
-- The signatures on what the handler sends: NACKs and ACKs are signed over the body that is written,
-- and the peer's steps accept what these steps sign.
use beckn_onix.Base.{
  Bool, ℕ, Str, str, ◌==◌, ==_iff, ==_refl, Dict, lookup-insert, insert, true, false, [], ◌∷◌, none,
  some, ◌≡◌, ◌≢◌, refl, ap, sym, subst, ◌∙◌, arith,
}
use beckn_onix.Model.Error.{GoError, status_ack}
use beckn_onix.Model.Result.{ok, err}
use beckn_onix.Model.Json.{Codec, v2_response}
use beckn_onix.Model.Version.{is_at_least_v2}
use beckn_onix.Model.Context.{StepContext, Request, Header, get, set, value}
use beckn_onix.Signature.Header.{build_signature_header}
use beckn_onix.Handler.Interfaces.{Keyset}
use beckn_onix.Handler.Responses.{
  Answer, is_v2, msg_id, ack_body_bytes, send_ack, nack_bytes, nack, send_nack, nack_beckn_error,
  build_ack_body,
}
use beckn_onix.Handler.Steps.{created_at, valid_till, set_resp_header}
use beckn_onix.Handler.Instrumented.{instrumented_response}
use beckn_onix.Handler.ResponseSteps.{
  AckSigner, ResponseOutcome, compute_sig_header, sign_body_and_set_header, sign_response,
  ack_signer_step,
}
use beckn_onix.Handler.Serving.{
  Event, answered, StdHandler, sign_nack_response, answer_nack, answer_result, answer_ack,
  run_response_steps, step_ctx,
}

-- The version and the message's identifier in the Go context are those of the step context.
pub record IsConsistent (ctx : StepContext) : Type 0 where
  pub version : value ctx.values (str "protocol_version") ≡ ctx.protocol_version
  pub message : value ctx.values (str "message_id") ≡ ctx.message_id

get-set : (name : Str) (v : Str) (h : Header) → get (set h name v) name ≡ v
unfolding get set
get-set name v h = rw (lookup-insert name name v h, ==_refl name) refl

get-set_other :
    (name other : Str) (v : Str) (h : Header)
    → (other == name) ≡ false
    → get (set h other v) name ≡ get h name
unfolding get set
get-set_other name other v h ne = rw (lookup-insert name other v h, ne) refl

value-insert : (key v : Str) (values : Dict Str) → value (insert key v values) key ≡ v
unfolding value
value-insert key v values = rw (lookup-insert key key v values, ==_refl key) refl

value-insert_other :
    (key other v : Str) (values : Dict Str)
    → (other == key) ≡ false
    → value (insert other v values) key ≡ value values key
unfolding value
value-insert_other key other v values ne = rw (lookup-insert key other v values, ne) refl

-- `stepCtx` makes a consistent context.
pub step_ctx-IsConsistent :
    (codec : Codec) (h : StdHandler) (values : Dict Str) (request : Request) (body : Str)
    (resp_header : Header)
    → IsConsistent (step_ctx codec h values request body resp_header)
unfolding step_ctx str ◌==◌
step_ctx-IsConsistent codec h values request body resp_header = record {
  version =
      rw (value-insert_other (str "protocol_version") (str "message_id") _ _ refl)
        (value-insert (str "protocol_version") _ values);
  message = value-insert (str "message_id") _ _;
}

-- The signature header that the signer makes for a body, if its key and its signature are to be had.
pub record IsSignedBy (a : AckSigner) (ctx : StepContext) (body header : Str) : Type 0 where
  pub keys : Keyset
  pub signature : Str
  pub keys_eq : a.km.keyset ctx.sub_id ≡ ok keys
  pub signature_eq :
      a.signer.sign_ack body ctx.inbound_auth_signature keys.signing_private
        (created_at a.now)
        (valid_till a.later)
      ≡ ok signature
  pub header_eq :
      header
      ≡ build_signature_header ctx.sub_id keys.unique_key_id
          (created_at a.now)
          (valid_till a.later)
          signature

-- The signer has a key for the subscriber, and signs any body with it.
pub record CanSign (a : AckSigner) (ctx : StepContext) : Type 0 where
  pub keys : Keyset
  pub keys_eq : a.km.keyset ctx.sub_id ≡ ok keys
  pub signs :
      (body : Str)
      → (signature : Str) × (a.signer.sign_ack body ctx.inbound_auth_signature keys.signing_private
            (created_at a.now)
            (valid_till a.later)
          ≡ ok signature)

compute_sig_header-IsSignedBy :
    (a : AckSigner) (ctx : StepContext) (body : Str)
    → CanSign a ctx
    → (header : Str) × (compute_sig_header a ctx body ≡ ok header) × IsSignedBy a ctx body header
unfolding compute_sig_header
compute_sig_header-IsSignedBy a ctx body can =
    let (signature, signed) = can.signs body in
    (
      _,
      rw (can.keys_eq, signed) refl,
      record {
        keys = can.keys;
        signature = signature;
        keys_eq = can.keys_eq;
        signature_eq = signed;
        header_eq = refl;
      },
    )

-- The answer carries a signature over the very body that it has.
abbrev pub IsSignedAnswer : AckSigner → StepContext → Event → Type 0
IsSignedAnswer a ctx event =
    (answer : Answer) × (event ≡ answered answer)
    × IsSignedBy a ctx answer.body (get answer.header (str "Signature"))

-- The answer is a v2 ACK of the message, with a signature over its body.
abbrev pub IsSignedAck : Codec → AckSigner → StepContext → Event → Type 0
IsSignedAck codec a ctx event =
    (header : Header) × (event
      ≡ answered (record {
        status_code = 200;
        header = header;
        body = codec.marshal_response (v2_response status_ack ctx.message_id none);
      }))
    × IsSignedBy a ctx (codec.marshal_response (v2_response status_ack ctx.message_id none))
        (get header (str "Signature"))

-- `Content-Type` is set after `Signature`.
signature_kept :
    (h : Header) (header : Str)
    → get
        (set (set h (str "Signature") header) (str "Content-Type") (str "application/json"))
        (str "Signature")
      ≡ header
unfolding str ◌==◌
signature_kept h header =
    get-set_other (str "Signature") (str "Content-Type") (str "application/json")
      (set h (str "Signature") header) refl
    ∙ get-set (str "Signature") header h

-- The headers of an answer that is signed.
abbrev signed_header : StepContext → Str → Header
signed_header ctx header =
    set (set ctx.resp_header (str "Signature") header) (str "Content-Type") (str "application/json")

sign_body_and_set_header-eq :
    (a : AckSigner) (ctx : StepContext) (body header : Str)
    → compute_sig_header a ctx body ≡ ok header
    → sign_body_and_set_header a ctx body ≡ (set_resp_header ctx (str "Signature") header, ok tt)
unfolding sign_body_and_set_header
sign_body_and_set_header-eq a ctx body header e = rw (sign_body_and_set_header, e) refl

signed_answer :
    (a : AckSigner) (ctx : StepContext) (code : ℕ) (body header : Str) (event : Event)
    → IsSignedBy a ctx body header
    → event
      ≡ answered (record {
        status_code = code;
        header =
            set
              (set ctx.resp_header (str "Signature") header)
              (str "Content-Type")
              (str "application/json");
        body = body;
      })
    → IsSignedAnswer a ctx event
signed_answer a ctx code body header event by same =
    (_, same, subst (λ x. IsSignedBy a ctx body x) (sym (signature_kept ctx.resp_header header)) by)

module _ (codec : Codec) (h : StdHandler) where
  sign_nack_response-eq :
      (a : AckSigner) (ctx : StepContext) (e : GoError) (header : Str)
      → h.ack_signer ≡ some a
      → is_at_least_v2 ctx.protocol_version ≡ true
      → ctx.sub_id ≢ []
      → compute_sig_header a ctx (nack_bytes codec ctx.values e) ≡ ok header
      → sign_nack_response codec h ctx e ≡ set_resp_header ctx (str "Signature") header
  unfolding sign_nack_response
  sign_nack_response-eq a ctx e header here v2 sub made = ground (
    arith,
    ==_iff ctx.sub_id [],
    ap (λ o. o.0) (sign_body_and_set_header-eq a ctx (nack_bytes codec ctx.values e) header made),
  )

  -- A NACK that the handler sends for a v2 message is signed over the body that is sent, if an
  -- acknowledgement signer and a subscriber are configured and the signer can sign.
  pub answer_nack-IsSignedAnswer :
      (a : AckSigner) (ctx : StepContext) (e : GoError)
      → h.ack_signer ≡ some a
      → is_at_least_v2 ctx.protocol_version ≡ true
      → ctx.sub_id ≢ []
      → CanSign a ctx
      → IsSignedAnswer a ctx (answer_nack codec h ctx e)
  unfolding answer_nack sign_nack_response send_nack nack nack_bytes set_resp_header
  answer_nack-IsSignedAnswer a ctx e here v2 sub can =
      let (header, made, by) =
        compute_sig_header-IsSignedBy a ctx (nack_bytes codec ctx.values e) can in
      signed_answer a ctx (nack_beckn_error ctx.values e).http_status
        (nack_bytes codec ctx.values e) header _ by
        (rw (sign_nack_response-eq a ctx e header here v2 sub made) refl)

  ack_signer_step-eq :
      (a : AckSigner) (ctx : StepContext) (header : Str)
      → is_at_least_v2 ctx.protocol_version ≡ true
      → ctx.sub_id ≢ []
      → compute_sig_header a ctx (build_ack_body codec ctx.message_id) ≡ ok header
      → ack_signer_step codec a ctx none
        ≡ (set_resp_header ctx (str "Signature") header, none, ok tt)
  unfolding ack_signer_step sign_response
  ack_signer_step-eq a ctx header v2 sub made = ground (
    arith,
    ==_iff ctx.sub_id [],
    sign_body_and_set_header-eq a ctx (build_ack_body codec ctx.message_id) header made,
  )

  -- The wrapper writes the header back, which is all that the step changes.
  instrumented_response-ack_signer_step :
      (metrics : Bool) (a : AckSigner) (ctx : StepContext) (header : Str)
      → ack_signer_step codec a ctx none
        ≡ (set_resp_header ctx (str "Signature") header, none, ok tt)
      → instrumented_response metrics (ack_signer_step codec a) ctx none
        ≡ (set_resp_header ctx (str "Signature") header, none, ok tt)
  unfolding instrumented_response set_resp_header
  instrumented_response-ack_signer_step false a ctx header e = e
  instrumented_response-ack_signer_step true a ctx header e =
      ap
        (λ (o : ResponseOutcome). (
          record ctx { values = o.0.values; request = o.0.request; resp_header = o.0.resp_header },
          o.1,
          o.2,
        ))
        e

  run_response_steps-ack_signer_step :
      (metrics : Bool) (a : AckSigner) (ctx : StepContext) (header : Str)
      → ack_signer_step codec a ctx none
        ≡ (set_resp_header ctx (str "Signature") header, none, ok tt)
      → run_response_steps (instrumented_response metrics (ack_signer_step codec a) ∷ []) ctx none
        ≡ (set_resp_header ctx (str "Signature") header, none, ok tt)
  unfolding run_response_steps
  run_response_steps-ack_signer_step metrics a ctx header e =
      ap
        (λ (o : ResponseOutcome). elim o.2 as (λ _. ResponseOutcome) [
          | err x ↦ (o.0, o.1, err x)
          | ok _ ↦ run_response_steps [] o.0 o.1
        ])
        (instrumented_response-ack_signer_step metrics a ctx header e)

  ack_body_bytes-build_ack_body :
      (ctx : StepContext)
      → IsConsistent ctx
      → is_at_least_v2 ctx.protocol_version ≡ true
      → ack_body_bytes codec ctx.values ≡ build_ack_body codec ctx.message_id
  unfolding ack_body_bytes build_ack_body is_v2 msg_id
  ack_body_bytes-build_ack_body ctx same v2 = rw (same.version, same.message, v2) refl

  -- An ACK that the handler sends for a v2 message, with `signAck` as its one response step, which is
  -- instrumented or not, has the
  -- status 200 and the v2 body with the status ACK and the message's identifier, and carries a
  -- signature over this body, if the context holds the message's version and identifier, a
  -- subscriber is configured and the signer can sign.
  pub answer_ack-IsSignedAck :
      (metrics : Bool) (a : AckSigner) (ctx : StepContext)
      → h.response_steps ≡ instrumented_response metrics (ack_signer_step codec a) ∷ []
      → IsConsistent ctx
      → is_at_least_v2 ctx.protocol_version ≡ true
      → ctx.sub_id ≢ []
      → CanSign a ctx
      → IsSignedAck codec a ctx (answer_ack codec h ctx)
  unfolding answer_ack answer_result send_ack set_resp_header build_ack_body
  answer_ack-IsSignedAck metrics a ctx here same v2 sub can =
      let (header, made, by) =
        compute_sig_header-IsSignedBy a ctx (build_ack_body codec ctx.message_id) can in
      let ran =
        run_response_steps-ack_signer_step metrics a ctx header
          (ack_signer_step-eq a ctx header v2 sub made) in
      (
        signed_header ctx header,
        ap
              (λ steps.
                answer_result codec h (run_response_steps steps ctx none).0
                  (run_response_steps steps ctx none).2)
              here
            ∙ (ap (λ o. answer_result codec h o.0 o.2) ran
                ∙ rw (ack_body_bytes-build_ack_body ctx same v2) refl),
        subst (λ x. IsSignedBy a ctx (build_ack_body codec ctx.message_id) x)
            (sym (signature_kept ctx.resp_header header)) by,
      )
