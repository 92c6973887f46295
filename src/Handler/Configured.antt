-- ===== src/Handler/Configured.antt =====
-- core/module/handler/stdHandler.go, `initSteps`, with the constructors of the steps in step.go and
-- responsestep.go: from the configured names to the steps of a handler. Plugins that are only called by
-- their step (policy checker, mediator, transformer, the store of payloads) are steps themselves.
-- Instrumentation is left out, and the clock is read as its steps read it, at `now` and `later`.
use beckn_onix.Base.{
  Bool, ℕ, Str, str, ◌==◌, Dict, lookup, insert, List, [], ◌∷◌, ◌++◌, Option, none, some,
  if◌then◌else◌,
}
use beckn_onix.Model.Error.{errorf, wrapf}
use beckn_onix.Model.Result.{Result, ok, err}
use beckn_onix.Model.Json.{Codec}
use beckn_onix.Handler.Interfaces.{
  KeyManager, Signer, SignValidator, SignatureLookup, SchemaValidator, RouteFinder,
}
use beckn_onix.Handler.Steps.{
  Step, sign_step, validate_sign_step, validate_schema_step, add_route_step,
}
use beckn_onix.Handler.Instrumented.{instrumented, instrumented_response}
use beckn_onix.Handler.ResponseSteps.{
  ResponseStep, AckSigner, ack_signer_step, validate_ack_signature_step,
}

-- `definition.PayloadStore`: what signing looks up, and the step that stores
pub record PayloadStorePlugin : Type 0 where
  pub signatures : SignatureLookup
  pub store : Step

-- the plugins of `stdHandler`, nil where none is configured, and what else its steps read
pub record Plugins : Type 0 where
  pub codec : Codec
  pub signer : Option Signer
  pub km : Option KeyManager
  pub sign_validator : Option SignValidator
  pub payload_store : Option PayloadStorePlugin
  pub schema_validator : Option SchemaValidator
  pub router : Option RouteFinder
  pub policy_checker : Option Step
  pub mediator : Option Step
  pub payload_transformer : Option Step
  pub base_path : Str
  pub now : ℕ
  pub later : ℕ
  -- whether `GetStepMetrics` succeeds
  pub metrics : Bool

-- the fields that `initSteps` sets
pub record Built : Type 0 where
  pub steps : List Step
  pub response_steps : List ResponseStep
  pub ack_signer : Option AckSigner

-- the cases of the switch over the name of a step
pub data StepKind : Type 0 where
  kind_sign_ack kind_validate_ack_sign kind_sign kind_validate_sign kind_validate_schema : StepKind
  kind_add_route kind_check_policy kind_mediate_schema kind_transform_payload : StepKind
  kind_store_payload kind_custom : StepKind

unfoldable pub kind_of_step : Str → StepKind
kind_of_step name =
    if name == str "signAck"
    then kind_sign_ack
    else if name == str "validateAckSign"
    then kind_validate_ack_sign
    else if name == str "sign"
    then kind_sign
    else if name == str "validateSign"
    then kind_validate_sign
    else if name == str "validateSchema"
    then kind_validate_schema
    else if name == str "addRoute"
    then kind_add_route
    else if name == str "checkPolicy"
    then kind_check_policy
    else if name == str "mediateSchema"
    then kind_mediate_schema
    else if name == str "transformPayload"
    then kind_transform_payload
    else if name == str "storePayload"
    then kind_store_payload
    else kind_custom

-- `if plugin == nil { return nil, fmt.Errorf(…) }`
unfoldable pub needs {ℓ ι} : {A : Type ℓ} {B : Type ι} → Str → Option A → (A → Result B) → Result B
needs message none build = err (errorf message)
needs message (some plugin) build = build plugin

unfoldable pub signatures_of : Option PayloadStorePlugin → Option SignatureLookup
signatures_of none = none
signatures_of (some p) = some p.signatures

abbrev no_signer : Str
no_signer = str "invalid config: Signer plugin not configured"

abbrev no_key_manager : Str
no_key_manager = str "invalid config: KeyManager plugin not configured"

abbrev no_sign_validator : Str
no_sign_validator = str "invalid config: SignValidator plugin not configured"

-- `newAckSignerStep`
unfoldable pub new_ack_signer_step : Plugins → Result AckSigner
new_ack_signer_step p = needs no_signer p.signer λ signer.
    needs no_key_manager p.km
      λ km. ok (record { signer = signer; km = km; now = p.now; later = p.later })

-- `newValidateAckSignatureStep`
unfoldable pub new_validate_ack_signature_step : Plugins → Result ResponseStep
new_validate_ack_signature_step p =
    needs no_sign_validator p.sign_validator
      λ validator. needs no_key_manager p.km λ km. ok (validate_ack_signature_step validator km)

-- `newSignStep`
unfoldable pub new_sign_step : Plugins → Result Step
new_sign_step p = needs no_signer p.signer λ signer.
    needs no_key_manager p.km
      λ km. ok (sign_step p.codec signer km (signatures_of p.payload_store) p.now p.later)

-- `newValidateSignStep`
unfoldable pub new_validate_sign_step : Plugins → Result Step
new_validate_sign_step p = needs no_sign_validator p.sign_validator λ validator.
    needs no_key_manager p.km
      λ km. ok (validate_sign_step p.codec validator km (signatures_of p.payload_store))

-- a step that only its plugin is
unfoldable pub plugin_step : Str → Option Step → Result Step
plugin_step message plugin = needs message plugin λ step. ok step

-- the step of a kind that is no response step
unfoldable pub new_step : Plugins → Dict Step → Str → StepKind → Result Step
new_step p customs name kind_sign_ack = err (errorf (str "unrecognized step: " ++ name))
new_step p customs name kind_validate_ack_sign = err (errorf (str "unrecognized step: " ++ name))
new_step p customs name kind_sign = new_sign_step p
new_step p customs name kind_validate_sign = new_validate_sign_step p
new_step p customs name kind_validate_schema =
    needs (str "invalid config: SchemaValidator plugin not configured") p.schema_validator
      λ v. ok (validate_schema_step v p.base_path)
new_step p customs name kind_add_route =
    needs (str "invalid config: Router plugin not configured") p.router
      λ r. ok (add_route_step r p.base_path)
new_step p customs name kind_check_policy =
    plugin_step (str "invalid config: PolicyChecker plugin not configured") p.policy_checker
new_step p customs name kind_mediate_schema =
    plugin_step (str "invalid config: SchemaVersionMediator plugin not configured") p.mediator
new_step p customs name kind_transform_payload =
    plugin_step (str "invalid config: PayloadTransformer plugin not configured")
      p.payload_transformer
new_step p customs name kind_store_payload =
    needs (str "storePayload: PayloadStore not configured") p.payload_store λ s. ok s.store
new_step p customs name kind_custom =
    needs (str "unrecognized step: " ++ name) (lookup name customs) λ s. ok s

-- `h.steps = append(h.steps, s)`
unfoldable pub append_step : Bool → Built → Result Step → Result Built
append_step metrics built (err e) = err e
append_step metrics built (ok s) =
    ok (record built { steps = built.steps ++ instrumented metrics s ∷ [] })

unfoldable pub append_ack_signer : Codec → Bool → Built → Result AckSigner → Result Built
append_ack_signer codec metrics built (err e) = err e
append_ack_signer codec metrics built (ok a) = ok (record built {
  response_steps =
      built.response_steps ++ instrumented_response metrics (ack_signer_step codec a) ∷ [];
  ack_signer = some a;
})

unfoldable pub append_response_step : Bool → Built → Result ResponseStep → Result Built
append_response_step metrics built (err e) = err e
append_response_step metrics built (ok s) =
    ok (record built {
      response_steps = built.response_steps ++ instrumented_response metrics s ∷ [];
    })

-- one round of the loop that registers the steps
unfoldable pub register : Plugins → Dict Step → Str → StepKind → Built → Result Built
register p customs name kind_sign_ack built =
    append_ack_signer p.codec p.metrics built (new_ack_signer_step p)
register p customs name kind_validate_ack_sign built =
    append_response_step p.metrics built (new_validate_ack_signature_step p)
register p customs name kind built = append_step p.metrics built (new_step p customs name kind)

unfoldable pub register_all : Plugins → Dict Step → List Str → Built → Result Built
register_all p customs [] built = ok built
register_all p customs (name ∷ names) built =
    elim (register p customs name (kind_of_step name) built) [
      | err e ↦ err e
      | ok next ↦ register_all p customs names next
    ]

-- the loop over the plugin steps, with what the plugin manager answers for each
unfoldable pub load_customs : List (Str × Result Step) → Dict Step → Result (Dict Step)
load_customs [] customs = ok customs
load_customs ((id, err e) ∷ rest) customs =
    err (wrapf (str "failed to initialize plugin step " ++ id ++ str ": ") e)
load_customs ((id, ok s) ∷ rest) customs = load_customs rest (insert id s customs)

unfoldable pub nothing_built : Built
nothing_built = record { steps = []; response_steps = []; ack_signer = none }

-- `initSteps`
unfoldable pub init_steps : Plugins → List (Str × Result Step) → List Str → Result Built
init_steps p answers names = elim (load_customs answers []) [
  | err e ↦ err e
  | ok customs ↦ register_all p customs names nothing_built
]
