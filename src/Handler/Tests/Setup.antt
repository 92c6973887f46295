-- ===== src/Handler/Tests/Setup.antt =====
-- The initialization of a handler with three steps, one of them a plugin step.
use beckn_onix.Base.{
  ◌+◌, ◌*◌, Str, str, ◌==◌, lookup, insert, length, any, all, is_some, not, true, ◌&&◌, List, [],
  ◌∷◌, none, some, ◌≡◌, refl,
}
use beckn_onix.Model.Result.{Result, ok, is_err}
use beckn_onix.Signature.Validator.{second}
use beckn_onix.Signature.Tests.{codec}
use beckn_onix.Handler.Steps.{Step, sign_step}
use beckn_onix.Handler.Instrumented.{instrumented, instrumented_response}
use beckn_onix.Handler.ResponseSteps.{ack_signer_step}
use beckn_onix.Handler.Configured.{
  Plugins, Built, kind_of_step, needs, signatures_of, new_ack_signer_step, new_sign_step, new_step,
  append_step, append_ack_signer, register, register_all, load_customs, nothing_built, init_steps,
}
use beckn_onix.Handler.Initialized.{is_configured, init_steps-is_err}
use beckn_onix.Handler.Counted.{is_sign_ack, init_steps-IsGrown}
use beckn_onix.Handler.Tests.{km, a_signer, ack_signer, set_route}

abbrev plugins : Plugins
plugins = record {
  codec = codec;
  signer = some a_signer;
  km = some km;
  sign_validator = none;
  payload_store = none;
  schema_validator = none;
  router = none;
  policy_checker = none;
  mediator = none;
  payload_transformer = none;
  base_path = str "/bap";
  now = 1_000 * second;
  later = 1_000 * second;
  metrics = true;
}

abbrev plugin_steps : List (Str × Result Step)
plugin_steps = (str "custom", ok set_route) ∷ []

abbrev names : List Str
names = str "signAck" ∷ str "custom" ∷ str "sign" ∷ []

abbrev built : Built
built = record {
  steps =
      instrumented true set_route
      ∷ instrumented true (sign_step codec a_signer km none (1_000 * second) (1_000 * second))
      ∷ [];
  response_steps = instrumented_response true (ack_signer_step codec ack_signer) ∷ [];
  ack_signer = some ack_signer;
}

initializes : init_steps plugins plugin_steps names ≡ ok built
unfolding init_steps load_customs register_all register kind_of_step needs signatures_of
    new_ack_signer_step new_sign_step new_step append_step append_ack_signer nothing_built str ◌==◌
    lookup insert
initializes = refl

init_steps-IsGrown_example :
    (length built.steps + length built.response_steps ≡ length names)
    × (is_some built.ack_signer ≡ any (λ name. is_sign_ack (kind_of_step name)) names)
init_steps-IsGrown_example = init_steps-IsGrown plugins plugin_steps names built initializes

init_steps-is_err_example :
    is_err (init_steps plugins plugin_steps names)
    ≡ not (
        all (λ (a : Str × Result Step). not (is_err a.1)) plugin_steps
        && all
            (λ name.
              is_configured plugins
                (any (λ (a : Str × Result Step). a.0 == name) plugin_steps)
                (kind_of_step name))
            names)
init_steps-is_err_example = init_steps-is_err plugins plugin_steps names
