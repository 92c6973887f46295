-- ===== src/Handler/Initialized.antt =====
-- Which configurations give a handler its steps, and what these are.
use beckn_onix.Base.{
  Str, ◌==◌, Dict, lookup, insert, lookup-insert, any, all, is_some, Bool, true, false, not, ◌&&◌,
  ◌||◌, List, [], ◌∷◌, Option, none, some, ◌≡◌, refl, sym, ap, ◌∙◌, arith, Bool-cases, inl, inr,
}
use beckn_onix.Model.Result.{Result, ok, err, is_err}
use beckn_onix.Handler.Steps.{Step}
use beckn_onix.Handler.ResponseSteps.{ResponseStep, AckSigner}
use beckn_onix.Handler.Configured.{
  Plugins, Built, StepKind, kind_sign_ack, kind_validate_ack_sign, kind_sign, kind_validate_sign,
  kind_validate_schema, kind_add_route, kind_check_policy, kind_mediate_schema,
  kind_transform_payload, kind_store_payload, kind_custom, kind_of_step, needs, new_ack_signer_step,
  new_validate_ack_signature_step, new_sign_step, new_validate_sign_step, plugin_step, new_step,
  append_step, append_ack_signer, append_response_step, register, register_all, load_customs,
  nothing_built, init_steps,
}

-- The plugins that a step needs are configured; `known` says whether a plugin step has the name.
abbrev pub is_configured : Plugins → Bool → StepKind → Bool
is_configured p known kind_sign_ack = is_some p.signer && is_some p.km
is_configured p known kind_validate_ack_sign = is_some p.sign_validator && is_some p.km
is_configured p known kind_sign = is_some p.signer && is_some p.km
is_configured p known kind_validate_sign = is_some p.sign_validator && is_some p.km
is_configured p known kind_validate_schema = is_some p.schema_validator
is_configured p known kind_add_route = is_some p.router
is_configured p known kind_check_policy = is_some p.policy_checker
is_configured p known kind_mediate_schema = is_some p.mediator
is_configured p known kind_transform_payload = is_some p.payload_transformer
is_configured p known kind_store_payload = is_some p.payload_store
is_configured p known kind_custom = known

needs-is_err {ℓ ι} :
    {A : Type ℓ} {B : Type ι} (message : Str) (a : Option A) (build : A → B)
    → is_err (needs message a (λ x. ok (build x))) ≡ not (is_some a)
unfolding needs
needs-is_err message none build = refl
needs-is_err message (some x) build = refl

needs_two-is_err {ℓ ι κ} :
    {A : Type ℓ} {B : Type ι} {C : Type κ} (m n : Str) (a : Option A) (b : Option B)
    (build : A → B → C)
    → is_err (needs m a (λ x. needs n b (λ y. ok (build x y)))) ≡ not (is_some a && is_some b)
unfolding needs
needs_two-is_err m n none b build = refl
needs_two-is_err m n (some x) none build = refl
needs_two-is_err m n (some x) (some y) build = refl

append_step-is_err :
    (metrics : Bool) (built : Built) (s : Result Step)
    → is_err (append_step metrics built s) ≡ is_err s
unfolding append_step
append_step-is_err metrics built (err e) = refl
append_step-is_err metrics built (ok s) = refl

append_response_step-is_err :
    (metrics : Bool) (built : Built) (s : Result ResponseStep)
    → is_err (append_response_step metrics built s) ≡ is_err s
unfolding append_response_step
append_response_step-is_err metrics built (err e) = refl
append_response_step-is_err metrics built (ok s) = refl

module _ (p : Plugins) (customs : Dict Step) where
  append_ack_signer-is_err :
      (built : Built) (a : Result AckSigner)
      → is_err (append_ack_signer p.codec p.metrics built a) ≡ is_err a
  unfolding append_ack_signer
  append_ack_signer-is_err built (err e) = refl
  append_ack_signer-is_err built (ok a) = refl

  register-is_err :
      (name : Str) (kind : StepKind) (built : Built)
      → is_err (register p customs name kind built)
        ≡ not (is_configured p (is_some (lookup name customs)) kind)
  unfolding register new_step new_ack_signer_step new_validate_ack_signature_step new_sign_step
      new_validate_sign_step plugin_step
  register-is_err name kind_sign_ack built =
      append_ack_signer-is_err built _ ∙ needs_two-is_err _ _ p.signer p.km _
  register-is_err name kind_validate_ack_sign built =
      append_response_step-is_err p.metrics built _ ∙ needs_two-is_err _ _ p.sign_validator p.km _
  register-is_err name kind_sign built =
      append_step-is_err p.metrics built _ ∙ needs_two-is_err _ _ p.signer p.km _
  register-is_err name kind_validate_sign built =
      append_step-is_err p.metrics built _ ∙ needs_two-is_err _ _ p.sign_validator p.km _
  register-is_err name kind_validate_schema built =
      append_step-is_err p.metrics built _ ∙ needs-is_err _ p.schema_validator _
  register-is_err name kind_add_route built =
      append_step-is_err p.metrics built _ ∙ needs-is_err _ p.router _
  register-is_err name kind_check_policy built =
      append_step-is_err p.metrics built _ ∙ needs-is_err _ p.policy_checker _
  register-is_err name kind_mediate_schema built =
      append_step-is_err p.metrics built _ ∙ needs-is_err _ p.mediator _
  register-is_err name kind_transform_payload built =
      append_step-is_err p.metrics built _ ∙ needs-is_err _ p.payload_transformer _
  register-is_err name kind_store_payload built =
      append_step-is_err p.metrics built _ ∙ needs-is_err _ p.payload_store _
  register-is_err name kind_custom built =
      append_step-is_err p.metrics built _ ∙ needs-is_err _ (lookup name customs) _

  register_all-is_err :
      (names : List Str) (built : Built)
      → is_err (register_all p customs names built)
        ≡ not (
            all (λ name. is_configured p (is_some (lookup name customs)) (kind_of_step name)) names)
  unfolding register_all
  register_all-is_err [] built = refl
  register_all-is_err (name ∷ names) built =
      by_step (register p customs name (kind_of_step name) built)
        (register-is_err name (kind_of_step name) built) (register_all-is_err names)
    where
      configured : Bool
      configured = is_configured p (is_some (lookup name customs)) (kind_of_step name)

      by_step :
          (a : Result Built)
          → is_err a ≡ not configured
          → ((next : Built)
              → is_err (register_all p customs names next)
                ≡ not (
                    all
                      (λ name. is_configured p (is_some (lookup name customs)) (kind_of_step name))
                      names))
          → is_err (elim a as (λ _. Result Built) [
            | err e ↦ err e
            | ok next ↦ register_all p customs names next
          ])
            ≡ not (
                configured
                && all
                    (λ name. is_configured p (is_some (lookup name customs)) (kind_of_step name))
                    names)
      by_step (err e) h rest = ground arith
      by_step (ok next) h rest = rest next ∙ ground arith

-- The plugin steps under their names; a step that is listed again replaces the earlier one.
load_customs-lookup :
    (answers : List (Str × Result Step)) (customs found : Dict Step) (name : Str)
    → load_customs answers customs ≡ ok found
    → is_some (lookup name found)
      ≡ (any (λ (a : Str × Result Step). a.0 == name) answers || is_some (lookup name customs))
unfolding load_customs
load_customs-lookup [] customs found name e =
    let same : customs ≡ found = cc in ap (λ (d : Dict Step). is_some (lookup name d)) (sym same)
load_customs-lookup ((id, err failure) ∷ answers) customs found name e = cc
load_customs-lookup ((id, ok s) ∷ answers) customs found name e =
    load_customs-lookup answers (insert id s customs) found name e
    ∙ rw (lookup-insert name id s customs) (elim (Bool-cases (id == name)) [
      | inl same ↦ rw same (ground arith)
      | inr other ↦ rw other refl
    ])

load_customs-is_err :
    (answers : List (Str × Result Step)) (customs : Dict Step)
    → is_err (load_customs answers customs)
      ≡ not (all (λ (a : Str × Result Step). not (is_err a.1)) answers)
unfolding load_customs
load_customs-is_err [] customs = refl
load_customs-is_err ((id, err failure) ∷ answers) customs = refl
load_customs-is_err ((id, ok s) ∷ answers) customs =
    load_customs-is_err answers (insert id s customs)

all_cong :
    (f g : Str → Bool) (names : List Str)
    → ((name : Str) → f name ≡ g name)
    → all f names ≡ all g names
all_cong f g [] h = refl
all_cong f g (name ∷ names) h = rw (h name, all_cong f g names h) refl

-- The initialization fails exactly if a plugin step cannot be loaded, or a configured name is that of
-- a built-in step whose plugins are not all there, even if a plugin step has this name, or a name that
-- is neither built in nor that of a plugin step. `signAck` and `sign` need signer and key manager,
-- `validateAckSign` and `validateSign` sign validator and key manager, every other built-in step its
-- own plugin.
pub init_steps-is_err :
    (p : Plugins) (answers : List (Str × Result Step)) (names : List Str)
    → is_err (init_steps p answers names)
      ≡ not (
          all (λ (a : Str × Result Step). not (is_err a.1)) answers
          && all
              (λ name.
                is_configured p
                  (any (λ (a : Str × Result Step). a.0 == name) answers)
                  (kind_of_step name))
              names)
unfolding init_steps lookup
init_steps-is_err p answers names =
    by_customs (load_customs answers []) refl (load_customs-is_err answers [])
  where
    by_customs :
        (a : Result (Dict Step))
        → load_customs answers [] ≡ a
        → is_err a ≡ not (all (λ (a : Str × Result Step). not (is_err a.1)) answers)
        → is_err (elim a as (λ _. Result Built) [
          | err e ↦ err e
          | ok customs ↦ register_all p customs names nothing_built
        ])
          ≡ not (
              all (λ (a : Str × Result Step). not (is_err a.1)) answers
              && all
                  (λ name.
                    is_configured p
                      (any (λ (a : Str × Result Step). a.0 == name) answers)
                      (kind_of_step name))
                  names)
    by_customs (err e) same h = ground arith
    by_customs (ok customs) same h =
        register_all-is_err p customs names nothing_built
        ∙ ap not (
            all_cong _ _ names (λ name.
              ap (λ known. is_configured p known (kind_of_step name))
                (load_customs-lookup answers [] customs name same ∙ or_false _)))
        ∙ ground arith
      where
        or_false : (b : Bool) → (b || false) ≡ b
        or_false true = refl
        or_false false = refl
