-- ===== src/Handler/Counted.antt =====
-- How many steps a handler has, and when it has a signer of NACKs.
use beckn_onix.Base.{
  ℕ, suc, ◌+◌, Str, Dict, length, length-append, any, is_some, Bool, true, false, ◌||◌, List, [],
  ◌∷◌, ◌++◌, some, ◌≡◌, refl, arith,
}
use beckn_onix.Model.Result.{Result, ok, err}
use beckn_onix.Handler.Steps.{Step}
use beckn_onix.Handler.Instrumented.{instrumented, instrumented_response}
use beckn_onix.Handler.ResponseSteps.{ResponseStep, AckSigner, ack_signer_step}
use beckn_onix.Handler.Configured.{
  Plugins, Built, StepKind, kind_sign_ack, kind_validate_ack_sign, kind_sign, kind_validate_sign,
  kind_validate_schema, kind_add_route, kind_check_policy, kind_mediate_schema,
  kind_transform_payload, kind_store_payload, kind_custom, kind_of_step, append_step,
  append_ack_signer, append_response_step, register, register_all, load_customs, nothing_built,
  init_steps,
}

abbrev pub is_sign_ack : StepKind → Bool
is_sign_ack kind = elim kind [ kind_sign_ack ↦ true | _ ↦ false ]

-- What the steps are after those of the names.
abbrev IsGrown : Bool → ℕ → Built → Built → Type 0
IsGrown signs n built built' =
    (length built'.steps + length built'.response_steps
      ≡ length built.steps + length built.response_steps + n)
    × (is_some built'.ack_signer ≡ (signs || is_some built.ack_signer))

append_step-IsGrown :
    (metrics : Bool) (built next : Built) (s : Result Step)
    → append_step metrics built s ≡ ok next
    → IsGrown false 1 built next
unfolding append_step
append_step-IsGrown metrics built next (err e) h = cc
append_step-IsGrown metrics built next (ok s) h =
    let same : record built { steps = built.steps ++ instrumented metrics s ∷ [] } ≡ next = cc in
    rw (← same) (omega (arith, length-append built.steps (instrumented metrics s ∷ [])), refl)

append_response_step-IsGrown :
    (metrics : Bool) (built next : Built) (s : Result ResponseStep)
    → append_response_step metrics built s ≡ ok next
    → IsGrown false 1 built next
unfolding append_response_step
append_response_step-IsGrown metrics built next (err e) h = cc
append_response_step-IsGrown metrics built next (ok s) h =
    let same : record built {
      response_steps = built.response_steps ++ instrumented_response metrics s ∷ [];
    }
        ≡ next =
      cc in
    rw (← same) (
      omega (arith, length-append built.response_steps (instrumented_response metrics s ∷ [])),
      refl,
    )

module _ (p : Plugins) (customs : Dict Step) where
  append_ack_signer-IsGrown :
      (built next : Built) (a : Result AckSigner)
      → append_ack_signer p.codec p.metrics built a ≡ ok next
      → IsGrown true 1 built next
  unfolding append_ack_signer
  append_ack_signer-IsGrown built next (err e) h = cc
  append_ack_signer-IsGrown built next (ok a) h =
      let same : record built {
        response_steps =
            built.response_steps
            ++ instrumented_response p.metrics (ack_signer_step p.codec a) ∷ [];
        ack_signer = some a;
      }
          ≡ next =
        cc in
      rw (← same) (
        omega (
          arith,
          length-append built.response_steps
              (instrumented_response p.metrics (ack_signer_step p.codec a) ∷ []),
        ),
        refl,
      )

  register-IsGrown :
      (name : Str) (kind : StepKind) (built next : Built)
      → register p customs name kind built ≡ ok next
      → IsGrown (is_sign_ack kind) 1 built next
  unfolding register
  register-IsGrown name kind_sign_ack built next h = append_ack_signer-IsGrown built next _ h
  register-IsGrown name kind_validate_ack_sign built next h =
      append_response_step-IsGrown p.metrics built next _ h
  register-IsGrown name kind_sign built next h = append_step-IsGrown p.metrics built next _ h
  register-IsGrown name kind_validate_sign built next h =
      append_step-IsGrown p.metrics built next _ h
  register-IsGrown name kind_validate_schema built next h =
      append_step-IsGrown p.metrics built next _ h
  register-IsGrown name kind_add_route built next h = append_step-IsGrown p.metrics built next _ h
  register-IsGrown name kind_check_policy built next h =
      append_step-IsGrown p.metrics built next _ h
  register-IsGrown name kind_mediate_schema built next h =
      append_step-IsGrown p.metrics built next _ h
  register-IsGrown name kind_transform_payload built next h =
      append_step-IsGrown p.metrics built next _ h
  register-IsGrown name kind_store_payload built next h =
      append_step-IsGrown p.metrics built next _ h
  register-IsGrown name kind_custom built next h = append_step-IsGrown p.metrics built next _ h

  register_all-IsGrown :
      (names : List Str) (built last : Built)
      → register_all p customs names built ≡ ok last
      → IsGrown (any (λ name. is_sign_ack (kind_of_step name)) names) (length names) built last
  unfolding register_all
  register_all-IsGrown [] built last h =
      let same : built ≡ last = cc in rw (← same) (omega arith, refl)
  register_all-IsGrown (name ∷ names) built last h =
      by_step (register p customs name (kind_of_step name) built)
        (register-IsGrown name (kind_of_step name) built)
        (λ next. register_all-IsGrown names next last) h
    where
      first : Bool
      first = is_sign_ack (kind_of_step name)

      others : Bool
      others = any (λ name. is_sign_ack (kind_of_step name)) names

      swap : (a b c d e : Bool) → a ≡ (b || c) → c ≡ (d || e) → a ≡ ((d || b) || e)
      swap a b c d e x y = ground arith

      by_step :
          (a : Result Built)
          → ((next : Built) → a ≡ ok next → IsGrown first 1 built next)
          → ((next : Built)
              → register_all p customs names next ≡ ok last
              → IsGrown others (length names) next last)
          → (elim a as (λ _. Result Built) [
            | err e ↦ err e
            | ok next ↦ register_all p customs names next
          ])
            ≡ ok last
          → IsGrown (first || others) (suc (length names)) built last
      by_step (err e) one rest k = cc
      by_step (ok next) one rest k =
          let (count, signs) = one next refl in
          let (counts, all_signs) = rest next k in (omega arith, swap _ _ _ _ _ all_signs signs)

-- A handler that is initialized has one step, or one response step, for each configured name, and it
-- can sign the NACKs of its pipeline exactly if `signAck` is configured.
pub init_steps-IsGrown :
    (p : Plugins) (answers : List (Str × Result Step)) (names : List Str) (built : Built)
    → init_steps p answers names ≡ ok built
    → (length built.steps + length built.response_steps ≡ length names)
      × (is_some built.ack_signer ≡ any (λ name. is_sign_ack (kind_of_step name)) names)
unfolding init_steps nothing_built
init_steps-IsGrown p answers names built h = by_customs (load_customs answers []) h
  where
    or_false : (b c : Bool) → c ≡ (b || false) → c ≡ b
    or_false b c e = ground arith

    by_customs :
        (a : Result (Dict Step))
        → (elim a as (λ _. Result Built) [
          | err e ↦ err e
          | ok customs ↦ register_all p customs names nothing_built
        ])
          ≡ ok built
        → (length built.steps + length built.response_steps ≡ length names)
          × (is_some built.ack_signer ≡ any (λ name. is_sign_ack (kind_of_step name)) names)
    by_customs (err e) k = cc
    by_customs (ok customs) k =
        let (count, signs) = register_all-IsGrown p customs names nothing_built built k in
        (omega arith, or_false _ _ signs)
