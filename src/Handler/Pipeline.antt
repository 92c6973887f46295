-- ===== src/Handler/Pipeline.antt =====
-- What a request leads to: one answer or a panic, behind at most one message, which is sent only if
-- every step succeeded.
use beckn_onix.Base.{
  Str, str, ◌==◌, Dict, [], ◌∷◌, List, Option, none, some, ◌≡◌, ◌≢◌, refl, ap, ◌⊎◌, inl, inr, arith,
  Bool-cases, true, false, if◌then◌else◌, ==_iff,
}
use beckn_onix.Model.Error.{GoError, errorf, is_panic, errors_as, chain, first_match}
use beckn_onix.Model.Result.{Result, ok, err}
use beckn_onix.Model.Json.{Codec}
use beckn_onix.Model.Context.{ResponseStepContext, StepContext, Request, Header, Route, Url}
use beckn_onix.Handler.Responses.{Answer}
use beckn_onix.Handler.Steps.{Outcome, set_request_header}
use beckn_onix.Handler.Serving.{
  Event, published, forwarded, answered, panicked, StdHandler, run_steps, run_response_steps,
  forward_to, answer_result, answer_error, modify_response, answer_nack, answer_ack, proxy, publish,
  route_message, step_ctx, after_steps, with_module_headers, serve_http,
}
use beckn_onix.Handler.Running.{Ran, Failed, IsOutcome, run_steps-IsOutcome}

-- The events are this one alone, which is an answer.
abbrev pub IsOnly : Event → List Event → Type 0
IsOnly event events = (events ≡ event ∷ []) × ((a : Answer) × (event ≡ answered a))

-- What an error leads to: a NACK alone, or nothing but the panic that it stands for.
abbrev pub IsRefused : Codec → StdHandler → StepContext → GoError → List Event → Type 0
IsRefused codec h ctx e events =
    ((is_panic e ≡ false) × IsOnly (answer_nack codec h ctx e) events)
    ⊎ ((is_panic e ≡ true) × (events ≡ panicked ∷ []))

-- A response step panics, when they run in this context.
abbrev pub Panics : StdHandler → StepContext → Type 0
Panics h ctx =
    (response : Option ResponseStepContext) × (e : GoError) × ((run_response_steps h.response_steps
        ctx response).2
      ≡ err e)
    × (is_panic e ≡ true)

-- An answer, or the panic of a response step in its place.
abbrev pub IsLast : StdHandler → StepContext → Event → Type 0
IsLast h ctx event = ((a : Answer) × (event ≡ answered a)) ⊎ ((event ≡ panicked) × Panics h ctx)

-- The context that the proxy forwards.
abbrev host_forwarded : StepContext → StepContext
host_forwarded ctx = set_request_header ctx (str "X-Forwarded-Host") ctx.request.host

-- A message went out to the route, and an answer behind it: the ACK, where it was published.
abbrev pub IsSent : Codec → StdHandler → StepContext → Route → List Event → Type 0
IsSent codec h ctx target events =
    ((url : Url) × (r : Request) × (event : Event) × (target.target_type ≡ str "url")
      × (target.url ≡ some url)
      × (events ≡ forwarded url r ctx.body ∷ event ∷ [])
      × IsLast h (host_forwarded ctx) event)
    ⊎ ((target.target_type ≡ str "publisher")
        × (events ≡ published target.publisher_id ctx.body ∷ answer_ack codec h ctx ∷ [])
        × IsLast h ctx (answer_ack codec h ctx))

-- What steps that all succeeded lead to.
abbrev pub IsRouted : Codec → StdHandler → StepContext → List Event → Type 0
IsRouted codec h ctx events =
    ((ctx.route ≡ none)
      × (events ≡ answer_ack codec h ctx ∷ [])
      × IsLast h ctx (answer_ack codec h ctx))
    ⊎ ((target : Route) × (ctx.route ≡ some target)
        × (IsSent codec h ctx target events
            ⊎ (((target.target_type ≢ str "url") × ((e : GoError) × IsRefused codec h ctx e events))
                ⊎ ((target.target_type ≡ str "url")
                    × (target.url ≡ none)
                    × (events ≡ panicked ∷ [])))))

-- What a request leads to, from the context at which the steps begin.
abbrev pub IsServed : Codec → StdHandler → StepContext → List Event → Type 0
IsServed codec h start events =
    ((last : StepContext) × (e : GoError) × Failed h.steps start last e
      × IsRefused codec h last e events)
    ⊎ ((last : StepContext) × Ran h.steps start last × IsRouted codec h last events)

module _ (codec : Codec) (h : StdHandler) where
  answer_error-IsRefused :
      (ctx : StepContext) (e : GoError) → IsRefused codec h ctx e (answer_error codec h ctx e ∷ [])
  unfolding answer_error answer_nack
  answer_error-IsRefused ctx e = elim (Bool-cases (is_panic e)) [
    | inl p ↦ inr (p, rw p refl)
    | inr q ↦ inl (q, (rw q refl, (_, refl)))
  ]

  -- An error that is no panic.
  answer_nack-IsRefused :
      (ctx : StepContext) (text : Str)
      → IsRefused codec h ctx (errorf text) (answer_nack codec h ctx (errorf text) ∷ [])
  unfolding answer_nack is_panic errors_as chain first_match
  answer_nack-IsRefused ctx text = inl (refl, (refl, (_, refl)))

  panicked_or_answered :
      (ctx : StepContext) (response : Option ResponseStepContext) (a : Answer) (e : GoError)
      → (run_response_steps h.response_steps ctx response).2 ≡ err e
      → IsLast h ctx (if is_panic e then panicked else answered a)
  panicked_or_answered ctx response a e ran = elim (Bool-cases (is_panic e)) [
    | inl p ↦ inr (rw p refl, (response, e, ran, p))
    | inr q ↦ inl (a, rw q refl)
  ]

  answer_result-IsLast :
      (ctx ctx' : StepContext) (response : Option ResponseStepContext) (result : Result (Unit {0}))
      → (run_response_steps h.response_steps ctx response).2 ≡ result
      → IsLast h ctx (answer_result codec h ctx' result)
  unfolding answer_result answer_error answer_nack
  answer_result-IsLast ctx ctx' response (err e) ran = panicked_or_answered ctx response _ e ran
  answer_result-IsLast ctx ctx' response (ok u) ran = inl (_, refl)

  answer_ack-IsLast : (ctx : StepContext) → IsLast h ctx (answer_ack codec h ctx)
  unfolding answer_ack
  answer_ack-IsLast ctx =
      answer_result-IsLast ctx (run_response_steps h.response_steps ctx none).0 none
        (run_response_steps h.response_steps ctx none).2 refl

  forwarded_result-IsLast :
      (ctx : StepContext) (response : Option ResponseStepContext) (a b : Answer)
      (result : Result (Unit {0}))
      → (run_response_steps h.response_steps ctx response).2 ≡ result
      → IsLast h ctx
          (elim result [ err e ↦ if is_panic e then panicked else answered a | ok _ ↦ answered b ])
  forwarded_result-IsLast ctx response a b (err e) ran = panicked_or_answered ctx response a e ran
  forwarded_result-IsLast ctx response a b (ok u) ran = inl (b, refl)

  modify_response-IsLast :
      (ctx : StepContext) (r : ResponseStepContext) → IsLast h ctx (modify_response codec h ctx r)
  unfolding modify_response
  modify_response-IsLast ctx r =
      forwarded_result-IsLast ctx (some r) _ _ (run_response_steps h.response_steps ctx (some r)).2
        refl

  upstream-IsLast :
      (ctx : StepContext) (a : Answer) (o : Option ResponseStepContext)
      → IsLast h ctx (elim o [ none ↦ answered a | some r ↦ modify_response codec h ctx r ])
  upstream-IsLast ctx a none = inl (a, refl)
  upstream-IsLast ctx a (some r) = modify_response-IsLast ctx r

  module _ (ctx : StepContext) (target : Route) (here : ctx.route ≡ some target) where
    proxy-IsRouted :
        (o : Option Url)
        → target.url ≡ o
        → target.target_type ≡ str "url"
        → IsRouted codec h ctx (proxy codec h ctx target)
    unfolding proxy forward_to set_request_header
    proxy-IsRouted none absent kind = inr (
      target,
      here,
      inr (inr (kind, absent, ap (forward_to codec h (host_forwarded ctx)) absent)),
    )
    proxy-IsRouted (some url) present kind = inr (
      target,
      here,
      inl (
          inl (
            url,
            _,
            _,
            kind,
            present,
            ap (forward_to codec h (host_forwarded ctx)) present,
            upstream-IsLast (host_forwarded ctx) _ _,
          )),
    )

    refused :
        (e : GoError) {events : List Event}
        → target.target_type ≢ str "url"
        → IsRefused codec h ctx e events
        → IsRouted codec h ctx events
    refused e ne why = inr (target, here, inr (inl (ne, (e, why))))

    publish-IsRouted :
        target.target_type ≢ str "url"
        → target.target_type ≡ str "publisher"
        → IsRouted codec h ctx (publish codec h ctx target)
    unfolding publish
    publish-IsRouted ne kind = through h.publisher
      where
        sent :
            (r : Result (Unit {0}))
            → IsRouted codec h ctx (elim r [
              | err e ↦ answer_error codec h ctx e ∷ []
              | ok _ ↦ published target.publisher_id ctx.body ∷ answer_ack codec h ctx ∷ []
            ])
        sent (err e) = refused e ne (answer_error-IsRefused ctx e)
        sent (ok u) = inr (target, here, inl (inr (kind, refl, answer_ack-IsLast ctx)))

        through :
            (p : Option (Str → Str → Result (Unit {0})))
            → IsRouted codec h ctx (elim p [
              | none ↦ answer_nack codec h ctx (errorf (str "publisher plugin not configured")) ∷ []
              | some send ↦ elim (send target.publisher_id ctx.body) [
                | err e ↦ answer_error codec h ctx e ∷ []
                | ok _ ↦ published target.publisher_id ctx.body ∷ answer_ack codec h ctx ∷ []
              ]
            ])
        through none = refused _ ne (answer_nack-IsRefused ctx _)
        through (some send) = sent (send target.publisher_id ctx.body)

    route_message-IsRouted : IsRouted codec h ctx (route_message codec h ctx target)
    unfolding route_message
    route_message-IsRouted = elim (Bool-cases (target.target_type == str "url")) [
      | inl url ↦
          rw url (proxy-IsRouted target.url refl ((==_iff target.target_type (str "url")).0 url))
      | inr other ↦
          let ne : target.target_type ≢ str "url" =
            ground (arith, ==_iff target.target_type (str "url")) in
          elim (Bool-cases (target.target_type == str "publisher")) [
            | inl topic ↦
                rw (other, topic)
                  (publish-IsRouted ne ((==_iff target.target_type (str "publisher")).0 topic))
            | inr unknown ↦ rw (other, unknown) (refused _ ne (answer_nack-IsRefused ctx _))
          ]
    ]

  route_cases :
      (ctx : StepContext) (o : Option Route)
      → ctx.route ≡ o
      → IsRouted codec h ctx (elim o [
        | none ↦ answer_ack codec h ctx ∷ []
        | some target ↦ route_message codec h ctx target
      ])
  route_cases ctx none absent = inl (absent, refl, answer_ack-IsLast ctx)
  route_cases ctx (some target) present = route_message-IsRouted ctx target present

  after_steps-IsServed :
      (start : StepContext) (outcome : Outcome)
      → IsOutcome h.steps start outcome
      → IsServed codec h start (after_steps codec h outcome)
  unfolding after_steps
  after_steps-IsServed start (last, err e) failed =
      inl (last, e, failed, answer_error-IsRefused last e)
  after_steps-IsServed start (last, ok u) ran = inr (last, ran, route_cases last last.route refl)

  -- A request whose body could be read: if a step fails, no step behind it runs, and the one event is
  -- the NACK of its error. If every step succeeds without a route, the one event is the answer of the
  -- response steps. With a route, the body that the steps left goes once to the URL of the route, or is
  -- published once under its name, and one answer follows, which is that of the response steps where
  -- it was published; or nothing goes out, and one NACK is all, on a route that is not of the type
  -- `url`; or the route is of this type without a URL, and the handler panics. Where the error is a
  -- panic, or a response step panics, the panic stands in the place of the answer.
  pub serve_http-IsServed :
      (values : Dict Str) (request : Request) (body : Str) (resp_header : Header)
      → IsServed codec h
          (step_ctx codec h values (with_module_headers codec h request) body resp_header)
          (serve_http codec h values request (ok body) resp_header)
  unfolding serve_http
  serve_http-IsServed values request body resp_header =
      let start = step_ctx codec h values (with_module_headers codec h request) body resp_header in
      after_steps-IsServed start (run_steps h.steps start) (run_steps-IsOutcome h.steps start)
