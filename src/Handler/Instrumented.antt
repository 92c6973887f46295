-- ===== src/Handler/Instrumented.antt =====
-- core/module/handler/step_instrumentor.go: the wrappers round steps and response steps. A step runs on
-- a copy of the step context, of which some fields are written back; the request and the header of
-- the answer are shared with the copy. The metrics, spans and logs themselves are left out.
use beckn_onix.Base.{Bool, true, false}
use beckn_onix.Handler.Steps.{Step}
use beckn_onix.Handler.ResponseSteps.{ResponseStep}

-- `InstrumentedStep.Run`, or the step itself where `GetStepMetrics` fails
unfoldable pub instrumented : Bool → Step → Step
instrumented false step ctx = step ctx
instrumented true step ctx =
    let (ctx', result) = step ctx in
    (
      record ctx {
        values = ctx'.values;
        request = ctx'.request;
        body = ctx'.body;
        route = ctx'.route;
        sub_id = ctx'.sub_id;
        role = ctx'.role;
        resp_header = ctx'.resp_header;
      },
      result,
    )

-- `InstrumentedResponseStep.RunOnResponse`
unfoldable pub instrumented_response : Bool → ResponseStep → ResponseStep
instrumented_response false step ctx response = step ctx response
instrumented_response true step ctx response =
    let (ctx', response', result) = step ctx response in
    (
      record ctx { values = ctx'.values; request = ctx'.request; resp_header = ctx'.resp_header },
      response',
      result,
    )
