-- ===== src/Handler/Responses.antt =====
-- core/module/handler/responsestep.go: the bodies and statuses of synchronous responses.
use beckn_onix.Base.{
  ℕ, Str, str, Dict, lookup, Bool, ◌++◌, Option, none, some, get_or, if◌then◌else◌,
}
use beckn_onix.Model.Error.{
  BecknError, new_error, no_details, no_cause, Status, status_ack, status_nack, GoError,
  schema_validation_err, coded_err, ack_no_callback_err, beckn_errorer, Errors, errors_as,
  schema_beckn_error, coded_beckn_error, http_status_of,
}
use beckn_onix.Model.Json.{Codec, v2_response, pre_v2_response}
use beckn_onix.Model.Version.{is_at_least_v2}
use beckn_onix.Model.Context.{value, Header, set}

-- `isAtLeastV2`, from the values of the Go context
unfoldable pub is_v2 : Dict Str → Bool
is_v2 values = is_at_least_v2 (value values (str "protocol_version"))

-- `msgID`
unfoldable pub msg_id : Dict Str → Str
msg_id values = value values (str "message_id")

-- `internalServerError`; `%s` of a value that is missing is `%!s(<nil>)`
unfoldable pub internal_server_error : Dict Str → BecknError
internal_server_error values =
    new_error (str "NET_INTERNAL_ERROR")
      (str "Internal server error, MessageID: "
        ++ get_or (lookup (str "message_id") values) (str "%!s(<nil>)"))
      no_details no_cause

-- The tests of `errors.As` for the four targets of `nackBecknError`.
unfoldable pub as_schema : GoError → Option Errors
as_schema e = elim e [ schema_validation_err es ↦ some es | _ ↦ none ]

unfoldable pub as_coded : GoError → Option (BecknError × ℕ)
as_coded e = elim e [
  | coded_err code status prefix default_code cause ↦
      some (coded_beckn_error code prefix default_code cause, status)
  | _ ↦ none
]

unfoldable pub as_ack_no_callback : GoError → Option (BecknError × Status)
as_ack_no_callback e = elim e [ ack_no_callback_err s b ↦ some (b, s) | _ ↦ none ]

unfoldable pub as_beckn_errorer : GoError → Option BecknError
as_beckn_errorer e = elim e [
  | schema_validation_err es ↦ some (schema_beckn_error es)
  | coded_err code status prefix default_code cause ↦
      some (coded_beckn_error code prefix default_code cause)
  | ack_no_callback_err s b ↦ some b
  | beckn_errorer text b cause ↦ some b
  | _ ↦ none
]

-- What `nackBecknError` returns.
pub record Nack : Type 0 where
  pub error : BecknError
  pub http_status : ℕ
  pub status : Status

unfoldable pub internal_nack : Dict Str → Nack
internal_nack values = record {
  error = internal_server_error values;
  http_status = 500;
  status = status_nack;
}

-- The last two cases.
unfoldable pub nack_of_errorer : Dict Str → Option BecknError → Nack
nack_of_errorer values none = internal_nack values
nack_of_errorer values (some b) = record { error = b; http_status = 400; status = status_nack }

-- The case of `AckNoCallbackErr`, and what follows it.
unfoldable pub nack_of_ack : Dict Str → Option (BecknError × Status) → Option BecknError → Nack
nack_of_ack values none errorer = nack_of_errorer values errorer
nack_of_ack values (some (b, s)) errorer =
    if is_v2 values
    then record { error = b; http_status = 202; status = s }
    else internal_nack values

-- The case of `CodedErr`, and what follows it.
unfoldable pub nack_of_coded :
    Dict Str → Option (BecknError × ℕ) → Option (BecknError × Status) → Option BecknError → Nack
nack_of_coded values none ack errorer = nack_of_ack values ack errorer
nack_of_coded values (some (b, n)) ack errorer = record {
  error = b;
  http_status = http_status_of n;
  status = status_nack;
}

unfoldable pub nack_of_schema :
    Dict Str
    → Option Errors
    → Option (BecknError × ℕ)
    → Option (BecknError × Status)
    → Option BecknError
    → Nack
nack_of_schema values none coded ack errorer = nack_of_coded values coded ack errorer
nack_of_schema values (some es) coded ack errorer = record {
  error = schema_beckn_error es;
  http_status = 400;
  status = status_nack;
}

-- `nackBecknError`
unfoldable pub nack_beckn_error : Dict Str → GoError → Nack
nack_beckn_error values err =
    nack_of_schema values (errors_as as_schema err) (errors_as as_coded err)
      (errors_as as_ack_no_callback err) (errors_as as_beckn_errorer err)

-- What is written: the status, the headers at that time, and the body.
pub record Answer : Type 0 where
  pub status_code : ℕ
  pub header : Header
  pub body : Str

abbrev content_type : Header → Header
content_type header = set header (str "Content-Type") (str "application/json")

module _ (codec : Codec) where
  -- The body that `sendAck` marshals.
  unfoldable pub ack_body_bytes : Dict Str → Str
  ack_body_bytes values =
      if is_v2 values
      then codec.marshal_response (v2_response status_ack (msg_id values) none)
      else codec.marshal_response (pre_v2_response status_ack none)

  -- `sendAck`
  unfoldable pub send_ack : Dict Str → Header → Answer
  send_ack values header = record {
    status_code = 200;
    header = content_type header;
    body = ack_body_bytes values;
  }

  -- `nackBodyBytes`
  unfoldable pub nack_body_bytes : Dict Str → BecknError → Status → Str
  nack_body_bytes values error status =
      if is_v2 values
      then codec.marshal_response (v2_response status (msg_id values) (some error))
      else codec.marshal_response (pre_v2_response status (some error))

  -- `nackBytes`
  unfoldable pub nack_bytes : Dict Str → GoError → Str
  nack_bytes values err =
      let n = nack_beckn_error values err in nack_body_bytes values n.error n.status

  -- `nack`
  unfoldable pub nack : Dict Str → Header → BecknError → ℕ → Status → Answer
  nack values header error http_status status = record {
    status_code = http_status;
    header = content_type header;
    body = nack_body_bytes values error status;
  }

  -- `sendNack`
  unfoldable pub send_nack : Dict Str → Header → GoError → Answer
  send_nack values header err =
      let n = nack_beckn_error values err in nack values header n.error n.http_status n.status

  -- `buildAckBody`
  unfoldable pub build_ack_body : Str → Str
  build_ack_body message_id = codec.marshal_response (v2_response status_ack message_id none)
