-- ===== src/Model/Error.antt =====
-- pkg/model/error.go. Go's `error` is the type `GoError`: a constructor for each error type that
-- the handler tells apart, one for an error that wraps nothing (`errorf`) and one for
-- `fmt.Errorf("…%w", err)` (`wrapf`). A nil error or pointer is the first constructor of `Cause`,
-- `Details` and `OptError`.
pub mod Laws
use Prim.Native.Nat.{ℕ}
use beckn_onix.Base.{
  Str, str, ◌==◌, ltb, Bool, true, false, ◌||◌, List, [], ◌∷◌, ◌++◌, Option, none, some,
  if◌then◌else◌, is_some,
}

-- model.go: `Status`
pub data Status : Type 0 where
  status_ack status_nack : Status

pub status_text : Status → Str
status_text status_ack = str "ACK"
status_text status_nack = str "NACK"

mutual
  -- `Error`: code, message, details, cause
  pub data BecknError : Type 0 where
    new_error : Str → Str → Details → Cause → BecknError

  -- `*ErrorDetails`: path, cause
  pub data Details : Type 0 where
    no_details : Details
    details : Str → OptError → Details

  -- `*Error`
  pub data OptError : Type 0 where
    no_error : OptError
    an_error : BecknError → OptError

  -- `coded_err code http_status prefix default_code cause` is a `*CodedErr`; `beckn_errorer text
  -- payload cause` is any other type with a method `BecknError`. `panic` is no error of Go's: it
  -- stands for a panic, which travels up through all callers, whatever they wrap it in.
  pub data GoError : Type 0 where
    errorf : Str → GoError
    wrapf : Str → GoError → GoError
    schema_validation_err : Errors → GoError
    coded_err : Str → ℕ → Str → Str → Cause → GoError
    ack_no_callback_err : Status → BecknError → GoError
    beckn_error : BecknError → GoError
    beckn_errorer : Str → BecknError → Cause → GoError
    panic : Str → GoError

  -- an `error`, which may be nil
  pub data Cause : Type 0 where
    no_cause : Cause
    caused_by : GoError → Cause

  -- `[]Error`
  pub data Errors : Type 0 where
    no_errors : Errors
    more_errors : BecknError → Errors → Errors

unfoldable pub code_of : BecknError → Str
code_of (new_error code message d c) = code

unfoldable pub message_of : BecknError → Str
message_of (new_error code message d c) = message

unfoldable pub details_of : BecknError → Details
details_of (new_error code message d c) = d

unfoldable pub new_coded_error : Str → Str → BecknError
new_coded_error code message = new_error code message no_details no_cause

unfoldable pub new_coded_error_with_cause : Str → Str → Str → Cause → BecknError
new_coded_error_with_cause code message path cause =
    new_error code message (if path == [] then no_details else details path no_error) cause

-- the method `path`
unfoldable pub path_of : BecknError → Str
path_of (new_error code message no_details cause) = []
path_of (new_error code message (details path c) cause) = path

-- `strings.Join`
unfoldable pub join : Str → List Str → Str
join sep [] = []
join sep (s ∷ []) = s
join sep (s ∷ t ∷ rest) = s ++ (sep ++ join sep (t ∷ rest))

unfoldable pub paths : Errors → List Str
unfolding path_of
paths no_errors = []
paths (more_errors e rest) = path_of e ∷ paths rest

unfoldable pub messages : Errors → List Str
unfolding message_of
messages no_errors = []
messages (more_errors e rest) = message_of e ∷ messages rest

unfoldable pub schema_lines : Errors → List Str
unfolding path_of message_of
schema_lines no_errors = []
schema_lines (more_errors e rest) = (path_of e ++ (str ": " ++ message_of e)) ∷ schema_lines rest

-- `Error.Error`
unfoldable pub beckn_error_text : BecknError → Str
unfolding code_of path_of message_of
beckn_error_text e =
    str "Error: Code="
    ++ (code_of e ++ (str ", Path=" ++ (path_of e ++ (str ", Message=" ++ message_of e))))

-- The method `Error` of each error type; a `CodedErr` without a cause has the empty text.
unfoldable mutual
  unfolding schema_lines beckn_error_text join status_text

  pub error_text : GoError → Str
  error_text (errorf text) = text
  error_text (wrapf prefix e) = prefix ++ error_text e
  error_text (schema_validation_err es) = join (str "; ") (schema_lines es)
  error_text (coded_err code status prefix default_code cause) = cause_text cause
  error_text (ack_no_callback_err s e) =
      str "AckNoCallback(status=" ++ (status_text s ++ (str "): " ++ beckn_error_text e))
  error_text (beckn_error e) = beckn_error_text e
  error_text (beckn_errorer text e cause) = text
  error_text (panic text) = text

  pub cause_text : Cause → Str
  cause_text no_cause = []
  cause_text (caused_by e) = error_text e

-- The errors that `errors.As` visits: the error, then what the `Unwrap` methods give.
unfoldable mutual
  pub chain : GoError → List GoError
  chain (errorf text) = errorf text ∷ []
  chain (wrapf prefix e) = wrapf prefix e ∷ chain e
  chain (schema_validation_err es) = schema_validation_err es ∷ []
  chain (coded_err code status prefix default_code cause) =
      coded_err code status prefix default_code cause ∷ chain_cause cause
  chain (ack_no_callback_err s e) = ack_no_callback_err s e ∷ []
  chain (beckn_error (new_error code message d cause)) =
      beckn_error (new_error code message d cause) ∷ chain_cause cause
  chain (beckn_errorer text e cause) = beckn_errorer text e cause ∷ chain_cause cause
  chain (panic text) = panic text ∷ []

  pub chain_cause : Cause → List GoError
  chain_cause no_cause = []
  chain_cause (caused_by e) = chain e

unfoldable pub first_match {ℓ} : {A : Type ℓ} → (GoError → Option A) → List GoError → Option A
first_match f [] = none
first_match f (e ∷ rest) =
    let later = first_match f rest in elim (f e) [ none ↦ later | some a ↦ some a ]

-- `errors.As(err, &target)`, with the target's type as a test
unfoldable pub errors_as {ℓ} : {A : Type ℓ} → (GoError → Option A) → GoError → Option A
unfolding chain first_match
errors_as f e = first_match f (chain e)

-- The call has panicked.
unfoldable pub is_panic : GoError → Bool
unfolding errors_as
is_panic e = is_some (errors_as (λ x. elim x [ panic text ↦ some text | _ ↦ none ]) e)

abbrev pub default_schema_validation_code : Str
default_schema_validation_code = str "SCH_INVALID_FORMAT"

abbrev pub default_unclassified_code : Str
default_unclassified_code = str "NET_INTERNAL_ERROR"

abbrev pub default_sign_validation_code : Str
default_sign_validation_code = str "AUT_SIGNATURE_INVALID"

abbrev pub default_bad_req_code : Str
default_bad_req_code = str "SCH_INVALID_FORMAT"

abbrev pub default_not_found_code : Str
default_not_found_code = str "NET_ENTITY_NOT_FOUND"

unfoldable pub first_non_empty_code : Errors → Str → Str
unfolding code_of
first_non_empty_code no_errors default_code = default_code
first_non_empty_code (more_errors e rest) default_code =
    if code_of e == [] then first_non_empty_code rest default_code else code_of e

abbrev has_path : List Str → Bool
has_path [] = false
has_path (p ∷ ps) = (if p == [] then false else true) || has_path ps

-- `SchemaValidationErr.BecknError`
unfoldable pub schema_beckn_error : Errors → BecknError
unfolding first_non_empty_code join paths messages
schema_beckn_error no_errors =
    new_error default_schema_validation_code (str "Schema validation error.") no_details no_cause
schema_beckn_error (more_errors e rest) =
    let es = more_errors e rest in
    new_error (first_non_empty_code es default_schema_validation_code)
      (join (str "; ") (messages es))
      (if has_path (paths es) then details (join (str ";") (paths es)) no_error else no_details)
      no_cause

-- The constructors of `CodedErr`.
unfoldable pub new_coded_err : ℕ → Str → Cause → GoError
new_coded_err http_status code err = coded_err code http_status [] default_unclassified_code err

unfoldable pub new_sign_validation_err : Str → Cause → GoError
new_sign_validation_err code err =
    coded_err code 401 (str "Signature Validation Error: ") default_sign_validation_code err

unfoldable pub new_bad_req_err : Str → Cause → GoError
new_bad_req_err code err = coded_err code 400 (str "BAD Request: ") default_bad_req_code err

unfoldable pub new_not_found_err : Str → Cause → GoError
new_not_found_err code err =
    coded_err code 404 (str "Endpoint not found: ") default_not_found_code err

-- `CodedErr.HTTPStatus`
unfoldable pub http_status_of : ℕ → ℕ
http_status_of http_status = if ltb http_status 400 || ltb 599 http_status then 400 else http_status

-- `CodedErr.resolveCode`
unfoldable pub resolve_code : Str → Str → Str
resolve_code code default_code =
    if code == []
    then (if default_code == [] then default_unclassified_code else default_code)
    else code

-- `CodedErr.BecknError`
unfoldable pub coded_beckn_error : Str → Str → Str → Cause → BecknError
unfolding resolve_code
coded_beckn_error code prefix default_code cause =
    new_error (resolve_code code default_code) (prefix ++ cause_text cause) no_details no_cause
