-- ===== src/Model/Error/Laws.antt =====
-- What the error types put on the wire.
use beckn_onix.Base.{Str, str, [], ◌≢◌, arith, ℕ, ◌≤◌}
use beckn_onix.Base.Strings.Laws.{==_iff}
use beckn_onix.Model.Error.{
  Cause, Errors, no_errors, more_errors, code_of, http_status_of, coded_beckn_error,
  schema_beckn_error, first_non_empty_code, default_unclassified_code,
  default_schema_validation_code,
}

-- A coded error answers with a status from 400 to 599.
pub http_status_of_bounds : (n : ℕ) → (400 ≤ http_status_of n) × (http_status_of n ≤ 599)
unfolding http_status_of
http_status_of_bounds n = ground arith

unclassified-ne-nil : default_unclassified_code ≢ []
unfolding str
unclassified-ne-nil = cc

schema-ne-nil : default_schema_validation_code ≢ []
unfolding str
schema-ne-nil = cc

-- The code of a coded error on the wire is not empty.
pub coded_beckn_error-code_ne_nil :
    (code prefix default_code : Str) (cause : Cause)
    → code_of (coded_beckn_error code prefix default_code cause) ≢ []
unfolding coded_beckn_error code_of
coded_beckn_error-code_ne_nil code prefix default_code cause =
    ground (arith, ==_iff code [], ==_iff default_code [], unclassified-ne-nil)

first_non_empty_code-ne-nil : (es : Errors) (d : Str) → d ≢ [] → first_non_empty_code es d ≢ []
unfolding first_non_empty_code
first_non_empty_code-ne-nil no_errors d h = h
first_non_empty_code-ne-nil (more_errors e rest) d h =
    ground (arith, ==_iff (code_of e) [], first_non_empty_code-ne-nil rest d h)

-- Nor is that of a schema validation error.
pub schema_beckn_error-code_ne_nil : (es : Errors) → code_of (schema_beckn_error es) ≢ []
unfolding schema_beckn_error code_of
schema_beckn_error-code_ne_nil no_errors = schema-ne-nil
schema_beckn_error-code_ne_nil (more_errors e rest) =
    first_non_empty_code-ne-nil (more_errors e rest) _ schema-ne-nil
