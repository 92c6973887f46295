-- ===== src/Signature/Validator.antt =====
-- pkg/plugin/implementation/signvalidator/signvalidator.go. Times are nanoseconds since 1970, as
-- `time.Now()` gives them; `now` and the tolerance are arguments.
use beckn_onix.Base.{
  ℕ, suc, ◌+◌, ◌-◌, ◌/◌, ◌^◌, Str, str, ◌==◌, ltb, eqb, not, ℤ, pos, negsuc, lt_int, length, Bool,
  [], ◌++◌, none, some, if◌then◌else◌,
}
use beckn_onix.Model.Error.{panic, errorf, new_sign_validation_err, caused_by}
use beckn_onix.Model.Result.{Result, ok, err, ◌>>=◌, ◌>>◌, or_wrap, fail_if}
use beckn_onix.Model.Json.{Codec}
use beckn_onix.Model.Version.{resolve_caller_id}
use beckn_onix.Model.Context.{StepContext, value}
use beckn_onix.Signature.Crypto.{Crypto}
use beckn_onix.Signature.Signer.{hash, hash_ack}
use beckn_onix.Signature.Header.{Parsed, parse_auth_header, invalid_signature}

abbrev pub second : ℕ
second = 1_000_000_000

-- The seconds from the year 1 to 1970, which package `time` adds to a Unix time.
abbrev pub unix_to_internal : ℕ
unix_to_internal = 62_135_596_800

-- The int64 sum of a timestamp and that offset: above 2⁶³ - 1 it wraps to a negative number.
unfoldable pub internal_seconds : ℤ → ℤ
internal_seconds (pos n) =
    if ltb (n + unix_to_internal) (2 ^ 63)
    then pos (n + unix_to_internal)
    else negsuc (2 ^ 64 - (n + unix_to_internal) - 1)
internal_seconds (negsuc n) =
    if ltb n unix_to_internal then pos (unix_to_internal - suc n) else negsuc (n - unix_to_internal)

-- `time.Unix(t, 0).After(deadline)`
unfoldable pub is_after : ℤ → ℕ → Bool
is_after t deadline = lt_int (pos (deadline / second + unix_to_internal)) (internal_seconds t)

-- `checkTimestampWindow`
unfoldable pub check_timestamp_window : Str → ℕ → ℕ → ℤ → ℤ → Result (Unit {0})
check_timestamp_window prefix now tolerance created expired = do
  fail_if (is_after created (now + tolerance)) (invalid_signature (prefix ++ str " not yet valid"))
  fail_if (lt_int expired (pos (now / second))) (invalid_signature (prefix ++ str " expired"))

module _ (c : Crypto) (codec : Codec) where
  -- The caller that the body declares, or "".
  unfoldable pub declared_caller : StepContext → Str → Str
  declared_caller ctx body = elim (codec.unmarshal_context body) [
    | err e ↦ []
    | ok none ↦ []
    | ok (some m) ↦ resolve_caller_id m ctx.role
  ]

  -- The identity that the message is held to: the remote of the context, or the declared caller.
  unfoldable pub expected_caller : StepContext → Str → Str
  expected_caller ctx body =
      let remote = value ctx.values (str "remote_id") in
      if remote == [] then declared_caller ctx body else remote

  -- `checkSubscriberIdentity`
  unfoldable pub check_subscriber_identity : StepContext → Str → Str → Result (Unit {0})
  check_subscriber_identity ctx body signer_id =
      let expected = expected_caller ctx body in
      if expected == []
      then ok tt
      else fail_if (not (signer_id == expected)) (
          new_sign_validation_err (str "AUT_UNAUTHORIZED_ACTION") (
            caused_by (
              errorf (
                str "subscriber identity mismatch: signing subscriber "
                ++ (signer_id ++ (str " does not match declared context identity " ++ expected))))))

  abbrev pub undecodable : {A : Type 0} → Str → Result A → Result A
  undecodable text (ok a) = ok a
  undecodable text (err e) = err (invalid_signature text)

  -- `ed25519.Verify`, which panics on a public key that has not 32 bytes
  unfoldable pub verify_or_panic : Str → Str → Str → Str → Result (Unit {0})
  verify_or_panic text key message signature = do
    fail_if (not (eqb (length key) 32)) (panic (str "ed25519: bad public key length"))
    fail_if (not (c.verify key message signature)) (invalid_signature text)

  -- The lines that `Validate` and `ValidateAck` share: decode, check the window, verify, compare.
  unfoldable pub validate_parsed :
      Str → Str → ℕ → ℕ → StepContext → Str → Parsed → Str → Str → Bool → Result (Unit {0})
  validate_parsed window_text failed now tolerance ctx body parsed signing_string public_key
        check_identity =
      do
        signature ← undecodable (str "error decoding signature") (c.decode_base64 parsed.signature)
        check_timestamp_window window_text now tolerance parsed.created parsed.expires
        key ← undecodable (str "error decoding public key") (c.decode_base64 public_key)
        verify_or_panic failed key signing_string signature
        if check_identity then check_subscriber_identity ctx body parsed.subscriber_id else ok tt

  -- `Validate`
  unfoldable pub validate : ℕ → ℕ → StepContext → Str → Str → Bool → Result (Unit {0})
  validate now tolerance ctx header public_key check_identity = do
    parsed ← or_wrap (str "error parsing header: ") (parse_auth_header header)
    validate_parsed (str "signature") (str "signature verification failed") now tolerance ctx
        ctx.body parsed (hash c ctx.body parsed.created parsed.expires) public_key check_identity

  -- `ValidateAck`
  unfoldable pub validate_ack :
      ℕ → ℕ → StepContext → Str → Str → Str → Str → Bool → Result (Unit {0})
  validate_ack now tolerance ctx body header outbound_auth_signature public_key check_identity = do
    parsed ← or_wrap (str "error parsing Signature header: ") (parse_auth_header header)
    validate_parsed (str "AckSignature") (str "AckSignature verification failed") now tolerance ctx
        body parsed (hash_ack c body parsed.created parsed.expires outbound_auth_signature)
        public_key check_identity
