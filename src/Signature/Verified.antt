-- ===== src/Signature/Verified.antt =====
-- What a validator has established about a message that it accepts.
use beckn_onix.Base.{
  ℕ, Str, str, ==_iff, length, Bool, true, false, [], ◌≡◌, ◌≢◌, arith, if◌then◌else◌,
}
use beckn_onix.Model.Result.{Result, ok, err, or_wrap, >>=-eq-ok}
use beckn_onix.Model.Json.{Codec}
use beckn_onix.Model.Context.{StepContext}
use beckn_onix.Signature.Crypto.{Crypto}
use beckn_onix.Signature.Signer.{hash, hash_ack}
use beckn_onix.Signature.Header.{Parsed, parse_auth_header}
use beckn_onix.Signature.Validator.{
  check_timestamp_window, check_subscriber_identity, expected_caller, undecodable, verify_or_panic,
  validate_parsed, validate, validate_ack,
}

module _ (c : Crypto) (codec : Codec) where
  undecodable-eq-ok :
      {A : Type 0} (text : Str) (r : Result A) {a : A}
      → undecodable c codec text r ≡ ok a
      → r ≡ ok a
  undecodable-eq-ok text (ok a) h = h
  undecodable-eq-ok text (err e) h = cc

  or_wrap-ok : {A : Type 0} (text : Str) (r : Result A) {a : A} → or_wrap text r ≡ ok a → r ≡ ok a
  or_wrap-ok text (ok a) h = h
  or_wrap-ok text (err e) h = cc

  -- What the lines that `Validate` and `ValidateAck` share have established when they accept.
  pub record IsVerified (window_text : Str) (now tolerance : ℕ) (ctx : StepContext) (body : Str)
      (parsed : Parsed) (signing_string public_key : Str) (check_identity : Bool) : Type 0 where
    pub signature : Str
    pub key : Str
    pub signature_eq : c.decode_base64 parsed.signature ≡ ok signature
    pub key_eq : c.decode_base64 public_key ≡ ok key
    pub in_window :
        check_timestamp_window window_text now tolerance parsed.created parsed.expires ≡ ok tt
    pub key_length : length key ≡ 32
    pub verified : c.verify key signing_string signature ≡ true
    pub identity :
        check_identity ≡ true
        → expected_caller c codec ctx body ≢ []
        → parsed.subscriber_id ≡ expected_caller c codec ctx body

  verify_or_panic-ok :
      (text key message signature : Str)
      → verify_or_panic c codec text key message signature ≡ ok tt
      → (length key ≡ 32) × (c.verify key message signature ≡ true)
  unfolding verify_or_panic
  verify_or_panic-ok text key message signature h = ground arith

  check_subscriber_identity-ok :
      (ctx : StepContext) (body signer : Str)
      → check_subscriber_identity c codec ctx body signer ≡ ok tt
      → expected_caller c codec ctx body ≢ []
      → signer ≡ expected_caller c codec ctx body
  unfolding check_subscriber_identity
  check_subscriber_identity-ok ctx body signer h ne = ground (
    arith,
    ==_iff (expected_caller c codec ctx body) [],
    ==_iff signer (expected_caller c codec ctx body),
  )

  identity-ok :
      (ctx : StepContext) (body signer : Str) (check : Bool)
      → (if check then check_subscriber_identity c codec ctx body signer else ok tt) ≡ ok tt
      → check ≡ true
      → expected_caller c codec ctx body ≢ []
      → signer ≡ expected_caller c codec ctx body
  identity-ok ctx body signer true h e ne = check_subscriber_identity-ok ctx body signer h ne
  identity-ok ctx body signer false h e ne = cc

  validate_parsed-IsVerified :
      (window_text failed : Str) (now tolerance : ℕ) (ctx : StepContext) (body : Str)
      (parsed : Parsed) (signing_string public_key : Str) (check : Bool)
      → validate_parsed c codec window_text failed now tolerance ctx body parsed signing_string
          public_key check
        ≡ ok tt
      → IsVerified window_text now tolerance ctx body parsed signing_string public_key check
  unfolding validate_parsed
  validate_parsed-IsVerified window_text failed now tolerance ctx body parsed signing_string
        public_key check h =
      let (signature, e₁, h₁) =
        >>=-eq-ok (undecodable c codec _ (c.decode_base64 parsed.signature)) _ h in
      let (_, e₂, h₂) =
        >>=-eq-ok (check_timestamp_window window_text now tolerance parsed.created parsed.expires) _
          h₁ in
      let (key, e₃, h₃) = >>=-eq-ok (undecodable c codec _ (c.decode_base64 public_key)) _ h₂ in
      let (_, e₄, h₄) =
        >>=-eq-ok (verify_or_panic c codec failed key signing_string signature) _ h₃ in
      let (long, verified) = verify_or_panic-ok failed key signing_string signature e₄ in
      record {
        signature = signature;
        key = key;
        signature_eq = undecodable-eq-ok _ _ e₁;
        key_eq = undecodable-eq-ok _ _ e₃;
        in_window = e₂;
        key_length = long;
        verified = verified;
        identity = identity-ok ctx body parsed.subscriber_id check h₄;
      }

  -- `Validate` accepts a message only if its header can be parsed, the window of times holds, the key
  -- has 32 bytes and verifies the signature over the signing string of this body with the header's
  -- times, and, where the identity is checked and one is declared, the signer is that identity.
  pub validate-IsVerified :
      (now tolerance : ℕ) (ctx : StepContext) (header public_key : Str) (check : Bool)
      → validate c codec now tolerance ctx header public_key check ≡ ok tt
      → (parsed : Parsed) × (parse_auth_header header ≡ ok parsed)
        × IsVerified
            (str "signature")
            now
            tolerance
            ctx
            ctx.body
            parsed
            (hash c ctx.body parsed.created parsed.expires)
            public_key
            check
  unfolding validate
  validate-IsVerified now tolerance ctx header public_key check h =
      let (parsed, e, h₁) = >>=-eq-ok (or_wrap _ (parse_auth_header header)) _ h in
      (
        parsed,
        or_wrap-ok _ _ e,
        validate_parsed-IsVerified _ _ now tolerance ctx ctx.body parsed _ public_key check h₁,
      )

  -- `ValidateAck` accepts an answer only under the same conditions, the signing string being that of
  -- the answer's body and the signature of the request that was sent.
  pub validate_ack-IsVerified :
      (now tolerance : ℕ) (ctx : StepContext) (body header outbound public_key : Str) (check : Bool)
      → validate_ack c codec now tolerance ctx body header outbound public_key check ≡ ok tt
      → (parsed : Parsed) × (parse_auth_header header ≡ ok parsed)
        × IsVerified
            (str "AckSignature")
            now
            tolerance
            ctx
            body
            parsed
            (hash_ack c body parsed.created parsed.expires outbound)
            public_key
            check
  unfolding validate_ack
  validate_ack-IsVerified now tolerance ctx body header outbound public_key check h =
      let (parsed, e, h₁) = >>=-eq-ok (or_wrap _ (parse_auth_header header)) _ h in
      (
        parsed,
        or_wrap-ok _ _ e,
        validate_parsed-IsVerified _ _ now tolerance ctx body parsed _ public_key check h₁,
      )
