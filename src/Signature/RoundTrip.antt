-- ===== src/Signature/RoundTrip.antt =====
-- A validator accepts what the signer signed, in time.
use beckn_onix.Base.{
  ℕ, ◌+◌, ◌/◌, ◌≤◌, ◌<◌, Str, str, ==_iff, pos, int64_max, length, Bool, false, [], ◌≡◌, refl,
  arith, ◌⊎◌,
}
use beckn_onix.Model.Result.{ok}
use beckn_onix.Model.Json.{Codec}
use beckn_onix.Model.Context.{StepContext}
use beckn_onix.Signature.Crypto.{Crypto, IsCrypto}
use beckn_onix.Signature.Signer.{hash, hash_ack, generate_signature, sign, sign_ack}
use beckn_onix.Signature.Header.{generate_auth_header}
use beckn_onix.Signature.Reading.{IsPlain, parse_auth_header-generate_auth_header}
use beckn_onix.Signature.Validator.{
  check_subscriber_identity, expected_caller, verify_or_panic, validate_parsed, validate,
  validate_ack, second,
}
use beckn_onix.Signature.Window.{IsRepresentable, check_timestamp_window_iff}

-- The times of a header fit an int64, were not later than the tolerance allows, and are not over.
pub record IsTimely (now tolerance created expires : ℕ) : Type 0 where
  pub created_fits : created < int64_max
  pub expires_fits : expires < int64_max
  pub representable : IsRepresentable created
  pub not_early : created ≤ (now + tolerance) / second
  pub not_over : now / second ≤ expires

module _ (c : Crypto) (codec : Codec) (public_of : Str → Str) (laws : IsCrypto c public_of) where
  -- The signature over a signing string, in base64.
  abbrev pub signature_of : Str → Str → Str
  signature_of seed message = c.encode_base64 (c.sign_with_seed seed message)

  generate_signature-encode :
      (seed message : Str)
      → length seed ≡ 32
      → generate_signature c message (c.encode_base64 seed) ≡ ok (c.sign_with_seed seed message)
  unfolding generate_signature
  generate_signature-encode seed message h = ground (arith, laws.decode-encode seed)

  check_subscriber_identity-eq :
      (ctx : StepContext) (body signer : Str)
      → (expected_caller c codec ctx body ≡ []) ⊎ (signer ≡ expected_caller c codec ctx body)
      → check_subscriber_identity c codec ctx body signer ≡ ok tt
  unfolding check_subscriber_identity
  check_subscriber_identity-eq ctx body signer h = ground (
    arith,
    ==_iff (expected_caller c codec ctx body) [],
    ==_iff signer (expected_caller c codec ctx body),
  )

  -- The lines that `Validate` and `ValidateAck` share accept a signature over the signing string.
  validate_parsed-signature_of :
      (window_text failed : Str) (now tolerance : ℕ) (ctx : StepContext)
      (body sub seed message : Str) (created expires : ℕ) (check : Bool)
      → IsTimely now tolerance created expires
      → length seed ≡ 32
      → (check ≡ false)
        ⊎ ((expected_caller c codec ctx body ≡ []) ⊎ (sub ≡ expected_caller c codec ctx body))
      → validate_parsed c codec window_text failed now tolerance ctx body
          (record {
            created = pos created;
            expires = pos expires;
            signature = signature_of seed message;
            subscriber_id = sub;
          })
          message
          (c.encode_base64 (public_of seed))
          check
        ≡ ok tt
  unfolding validate_parsed verify_or_panic
  validate_parsed-signature_of window_text failed now tolerance ctx body sub seed message created
        expires check t long who =
      ground (
        arith,
        laws.decode-encode (c.sign_with_seed seed message),
        laws.decode-encode (public_of seed),
        check_timestamp_window_iff window_text now tolerance created expires t.representable,
        t.not_early,
        t.not_over,
        laws.public_length seed long,
        laws.verify-sign seed message long,
        check_subscriber_identity-eq ctx body sub,
      )

  -- A message that `Sign` signed with a seed of 32 bytes, in the header that `generateAuthHeader`
  -- writes, is accepted by `Validate` with the seed's public key, in time, if the subscriber is the
  -- identity the message is held to or there is none or it is not checked.
  pub validate-sign :
      (now tolerance : ℕ) (ctx : StepContext) (sub key seed request_sig : Str) (created expires : ℕ)
      (check : Bool)
      → IsTimely now tolerance created expires
      → length seed ≡ 32
      → IsPlain sub
      → IsPlain key
      → (check ≡ false)
        ⊎ ((expected_caller c codec ctx ctx.body ≡ [])
            ⊎ (sub ≡ expected_caller c codec ctx ctx.body))
      → (signature : Str) × (sign c ctx.body (c.encode_base64 seed) (pos created) (pos expires)
          ≡ ok signature)
        × (validate c codec now tolerance ctx
              (generate_auth_header sub key (pos created) (pos expires) signature request_sig)
              (c.encode_base64 (public_of seed))
              check
            ≡ ok tt)
  unfolding sign validate
  validate-sign now tolerance ctx sub key seed request_sig created expires check t long hs hk who =
      let message : Str = hash c ctx.body (pos created) (pos expires) in
      let raw : Str = c.sign_with_seed seed message in
      (
        signature_of seed message,
        rw (generate_signature-encode seed message long) refl,
        rw
            (parse_auth_header-generate_auth_header sub key (signature_of seed message) request_sig
              created expires hs hk (laws.encode-quote raw) (laws.encode-comma raw)
              (laws.encode-ne-nil raw (laws.sign-ne-nil seed message)) t.created_fits
              t.expires_fits)
            (validate_parsed-signature_of (str "signature") _ now tolerance ctx ctx.body sub seed
              message created expires check t long who),
      )

  -- An answer that `SignAck` signed for a request's signature, in the header that
  -- `generateAuthHeader` writes, is accepted by `ValidateAck` for the same body and request signature
  -- under the same conditions.
  pub validate_ack-sign_ack :
      (now tolerance : ℕ) (ctx : StepContext) (body sub key seed request_sig : Str)
      (created expires : ℕ) (check : Bool)
      → IsTimely now tolerance created expires
      → length seed ≡ 32
      → IsPlain sub
      → IsPlain key
      → (check ≡ false)
        ⊎ ((expected_caller c codec ctx body ≡ []) ⊎ (sub ≡ expected_caller c codec ctx body))
      → (signature : Str) × (sign_ack c body request_sig
            (c.encode_base64 seed)
            (pos created)
            (pos expires)
          ≡ ok signature)
        × (validate_ack c codec now tolerance ctx body
              (generate_auth_header sub key (pos created) (pos expires) signature request_sig)
              request_sig
              (c.encode_base64 (public_of seed))
              check
            ≡ ok tt)
  unfolding sign_ack validate_ack
  validate_ack-sign_ack now tolerance ctx body sub key seed request_sig created expires check t long
        hs hk who =
      let message : Str = hash_ack c body (pos created) (pos expires) request_sig in
      let raw : Str = c.sign_with_seed seed message in
      (
        signature_of seed message,
        rw (generate_signature-encode seed message long) refl,
        rw
            (parse_auth_header-generate_auth_header sub key (signature_of seed message) request_sig
              created expires hs hk (laws.encode-quote raw) (laws.encode-comma raw)
              (laws.encode-ne-nil raw (laws.sign-ne-nil seed message)) t.created_fits
              t.expires_fits)
            (validate_parsed-signature_of (str "AckSignature") _ now tolerance ctx body sub seed
              message created expires check t long who),
      )
