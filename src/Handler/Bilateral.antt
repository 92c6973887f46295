-- ===== src/Handler/Bilateral.antt =====
-- The two ends of an exchange: what `signAck` signs on the receiver's side, `validateAckSign` verifies
-- on the caller's.
use beckn_onix.Base.{
  ℕ, ℤ, ◌+◌, ◌*◌, ◌/◌, Str, str, ◌==◌, false, [], ◌∷◌, ◌≡◌, ◌≢◌, refl, ap, sym, ◌∙◌, inl, length,
  IsVisible,
}
use beckn_onix.Model.Result.{ok-injective, ok}
use beckn_onix.Model.Json.{Codec}
use beckn_onix.Model.Context.{StepContext, ResponseStepContext, get, auth_header_subscriber}
use beckn_onix.Signature.Crypto.{Crypto, IsCrypto}
use beckn_onix.Signature.Signer.{sign, sign_ack}
use beckn_onix.Signature.Header.{
  build_signature_header, generate_auth_header, extract_auth_signature,
}
use beckn_onix.Signature.Reading.{IsPlain}
use beckn_onix.Signature.Extracting.{build_signature_header_eq, parse_header-generate_auth_header}
use beckn_onix.Signature.Validator.{validate, validate_ack, second}
use beckn_onix.Signature.RoundTrip.{IsTimely, validate_ack-sign_ack}
use beckn_onix.Handler.Interfaces.{Keyset, KeyManager, Signer, SignValidator}
use beckn_onix.Handler.Steps.{created_at, valid_till}
use beckn_onix.Handler.ResponseSteps.{verify_response}
use beckn_onix.Handler.Signing.{IsSignedBy}

-- The signer and the validator of pkg/plugin/implementation, as plugins.
abbrev pub plugin_signer : Crypto → Signer
plugin_signer c = record { sign = sign c; sign_ack = sign_ack c }

abbrev pub plugin_validator : Crypto → Codec → ℕ → ℕ → SignValidator
plugin_validator c codec now tolerance = record {
  validate = validate c codec now tolerance;
  validate_ack = validate_ack c codec now tolerance;
}

header-ne-nil :
    (sub key : Str) (created expires : ℤ) (sig request_sig : Str)
    → (generate_auth_header sub key created expires sig request_sig == []) ≡ false
unfolding generate_auth_header str ◌==◌
header-ne-nil sub key created expires sig request_sig = refl

module _ (c : Crypto) (codec : Codec) (public_of : Str → Str) (laws : IsCrypto c public_of) where
  -- An answer that the receiver's signer signed is verified by the caller: its signature binds the
  -- signature of the caller's request, which is not empty, the receiver's key is a seed of 32 bytes
  -- whose public key the caller's key manager knows, its identifiers are plain, the subscriber beginning
  -- with a visible character, and it arrives in time.
  pub verify_response-IsSignedBy :
      (now later clock tolerance : ℕ) (receiver_km caller_km : KeyManager)
      (receiver caller : StepContext) (r : ResponseStepContext) (v : ℕ) (sub key seed : Str)
      → receiver.sub_id ≡ v ∷ sub
      → receiver_km.keyset (v ∷ sub)
        ≡ ok (record { unique_key_id = key; signing_private = c.encode_base64 seed })
      → caller_km.lookup_np_keys (v ∷ sub) key ≡ ok (c.encode_base64 (public_of seed))
      → length seed ≡ 32
      → IsVisible v
      → IsPlain (v ∷ sub)
      → IsPlain key
      → IsTimely clock tolerance (now / second) ((later + 300 * second) / second)
      → extract_auth_signature (get caller.request.header auth_header_subscriber)
        ≡ receiver.inbound_auth_signature
      → receiver.inbound_auth_signature ≢ []
      → IsSignedBy
          (record { signer = plugin_signer c; km = receiver_km; now = now; later = later })
          receiver
          r.body
          (get r.header (str "Signature"))
      → verify_response (plugin_validator c codec clock tolerance) caller_km caller r ≡ ok tt
  unfolding verify_response
  verify_response-IsSignedBy now later clock tolerance receiver_km caller_km receiver caller r v sub
        key seed named keyed known long visible plain plain_key timely bound ne by =
      let (signature, signed, accepted) =
        validate_ack-sign_ack c codec public_of laws clock tolerance caller r.body (v ∷ sub) key
          seed receiver.inbound_auth_signature (now / second) ((later + 300 * second) / second)
          false timely long plain plain_key (inl refl) in
      let keys : Keyset = record { unique_key_id = key; signing_private = c.encode_base64 seed } in
      let same_keys : by.keys ≡ keys =
        ok-injective (sym by.keys_eq ∙ (ap receiver_km.keyset named ∙ keyed)) in
      let same_signature : by.signature ≡ signature = ok-injective (
        sym by.signature_eq
        ∙ (ap
              (λ (k : Keyset).
                sign_ack c r.body receiver.inbound_auth_signature k.signing_private (created_at now)
                  (valid_till later))
              same_keys
            ∙ signed)) in
      let written : get r.header (str "Signature")
          ≡ generate_auth_header (v ∷ sub) key (created_at now) (valid_till later) signature
              receiver.inbound_auth_signature =
        by.header_eq
        ∙ (ap
              (λ s.
                build_signature_header s by.keys.unique_key_id (created_at now) (valid_till later)
                  by.signature)
              named
            ∙ (ap
                  (λ (k : Keyset).
                    build_signature_header (v ∷ sub) k.unique_key_id (created_at now)
                      (valid_till later) by.signature)
                  same_keys
                ∙ (ap
                      (λ s.
                        build_signature_header (v ∷ sub) key (created_at now) (valid_till later) s)
                      same_signature
                    ∙ build_signature_header_eq (v ∷ sub) key signature
                        receiver.inbound_auth_signature (created_at now) (valid_till later) ne))) in
      let read =
        parse_header-generate_auth_header v sub key signature receiver.inbound_auth_signature
          (now / second) ((later + 300 * second) / second) visible plain plain_key in
      let present =
        header-ne-nil (v ∷ sub) key (created_at now) (valid_till later) signature
          receiver.inbound_auth_signature in
      rw (written, bound, present, verify_response) (rw (read, known) accepted)
