-- ===== src/Signature/Signer.antt =====
-- pkg/plugin/implementation/signer/signer.go, with the signing string that the validator builds too.
use beckn_onix.Base.{Str, str, ◌==◌, eqb, not, decimal_int, ℤ, length, [], ◌++◌, if◌then◌else◌}
use beckn_onix.Model.Error.{errorf}
use beckn_onix.Model.Result.{Result, ok, ◌>>=◌, ◌>>◌, or_wrap, fail_if}
use beckn_onix.Signature.Crypto.{Crypto}

module _ (c : Crypto) where
  -- `hash`, of the signer and of the validator: the signing string of three lines
  unfoldable pub hash : Str → ℤ → ℤ → Str
  hash payload created_at expires_at =
      str "(created): "
      ++ (decimal_int created_at
          ++ (str "\n(expires): "
              ++ (decimal_int expires_at
                  ++ (str "\ndigest: BLAKE-512=" ++ c.encode_base64 (c.blake_sum payload)))))

  -- `hashAck`, and the lines of `SignAck`: a fourth line if there is a request signature
  unfoldable pub hash_ack : Str → ℤ → ℤ → Str → Str
  hash_ack payload created_at expires_at request_signature =
      if request_signature == []
      then hash payload created_at expires_at
      else hash payload created_at expires_at ++ (str "\nrequest-signature: " ++ request_signature)

  -- `generateSignature`
  unfoldable pub generate_signature : Str → Str → Result Str
  generate_signature signing_string private_key = do
    seed ← or_wrap (str "error decoding private key: ") (c.decode_base64 private_key)
    fail_if (not (eqb (length seed) 32)) (errorf (str "invalid seed length"))
    ok (c.sign_with_seed seed signing_string)

  -- `Sign`
  unfoldable pub sign : Str → Str → ℤ → ℤ → Result Str
  sign body private_key created_at expires_at = do
    signature ← generate_signature (hash body created_at expires_at) private_key
    ok (c.encode_base64 signature)

  -- `SignAck`
  unfoldable pub sign_ack : Str → Str → Str → ℤ → ℤ → Result Str
  sign_ack body request_signature private_key created_at expires_at = do
    signature ←
        generate_signature (hash_ack body created_at expires_at request_signature) private_key
    ok (c.encode_base64 signature)
