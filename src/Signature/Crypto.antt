-- ===== src/Signature/Crypto.antt =====
-- What the signer and the validator call and do not implement: base64, BLAKE2b and ed25519.
use beckn_onix.Base.{Str, [], Bool, true, ◌≡◌, ◌≢◌, Lacks, length}
use beckn_onix.Model.Result.{Result, ok}

pub record Crypto : Type 0 where
  -- `base64.StdEncoding`
  pub encode_base64 : Str → Str
  pub decode_base64 : Str → Result Str
  -- `blake2b.New512`, `Write`, `Sum`
  pub blake_sum : Str → Str
  -- `ed25519.NewKeyFromSeed`, then `ed25519.Sign`: seed, message
  pub sign_with_seed : Str → Str → Str
  -- `ed25519.Verify`: public key, message, signature
  pub verify : Str → Str → Str → Bool

-- The documented behaviour: base64 decodes what it encoded, uses neither quotes nor commas, and has
-- text for whatever is not empty; a signature is not empty, and is verified with the public key that
-- belongs to the seed, which has 32 bytes.
pub record IsCrypto (c : Crypto) (public_of : Str → Str) : Type 0 where
  pub decode-encode : (s : Str) → c.decode_base64 (c.encode_base64 s) ≡ ok s
  pub encode-quote : (s : Str) → Lacks b'"' (c.encode_base64 s)
  pub encode-comma : (s : Str) → Lacks b',' (c.encode_base64 s)
  pub encode-ne-nil : (s : Str) → s ≢ [] → c.encode_base64 s ≢ []
  pub sign-ne-nil : (seed m : Str) → c.sign_with_seed seed m ≢ []
  pub verify-sign :
      (seed m : Str)
      → length seed ≡ 32
      → c.verify (public_of seed) m (c.sign_with_seed seed m) ≡ true
  pub public_length : (seed : Str) → length seed ≡ 32 → length (public_of seed) ≡ 32
