-- ===== src/Signature/Tests.antt =====
-- Examples for the headers, the signer and the validator, with a toy for the cryptography.
use beckn_onix.Base.{
  lookup, ℕ, ◌+◌, ◌-◌, ◌*◌, ◌/◌, ◌<◌, ◌≤◌, ◌^◌, Str, str, ◌==◌, ==_refl, not, true, false, Lacks,
  [], ◌∷◌, ◌++◌, map, none, some, pos, ◌≡◌, ◌≢◌, ◌↔◌, refl, ap, arith, inl, inr, length, trim_space,
}
use beckn_onix.Model.Result.{ok}
use beckn_onix.Model.Json.{Codec, string}
use beckn_onix.Model.Version.{role_bpp, first_string, resolve_caller_id, string_field}
use beckn_onix.Model.Context.{StepContext, value}
use beckn_onix.Signature.Crypto.{Crypto, IsCrypto}
use beckn_onix.Signature.Signer.{hash, hash_ack, sign, sign_ack}
use beckn_onix.Signature.Header.{
  generate_auth_header, parse_auth_header, parse_header, extract_auth_signature,
  auth_header_includes_request_sig, Parsed,
}
use beckn_onix.Signature.Reading.{IsPlain, parse_auth_header-generate_auth_header}
use beckn_onix.Signature.Extracting.{
  parse_header-generate_auth_header, extract_auth_signature-generate_auth_header,
  auth_header_includes_request_sig-generate_auth_header,
}
use beckn_onix.Signature.Validator.{
  second, declared_caller, expected_caller, check_timestamp_window, validate, validate_ack,
}
use beckn_onix.Signature.Window.{check_timestamp_window_iff, check_timestamp_window_wrapped}
use beckn_onix.Signature.RoundTrip.{IsTimely, validate-sign, validate_ack-sign_ack}
use beckn_onix.Signature.Verified.{IsVerified, validate-IsVerified, validate_ack-IsVerified}

-- Bytes are shifted out of ASCII, and a signature is the seed and the message behind a zero.
abbrev pub toy : Crypto
toy = record {
  encode_base64 = map (λ x. x + 128);
  decode_base64 = λ s. ok (map (λ x. x - 128) s);
  blake_sum = λ s. s;
  sign_with_seed = λ seed m. 0 ∷ (seed ++ m);
  verify = λ key m s. s == (0 ∷ (key ++ m));
}

shift_back : (s : Str) → map (λ x. x - 128) (map (λ x. x + 128) s) ≡ s
shift_back [] = refl
shift_back (x ∷ s) = rw (shift_back s) (ap (λ y. y ∷ s) (omega arith))

shifted-Lacks : (c : ℕ) (s : Str) → c < 128 → Lacks c (map (λ x. x + 128) s)
shifted-Lacks c [] h = tt
shifted-Lacks c (x ∷ s) h = (omega arith, shifted-Lacks c s h)

shifted-ne-nil : (s : Str) → s ≢ [] → map (λ x. x + 128) s ≢ []
shifted-ne-nil [] h = absurd (h refl)
shifted-ne-nil (x ∷ s) h = cc

pub toy-IsCrypto : IsCrypto toy (λ seed. seed)
toy-IsCrypto = record {
  decode-encode = λ s. ap ok (shift_back s);
  encode-quote = λ s. shifted-Lacks b'"' s (omega arith);
  encode-comma = λ s. shifted-Lacks b',' s (omega arith);
  encode-ne-nil = shifted-ne-nil;
  sign-ne-nil = λ seed m. cc;
  verify-sign = λ seed m long. ==_refl (0 ∷ (seed ++ m));
  public_length = λ seed long. long;
}

abbrev pub sub : Str
sub = str "bap.in"

abbrev pub key : Str
key = str "k1"

pub sub-IsPlain : IsPlain sub
unfolding str trim_space
sub-IsPlain = record {
  quote = ground arith;
  comma = ground arith;
  bar = ground arith;
  trimmed = refl;
}

pub key-IsPlain : IsPlain key
unfolding str trim_space
key-IsPlain = record {
  quote = ground arith;
  comma = ground arith;
  bar = ground arith;
  trimmed = refl;
}

abbrev pub seed : Str
seed = str "0123456789abcdef0123456789abcdef"

pub length-seed : length seed ≡ 32
unfolding str
length-seed = refl

abbrev sig : Str
sig = str "c2ln"

sig-Lacks : (Lacks b'"' sig) × (Lacks b',' sig) × (sig ≢ [])
unfolding str
sig-Lacks = (ground arith, ground arith, cc)

sub-Lacks_bar : Lacks b',' sub × Lacks b'"' sub
sub-Lacks_bar = (sub-IsPlain.comma, sub-IsPlain.quote)

abbrev pub codec : Codec
codec = record {
  unmarshal_map = λ body. ok [];
  unmarshal_context_field = λ f body. none;
  unmarshal_context = λ body. ok none;
  marshal_response = λ e. str "{}";
}

abbrev pub ctx : StepContext
ctx = record {
  values = [];
  request = record {
    method = str "POST";
    url = record { origin = []; path = []; raw_query = [] };
    header = [];
    host = [];
  };
  body = str "{}";
  route = none;
  sub_id = sub;
  role = role_bpp;
  resp_header = [];
  protocol_version = str "2.0.0";
  message_id = str "m1";
  inbound_auth_signature = str "in";
  is_caller_handler = false;
}

pub timely : IsTimely (1_000 * second) (5 * second) 1_000 1_300
timely = record {
  created_fits = omega arith;
  expires_fits = omega arith;
  representable = omega arith;
  not_early = omega arith;
  not_over = omega arith;
}

parse_auth_header-generate_auth_header_example :
    parse_auth_header (generate_auth_header sub key (pos 7) (pos 9) sig [])
    ≡ ok (record { created = pos 7; expires = pos 9; signature = sig; subscriber_id = sub })
parse_auth_header-generate_auth_header_example =
    parse_auth_header-generate_auth_header sub key sig [] 7 9 sub-IsPlain key-IsPlain sig-Lacks.0
      sig-Lacks.1 sig-Lacks.2 (omega arith) (omega arith)

parse_header-generate_auth_header_example :
    parse_header (generate_auth_header sub key (pos 7) (pos 9) sig (str "r"))
    ≡ ok (record { subscriber_id = sub; unique_id = key; algorithm = str "ed25519" })
unfolding str
parse_header-generate_auth_header_example =
    parse_header-generate_auth_header b'b' (str "ap.in") key sig (str "r") 7 9
      (omega arith, omega arith) sub-IsPlain key-IsPlain

extract_auth_signature-generate_auth_header_example :
    extract_auth_signature (generate_auth_header sub key (pos 7) (pos 9) sig (str "r")) ≡ sig
extract_auth_signature-generate_auth_header_example =
    extract_auth_signature-generate_auth_header sub key sig (str "r") 7 9 sub-IsPlain.comma
      key-IsPlain.comma sig-Lacks.0

auth_header_includes_request_sig-generate_auth_header_example :
    auth_header_includes_request_sig (generate_auth_header sub key (pos 7) (pos 9) sig (str "r"))
    ≡ not (str "r" == [])
auth_header_includes_request_sig-generate_auth_header_example =
    auth_header_includes_request_sig-generate_auth_header sub key sig (str "r") 7 9
      sub-IsPlain.quote key-IsPlain.quote

check_timestamp_window_iff_example :
    (check_timestamp_window (str "signature") (1_000 * second) (5 * second) (pos 1_004) (pos 1_300)
      ≡ ok tt)
    ↔ ((1_004 ≤ (1_000 * second + 5 * second) / second) × (1_000 * second / second ≤ 1_300))
check_timestamp_window_iff_example =
    check_timestamp_window_iff (str "signature") (1_000 * second) (5 * second) 1_004 1_300
      (omega arith)

-- A message from the end of time is accepted now.
check_timestamp_window_wrapped_example :
    check_timestamp_window
      (str "signature")
      (1_000 * second)
      (5 * second)
      (pos (2 ^ 63 - 1))
      (pos (2 ^ 63 - 1))
    ≡ ok tt
check_timestamp_window_wrapped_example =
    check_timestamp_window_wrapped (str "signature") (1_000 * second) (5 * second) (2 ^ 63 - 1)
      (2 ^ 63 - 1) (omega arith) (omega arith) (omega arith)

validate-sign_example :
    (signature : Str) × (sign toy ctx.body (toy.encode_base64 seed) (pos 1_000) (pos 1_300)
      ≡ ok signature)
    × (validate toy codec
          (1_000 * second)
          (5 * second)
          ctx
          (generate_auth_header sub key (pos 1_000) (pos 1_300) signature [])
          (toy.encode_base64 seed)
          false
        ≡ ok tt)
validate-sign_example =
    validate-sign toy codec (λ s. s) toy-IsCrypto (1_000 * second) (5 * second) ctx sub key seed []
      1_000 1_300 false timely length-seed sub-IsPlain key-IsPlain (inl refl)

validate_ack-sign_ack_example :
    (signature : Str) × (sign_ack toy
        (str "{}")
        (str "r")
        (toy.encode_base64 seed)
        (pos 1_000)
        (pos 1_300)
      ≡ ok signature)
    × (validate_ack toy codec
          (1_000 * second)
          (5 * second)
          ctx
          (str "{}")
          (generate_auth_header sub key (pos 1_000) (pos 1_300) signature (str "r"))
          (str "r")
          (toy.encode_base64 seed)
          false
        ≡ ok tt)
validate_ack-sign_ack_example =
    validate_ack-sign_ack toy codec (λ s. s) toy-IsCrypto (1_000 * second) (5 * second) ctx
      (str "{}") sub key seed (str "r") 1_000 1_300 false timely length-seed sub-IsPlain key-IsPlain
      (inl refl)

-- Every body declares the signer as the caller.
abbrev declaring : Codec
declaring = record codec { unmarshal_context = λ body. ok (some ((str "bap_id", string sub) ∷ [])) }

sub-declared : sub ≡ expected_caller toy declaring ctx (str "{}")
unfolding expected_caller declared_caller value lookup first_string resolve_caller_id string_field
    str ◌==◌
sub-declared = refl

-- What the signer of the example gives, and the header with it.
signed :
    (signature : Str) × (sign toy ctx.body (toy.encode_base64 seed) (pos 1_000) (pos 1_300)
      ≡ ok signature)
    × (validate toy declaring
          (1_000 * second)
          (5 * second)
          ctx
          (generate_auth_header sub key (pos 1_000) (pos 1_300) signature [])
          (toy.encode_base64 seed)
          true
        ≡ ok tt)
signed =
    validate-sign toy declaring (λ s. s) toy-IsCrypto (1_000 * second) (5 * second) ctx sub key seed
      [] 1_000 1_300 true timely length-seed sub-IsPlain key-IsPlain (inr (inr sub-declared))

abbrev signed_header : Str
signed_header = generate_auth_header sub key (pos 1_000) (pos 1_300) signed.0 []

validate-IsVerified_example :
    (parsed : Parsed) × (parse_auth_header signed_header ≡ ok parsed)
    × IsVerified toy declaring
        (str "signature")
        (1_000 * second)
        (5 * second)
        ctx
        ctx.body
        parsed
        (hash toy ctx.body parsed.created parsed.expires)
        (toy.encode_base64 seed)
        true
validate-IsVerified_example =
    validate-IsVerified toy declaring (1_000 * second) (5 * second) ctx signed_header
      (toy.encode_base64 seed) true signed.2

signed_answer :
    (signature : Str) × (sign_ack toy
        (str "{}")
        (str "r")
        (toy.encode_base64 seed)
        (pos 1_000)
        (pos 1_300)
      ≡ ok signature)
    × (validate_ack toy declaring
          (1_000 * second)
          (5 * second)
          ctx
          (str "{}")
          (generate_auth_header sub key (pos 1_000) (pos 1_300) signature (str "r"))
          (str "r")
          (toy.encode_base64 seed)
          true
        ≡ ok tt)
signed_answer =
    validate_ack-sign_ack toy declaring (λ s. s) toy-IsCrypto (1_000 * second) (5 * second) ctx
      (str "{}") sub key seed (str "r") 1_000 1_300 true timely length-seed sub-IsPlain key-IsPlain
      (inr (inr sub-declared))

abbrev answer_header : Str
answer_header = generate_auth_header sub key (pos 1_000) (pos 1_300) signed_answer.0 (str "r")

validate_ack-IsVerified_example :
    (parsed : Parsed) × (parse_auth_header answer_header ≡ ok parsed)
    × IsVerified toy declaring
        (str "AckSignature")
        (1_000 * second)
        (5 * second)
        ctx
        (str "{}")
        parsed
        (hash_ack toy (str "{}") parsed.created parsed.expires (str "r"))
        (toy.encode_base64 seed)
        true
validate_ack-IsVerified_example =
    validate_ack-IsVerified toy declaring (1_000 * second) (5 * second) ctx (str "{}") answer_header
      (str "r") (toy.encode_base64 seed) true signed_answer.2
