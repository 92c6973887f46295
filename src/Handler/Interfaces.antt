-- ===== src/Handler/Interfaces.antt =====
-- The plugins that the steps call, as the interfaces of pkg/plugin/definition: arguments of the
-- definitions that use them.
use beckn_onix.Base.{Str, ℤ, Bool, Option}
use beckn_onix.Model.Result.{Result}
use beckn_onix.Model.Context.{StepContext, Route, Url}

-- `model.Keyset`, the fields that the steps read
pub record Keyset : Type 0 where
  pub unique_key_id : Str
  pub signing_private : Str

-- `definition.KeyManager`: `Keyset`, and the signing key of `LookupNPKeys`
pub record KeyManager : Type 0 where
  pub keyset : Str → Result Keyset
  pub lookup_np_keys : Str → Str → Result Str

-- `definition.Signer`: body, private key, times; `SignAck` takes the request's signature after the body
pub record Signer : Type 0 where
  pub sign : Str → Str → ℤ → ℤ → Result Str
  pub sign_ack : Str → Str → Str → ℤ → ℤ → Result Str

-- `definition.SignValidator`: `Validate(ctx, header, key, checkIdentity)` and
-- `ValidateAck(ctx, body, header, requestSignature, key, checkIdentity)`
pub record SignValidator : Type 0 where
  pub validate : StepContext → Str → Str → Bool → Result (Unit {0})
  pub validate_ack : StepContext → Str → Str → Str → Str → Bool → Result (Unit {0})

-- `definition.PayloadStore`, as the signing steps use it: the signature of the entry for a message
-- and an action, if there is an entry
pub record SignatureLookup : Type 0 where
  pub get_by_message_id : Str → Str → Result (Option Str)

-- `definition.SchemaValidator` and `definition.Router`
pub record SchemaValidator : Type 0 where
  pub validate : Option Url → Str → Result (Unit {0})

pub record RouteFinder : Type 0 where
  pub route : Option Url → Str → Result Route
