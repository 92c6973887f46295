-- ===== src/Model/Json.antt =====
-- Decoded JSON, and what the program takes from encoding/json, which is no code of it: the fields
-- of `Codec` are arguments of the definitions that decode or encode.
use beckn_onix.Base.{Str, Bool, List, Option, Dict}
use beckn_onix.Model.Error.{BecknError, Status}
use beckn_onix.Model.Result.{Result}

mutual
  -- A value of type `interface{}`; a number is kept as its text.
  pub data Json : Type 0 where
    null : Json
    bool : Bool → Json
    number : Str → Json
    string : Str → Json
    array : Items → Json
    object : Fields → Json

  pub data Items : Type 0 where
    no_items : Items
    item : Json → Items → Items

  pub data Fields : Type 0 where
    no_fields : Fields
    field : Str → Json → Fields → Fields

-- `v.(map[string]interface{})`, as a map
unfoldable pub to_dict : Fields → Dict Json
to_dict no_fields = List.[]
to_dict (field k v rest) = List.◌∷◌ (k, v) (to_dict rest)

-- The wire form of a synchronous response: the v2 envelope, or the one before v2.
pub data Envelope : Type 0 where
  v2_response : Status → Str → Option BecknError → Envelope
  pre_v2_response : Status → Option BecknError → Envelope

pub record Codec : Type 0 where
  -- `json.Unmarshal(body, &m)` for `m map[string]interface{}`
  pub unmarshal_map : Str → Result (Dict Json)
  -- `json.Unmarshal(body, &e)` for `e struct{Context struct{F string}}`: the field named
  -- `F`, or `none` where decoding fails
  pub unmarshal_context_field : Str → Str → Option Str
  -- `json.Unmarshal(body, &p)` for `p struct{Context map[string]interface{}}`: the map, which may be nil
  pub unmarshal_context : Str → Result (Option (Dict Json))
  -- `json.Marshal(resp)`
  pub marshal_response : Envelope → Str
