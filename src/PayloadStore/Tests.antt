-- ===== src/PayloadStore/Tests.antt =====
-- A cache and an encoding for the payload store, and an example.
use beckn_onix.Base.{
  ℕ, zero, suc, Str, str, ◌==◌, ==_refl, ==_iff, Dict, lookup, insert, lookup-insert, get_or, true,
  List, [], ◌∷◌, Option, none, some, ◌≡◌, ◌≢◌, refl, ap, ◌∙◌, inl, arith, Bool, not, any, leb,
}
use beckn_onix.Base.Frames.{frame, unframe, unframe-frame}
use beckn_onix.Model.Error.{errorf}
use beckn_onix.Model.Result.{Result, ok, err}
use beckn_onix.Model.Version.{
  Role, no_role, role_bap, role_bpp, role_gateway, role_registery, role_discovery,
}
use beckn_onix.Model.Context.{get}
use beckn_onix.Signature.Tests.{ctx}
use beckn_onix.PayloadStore.Entries.{
  PayloadEntry, Config, Encoding, apply_policies, parse_beckn_ctx, first_json_string, msg_key,
  txn_index_key,
}
use beckn_onix.PayloadStore.Store.{
  Cache, entry_of, store, get_by_message_id, persist, after_set, append_to_index, index_of,
}
use beckn_onix.PayloadStore.RoundTrip.{IsCache, IsEncoding, IsValidEntry, get_by_message_id-store}

abbrev cache : Cache (Dict Str)
cache = record {
  get = λ s k. ok (get_or (lookup k s) []);
  set = λ s k v ttl. (insert k v s, ok tt);
}

cache-IsCache : IsCache cache
cache-IsCache = record {
  get-set = λ s k v ttl h. rw (lookup-insert k k v s, ==_refl k) refl;
  get-set_other = λ s k j v ttl h. ground (arith, lookup-insert k j v s, ==_iff j k);
}

role_number : Role → ℕ
role_number no_role = 0
role_number role_bap = 1
role_number role_bpp = 2
role_number role_gateway = 3
role_number role_registery = 4
role_number role_discovery = 5

role_of : ℕ → Role
role_of zero = no_role
role_of (suc zero) = role_bap
role_of (suc (suc zero)) = role_bpp
role_of (suc (suc (suc zero))) = role_gateway
role_of (suc (suc (suc (suc zero)))) = role_registery
role_of (suc (suc (suc (suc (suc n))))) = role_discovery

role_of-role_number : (r : Role) → role_of (role_number r) ≡ r
unfolding role_of role_number
role_of-role_number no_role = refl
role_of-role_number role_bap = refl
role_of-role_number role_bpp = refl
role_of-role_number role_gateway = refl
role_of-role_number role_registery = refl
role_of-role_number role_discovery = refl

texts_of : PayloadEntry → List Str
texts_of e =
    e.message_id
    ∷ e.transaction_id
    ∷ e.network_id
    ∷ e.action
    ∷ e.subscriber_id
    ∷ e.request_body
    ∷ e.signature
    ∷ (role_number e.role ∷ e.stored_at ∷ e.expires_at ∷ [])
    ∷ []

of_texts : List Str → Result PayloadEntry
of_texts (m ∷ t ∷ n ∷ a ∷ s ∷ b ∷ g ∷ (r ∷ from ∷ until ∷ []) ∷ []) = ok (record {
  message_id = m;
  transaction_id = t;
  network_id = n;
  action = a;
  subscriber_id = s;
  role = role_of r;
  request_body = b;
  signature = g;
  stored_at = from;
  expires_at = until;
})
of_texts _ = err (errorf (str "no entry"))

abbrev strip_mark : Str → Result Str
strip_mark [] = err (errorf (str "no mark"))
strip_mark (c ∷ s) = ok s

abbrev unmarked : Str → Option Str
unmarked [] = none
unmarked (c ∷ s) = some s

abbrev encoding : Encoding
encoding = record {
  unmarshal_raw_context = λ body. ok (
      (str "message_id", str "\"m1")
      ∷ (str "transaction_id", str "\"t1")
      ∷ (str "action", str "\"search")
      ∷ []);
  unmarshal_string = unmarked;
  marshal_json = λ e. frame (texts_of e);
  unmarshal_json = λ s. of_texts (unframe 8 s);
  marshal_ids = λ ids. frame ids;
  unmarshal_ids = λ s. ok [];
  gzip = λ s. s;
  gunzip = λ s. ok s;
  encode_base64 = λ s. 1 ∷ s;
  decode_base64 = strip_mark;
}

read_back : (e : PayloadEntry) → of_texts (unframe 8 (frame (texts_of e))) ≡ ok e
unfolding of_texts texts_of
read_back e = ap of_texts (unframe-frame (texts_of e)) ∙ rw (role_of-role_number e.role) refl

frame-ne-nil : (e : PayloadEntry) → frame (texts_of e) ≢ []
unfolding frame texts_of
frame-ne-nil e = cc

abbrev is_ascii : Str → Bool
is_ascii s = not (any (λ c. leb 128 c) s)

encoding-IsEncoding : IsEncoding encoding is_ascii
encoding-IsEncoding = record {
  json = λ e valid. read_back e;
  json-ne-nil = frame-ne-nil;
  gzip = λ s. refl;
  base64 = λ s. refl;
  base64-ne-nil = λ s. cc;
}

abbrev config : Config
config = record {
  ttl = 86_400;
  index_ttl = 90_000;
  max_body_bytes = 1_048_576;
  store_body = true;
  store_signature = true;
  compress = true;
}

named : (entry_of cache encoding config (str "onix") ctx).message_id ≢ []
unfolding entry_of parse_beckn_ctx first_json_string lookup str ◌==◌
named = cc

stored : (store cache encoding config (str "onix") 7 [] ctx).1 ≡ ok tt
unfolding store persist after_set append_to_index apply_policies entry_of parse_beckn_ctx
    first_json_string lookup insert str ◌==◌ index_of msg_key txn_index_key
stored = refl

valid :
    IsValidEntry is_ascii
      (apply_policies config 7 (entry_of cache encoding config (str "onix") ctx))
unfolding entry_of parse_beckn_ctx first_json_string apply_policies lookup get str ◌==◌
valid = (refl, (refl, (refl, (refl, (refl, (refl, tt))))))

get_by_message_id-store_example :
    get_by_message_id cache encoding config
      (str "onix")
      (store cache encoding config (str "onix") 7 [] ctx).0
      (entry_of cache encoding config (str "onix") ctx).message_id
      []
    ≡ ok (some (apply_policies config 7 (entry_of cache encoding config (str "onix") ctx)))
get_by_message_id-store_example =
    get_by_message_id-store cache encoding config (str "onix") cache-IsCache is_ascii
      encoding-IsEncoding 7 [] ctx [] named valid stored (inl refl)
