-- ===== src/PayloadStore/Store.antt =====
-- pkg/plugin/implementation/payloadstore/payloadstore.go: the operations of the store over a cache.
-- The cache is a service: its state and its operations `Get` and `Set` are arguments, the state going
-- from call to call.
use beckn_onix.Base.{
  ℕ, Str, str, ◌==◌, any, Bool, not, ◌&&◌, List, [], ◌∷◌, ◌++◌, Option, none, some, if◌then◌else◌,
}
use beckn_onix.Model.Error.{wrapf}
use beckn_onix.Model.Result.{Result, ok, err, ◌>>=◌, or_wrap}
use beckn_onix.Model.Context.{StepContext, get, auth_header_subscriber}
use beckn_onix.PayloadStore.Entries.{
  PayloadEntry, Config, Encoding, msg_key, txn_index_key, marshal_entry, unmarshal_entry,
  parse_beckn_ctx, apply_policies,
}

-- `definition.Cache`: `Get(key)`, and `Set(key, value, ttl)` with the state it leaves
pub record Cache (S : Type 0) : Type 0 where
  pub get : S → Str → Result Str
  pub set : S → Str → Str → ℕ → S × Result (Unit {0})

module _ {S : Type 0} (cache : Cache S) (encoding : Encoding) (config : Config)
    (namespace : Str) where
  -- The identifiers that the index holds, none where it is missing or cannot be read.
  unfoldable pub index_of : Result Str → List Str
  index_of (err e) = []
  index_of (ok raw) = elim (encoding.unmarshal_ids raw) [
    | err e ↦ []
    | ok ids ↦ if raw == [] then [] else ids
  ]

  -- `appendToIndex`
  unfoldable pub append_to_index : S → Str → Str → S × Result (Unit {0})
  append_to_index s transaction_id message_id =
      let key = txn_index_key namespace transaction_id in
      let ids = index_of (cache.get s key) in
      let (s', result) =
        cache.set s key (encoding.marshal_ids (ids ++ (message_id ∷ []))) config.index_ttl in
      if any (λ id. id == message_id) ids
      then (s, ok tt)
      else (s', or_wrap (str "payloadstore: set index key: ") result)

  -- What `persist` does once the entry was set under its message.
  unfoldable pub after_set : S → PayloadEntry → Result (Unit {0}) → S × Result (Unit {0})
  after_set s stored (err e) = (s, err (wrapf (str "payloadstore: set msg key: ") e))
  after_set s stored (ok _) =
      if stored.transaction_id == []
      then (s, ok tt)
      else append_to_index s stored.transaction_id stored.message_id

  -- `persist`
  unfoldable pub persist : ℕ → S → PayloadEntry → S × Result (Unit {0})
  persist now s entry =
      let stored = apply_policies config now entry in
      let (s', result) =
        cache.set s (msg_key namespace entry.message_id)
          (marshal_entry encoding stored config.compress) config.ttl in
      after_set s' stored result

  -- The entry that `Store` builds.
  unfoldable pub entry_of : StepContext → PayloadEntry
  entry_of ctx =
      let fields = parse_beckn_ctx encoding ctx.body in
      record {
        message_id = fields.message_id;
        transaction_id = fields.transaction_id;
        network_id = fields.network_id;
        action = fields.action;
        subscriber_id = ctx.sub_id;
        role = ctx.role;
        request_body = ctx.body;
        signature = get ctx.request.header auth_header_subscriber;
        stored_at = 0;
        expires_at = 0;
      }

  -- `Store`; the search for a duplicate is logged and changes nothing
  unfoldable pub store : ℕ → S → StepContext → S × Result (Unit {0})
  store now s ctx =
      if (entry_of ctx).message_id == [] then (s, ok tt) else persist now s (entry_of ctx)

  -- `GetByMessageID`
  unfoldable pub get_by_message_id : S → Str → Str → Result (Option PayloadEntry)
  get_by_message_id s message_id action = elim (cache.get s (msg_key namespace message_id)) [
    | err e ↦ ok none
    | ok raw ↦ elim (unmarshal_entry encoding raw) [
      | err e ↦ if raw == [] then ok none else err e
      | ok entry ↦
          if raw == []
          then ok none
          else if not (action == []) && not (entry.action == action)
          then ok none
          else ok (some entry)
    ]
  ]

  -- The entries of the identifiers of an index, less those that are missing or cannot be read.
  unfoldable pub entries_of : S → List Str → List PayloadEntry
  entries_of s [] = []
  entries_of s (id ∷ ids) =
      let rest = entries_of s ids in
      elim (cache.get s (msg_key namespace id)) [
        | err e ↦ rest
        | ok raw ↦ elim (unmarshal_entry encoding raw) [
          | err e ↦ rest
          | ok entry ↦ if raw == [] then rest else entry ∷ rest
        ]
      ]

  -- `GetByTransactionID`
  unfoldable pub get_by_transaction_id : S → Str → List PayloadEntry
  get_by_transaction_id s transaction_id =
      entries_of s (index_of (cache.get s (txn_index_key namespace transaction_id)))

  -- `Exists`
  unfoldable pub exists : S → Str → Result Bool
  exists s message_id = cache.get s (msg_key namespace message_id) >>= λ raw. ok (not (raw == []))
