-- ===== src/PayloadStore/RoundTrip.antt =====
-- What the payload store stores is found again under its message.
use beckn_onix.Base.{
  ℕ, Str, str, ◌==◌, ==_iff, any, strip_prefix, Bool, true, false, All, [], ◌∷◌, ◌++◌, some, ◌≡◌,
  ◌≢◌, refl, ap, ◌∙◌, ◌⊎◌, inl, inr, arith, Bool-cases, drop,
}
use beckn_onix.Model.Result.{Result, ok, err}
use beckn_onix.Model.Context.{StepContext}
use beckn_onix.PayloadStore.Entries.{
  PayloadEntry, Config, Encoding, msg_key, txn_index_key, marshal_entry, json_of, unmarshal_entry,
  apply_policies,
}
use beckn_onix.PayloadStore.Store.{
  Cache, index_of, append_to_index, after_set, persist, entry_of, store, get_by_message_id,
}

-- What the theorems rely on of the cache, while it neither expires nor evicts: a value that was set
-- is read, and setting one key leaves the others alone.
pub record IsCache {S : Type 0} (cache : Cache S) : Type 0 where
  pub get-set :
      (s : S) (key value : Str) (ttl : ℕ)
      → (cache.set s key value ttl).1 ≡ ok tt
      → cache.get (cache.set s key value ttl).0 key ≡ ok value
  pub get-set_other :
      (s : S) (key other value : Str) (ttl : ℕ)
      → key ≢ other
      → cache.get (cache.set s other value ttl).0 key ≡ cache.get s key

-- The texts of an entry that encoding/json writes as strings are valid; its body is written in base64.
abbrev pub IsValidEntry : (Str → Bool) → PayloadEntry → Type 0
IsValidEntry is_valid entry =
    All (λ (s : Str). is_valid s ≡ true)
      (entry.message_id ∷ entry.transaction_id ∷ entry.network_id ∷ entry.action
        ∷ entry.subscriber_id ∷ entry.signature ∷ [])

-- JSON, of valid texts, gzip and base64 read what they wrote, and write at least one byte.
-- encoding/json replaces what is not valid UTF-8.
pub record IsEncoding (encoding : Encoding) (is_valid : Str → Bool) : Type 0 where
  pub json :
      (entry : PayloadEntry)
      → IsValidEntry is_valid entry
      → encoding.unmarshal_json (encoding.marshal_json entry) ≡ ok entry
  pub json-ne-nil : (entry : PayloadEntry) → encoding.marshal_json entry ≢ []
  pub gzip : (s : Str) → encoding.gunzip (encoding.gzip s) ≡ ok s
  pub base64 : (s : Str) → encoding.decode_base64 (encoding.encode_base64 s) ≡ ok s
  pub base64-ne-nil : (s : Str) → encoding.encode_base64 (encoding.gzip s) ≢ []

module _ (encoding : Encoding) (is_valid : Str → Bool) (laws : IsEncoding encoding is_valid) where
  -- `unmarshalEntry` reads what `marshalEntry` wrote, compressed or not, if its texts are valid.
  unmarshal_entry-marshal_entry :
      (entry : PayloadEntry) (compress : Bool)
      → IsValidEntry is_valid entry
      → unmarshal_entry encoding (marshal_entry encoding entry compress) ≡ ok entry
  unfolding unmarshal_entry marshal_entry json_of strip_prefix str
  unmarshal_entry-marshal_entry entry true valid = ground (
    arith,
    laws.json entry valid,
    laws.gzip (encoding.marshal_json entry),
    laws.base64 (encoding.gzip (encoding.marshal_json entry)),
    laws.base64-ne-nil (encoding.marshal_json entry),
    ==_iff (encoding.encode_base64 (encoding.gzip (encoding.marshal_json entry))) [],
  )
  unmarshal_entry-marshal_entry entry false valid = ground (
    arith,
    laws.json entry valid,
    laws.json-ne-nil entry,
    ==_iff (encoding.marshal_json entry) [],
  )

abbrev second_byte : Str → ℕ
second_byte [] = 0
second_byte (a ∷ []) = 0
second_byte (a ∷ b ∷ s) = b

differ_behind :
    (namespace m t : Str) → namespace ++ (str ":msg:" ++ m) ≢ namespace ++ (str ":txn:" ++ t)
unfolding str
differ_behind [] m t e = ne (ap second_byte e)
  where
    ne : ◌≢◌ {A = ℕ} b'm' b't'
    ne = omega arith
differ_behind (x ∷ s) m t e = differ_behind s m t (ap (drop 1) e)

-- The key of a message is never that of a transaction's index.
msg_key-ne-txn_index_key : (namespace m t : Str) → msg_key namespace m ≢ txn_index_key namespace t
unfolding msg_key txn_index_key str
msg_key-ne-txn_index_key namespace m t e =
    differ_behind namespace m (t ++ str ":index") (ap (drop 8) e)

module _ {S : Type 0} (cache : Cache S) (encoding : Encoding) (config : Config) (namespace : Str)
    (cached : IsCache cache) (is_valid : Str → Bool) (laws : IsEncoding encoding is_valid) where
  append_to_index-get :
      (s : S) (transaction_id message_id m : Str)
      → cache.get
          (append_to_index cache encoding config namespace s transaction_id message_id).0
          (msg_key namespace m)
        ≡ cache.get s (msg_key namespace m)
  unfolding append_to_index
  append_to_index-get s transaction_id message_id m =
      elim (Bool-cases (
        any (λ id. id == message_id)
          (index_of cache encoding config namespace
            (cache.get s (txn_index_key namespace transaction_id))))) [
              | inl listed ↦ rw listed refl
              | inr new ↦ rw new (
                  cached.get-set_other s _ _ _ _
                    (msg_key-ne-txn_index_key namespace m transaction_id))
            ]

  after_set-get :
      (s : S) (stored : PayloadEntry) (result : Result (Unit {0})) (m : Str)
      → cache.get
          (after_set cache encoding config namespace s stored result).0
          (msg_key namespace m)
        ≡ cache.get s (msg_key namespace m)
  unfolding after_set
  after_set-get s stored (err e) m = refl
  after_set-get s stored (ok u) m = elim (Bool-cases (stored.transaction_id == [])) [
    | inl absent ↦ rw absent refl
    | inr present ↦ rw present (append_to_index-get s stored.transaction_id stored.message_id m)
  ]

  after_set-ok :
      (s : S) (stored : PayloadEntry) (result : Result (Unit {0}))
      → (after_set cache encoding config namespace s stored result).1 ≡ ok tt
      → result ≡ ok tt
  unfolding after_set
  after_set-ok s stored (err e) h = cc
  after_set-ok s stored (ok u) h = refl

  -- What `persist` leaves in the cache under the entry's message, if it succeeds.
  persist-get :
      (now : ℕ) (s : S) (entry : PayloadEntry)
      → (persist cache encoding config namespace now s entry).1 ≡ ok tt
      → cache.get
          (persist cache encoding config namespace now s entry).0
          (msg_key namespace entry.message_id)
        ≡ ok (marshal_entry encoding (apply_policies config now entry) config.compress)
  unfolding persist
  persist-get now s entry h =
      after_set-get _ (apply_policies config now entry) _ entry.message_id
      ∙ cached.get-set s (msg_key namespace entry.message_id) _ config.ttl (after_set-ok _ _ _ h)

  marshal_entry-ne-nil :
      (entry : PayloadEntry) (compress : Bool)
      → (marshal_entry encoding entry compress == []) ≡ false
  unfolding marshal_entry str ◌==◌
  marshal_entry-ne-nil entry true = refl
  marshal_entry-ne-nil entry false = refl

  get_by_message_id-got :
      (s : S) (m action raw : Str) (entry : PayloadEntry)
      → cache.get s (msg_key namespace m) ≡ ok raw
      → unmarshal_entry encoding raw ≡ ok entry
      → (raw == []) ≡ false
      → (action ≡ []) ⊎ (action ≡ entry.action)
      → get_by_message_id cache encoding config namespace s m action ≡ ok (some entry)
  unfolding get_by_message_id
  get_by_message_id-got s m action raw entry got read full which =
      ground (arith, ==_iff action [], ==_iff entry.action action)

  -- An entry that `Store` stored is found by `GetByMessageID` under the message's identifier and its
  -- action, or without one, as the policies and times of the configuration left it, on the cache that
  -- `Store` left, before the entry expires, if the message has an identifier, the texts of the entry
  -- are valid, and `Store` reports no error.
  pub get_by_message_id-store :
      (now : ℕ) (s : S) (ctx : StepContext) (action : Str)
      → (entry_of cache encoding config namespace ctx).message_id ≢ []
      → IsValidEntry is_valid
          (apply_policies config now (entry_of cache encoding config namespace ctx))
      → (store cache encoding config namespace now s ctx).1 ≡ ok tt
      → (action ≡ []) ⊎ (action ≡ (entry_of cache encoding config namespace ctx).action)
      → get_by_message_id cache encoding config namespace
          (store cache encoding config namespace now s ctx).0
          (entry_of cache encoding config namespace ctx).message_id
          action
        ≡ ok (some (apply_policies config now (entry_of cache encoding config namespace ctx)))
  unfolding store apply_policies
  get_by_message_id-store now s ctx action named valid h which =
      let entry : PayloadEntry = entry_of cache encoding config namespace ctx in
      let stored : PayloadEntry = apply_policies config now entry in
      let kept : (entry.message_id == []) ≡ false = ground (arith, ==_iff entry.message_id []) in
      let got = persist-get now s entry (rw kept at h) in
      rw kept (
        get_by_message_id-got _ entry.message_id action _ stored got
          (unmarshal_entry-marshal_entry encoding is_valid laws stored config.compress valid)
          (marshal_entry-ne-nil stored config.compress) which)
