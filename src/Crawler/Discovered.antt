-- ===== src/Crawler/Discovered.antt =====
-- What a discovery finds: each declared index once, and an error only if everything failed.
use mathlib.Core.List.{Memᴰ}
use beckn_onix.Base.{
  Str, ◌==◌, ==_iff, ==_refl, lookup, insert, lookup-insert, any, trim_space, Bool, true, false,
  ◌||◌, List, [], ◌∷◌, ◌++◌, map, get_or, ◌≡◌, refl, sym, subst, ◌∙◌, arith, Bool-cases, inl, inr,
}
use beckn_onix.Model.Error.{GoError}
use beckn_onix.Crawler.Tables.{Distinct}
use beckn_onix.Crawler.Discovery.{
  IndexRef, SubscriberRecord, Found, nothing_found, add_ref, add_entry, add_entries, add_records,
}

abbrev pub url_of : IndexRef → Str
url_of ref = ref.index_url

-- The URL is that of a reference.
abbrev pub has_url : Str → List IndexRef → Bool
has_url url refs = any (λ j. j == url) (map url_of refs)

-- The URLs that were seen are those of the references, each of them once.
pub record IsFound (found : Found) : Type 0 where
  pub same : (url : Str) → get_or (lookup url found.seen) false ≡ has_url url found.refs
  pub once : Distinct (map url_of found.refs)

has_url-append :
    (url : Str) (refs : List IndexRef) (ref : IndexRef)
    → has_url url (refs ++ ref ∷ []) ≡ (ref.index_url == url || has_url url refs)
has_url-append url [] ref = refl
has_url-append url (r ∷ refs) ref = ground (arith, has_url-append url refs ref)

Distinct-append :
    (refs : List IndexRef) (ref : IndexRef)
    → has_url ref.index_url refs ≡ false
    → Distinct (map url_of refs)
    → Distinct (map url_of (refs ++ ref ∷ []))
Distinct-append [] ref e h = (refl, tt)
Distinct-append (r ∷ refs) ref e (h, hs) = (
  has_url-append r.index_url refs ref
      ∙ ground (arith, ==_iff ref.index_url r.index_url, ==_iff r.index_url ref.index_url),
  Distinct-append refs ref (ground arith) hs,
)

pub nothing_found-IsFound : IsFound nothing_found
unfolding nothing_found lookup
nothing_found-IsFound = record { same = λ url. refl; once = tt }

pub add_ref-IsFound : (ref : IndexRef) (found : Found) → IsFound found → IsFound (add_ref ref found)
unfolding add_ref
add_ref-IsFound ref found f = elim (Bool-cases (get_or (lookup ref.index_url found.seen) false)) [
  | inl seen ↦ rw seen f
  | inr fresh ↦ rw fresh (record {
    same = λ url. seen_now url;
    once = Distinct-append found.refs ref (sym (f.same ref.index_url) ∙ fresh) f.once;
  })
]
  where
    seen_now :
        (url : Str)
        → get_or (lookup url (insert ref.index_url true found.seen)) false
          ≡ has_url url (found.refs ++ ref ∷ [])
    seen_now url =
        rw (lookup-insert url ref.index_url true found.seen, has_url-append url found.refs ref)
          (elim (Bool-cases (ref.index_url == url)) [
            | inl here ↦ rw here refl
            | inr other ↦ rw other (f.same url)
          ])

add_ref_has :
    (ref : IndexRef) (found : Found)
    → IsFound found
    → has_url ref.index_url (Found.refs (add_ref ref found)) ≡ true
unfolding add_ref
add_ref_has ref found f = elim (Bool-cases (get_or (lookup ref.index_url found.seen) false)) [
  | inl seen ↦ rw seen (sym (f.same ref.index_url) ∙ seen)
  | inr fresh ↦ rw (fresh, has_url-append ref.index_url found.refs ref, ==_refl ref.index_url) refl
]

add_ref_keeps :
    (url : Str) (ref : IndexRef) (found : Found)
    → has_url url found.refs ≡ true
    → has_url url (Found.refs (add_ref ref found)) ≡ true
unfolding add_ref
add_ref_keeps url ref found h = elim (Bool-cases (get_or (lookup ref.index_url found.seen) false)) [
  | inl seen ↦ rw seen h
  | inr fresh ↦ rw (fresh, has_url-append url found.refs ref, h) (ground arith)
]

-- The invariant is kept, and no URL is lost.
abbrev pub Grows : Found → Found → Type 0
Grows found found' =
    (IsFound found → IsFound found')
    × ((url : Str) → has_url url found.refs ≡ true → has_url url found'.refs ≡ true)

pub Grows-trans : (a b c : Found) → Grows a b → Grows b c → Grows a c
Grows-trans a b c (f, g) (h, k) = (λ x. h (f x), λ url e. k url (g url e))

pub add_ref-Grows : (ref : IndexRef) (found : Found) → Grows found (add_ref ref found)
add_ref-Grows ref found = (add_ref-IsFound ref found, λ url. add_ref_keeps url ref found)

add_entry-Grows : (id entry : Str) (found : Found) → Grows found (add_entry id entry found)
unfolding add_entry
add_entry-Grows id entry found = elim (Bool-cases (trim_space entry == [])) [
  | inl blank ↦ rw blank ((λ f. f), λ url e. e)
  | inr full ↦ rw full (add_ref-Grows _ found)
]

add_entries-Grows :
    (id : Str) (entries : List Str) (found : Found) → Grows found (add_entries id entries found)
unfolding add_entries
add_entries-Grows id [] found = ((λ f. f), λ url e. e)
add_entries-Grows id (entry ∷ entries) found =
    Grows-trans _ _ _ (add_entry-Grows id entry found)
      (add_entries-Grows id entries (add_entry id entry found))

pub add_records-Grows :
    (records : List SubscriberRecord) (found : Found) → Grows found (add_records records found)
unfolding add_records
add_records-Grows [] found = ((λ f. f), λ url e. e)
add_records-Grows (rec ∷ records) found =
    Grows-trans _ _ _ (add_entries-Grows rec.subscriber_id rec.catalog_index_urls found)
      (add_records-Grows records (add_entries rec.subscriber_id rec.catalog_index_urls found))

pub failing-Grows :
    (found : Found) (errors : List GoError) → Grows found (record found { failed = errors })
failing-Grows found errors = ((λ f. record { same = f.same; once = f.once }), λ url e. e)

-- A declared URL is found.
entry_has :
    (id entry : Str) (found : Found)
    → IsFound found
    → (trim_space entry == []) ≡ false
    → has_url (trim_space entry) (Found.refs (add_entry id entry found)) ≡ true
unfolding add_entry
entry_has id entry found f full = rw full (add_ref_has _ found f)

entries_has :
    (id entry : Str) (entries : List Str) (found : Found)
    → IsFound found
    → Memᴰ entry entries
    → (trim_space entry == []) ≡ false
    → has_url (trim_space entry) (Found.refs (add_entries id entries found)) ≡ true
unfolding add_entries
entries_has id entry [] found f m full = elim m [ ]
entries_has id entry (e ∷ entries) found f (Memᴰ.head same) full =
    (add_entries-Grows id entries (add_entry id e found)).1 _ (
      subst (λ (x : Str). has_url (trim_space entry) (Found.refs (add_entry id x found)) ≡ true)
        same (entry_has id entry found f full))
entries_has id entry (e ∷ entries) found f (Memᴰ.tail m) full =
    entries_has id entry entries (add_entry id e found) ((add_entry-Grows id e found).0 f) m full

pub records_has :
    (entry : Str) (rec : SubscriberRecord) (records : List SubscriberRecord) (found : Found)
    → IsFound found
    → Memᴰ rec records
    → Memᴰ entry rec.catalog_index_urls
    → (trim_space entry == []) ≡ false
    → has_url (trim_space entry) (Found.refs (add_records records found)) ≡ true
unfolding add_records
records_has entry rec [] found f m n full = elim m [ ]
records_has entry rec (r ∷ records) found f (Memᴰ.head same) n full =
    (add_records-Grows records (add_entries r.subscriber_id r.catalog_index_urls found)).1 _ (
      subst
        (λ (x : SubscriberRecord).
          has_url (trim_space entry)
            (Found.refs (add_entries x.subscriber_id x.catalog_index_urls found))
          ≡ true)
        same (entries_has rec.subscriber_id entry rec.catalog_index_urls found f n full))
records_has entry rec (r ∷ records) found f (Memᴰ.tail m) n full =
    records_has entry rec records (add_entries r.subscriber_id r.catalog_index_urls found)
      ((add_entries-Grows r.subscriber_id r.catalog_index_urls found).0 f) m n full
