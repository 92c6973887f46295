-- ===== src/Signature/Extracting.antt =====
-- `parseHeader`, `extractAuthSignature` and `authHeaderIncludesRequestSig` on the headers that
-- `generateAuthHeader` and `buildSignatureHeader` write.
use mathlib.Core.List.{append_assoc}
use beckn_onix.Base.{
  ℕ, Str, str, ◌==◌, trim_space, split, contains, index, has_prefix, strip_prefix, after_first,
  after_first-misses, after_first_skip, after_first_between, misses, before_first, decimal,
  decimal_int, ℤ, pos, decimal-Lacks, true, [], ◌∷◌, ◌++◌, some, not, ◌≡◌, ◌≢◌, refl, ap, sym, ◌∙◌,
  arith, Lacks, trim_space_visible, IsVisible, split-append, split_of_Lacks, before_first-append,
  inl, inr,
}
use beckn_onix.Model.Result.{ok}
use beckn_onix.Signature.Header.{
  generate_auth_header, build_signature_header, auth_header_includes_request_sig, parse_header,
  extract_auth_signature, key_id_part, three_components,
}
use beckn_onix.Signature.Reading.{
  IsPlain, key_id_text, key_id_text-quote, listed_headers, listed_headers-quote,
}

trim_space-key_id_text :
    (c : ℕ) (s key : Str)
    → IsVisible c
    → trim_space (key_id_text (c ∷ s) key) ≡ key_id_text (c ∷ s) key
unfolding str
trim_space-key_id_text c s key vis =
    let same : key_id_text (c ∷ s) key
        ≡ c ∷ ((s ++ (b'|' ∷ (key ++ str "|ed2551"))) ++ (b'9' ∷ [])) =
      simp append_assoc in
    ap trim_space same
    ∙ (trim_space_visible c b'9' (s ++ (b'|' ∷ (key ++ str "|ed2551"))) vis (omega arith)
        ∙ sym same)

-- What follows the key's identifier.
abbrev after_key_id : ℕ → ℕ → Str → Str → Str
after_key_id created expires sig request_sig =
    str ",algorithm=\"ed25519\",created=\""
    ++ (decimal created
        ++ (str "\",expires=\""
            ++ (decimal expires
                ++ (str "\",headers=\""
                    ++ (listed_headers request_sig
                        ++ (str "\",signature=\"" ++ (sig ++ str "\"")))))))

generate_auth_header-parts :
    (sub key sig request_sig : Str) (created expires : ℕ)
    → generate_auth_header sub key (pos created) (pos expires) sig request_sig
      ≡ str "Signature keyId=\""
        ++ (key_id_text sub key ++ (b'"' ∷ after_key_id created expires sig request_sig))
unfolding generate_auth_header str ◌==◌ decimal_int
generate_auth_header-parts sub key sig [] created expires = simp append_assoc
generate_auth_header-parts sub key sig (r ∷ rs) created expires = simp append_assoc

after_key_id_mark :
    (t : Str) → after_first (str "Signature keyId=\"" ++ t) (str "keyId=\"") ≡ some t
unfolding after_first index has_prefix strip_prefix str
after_key_id_mark t = refl

key_id_part-generate_auth_header :
    (c : ℕ) (s key sig request_sig : Str) (created expires : ℕ)
    → IsVisible c
    → IsPlain (c ∷ s)
    → IsPlain key
    → key_id_part (generate_auth_header (c ∷ s) key (pos created) (pos expires) sig request_sig)
      ≡ key_id_text (c ∷ s) key
unfolding key_id_part
key_id_part-generate_auth_header c s key sig request_sig created expires vis hs hk =
    rw
      (
        generate_auth_header-parts (c ∷ s) key sig request_sig created expires,
        after_key_id_mark
            (key_id_text (c ∷ s) key ++ (b'"' ∷ after_key_id created expires sig request_sig)),
        before_first-append (key_id_text (c ∷ s) key) (after_key_id created expires sig request_sig)
            b'"' (key_id_text-quote (c ∷ s) key hs hk),
        key_id_part,
      )
      (trim_space-key_id_text c s key vis)

split_key :
    (key : Str) → IsPlain key → split b'|' (key ++ str "|ed25519") ≡ key ∷ str "ed25519" ∷ []
unfolding str
split_key key hk =
    split-append b'|' key (str "ed25519") hk.bar
    ∙ ap (λ parts. key ∷ parts) (split_of_Lacks b'|' (str "ed25519") (ground arith))

trim_space_algorithm : trim_space (str "ed25519") ≡ str "ed25519"
unfolding trim_space str
trim_space_algorithm = refl

-- `parseHeader` reads the subscriber, the key and the algorithm, if the subscriber begins with a
-- visible character.
pub parse_header-generate_auth_header :
    (c : ℕ) (s key sig request_sig : Str) (created expires : ℕ)
    → IsVisible c
    → IsPlain (c ∷ s)
    → IsPlain key
    → parse_header (generate_auth_header (c ∷ s) key (pos created) (pos expires) sig request_sig)
      ≡ ok (record { subscriber_id = c ∷ s; unique_id = key; algorithm = str "ed25519" })
unfolding parse_header ◌==◌ three_components
parse_header-generate_auth_header c s key sig request_sig created expires vis hs hk =
    rw
      (
        key_id_part-generate_auth_header c s key sig request_sig created expires vis hs hk,
        split-append b'|' (c ∷ s) (key ++ str "|ed25519") hs.bar,
        split_key key hk,
        hs.trimmed,
        hk.trimmed,
        trim_space_algorithm,
      )
      refl

-- The pattern stands nowhere in the texts round the subscriber, the key and the times.
abbrev MissesRound : Str → Type 0
MissesRound p =
    (misses p (str "Signature keyId=\"") ≡ true)
    × (misses p (str "|ed25519\",algorithm=\"ed25519\",created=\"") ≡ true)
    × (misses p (str "|") ≡ true)
    × (misses p (str "\",expires=\"") ≡ true)

signature-MissesRound : MissesRound (str ",signature=\"")
unfolding misses str
signature-MissesRound = (refl, refl, refl, refl)

headers-MissesRound : MissesRound (str "headers=\"")
unfolding misses str
headers-MissesRound = (refl, refl, refl, refl)

-- A search passes over a text, if a bar follows it.
abbrev SkipsBefore : Str → Str → Type 0
SkipsBefore p s = (t : Str) → after_first (s ++ (b'|' ∷ t)) p ≡ after_first (b'|' ∷ t) p

-- A search passes over a text, whatever follows it.
abbrev Skips : Str → Str → Type 0
Skips p s = (t : Str) → after_first (s ++ t) p ≡ after_first t p

skip_before_bar :
    (p s t : Str)
    → SkipsBefore p s
    → after_first (s ++ (str "|" ++ t)) p ≡ after_first (str "|" ++ t) p
unfolding str
skip_before_bar p s t h = h t

skip_before_algorithm :
    (p s t : Str)
    → SkipsBefore p s
    → after_first (s ++ (str "|ed25519\",algorithm=\"ed25519\",created=\"" ++ t)) p
      ≡ after_first (str "|ed25519\",algorithm=\"ed25519\",created=\"" ++ t) p
unfolding str
skip_before_algorithm p s t h = h _

-- A search for such a pattern passes over the attributes in front.
skip_times :
    (p sub key t : Str) (created expires : ℕ)
    → SkipsBefore p sub
    → SkipsBefore p key
    → Skips p (decimal created)
    → Skips p (decimal expires)
    → MissesRound p
    → after_first
        (str "Signature keyId=\""
          ++ (sub
              ++ (str "|"
                  ++ (key
                      ++ (str "|ed25519\",algorithm=\"ed25519\",created=\""
                          ++ (decimal created
                              ++ (str "\",expires=\"" ++ (decimal expires ++ t))))))))
        p
      ≡ after_first t p
skip_times p sub key t created expires hs hk hc he (first, second, bar, third) =
    rw
      (
        after_first-misses p (str "Signature keyId=\"") _ first,
        skip_before_bar p sub _ hs,
        after_first-misses p (str "|") _ bar,
        skip_before_algorithm p key _ hk,
        after_first-misses p (str "|ed25519\",algorithm=\"ed25519\",created=\"") _ second,
        hc _,
        after_first-misses p (str "\",expires=\"") _ third,
        he _,
      )
      refl

signature_mark :
    (request_sig t : Str)
    → after_first
        (str "\",headers=\"" ++ (listed_headers request_sig ++ (str "\",signature=\"" ++ t)))
        (str ",signature=\"")
      ≡ some t
unfolding after_first index has_prefix strip_prefix str
signature_mark [] t = refl
signature_mark (r ∷ rs) t = refl

generate_auth_header-chunks :
    (sub key sig request_sig : Str) (created expires : ℕ)
    → generate_auth_header sub key (pos created) (pos expires) sig request_sig
      ≡ str "Signature keyId=\""
        ++ (sub
            ++ (str "|"
                ++ (key
                    ++ (str "|ed25519\",algorithm=\"ed25519\",created=\""
                        ++ (decimal created
                            ++ (str "\",expires=\""
                                ++ (decimal expires
                                    ++ (str "\",headers=\""
                                        ++ (listed_headers request_sig
                                            ++ (str "\",signature=\""
                                                ++ (sig ++ (b'"' ∷ []))))))))))))
unfolding generate_auth_header str ◌==◌ decimal_int
generate_auth_header-chunks sub key sig [] created expires = refl
generate_auth_header-chunks sub key sig (r ∷ rs) created expires = refl

signature_skip : (s : Str) → Lacks b',' s → Skips (str ",signature=\"") s
unfolding str
signature_skip s h t = after_first_skip b',' (str "signature=\"") s t h

headers_skip_decimal : (n : ℕ) → Skips (str "headers=\"") (decimal n)
unfolding str
headers_skip_decimal n t =
    after_first_skip b'h' (str "eaders=\"") (decimal n) t (decimal-Lacks b'h' n (inr (omega arith)))

-- `extractAuthSignature` reads from a header that `generateAuthHeader` wrote the signature, which the
-- answer to the message binds, if subscriber and key have no comma and the signature has no quote.
pub extract_auth_signature-generate_auth_header :
    (sub key sig request_sig : Str) (created expires : ℕ)
    → Lacks b',' sub
    → Lacks b',' key
    → Lacks b'"' sig
    → extract_auth_signature
        (generate_auth_header sub key (pos created) (pos expires) sig request_sig)
      ≡ sig
unfolding extract_auth_signature
extract_auth_signature-generate_auth_header sub key sig request_sig created expires hs hk hg =
    rw
      (
        generate_auth_header-chunks sub key sig request_sig created expires,
        extract_auth_signature,
        skip_times (str ",signature=\"") sub key _ created expires
            (λ t. signature_skip sub hs (b'|' ∷ t)) (λ t. signature_skip key hk (b'|' ∷ t))
            (signature_skip (decimal created) (decimal-Lacks b',' created (inl (omega arith))))
            (signature_skip (decimal expires) (decimal-Lacks b',' expires (inl (omega arith))))
            signature-MissesRound,
        signature_mark request_sig (sig ++ (b'"' ∷ [])),
        before_first-append sig [] b'"' hg,
      )
      refl

headers_mark :
    (request_sig t : Str)
    → after_first (str "\",headers=\"" ++ (listed_headers request_sig ++ t)) (str "headers=\"")
      ≡ some (listed_headers request_sig ++ t)
unfolding after_first index has_prefix strip_prefix str
headers_mark [] t = refl
headers_mark (r ∷ rs) t = refl

-- The text `headers="` is passed over in a subscriber and a key without quotes, since a bar follows
-- them, which it does not contain.
headers_skip_identifier : (s : Str) → Lacks b'"' s → SkipsBefore (str "headers=\"") s
unfolding str
headers_skip_identifier s h t =
    after_first_between b'"' b'|' (str "headers=\"") s t (ground arith) (ground arith) h

listed_text :
    (request_sig : Str) (t : Str)
    → before_first (listed_headers request_sig ++ (str "\",signature=\"" ++ t)) b'"'
      ≡ some (listed_headers request_sig)
unfolding str
listed_text request_sig t =
    before_first-append (listed_headers request_sig) _ b'"' (listed_headers-quote request_sig)

lists_request_signature :
    (request_sig : Str)
    → contains (listed_headers request_sig) (str "request-signature") ≡ not (request_sig == [])
unfolding contains index has_prefix strip_prefix str ◌==◌
lists_request_signature [] = refl
lists_request_signature (r ∷ rs) = refl

-- `authHeaderIncludesRequestSig` tells whether the header was written with a request signature, if
-- subscriber and key have no quote.
pub auth_header_includes_request_sig-generate_auth_header :
    (sub key sig request_sig : Str) (created expires : ℕ)
    → Lacks b'"' sub
    → Lacks b'"' key
    → auth_header_includes_request_sig
        (generate_auth_header sub key (pos created) (pos expires) sig request_sig)
      ≡ not (request_sig == [])
unfolding auth_header_includes_request_sig
auth_header_includes_request_sig-generate_auth_header sub key sig request_sig created expires hs
      hk =
    rw
      (
        generate_auth_header-chunks sub key sig request_sig created expires,
        auth_header_includes_request_sig,
        skip_times (str "headers=\"") sub key _ created expires (headers_skip_identifier sub hs)
            (headers_skip_identifier key hk) (headers_skip_decimal created)
            (headers_skip_decimal expires) headers-MissesRound,
        headers_mark request_sig (str "\",signature=\"" ++ (sig ++ (b'"' ∷ []))),
        listed_text request_sig (sig ++ (b'"' ∷ [])),
      )
      (lists_request_signature request_sig)

-- `buildSignatureHeader` writes what `generateAuthHeader` writes with a request signature.
pub build_signature_header_eq :
    (sub key sig request_sig : Str) (created expires : ℤ)
    → request_sig ≢ []
    → build_signature_header sub key created expires sig
      ≡ generate_auth_header sub key created expires sig request_sig
unfolding build_signature_header generate_auth_header str ◌==◌
build_signature_header_eq sub key sig [] created expires h = absurd (h refl)
build_signature_header_eq sub key sig (r ∷ rs) created expires h = refl
