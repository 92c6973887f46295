-- ===== src/Signature/Reading.antt =====
-- `parseAuthHeader` reads back the headers that are written.
use mathlib.Core.List.{append_assoc}
use beckn_onix.Base.{
  ℕ, Str, str, ◌==◌, trim_space, trim_prefix, split, split_two, decimal, decimal_int, pos,
  int64_max, parse_int-decimal, decimal-Lacks, Dict, lookup, insert, [], ◌∷◌, ◌++◌, ◌≡◌, ◌≢◌, refl,
  ap, sym, ◌∙◌, arith, ◌<◌, Lacks, Lacks-append, split_skip, cut-append, trim_quoted,
  trim_space_visible, IsVisible, inl,
}
use beckn_onix.Model.Result.{ok}
use beckn_onix.Signature.Header.{
  generate_auth_header, parse_auth_header, add_attribute, attributes, check_attributes, signer_of,
}

-- A text that can stand in a header: no quote, comma or bar, and no white space round it.
pub record IsPlain (s : Str) : Type 0 where
  pub quote : Lacks b'"' s
  pub comma : Lacks b',' s
  pub bar : Lacks b'|' s
  pub trimmed : trim_space s ≡ s

-- `name="value"`
abbrev quoted : Str → Str → Str
quoted name v = name ++ (b'=' ∷ b'"' ∷ (v ++ (b'"' ∷ [])))

split_two-append : (c : ℕ) (s t : Str) → Lacks c s → split_two c (s ++ (c ∷ t)) ≡ s ∷ t ∷ []
unfolding split_two
split_two-append c s t h = rw (cut-append c s t h, split_two)

trim_space-quoted :
    (c : ℕ) (name v : Str) → IsVisible c → trim_space (quoted (c ∷ name) v) ≡ quoted (c ∷ name) v
trim_space-quoted c name v vis =
    let same : quoted (c ∷ name) v ≡ c ∷ ((name ++ (b'=' ∷ b'"' ∷ v)) ++ (b'"' ∷ [])) =
      simp append_assoc in
    ap trim_space same
    ∙ (trim_space_visible c b'"' (name ++ (b'=' ∷ b'"' ∷ v)) vis (omega arith) ∙ sym same)

-- One attribute of a header is added under its name.
add_attribute-quoted :
    (m : Dict Str) (c : ℕ) (name v : Str)
    → IsVisible c
    → Lacks b'=' (c ∷ name)
    → trim_space (c ∷ name) ≡ c ∷ name
    → Lacks b'"' v
    → add_attribute m (quoted (c ∷ name) v) ≡ insert (c ∷ name) v m
unfolding add_attribute
add_attribute-quoted m c name v vis eq trimmed q =
    rw
      (
        trim_space-quoted c name v vis,
        split_two-append b'=' (c ∷ name) (b'"' ∷ (v ++ (b'"' ∷ []))) eq,
        add_attribute,
      )
      (rw (trimmed, trim_quoted b'"' v q))

-- The text of the attribute `keyId`.
abbrev pub key_id_text : Str → Str → Str
key_id_text sub key = sub ++ (b'|' ∷ (key ++ str "|ed25519"))

abbrev pub listed_headers : Str → Str
listed_headers [] = str "(created) (expires) digest"
listed_headers (c ∷ s) = str "(created) (expires) digest request-signature"

-- The parts of a generated header, split at the commas.
header_parts :
    (sub key sig request_sig : Str) (created expires : ℕ)
    → Lacks b',' sub
    → Lacks b',' key
    → Lacks b',' sig
    → split b',' (
        trim_prefix
          (generate_auth_header sub key (pos created) (pos expires) sig request_sig)
          (str "Signature "))
      ≡ quoted (str "keyId") (key_id_text sub key)
        ∷ quoted (str "algorithm") (str "ed25519")
        ∷ quoted (str "created") (decimal created)
        ∷ quoted (str "expires") (decimal expires)
        ∷ quoted (str "headers") (listed_headers request_sig)
        ∷ quoted (str "signature") sig
        ∷ []
unfolding generate_auth_header trim_prefix str split decimal_int ◌==◌
header_parts sub key sig [] created expires hs hk hg =
    rw
      (
        split_skip b',' sub _ hs,
        split_skip b',' key _ hk,
        split_skip b',' (decimal created) _ (decimal-Lacks b',' created (inl (omega arith))),
        split_skip b',' (decimal expires) _ (decimal-Lacks b',' expires (inl (omega arith))),
        split_skip b',' sig _ hg,
      )
      (simp append_assoc)
header_parts sub key sig (r ∷ rs) created expires hs hk hg =
    rw
      (
        split_skip b',' sub _ hs,
        split_skip b',' key _ hk,
        split_skip b',' (decimal created) _ (decimal-Lacks b',' created (inl (omega arith))),
        split_skip b',' (decimal expires) _ (decimal-Lacks b',' expires (inl (omega arith))),
        split_skip b',' sig _ hg,
      )
      (simp append_assoc)

-- The attributes of a generated header, as a map.
abbrev header_attributes : Str → Str → ℕ → ℕ → Str → Str → Dict Str
header_attributes sub key created expires headers sig =
    (str "keyId", key_id_text sub key)
    ∷ (str "algorithm", str "ed25519")
    ∷ (str "created", decimal created)
    ∷ (str "expires", decimal expires)
    ∷ (str "headers", headers)
    ∷ (str "signature", sig)
    ∷ []

pub key_id_text-quote :
    (sub key : Str) → IsPlain sub → IsPlain key → Lacks b'"' (key_id_text sub key)
unfolding str
key_id_text-quote sub key hs hk =
    Lacks-append b'"' sub _ hs.quote (omega arith, Lacks-append b'"' key _ hk.quote (ground arith))

-- Each part in turn is added to the map.
attributes-parts :
    (sub key headers sig : Str) (created expires : ℕ)
    → IsPlain sub
    → IsPlain key
    → Lacks b'"' headers
    → Lacks b'"' sig
    → attributes [] (
        quoted (str "keyId") (key_id_text sub key)
        ∷ quoted (str "algorithm") (str "ed25519")
        ∷ quoted (str "created") (decimal created)
        ∷ quoted (str "expires") (decimal expires)
        ∷ quoted (str "headers") headers
        ∷ quoted (str "signature") sig
        ∷ [])
      ≡ header_attributes sub key created expires headers sig
unfolding attributes str insert ◌==◌ trim_space
attributes-parts sub key headers sig created expires hs hk hh hg =
    rw
      (
        add_attribute-quoted _ b'k' (str "eyId") (key_id_text sub key) (omega arith, omega arith)
            (ground arith) refl (key_id_text-quote sub key hs hk),
        add_attribute-quoted _ b'a' (str "lgorithm") (str "ed25519") (omega arith, omega arith)
            (ground arith) refl (ground arith),
        add_attribute-quoted _ b'c' (str "reated") (decimal created) (omega arith, omega arith)
            (ground arith) refl (decimal-Lacks b'"' created (inl (omega arith))),
        add_attribute-quoted _ b'e' (str "xpires") (decimal expires) (omega arith, omega arith)
            (ground arith) refl (decimal-Lacks b'"' expires (inl (omega arith))),
        add_attribute-quoted _ b'h' (str "eaders") headers (omega arith, omega arith) (ground arith)
            refl hh,
        add_attribute-quoted _ b's' (str "ignature") sig (omega arith, omega arith) (ground arith)
            refl hg,
      )
      refl

signer_of-key_id_text : (sub key : Str) → IsPlain sub → signer_of (key_id_text sub key) ≡ sub
unfolding signer_of
signer_of-key_id_text sub key hs =
    rw (split_two-append b'|' sub (key ++ str "|ed25519") hs.bar, signer_of) hs.trimmed

check_attributes-header :
    (sub key headers sig : Str) (created expires : ℕ)
    → IsPlain sub
    → sig ≢ []
    → created < int64_max
    → expires < int64_max
    → check_attributes (header_attributes sub key created expires headers sig)
      ≡ ok (record {
        created = pos created;
        expires = pos expires;
        signature = sig;
        subscriber_id = sub;
      })
unfolding check_attributes lookup str ◌==◌
check_attributes-header sub key headers [] created expires hs ne hc he = absurd (ne refl)
check_attributes-header sub key headers (s ∷ sig) created expires hs ne hc he =
    rw
      (parse_int-decimal created hc, parse_int-decimal expires he, signer_of-key_id_text sub key hs)
      refl

pub listed_headers-quote : (request_sig : Str) → Lacks b'"' (listed_headers request_sig)
unfolding str
listed_headers-quote [] = ground arith
listed_headers-quote (r ∷ rs) = ground arith

-- `parseAuthHeader` reads from a header that `generateAuthHeader` wrote the two times, the signature
-- and the subscriber, whatever request signature it binds, if the identifiers are plain, the
-- signature is not empty and has neither a quote nor a comma, and the times are not negative and fit
-- an int64.
pub parse_auth_header-generate_auth_header :
    (sub key sig request_sig : Str) (created expires : ℕ)
    → IsPlain sub
    → IsPlain key
    → Lacks b'"' sig
    → Lacks b',' sig
    → sig ≢ []
    → created < int64_max
    → expires < int64_max
    → parse_auth_header (generate_auth_header sub key (pos created) (pos expires) sig request_sig)
      ≡ ok (record {
        created = pos created;
        expires = pos expires;
        signature = sig;
        subscriber_id = sub;
      })
unfolding parse_auth_header
parse_auth_header-generate_auth_header sub key sig request_sig created expires hs hk quote comma ne
      hc he =
    ap (λ parts. check_attributes (attributes [] parts))
      (header_parts sub key sig request_sig created expires hs.comma hk.comma comma)
    ∙ (ap check_attributes (
          attributes-parts sub key (listed_headers request_sig) sig created expires hs hk
            (listed_headers-quote request_sig) quote)
        ∙ check_attributes-header sub key (listed_headers request_sig) sig created expires hs ne hc
            he)
