-- ===== src/Router/Routing.antt =====
-- What `Route` guarantees to the handler.
use mathlib.Core.List.{Memᴰ}
use beckn_onix.Base.{
  Str, str, ==_iff, Dict, lookup, true, List, [], ◌∷◌, All, Option, none, some, is_some, ◌≡◌, refl,
  subst, sym, Option-cases, arith, ◌⊎◌, inl, inr,
}
use beckn_onix.Model.Result.{Result, ok, err, >>=-eq-ok}
use beckn_onix.Model.Json.{Json, Codec}
use beckn_onix.Model.Version.{first_string}
use beckn_onix.Model.Context.{
  Url, Route, Extracted, extracted, not_extracted, extract_context, wrap_extract_context_err,
}
use beckn_onix.Router.Rules.{Files, Routes, Rules, kind_url, kind_publisher, kind_of, load_rules}
use beckn_onix.Router.Lookup.{
  handle_protocol_mapping, forward_query, bodyless_route, bodyless_loop, route_bodyless,
  select_route, finish_route, route_context, route,
}
use beckn_onix.Router.Known.{
  IsKnown, AreKnown, All-lookup, KnownRoutes, KnownVersions, load_rules-AreKnown,
}

-- A URL that is there, and that carries the request's query if there is one.
abbrev pub Carries : Str → Option Url → Type 0
Carries q none = ⊥
Carries q (some w) = (q ≡ []) ⊎ (w.raw_query ≡ q)

-- A route that the handler can follow, for a request with the raw query `q`.
abbrev pub IsFinal : Str → Route → Type 0
IsFinal q r = (r.target_type ≡ str "publisher") ⊎ ((r.target_type ≡ str "url") × Carries q r.url)

-- The order of a run over a map: a rearrangement of its entries.
pub record IsOrder (order : Dict Routes → Dict Routes) : Type 0 where
  pub taken : (m : Dict Routes) (x : Str × Routes) → Memᴰ x (order m) → Memᴰ x m
  pub kept : (m : Dict Routes) (x : Str × Routes) → Memᴰ x m → Memᴰ x (order m)

kind_of-eq-url : (t : Str) → kind_of t ≡ kind_url → t ≡ str "url"
unfolding kind_of
kind_of-eq-url t h = ground (arith, ==_iff t (str "url"))

kind_of-eq-publisher : (t : Str) → kind_of t ≡ kind_publisher → t ≡ str "publisher"
unfolding kind_of
kind_of-eq-publisher t h = ground (arith, ==_iff t (str "publisher"))

abbrev pub query_of : Option Url → Str
query_of none = []
query_of (some u) = u.raw_query

forward_query-IsFinal :
    (q : Str) (r : Route)
    → r.target_type ≡ str "url"
    → is_some r.url ≡ true
    → IsFinal q (forward_query q r)
unfolding forward_query
forward_query-IsFinal q r t u = ground (arith, ==_iff q [])

bodyless_route-IsFinal :
    (v e q : Str) (o : Option Route) {r : Route}
    → IsKnown o
    → bodyless_route v e q o ≡ ok r
    → IsFinal q r
unfolding bodyless_route
bodyless_route-IsFinal v e q none k h = cc
bodyless_route-IsFinal v e q (some o) k h = ground (
  arith,
  kind_of-eq-url o.target_type,
  kind_of-eq-publisher o.target_type,
  forward_query-IsFinal q o,
)

handle-IsFinal :
    (files : Files) (o : Route) (uri e q : Str) {r : Route}
    → handle_protocol_mapping files o uri e q ≡ ok r
    → IsFinal q r
unfolding handle_protocol_mapping
handle-IsFinal files o uri e q h = ground (arith, ==_iff q [])

finish_route-IsFinal :
    (files : Files) (ctx : Dict Json) (e q : Str) (o : Option Route) {r : Route}
    → IsKnown o
    → finish_route files ctx e q o ≡ ok r
    → IsFinal q r
unfolding finish_route
finish_route-IsFinal files ctx e q none k h = cc
finish_route-IsFinal files ctx e q (some o) {r} k h = ground (
  arith,
  kind_of-eq-url o.target_type,
  kind_of-eq-publisher o.target_type,
  forward_query-IsFinal q o,
  handle-IsFinal files o (first_string ctx (str "bpp_uri" ∷ str "bppUri" ∷ str "receiverUri" ∷ []))
      e q {r = r},
  handle-IsFinal files o (first_string ctx (str "bap_uri" ∷ str "bapUri" ∷ str "senderUri" ∷ [])) e
      q {r = r},
)

bodyless_loop-IsFinal :
    (e q : Str) (vs : Dict Routes) {r : Route}
    → KnownVersions vs
    → bodyless_loop e q vs ≡ ok r
    → IsFinal q r
unfolding bodyless_loop
bodyless_loop-IsFinal e q [] k h = cc
bodyless_loop-IsFinal e q ((v, routes) ∷ vs) (here, k) h = elim (Option-cases (lookup e routes)) [
  | inl missing ↦ bodyless_loop-IsFinal e q vs k (rw (missing, bodyless_loop) at h)
  | inr (o, found) ↦
      bodyless_route-IsFinal v e q o (All-lookup IsKnown e routes here found)
        (rw (found, bodyless_loop) at h)
]

All-of_Memᴰ {ℓ κ} :
    {A : Type ℓ} (P : A → Type κ) (xs : List A) → ((x : A) → Memᴰ x xs → P x) → All P xs
All-of_Memᴰ P [] h = tt
All-of_Memᴰ P (x ∷ xs) h = (h x (Memᴰ.head refl), All-of_Memᴰ P xs (λ y m. h y (Memᴰ.tail m)))

All-Memᴰ {ℓ κ} : {A : Type ℓ} (P : A → Type κ) (xs : List A) (x : A) → All P xs → Memᴰ x xs → P x
All-Memᴰ P [] x h m = elim m [ ]
All-Memᴰ P (y ∷ xs) x (p, h) (Memᴰ.head e) = subst P (sym e) p
All-Memᴰ P (y ∷ xs) x (p, h) (Memᴰ.tail m) = All-Memᴰ P xs x h m

select_route-IsKnown :
    (m : Rules) (d v e : Str) {o : Option Route}
    → AreKnown m
    → select_route m d v e ≡ ok o
    → IsKnown o
unfolding select_route
select_route-IsKnown m d v e k h = elim (Option-cases (lookup d m)) [
  | inl missing ↦ cc (rw (missing, select_route) at h)
  | inr (versions, at_domain) ↦ elim (Option-cases (lookup v versions)) [
    | inl missing ↦ cc (rw (at_domain, missing, select_route) at h)
    | inr (routes, at_version) ↦ elim (Option-cases (lookup e routes)) [
      | inl missing ↦ cc (rw (at_domain, at_version, missing, select_route) at h)
      | inr (o, found) ↦
          let known = All-lookup KnownVersions d m k at_domain in
          let same : Result.ok o ≡ ok _ = rw (at_domain, at_version, found, select_route) at h in
          subst IsKnown (cc same)
            (All-lookup IsKnown e routes (All-lookup KnownRoutes v versions known at_version) found)
    ]
  ]
]

-- A search of the v2 versions sees known routes only, in whatever order.
route_bodyless-IsFinal :
    (order : Dict Routes → Dict Routes) (m : Rules) (e q : Str) {r : Route}
    → IsOrder order
    → AreKnown m
    → route_bodyless order m e q ≡ ok r
    → IsFinal q r
unfolding route_bodyless
route_bodyless-IsFinal order m e q p k h = elim (Option-cases (lookup (str "*") m)) [
  | inl missing ↦ cc (rw (missing, route_bodyless) at h)
  | inr (versions, found) ↦
      let known = All-lookup KnownVersions (str "*") m k found in
      bodyless_loop-IsFinal e q (order versions)
        (All-of_Memᴰ _ (order versions) (λ x s. All-Memᴰ _ versions x known (p.taken versions x s)))
        (rw (found, route_bodyless) at h)
]

route_context-IsFinal :
    (files : Files) (m : Rules) (ctx : Dict Json) (e q : Str) {r : Route}
    → AreKnown m
    → route_context files m ctx e q ≡ ok r
    → IsFinal q r
unfolding route_context
route_context-IsFinal files m ctx e q k h =
    let (o, selected, rest) = >>=-eq-ok (select_route m _ _ e) _ h in
    finish_route-IsFinal files ctx e q o (select_route-IsKnown m _ _ e k selected) rest

route_body-IsFinal :
    (files : Files) (codec : Codec) (order : Dict Routes → Dict Routes) (m : Rules) (u : Option Url)
    (body : Str) {r : Route}
    → IsOrder order
    → AreKnown m
    → route files order codec m u body ≡ ok r
    → IsFinal (query_of u) r
unfolding route
route_body-IsFinal files codec order m none body p k h = cc
route_body-IsFinal files codec order m (some u) [] p k h =
    route_bodyless-IsFinal order m u.path u.raw_query p k h
route_body-IsFinal files codec order m (some u) (b ∷ bs) {r} p k h =
    decoded (extract_context codec (b ∷ bs)) h
  where
    decoded :
        (x : Extracted)
        → elim x [
          | not_extracted e ↦ err (wrap_extract_context_err (str "error parsing request body") e)
          | extracted req ctx ↦ route_context files m ctx u.path u.raw_query
        ]
          ≡ ok r
        → IsFinal u.raw_query r
    decoded (not_extracted e) h' = cc
    decoded (extracted req ctx) h' = route_context-IsFinal files m ctx u.path u.raw_query k h'

-- The handler can follow every route that a loaded router returns: its target is "publisher", or "url"
-- with a URL that is not nil and that carries the raw query of the request if that is not empty. This
-- holds for every request, whatever the order in which the map is ranged over.
pub route-IsFinal :
    (files : Files) (codec : Codec) (order : Dict Routes → Dict Routes) (path : Str)
    (u : Option Url) (body : Str) {m : Rules} {r : Route}
    → IsOrder order
    → load_rules files path ≡ ok m
    → route files order codec m u body ≡ ok r
    → IsFinal (query_of u) r
route-IsFinal files codec order path u body {m} p loaded h =
    route_body-IsFinal files codec order m u body p (load_rules-AreKnown files path loaded) h
