-- ===== src/Router/Order.antt =====
-- The order in which `routeBodyless` ranges over the versions.
use mathlib.Core.List.{Memᴰ}
use beckn_onix.Base.{
  Str, str, Dict, lookup, true, [], ◌∷◌, Option, none, some, is_some, ◌≡◌, refl, sym, ap, ◌∙◌, ◌⊎◌,
  inl, inr, Option-cases,
}
use beckn_onix.Model.Context.{Route}
use beckn_onix.Router.Rules.{Routes, Rules}
use beckn_onix.Router.Lookup.{bodyless_route, bodyless_loop, route_bodyless}
use beckn_onix.Router.Routing.{IsOrder}

abbrev Entry : Type 0
Entry = Str × Routes

module _ (e q : Str) where
  bodyless_loop-skip :
      (y : Entry) (vs : Dict Routes)
      → lookup e y.1 ≡ none
      → bodyless_loop e q (y ∷ vs) ≡ bodyless_loop e q vs
  unfolding bodyless_loop
  bodyless_loop-skip y vs h = rw (h, bodyless_loop)

  bodyless_loop-hit :
      (y : Entry) (vs : Dict Routes) (o : Option Route)
      → lookup e y.1 ≡ some o
      → bodyless_loop e q (y ∷ vs) ≡ bodyless_route y.0 e q o
  unfolding bodyless_loop
  bodyless_loop-hit y vs o h = rw (h, bodyless_loop)

  Memᴰ-later :
      (x y : Entry) (vs : Dict Routes) {o : Option Route}
      → lookup e x.1 ≡ some o
      → lookup e y.1 ≡ none
      → Memᴰ x (y ∷ vs)
      → Memᴰ x vs
  Memᴰ-later x y vs found missing (Memᴰ.head s) =
      absurd (cc (found, missing, ap (λ (z : Entry). lookup e z.1) s))
  Memᴰ-later x y vs found missing (Memᴰ.tail k) = k

  -- The only entry with the endpoint decides.
  bodyless_loop-only :
      (vs : Dict Routes) (x : Entry) (o : Option Route)
      → lookup e x.1 ≡ some o
      → Memᴰ x vs
      → ((y : Entry) → Memᴰ y vs → is_some (lookup e y.1) ≡ true → y ≡ x)
      → bodyless_loop e q vs ≡ bodyless_route x.0 e q o
  bodyless_loop-only [] x o found m only = elim m [ ]
  bodyless_loop-only (y ∷ vs) x o found m only = elim (Option-cases (lookup e y.1)) [
    | inl missing ↦
        bodyless_loop-skip y vs missing
        ∙ bodyless_loop-only vs x o found (Memᴰ-later x y vs found missing m)
            (λ z k. only z (Memᴰ.tail k))
    | inr (o', here) ↦
        let same = only y (Memᴰ.head refl) (rw here refl) in
        bodyless_loop-hit y vs o (ap (λ (z : Entry). lookup e z.1) same ∙ found)
        ∙ ap (λ (z : Entry). bodyless_route z.0 e q o) same
  ]

  bodyless_loop-none :
      (vs : Dict Routes)
      → ((y : Entry) → Memᴰ y vs → lookup e y.1 ≡ none)
      → bodyless_loop e q vs ≡ bodyless_loop e q []
  bodyless_loop-none [] h = refl
  bodyless_loop-none (y ∷ vs) h =
      bodyless_loop-skip y vs (h y (Memᴰ.head refl))
      ∙ bodyless_loop-none vs (λ z k. h z (Memᴰ.tail k))

  -- Either an entry has the endpoint, or none has.
  entry_cases :
      (vs : Dict Routes)
      → ((x : Entry) × (o : Option Route) × (lookup e x.1 ≡ some o) × Memᴰ x vs)
        ⊎ ((y : Entry) → Memᴰ y vs → lookup e y.1 ≡ none)
  entry_cases [] = inr (λ y m. elim m [ ])
  entry_cases (x ∷ vs) = elim (Option-cases (lookup e x.1)) [
    | inr (o, found) ↦ inl (x, o, found, Memᴰ.head refl)
    | inl missing ↦ elim (entry_cases vs) [
      | inl (z, o, found, m) ↦ inl (z, o, found, Memᴰ.tail m)
      | inr no_one ↦ inr (λ y m. none_at x vs y missing no_one m)
    ]
  ]
    where
      none_at :
          (x : Entry) (vs : Dict Routes) (y : Entry)
          → lookup e x.1 ≡ none
          → ((z : Entry) → Memᴰ z vs → lookup e z.1 ≡ none)
          → Memᴰ y (x ∷ vs)
          → lookup e y.1 ≡ none
      none_at x vs y missing h (Memᴰ.head s) = ap (λ (z : Entry). lookup e z.1) s ∙ missing
      none_at x vs y missing h (Memᴰ.tail k) = h y k

  -- A request without a body is routed alike in every order of the map of versions, if at most one of
  -- the versions has the endpoint.
  pub route_bodyless_order :
      (p r : Dict Routes → Dict Routes) (m : Rules) (vs : Dict Routes)
      → IsOrder p
      → IsOrder r
      → lookup (str "*") m ≡ some vs
      → ((x y : Entry)
          → Memᴰ x vs
          → Memᴰ y vs
          → is_some (lookup e x.1) ≡ true
          → is_some (lookup e y.1) ≡ true
          → y ≡ x)
      → route_bodyless p m e q ≡ route_bodyless r m e q
  unfolding route_bodyless
  route_bodyless_order p r m vs hp hr found unique =
      rw (found, route_bodyless)
        (elim (entry_cases vs) [
          | inl (x, o, here, mem) ↦
              let only = λ (y : Entry) (k : Memᴰ y vs) (s : is_some (lookup e y.1) ≡ true).
                unique x y mem k (rw here refl) s in
              bodyless_loop-only (p vs) x o here (hp.kept vs x mem)
                (λ y k s. only y (hp.taken vs y k) s)
              ∙ sym (
                  bodyless_loop-only (r vs) x o here (hr.kept vs x mem)
                    (λ y k s. only y (hr.taken vs y k) s))
          | inr no_one ↦
              bodyless_loop-none (p vs) (λ y k. no_one y (hp.taken vs y k))
              ∙ sym (bodyless_loop-none (r vs) (λ y k. no_one y (hr.taken vs y k)))
        ])
