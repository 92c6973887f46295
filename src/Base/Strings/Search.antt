-- ===== src/Base/Strings/Search.antt =====
-- What follows the first occurrence of a pattern, as the program finds it: `strings.Index`, then a
-- slice behind the pattern.
use Prim.Native.Nat.{ℕ, suc, ◌+◌}
use mathlib.Core.Path.{◌≡◌, refl, ap, ◌∙◌}
use mathlib.Core.Logic.{◌≢◌, ◌⊎◌, inl, inr}
use mathlib.Core.Bool.{Bool, true, false, ◌&&◌}
use mathlib.Core.Option
use mathlib.Core.Option.{Option, none, some}
use mathlib.Core.List.{[], ◌∷◌, ◌++◌}
use native.Mathlib.Omega.{arith}
use beckn_onix.Base.Tests.{eqb, if◌then◌else◌}
use beckn_onix.Base.Lists.{length, take, drop, take-length_append}
use beckn_onix.Base.Strings.{Str, strip_prefix, has_prefix, index}
use beckn_onix.Base.Strings.Parts.{Lacks, index_here, has_prefix_ne}

unfoldable pub after_first : Str → Str → Option Str
after_first s p = Option.map (λ n. drop (n + length p) s) (index s p)

-- The text up to the first such byte.
unfoldable pub before_first : Str → ℕ → Option Str
before_first s b = Option.map (λ n. take n s) (index s (b ∷ []))

pub before_first-append : (s t : Str) (b : ℕ) → Lacks b s → before_first (s ++ (b ∷ t)) b ≡ some s
unfolding before_first
before_first-append s t b h = rw (index_here b s t h) (ap some (take-length_append s (b ∷ t)))

map-suc :
    (c : ℕ) (s : Str) (k : ℕ) (o : Option ℕ)
    → Option.map (λ n. drop (n + k) (c ∷ s)) (Option.map (λ n. suc n) o)
      ≡ Option.map (λ n. drop (n + k) s) o
map-suc c s k none = refl
map-suc c s k (some n) = ap some (drop_suc (suc n + k) (n + k) (omega arith))
  where
    drop_suc : (i j : ℕ) → i ≡ suc j → drop i (c ∷ s) ≡ drop j s
    drop_suc i j e = rw e refl

pub after_first-step :
    (c : ℕ) (s p : Str) → has_prefix (c ∷ s) p ≡ false → after_first (c ∷ s) p ≡ after_first s p
unfolding after_first index
after_first-step c s p h = rw h (map-suc c s (length p) (index s p))

-- The pattern and the text differ at a place that both have.
unfoldable pub differs : Str → Str → Bool
differs [] w = false
differs (p ∷ ps) [] = false
differs (p ∷ ps) (c ∷ w) = let rest = differs ps w in if eqb p c then rest else true

-- The pattern begins nowhere in the text, whatever follows.
unfoldable pub misses : Str → Str → Bool
unfolding differs
misses p [] = true
misses p (c ∷ w) = differs p (c ∷ w) && misses p w

strip_prefix-differs : (p w t : Str) → differs p w ≡ true → strip_prefix p (w ++ t) ≡ none
unfolding differs strip_prefix
strip_prefix-differs [] w t h = cc
strip_prefix-differs (p ∷ ps) [] t h = cc
strip_prefix-differs (p ∷ ps) (c ∷ w) t h = ground (arith, strip_prefix-differs ps w t)

pub after_first-misses :
    (p w t : Str) → misses p w ≡ true → after_first (w ++ t) p ≡ after_first t p
unfolding misses has_prefix
after_first-misses p [] t h = refl
after_first-misses p (c ∷ w) t h =
    after_first-step c (w ++ t) p (ground (arith, strip_prefix-differs p (c ∷ w) t))
    ∙ after_first-misses p w t (ground arith)

-- A part that lacks the pattern's first byte is passed over.
pub after_first_skip :
    (p : ℕ) (ps s t : Str) → Lacks p s → after_first (s ++ t) (p ∷ ps) ≡ after_first t (p ∷ ps)
after_first_skip p ps [] t h = refl
after_first_skip p ps (x ∷ s) t (q, h) =
    after_first-step x (s ++ t) (p ∷ ps) (first_ne x (s ++ t) q) ∙ after_first_skip p ps s t h
  where
    first_ne : (x : ℕ) (s : Str) → x ≢ p → has_prefix (x ∷ s) (p ∷ ps) ≡ false
    first_ne x s n = has_prefix_ne x p s ps n

abbrev pub Has : ℕ → Str → Type 0
Has b [] = ⊥
Has b (x ∷ s) = (x ≡ b) ⊎ Has b s

strip_prefix_between :
    (b d : ℕ) (p s t : Str) → Has b p → Lacks d p → Lacks b s → strip_prefix p (s ++ (d ∷ t)) ≡ none
unfolding strip_prefix
strip_prefix_between b d [] s t h k l = elim h [ ]
strip_prefix_between b d (y ∷ p) [] t h (k, ks) l = ground arith
strip_prefix_between b d (y ∷ p) (x ∷ s) t (inl e) (k, ks) (l, ls) = ground arith
strip_prefix_between b d (y ∷ p) (x ∷ s) t (inr h) (k, ks) (l, ls) =
    ground (arith, strip_prefix_between b d p s t h ks ls)

-- So is a part that lacks a byte of the pattern, if a byte that the pattern lacks follows it.
pub after_first_between :
    (b d : ℕ) (p s t : Str)
    → Has b p
    → Lacks d p
    → Lacks b s
    → after_first (s ++ (d ∷ t)) p ≡ after_first (d ∷ t) p
unfolding has_prefix
after_first_between b d p [] t h k l = refl
after_first_between b d p (x ∷ s) t h k (l, ls) =
    after_first-step x (s ++ (d ∷ t)) p (rw (strip_prefix_between b d p (x ∷ s) t h k (l, ls)) refl)
    ∙ after_first_between b d p s t h k ls
