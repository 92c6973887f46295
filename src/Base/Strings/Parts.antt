-- ===== src/Base/Strings/Parts.antt =====
-- Searching, splitting and trimming a text that is put together from parts which lack a byte.
use Prim.Native.Nat.{ℕ, suc, ◌+◌}
use mathlib.Core.Path.{◌≡◌, refl, sym, ap, ◌∙◌}
use mathlib.Core.Logic.{◌≢◌}
use mathlib.Core.Bool.{true, false}
use mathlib.Core.Option
use mathlib.Core.Option.{Option, none, some}
use mathlib.Core.List.{[], ◌∷◌, ◌++◌}
use native.Mathlib.Omega.{arith}
use beckn_onix.Base.Lists.{length}
use beckn_onix.Base.Strings.{
  Str, strip_prefix, has_prefix, trim_prefix, index, split, cut, trim, trim_left, trim_right,
  trim_last,
}

-- The byte does not occur in the text.
abbrev pub Lacks : ℕ → Str → Type 0
Lacks c [] = Unit
Lacks c (x ∷ s) = (x ≢ c) × Lacks c s

pub Lacks-append : (c : ℕ) (s t : Str) → Lacks c s → Lacks c t → Lacks c (s ++ t)
Lacks-append c [] t h k = k
Lacks-append c (x ∷ s) t (p, h) k = (p, Lacks-append c s t h k)

pub split_of_Lacks : (c : ℕ) (s : Str) → Lacks c s → split c s ≡ s ∷ []
unfolding split
split_of_Lacks c [] h = refl
split_of_Lacks c (x ∷ s) (p, h) = ground (arith, split_of_Lacks c s h)

pub split-append : (c : ℕ) (s t : Str) → Lacks c s → split c (s ++ (c ∷ t)) ≡ s ∷ split c t
unfolding split
split-append c [] t h = ground arith
split-append c (x ∷ s) t (p, h) = ground (arith, split-append c s t h)

pub cut-append : (c : ℕ) (s t : Str) → Lacks c s → cut c (s ++ (c ∷ t)) ≡ some (s, t)
unfolding cut
cut-append c [] t h = ground arith
cut-append c (x ∷ s) t (p, h) = ground (arith, cut-append c s t h)

abbrev pub shift : ℕ → Option ℕ → Option ℕ
shift n o = Option.map (λ i. n + i) o

shift-suc : (n : ℕ) (o : Option ℕ) → Option.map (λ i. suc i) (shift n o) ≡ shift (suc n) o
shift-suc n none = refl
shift-suc n (some i) = ap some (omega arith)

shift-zero : (o : Option ℕ) → shift 0 o ≡ o
shift-zero none = refl
shift-zero (some i) = ap some (omega arith)

pub has_prefix_ne : (x p : ℕ) (s ps : Str) → x ≢ p → has_prefix (x ∷ s) (p ∷ ps) ≡ false
unfolding has_prefix
has_prefix_ne x p s ps h = ground arith

-- A search passes over a part that lacks the first byte of the pattern.
pub index_skip :
    (p : ℕ) (ps s t : Str)
    → Lacks p s
    → index (s ++ t) (p ∷ ps) ≡ shift (length s) (index t (p ∷ ps))
unfolding index
index_skip p ps [] t h = sym (shift-zero (index t (p ∷ ps)))
index_skip p ps (x ∷ s) t (q, h) =
    rw (has_prefix_ne x p (s ++ t) ps q, index_skip p ps s t h)
      (shift-suc (length s) (index t (p ∷ ps)))

pub index_here : (p : ℕ) (s t : Str) → Lacks p s → index (s ++ (p ∷ t)) (p ∷ []) ≡ some (length s)
unfolding index
index_here p [] t h = ground arith
index_here p (x ∷ s) t (q, h) = ground (arith, index_here p s t h)

trim_left_quote : (c x : ℕ) (s : Str) → x ≢ c → trim_left c (c ∷ x ∷ s) ≡ x ∷ s
unfolding trim_left
trim_left_quote c x s h = ground arith

trim_last_keep : (c x : ℕ) (s : Str) → x ≢ c → trim_last c x s ≡ x ∷ s
trim_last_keep c x [] h = ground arith
trim_last_keep c x (y ∷ s) h = refl

trim_right-append : (c : ℕ) (s : Str) → Lacks c s → trim_right c (s ++ (c ∷ [])) ≡ s
unfolding trim_right
trim_right-append c [] h = ground arith
trim_right-append c (x ∷ s) (p, h) = rw (trim_right-append c s h) (trim_last_keep c x s p)

-- What `strings.Trim` makes of a quoted text.
pub trim_quoted : (c : ℕ) (s : Str) → Lacks c s → trim c (c ∷ (s ++ (c ∷ []))) ≡ s
unfolding trim
trim_quoted c [] h = ground arith
trim_quoted c (x ∷ s) (p, h) =
    ap (trim_right c) (trim_left_quote c x (s ++ (c ∷ [])) p) ∙ trim_right-append c (x ∷ s) (p, h)

pub has_prefix-append : (s t : Str) → has_prefix (s ++ t) s ≡ true
unfolding has_prefix
has_prefix-append [] t = refl
has_prefix-append (x ∷ s) t = ground (arith, has_prefix-append s t)

strip_prefix-append : (s t : Str) → strip_prefix s (s ++ t) ≡ some t
unfolding strip_prefix
strip_prefix-append [] t = refl
strip_prefix-append (x ∷ s) t = ground (arith, strip_prefix-append s t)

pub trim_prefix-append : (s t : Str) → trim_prefix (s ++ t) s ≡ t
unfolding trim_prefix
trim_prefix-append s t = ground (arith, strip_prefix-append s t)
