-- ===== src/Base/Strings/Trimming.antt =====
-- `strings.TrimSpace` leaves a text alone that begins and ends with other ASCII characters; splitting
-- passes over a part that lacks the separator.
use Prim.Native.Nat.{ℕ, ◌<◌}
use mathlib.Core.Path.{◌≡◌, refl, sym, ap, ◌∙◌}
use mathlib.Core.List.{List, [], ◌∷◌, ◌++◌, reverse, reverse-append, reverse-reverse}
use native.Mathlib.Omega.{arith}
use beckn_onix.Base.Strings.{Str, trim_space, trim_space_left, trim_space_back, split, push_first}
use beckn_onix.Base.Strings.Parts.{Lacks}

-- A printable ASCII character other than the space.
abbrev pub IsVisible : ℕ → Type 0
IsVisible c = (0x20 < c) × (c < 0x80)

trim_space_left_visible : (c : ℕ) (s : Str) → IsVisible c → trim_space_left (c ∷ s) ≡ c ∷ s
unfolding trim_space_left
trim_space_left_visible c [] h = ground arith
trim_space_left_visible c (d ∷ []) h = ground arith
trim_space_left_visible c (d ∷ e ∷ s) h = ground arith

trim_space_back_visible : (c : ℕ) (s : Str) → IsVisible c → trim_space_back (c ∷ s) ≡ c ∷ s
unfolding trim_space_back
trim_space_back_visible c [] h = ground arith
trim_space_back_visible c (d ∷ []) h = ground arith
trim_space_back_visible c (d ∷ e ∷ s) h = ground arith

pub trim_space_visible :
    (c d : ℕ) (s : Str)
    → IsVisible c
    → IsVisible d
    → trim_space (c ∷ (s ++ (d ∷ []))) ≡ c ∷ (s ++ (d ∷ []))
unfolding trim_space
trim_space_visible c d s h k =
    ap (λ r. reverse (trim_space_back (reverse r))) (trim_space_left_visible c (s ++ (d ∷ [])) h)
    ∙ (ap (λ r. reverse (trim_space_back r)) (reverse-append (c ∷ s) (d ∷ []))
        ∙ (ap reverse (trim_space_back_visible d (reverse (c ∷ s)) k)
            ∙ (ap reverse (sym (reverse-append (c ∷ s) (d ∷ []))) ∙ reverse-reverse _)))

abbrev pub prepend : Str → List Str → List Str
prepend s [] = s ∷ []
prepend s (t ∷ ts) = (s ++ t) ∷ ts

push_first-prepend :
    (c : ℕ) (s : Str) (ts : List Str) → push_first c (prepend s ts) ≡ prepend (c ∷ s) ts
unfolding push_first
push_first-prepend c s [] = refl
push_first-prepend c s (t ∷ ts) = refl

prepend-nil : (c : ℕ) (s : Str) → prepend [] (split c s) ≡ split c s
unfolding split push_first
prepend-nil c [] = refl
prepend-nil c (x ∷ s) = ground arith

pub split_skip : (c : ℕ) (s t : Str) → Lacks c s → split c (s ++ t) ≡ prepend s (split c t)
unfolding split
split_skip c [] t h = sym (prepend-nil c t)
split_skip c (x ∷ s) t (p, h) =
    ground (arith, split_skip c s t h, push_first-prepend x s (split c t))
