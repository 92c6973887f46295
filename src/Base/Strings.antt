-- ===== src/Base/Strings.antt =====
-- Go's `string`: a sequence of bytes, with what the program uses of the package `strings`.
pub mod Laws
pub mod Parts
pub mod Search
pub mod Trimming
use Prim.Native.Nat.{ℕ, zero, suc, ◌+◌, ◌-◌, ◌/◌, ◌%◌, ◌≤◌}
use Prim.Native.Char.{code}
use Prim.Native.String.{String}
use mathlib.Core.Bool.{Bool, true, false, ◌&&◌, ◌||◌}
use mathlib.Core.Option
use mathlib.Core.Option.{Option, none, some}
use mathlib.Core.List.{List, [], ◌∷◌, ◌++◌, reverse}
use beckn_onix.Base.Tests.{ltb, leb, eqb, if◌then◌else◌, is_some, get_or}

abbrev pub Str : Type 0
Str = List ℕ

-- The UTF-8 bytes of a code point.
utf8 : ℕ → Str
utf8 c =
    if ltb c 0x80
    then c ∷ []
    else if ltb c 0x800
    then (0xC0 + c / 64) ∷ (0x80 + c % 64) ∷ []
    else if ltb c 0x10000
    then (0xE0 + c / 4096) ∷ (0x80 + c / 64 % 64) ∷ (0x80 + c % 64) ∷ []
    else (0xF0 + c / 262144) ∷ (0x80 + c / 4096 % 64) ∷ (0x80 + c / 64 % 64) ∷ (0x80 + c % 64) ∷ []

-- A string literal of the source.
unfoldable pub str : String → Str
unfolding utf8
str String.[] = []
str (String.◌∷◌ c s) = utf8 (code c) ++ str s

infix 50 ◌==◌
unfoldable pub ◌==◌ : Str → Str → Bool
[] == [] = true
[] == (_ ∷ _) = false
(_ ∷ _) == [] = false
(x ∷ xs) == (y ∷ ys) = eqb x y && xs == ys

-- What follows the prefix, if the text begins with it.
unfoldable pub strip_prefix : Str → Str → Option Str
strip_prefix [] s = some s
strip_prefix (p ∷ ps) [] = none
strip_prefix (p ∷ ps) (c ∷ s) = let rest = strip_prefix ps s in if eqb p c then rest else none

-- `strings.HasPrefix(s, prefix)`
unfoldable pub has_prefix : Str → Str → Bool
unfolding strip_prefix
has_prefix s prefix = is_some (strip_prefix prefix s)

-- `strings.TrimPrefix(s, prefix)`
unfoldable pub trim_prefix : Str → Str → Str
unfolding strip_prefix
trim_prefix s prefix = get_or (strip_prefix prefix s) s

-- `strings.Index(s, substr)`, with `none` for -1
unfoldable pub index : Str → Str → Option ℕ
unfolding has_prefix
index [] pattern = if has_prefix [] pattern then some 0 else none
index (c ∷ s) pattern =
    let rest = index s pattern in
    if has_prefix (c ∷ s) pattern then some 0 else Option.map (λ n. suc n) rest

-- `strings.Contains(s, substr)`
unfoldable pub contains : Str → Str → Bool
unfolding index
contains s pattern = is_some (index s pattern)

push_first : ℕ → List Str → List Str
push_first c [] = (c ∷ []) ∷ []
push_first c (s ∷ rest) = (c ∷ s) ∷ rest

-- `strings.Split(s, sep)` for a separator of one byte
unfoldable pub split : ℕ → Str → List Str
unfolding push_first
split sep [] = [] ∷ []
split sep (c ∷ s) = let rest = split sep s in if eqb c sep then [] ∷ rest else push_first c rest

-- The parts before and after the first separator.
unfoldable pub cut : ℕ → Str → Option (Str × Str)
cut sep [] = none
cut sep (c ∷ s) =
    let rest = cut sep s in
    if eqb c sep then some ([], s) else Option.map (λ (a, b). (c ∷ a, b)) rest

-- `strings.SplitN(s, sep, 2)` for a separator of one byte
unfoldable pub split_two : ℕ → Str → List Str
unfolding cut
split_two sep s = elim (cut sep s) [ none ↦ s ∷ [] | some (a, b) ↦ a ∷ b ∷ [] ]

-- `strings.Trim(s, cutset)` for a cutset of one byte
trim_left : ℕ → Str → Str
trim_left b [] = []
trim_left b (c ∷ s) = let rest = trim_left b s in if eqb c b then rest else c ∷ s

abbrev trim_last : ℕ → ℕ → Str → Str
trim_last b c [] = if eqb c b then [] else c ∷ []
trim_last b c (d ∷ s) = c ∷ d ∷ s

trim_right : ℕ → Str → Str
trim_right b [] = []
trim_right b (c ∷ s) = trim_last b c (trim_right b s)

unfoldable pub trim : ℕ → Str → Str
unfolding trim_left trim_right
trim b s = trim_right b (trim_left b s)

-- `unicode.IsSpace` on what one, two and three bytes encode
abbrev is_space : ℕ → Bool
is_space c = eqb c 0x20 || (leb 0x09 c && leb c 0x0D)

abbrev is_space_two : ℕ → ℕ → Bool
is_space_two c d = eqb c 0xC2 && (eqb d 0x85 || eqb d 0xA0)

abbrev is_space_three : ℕ → ℕ → ℕ → Bool
is_space_three c d e =
    (eqb c 0xE1 && eqb d 0x9A && eqb e 0x80)
    || (eqb c 0xE2
        && eqb d 0x80
        && ((leb 0x80 e && leb e 0x8A) || eqb e 0xA8 || eqb e 0xA9 || eqb e 0xAF))
    || (eqb c 0xE2 && eqb d 0x81 && eqb e 0x9F)
    || (eqb c 0xE3 && eqb d 0x80 && eqb e 0x80)

-- The text without the white space that it begins with.
trim_space_left : Str → Str
trim_space_left [] = []
trim_space_left (c ∷ []) = if is_space c then [] else c ∷ []
trim_space_left (c ∷ d ∷ []) = elim (is_space c) [
  | true ↦ trim_space_left (d ∷ [])
  | false ↦ if is_space_two c d then [] else c ∷ d ∷ []
]
trim_space_left (c ∷ d ∷ e ∷ s) = elim (is_space c) [
  | true ↦ trim_space_left (d ∷ e ∷ s)
  | false ↦ elim (is_space_two c d) [
    | true ↦ trim_space_left (e ∷ s)
    | false ↦ elim (is_space_three c d e) [ true ↦ trim_space_left s | false ↦ c ∷ d ∷ e ∷ s ]
  ]
]

-- The same on the reversed text, where the bytes of a character come in reverse.
trim_space_back : Str → Str
trim_space_back [] = []
trim_space_back (c ∷ []) = if is_space c then [] else c ∷ []
trim_space_back (d ∷ c ∷ []) = elim (is_space d) [
  | true ↦ trim_space_back (c ∷ [])
  | false ↦ if is_space_two c d then [] else d ∷ c ∷ []
]
trim_space_back (e ∷ d ∷ c ∷ s) = elim (is_space e) [
  | true ↦ trim_space_back (d ∷ c ∷ s)
  | false ↦ elim (is_space_two d e) [
    | true ↦ trim_space_back (c ∷ s)
    | false ↦ elim (is_space_three c d e) [ true ↦ trim_space_back s | false ↦ e ∷ d ∷ c ∷ s ]
  ]
]

-- `strings.TrimSpace(s)`
unfoldable pub trim_space : Str → Str
unfolding trim_space_left trim_space_back
trim_space s = reverse (trim_space_back (reverse (trim_space_left s)))

abbrev pub to_upper_byte : ℕ → ℕ
to_upper_byte c = if leb b'a' c && leb c b'z' then c - 32 else c
