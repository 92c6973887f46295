-- ===== src/Crawler/Settings.antt =====
-- catalogcrawler.go: the helpers that read the configuration. What crawlmanager derives as the default
-- number of parks is an argument.
use beckn_onix.Base.{
  Str, ◌==◌, split, trim_space, ℤ, pos, parse_int, le_int, All, true, false, List, [], ◌∷◌, Option,
  none, some, if◌then◌else◌, ◌≡◌, Bool-cases, inl, inr,
}

-- The loop of `splitNonEmpty`.
unfoldable pub non_empty_parts : List Str → List Str
non_empty_parts [] = []
non_empty_parts (part ∷ parts) =
    let out = non_empty_parts parts in if trim_space part == [] then out else trim_space part ∷ out

-- `splitNonEmpty`; 44 is the comma
unfoldable pub split_non_empty : Str → List Str
split_non_empty s = non_empty_parts (split 44 s)

-- `int64Or`
unfoldable pub int64_or : Str → ℤ → ℤ
int64_or s fallback = elim (parse_int (trim_space s)) [
  | none ↦ fallback
  | some n ↦ if le_int n (pos 0) then fallback else n
]

-- How `New` reads maxParkCount: a 0 that is written counts.
unfoldable pub max_park_count : Str → ℤ → ℤ
max_park_count value derived =
    if trim_space value == [] then derived else elim (parse_int (trim_space value)) [
      | none ↦ derived
      | some n ↦ if le_int (pos 0) n then n else derived
    ]

-- No part is blank.
pub non_empty_parts-All :
    (parts : List Str) → All (λ (p : Str). (p == []) ≡ false) (non_empty_parts parts)
unfolding non_empty_parts
non_empty_parts-All [] = tt
non_empty_parts-All (part ∷ parts) = elim (Bool-cases (trim_space part == [])) [
  | inl blank ↦ rw blank (non_empty_parts-All parts)
  | inr full ↦ rw full (full, non_empty_parts-All parts)
]

-- Where the default is not negative, no setting of maxParkCount makes it so.
pub max_park_count_nonneg :
    (value : Str) (derived : ℤ)
    → le_int (pos 0) derived ≡ true
    → le_int (pos 0) (max_park_count value derived) ≡ true
unfolding max_park_count
max_park_count_nonneg value derived h = elim (Bool-cases (trim_space value == [])) [
  | inl blank ↦ rw blank h
  | inr full ↦ rw full (by_number (parse_int (trim_space value)))
]
  where
    by_number :
        (o : Option ℤ)
        → le_int (pos 0) (elim o as (λ _. ℤ) [
          | none ↦ derived
          | some n ↦ if le_int (pos 0) n then n else derived
        ])
          ≡ true
    by_number none = h
    by_number (some n) = elim (Bool-cases (le_int (pos 0) n)) [ inl e ↦ rw e e | inr e ↦ rw e h ]
