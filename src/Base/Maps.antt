-- ===== src/Base/Maps.antt =====
-- Go's maps with string keys: association lists, one entry to a key.
use mathlib.Core.Path.{◌≡◌, refl}
use mathlib.Core.Option.{Option, none, some}
use mathlib.Core.List.{List, [], ◌∷◌}
use native.Mathlib.Omega.{arith}
use beckn_onix.Base.Tests.{if◌then◌else◌}
use beckn_onix.Base.Strings.{Str, ◌==◌}
use beckn_onix.Base.Strings.Laws.{==_iff}

abbrev pub Dict {ℓ} : Type ℓ → Type ℓ
Dict V = List (Str × V)

module _ {ℓ} {V : Type ℓ} where
  -- `v, ok := m[key]`
  unfoldable pub lookup : Str → Dict V → Option V
  lookup key [] = none
  lookup key ((name, held) ∷ rest) = if name == key then some held else lookup key rest

  -- `m[key] = v`
  unfoldable pub insert : Str → V → Dict V → Dict V
  insert key v [] = (key, v) ∷ []
  insert key v ((name, held) ∷ rest) =
      if name == key then (key, v) ∷ rest else (name, held) ∷ insert key v rest

  -- `delete(m, key)`
  unfoldable pub erase : Str → Dict V → Dict V
  erase key [] = []
  erase key ((name, held) ∷ rest) =
      let others = erase key rest in if name == key then others else (name, held) ∷ others

  pub lookup-insert :
      (asked key : Str) (v : V) (entries : Dict V)
      → lookup asked (insert key v entries)
        ≡ (if key == asked then some v else lookup asked entries)
  unfolding lookup insert
  lookup-insert asked key v ((name, held) ∷ rest) =
      ground (
        arith,
        ==_iff name key,
        ==_iff key asked,
        ==_iff name asked,
        lookup-insert asked key v rest,
      )
  lookup-insert asked key v [] = refl

  pub lookup-erase :
      (asked key : Str) (entries : Dict V)
      → lookup asked (erase key entries) ≡ (if key == asked then none else lookup asked entries)
  unfolding lookup erase
  lookup-erase asked key ((name, held) ∷ rest) =
      ground
        (arith, ==_iff name key, ==_iff key asked, ==_iff name asked, lookup-erase asked key rest)
  lookup-erase asked key [] = ground arith
