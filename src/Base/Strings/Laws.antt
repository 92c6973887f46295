-- ===== src/Base/Strings/Laws.antt =====
-- Laws of the string operations: equality, and searching in a text put together from parts.
use mathlib.Core.Path.{◌≡◌, refl}
use mathlib.Core.Logic.{◌↔◌}
use mathlib.Core.Bool.{true}
use mathlib.Core.List.{[], ◌∷◌}
use native.Mathlib.Omega.{arith}
use beckn_onix.Base.Strings.{Str, ◌==◌}

pub eq_of_== : (a b : Str) → (a == b) ≡ true → a ≡ b
unfolding ◌==◌
eq_of_== [] [] h = refl
eq_of_== [] (y ∷ ys) h = cc
eq_of_== (x ∷ xs) [] h = cc
eq_of_== (x ∷ xs) (y ∷ ys) h = ground (arith, eq_of_== xs ys)

pub ==_refl : (a : Str) → (a == a) ≡ true
unfolding ◌==◌
==_refl [] = refl
==_refl (x ∷ xs) = ground (arith, ==_refl xs)

pub ==_iff : (a b : Str) → ((a == b) ≡ true) ↔ (a ≡ b)
==_iff a b = (eq_of_== a b, λ e. rw e (==_refl b))
