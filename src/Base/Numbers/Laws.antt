-- ===== src/Base/Numbers/Laws.antt =====
-- Reading a number back from its decimal form.
use Prim.Native.Nat.{ℕ, zero, suc, ◌+◌, ◌-◌, ◌*◌, ◌/◌, ◌%◌, ◌≤◌, ◌<◌}
use mathlib.Core.Path.{◌≡◌, refl, ap, ◌∙◌}
use mathlib.Core.Logic.{◌≢◌, ◌⊎◌, inl, inr}
use mathlib.Core.Option
use mathlib.Core.Option.{Option, none, some}
use mathlib.Core.List.{[], ◌∷◌, ◌++◌}
use native.Mathlib.Omega.{arith}
use beckn_onix.Base.Tests.{ltb, ltb→lt, Bool-cases}
use beckn_onix.Base.Strings.{Str}
use beckn_onix.Base.Strings.Parts.{Lacks}
use beckn_onix.Base.Numbers.{pos, decimal, decimal_fuel, digits_from, parse_int, int64_max}

abbrev Digits : Str → Type 0
Digits [] = Unit
Digits (c ∷ s) = (48 ≤ c) × (c ≤ 57) × Digits s

Digits-append : (s t : Str) → Digits s → Digits t → Digits (s ++ t)
Digits-append [] t h k = k
Digits-append (c ∷ s) t (p, q, h) k = (p, q, Digits-append s t h k)

decimal_fuel-Digits : (f n : ℕ) → Digits (decimal_fuel f n)
unfolding decimal_fuel
decimal_fuel-Digits zero n = tt
decimal_fuel-Digits (suc f) n = elim (Bool-cases (ltb n 10)) [
  | inl small ↦ rw small (ground arith, ground arith, tt)
  | inr large ↦ rw large (
      Digits-append (decimal_fuel f (n / 10)) _ (decimal_fuel-Digits f (n / 10))
        (omega arith, omega arith, tt))
]

Lacks-Digits : (c : ℕ) (s : Str) → (c < 48) ⊎ (57 < c) → Digits s → Lacks c s
Lacks-Digits c [] h d = tt
Lacks-Digits c (x ∷ s) h (p, q, d) = (omega arith, Lacks-Digits c s h d)

-- A decimal holds no byte but digits.
pub decimal-Lacks : (c n : ℕ) → (c < 48) ⊎ (57 < c) → Lacks c (decimal n)
unfolding decimal
decimal-Lacks c n h = Lacks-Digits c _ h (decimal_fuel-Digits (suc n) n)

digits_from-concat :
    (acc d : ℕ) (s : Str)
    → d < 10
    → digits_from acc (s ++ ((48 + d) ∷ [])) ≡ Option.map (λ n. n * 10 + d) (digits_from acc s)
unfolding digits_from
digits_from-concat acc d [] h = ground arith
digits_from-concat acc d (c ∷ s) h = ground (arith, digits_from-concat (acc * 10 + (c - 48)) d s h)

digits_from-decimal_fuel : (f n : ℕ) → n < f → digits_from 0 (decimal_fuel f n) ≡ some n
unfolding decimal_fuel digits_from
digits_from-decimal_fuel zero n h = elim h [ ]
digits_from-decimal_fuel (suc f) n h = elim (Bool-cases (ltb n 10)) [
  | inl small ↦ rw small (digits_from-concat 0 n [] (ltb→lt n 10 small) ∙ ap some (omega arith))
  | inr large ↦ rw large (
      digits_from-concat 0 (n % 10) (decimal_fuel f (n / 10)) (omega arith)
      ∙ rw (digits_from-decimal_fuel f (n / 10) (ground arith)) (ap some (omega arith)))
]

decimal-Digits : (n : ℕ) → Digits (decimal n)
unfolding decimal
decimal-Digits n = decimal_fuel-Digits (suc n) n

digits_from-decimal : (n : ℕ) → digits_from 0 (decimal n) ≡ some n
unfolding decimal
digits_from-decimal n = digits_from-decimal_fuel (suc n) n (omega arith)

concat-ne-nil : (s : Str) (c : ℕ) → s ++ (c ∷ []) ≢ []
concat-ne-nil [] c = cc
concat-ne-nil (x ∷ s) c = cc

decimal-ne-nil : (n : ℕ) → decimal n ≢ []
unfolding decimal decimal_fuel
decimal-ne-nil n = ground (arith, concat-ne-nil (decimal_fuel n (n / 10)) (48 + n % 10))

parse_int_of_Digits :
    (s : Str) (n : ℕ)
    → Digits s
    → s ≢ []
    → digits_from 0 s ≡ some n
    → n < int64_max
    → parse_int s ≡ some (pos n)
unfolding parse_int
parse_int_of_Digits [] n d h e b = absurd (h refl)
parse_int_of_Digits (c ∷ s) n (p, q, d) h e b = ground arith

-- `strconv.ParseInt` reads back what `%d` wrote.
pub parse_int-decimal : (n : ℕ) → n < int64_max → parse_int (decimal n) ≡ some (pos n)
parse_int-decimal n h =
    parse_int_of_Digits (decimal n) n (decimal-Digits n) (decimal-ne-nil n) (digits_from-decimal n)
      h
