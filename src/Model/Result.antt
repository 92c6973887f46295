-- ===== src/Model/Result.antt =====
-- A value or an `error`.
use beckn_onix.Base.{Bool, true, false, Str, ◌≡◌, refl}
use beckn_onix.Model.Error.{GoError, wrapf}

pub data Result {ℓ} (V : Type ℓ) : Type ℓ where
  err : GoError → Result V
  ok : V → Result V

-- What follows a call whose error is returned as it is.
infixl 5 ◌>>=◌ ◌>>◌
abbrev pub ◌>>=◌ {ℓ ι} : {V : Type ℓ} {W : Type ι} → Result V → (V → Result W) → Result W
err failure >>= next = err failure
ok v >>= next = next v

-- The same for a call that returns an error alone.
abbrev pub ◌>>◌ {ℓ} : {W : Type ℓ} → Result (Unit {0}) → Result W → Result W
call >> rest = call >>= λ (_ : Unit {0}). rest

-- `if err != nil { return fmt.Errorf("…: %w", err) }`
abbrev pub or_wrap {ℓ} : {A : Type ℓ} → Str → Result A → Result A
or_wrap prefix (ok a) = ok a
or_wrap prefix (err e) = err (wrapf prefix e)

-- `if failed { return err }`
abbrev pub fail_if : Bool → GoError → Result (Unit {0})
fail_if true e = err e
fail_if false e = ok tt

-- A chain that succeeds has gone through its first call.
pub >>=-eq-ok {ℓ ι} :
    {V : Type ℓ} {W : Type ι} (first : Result V) (next : V → Result W) {w : W}
    → (first >>= next) ≡ ok w
    → (v : V) × (first ≡ ok v) × (next v ≡ ok w)
>>=-eq-ok (err failure) next h = cc
>>=-eq-ok (ok v) next h = (v, refl, h)

pub fail_if->>-eq-ok {ℓ} :
    {B : Type ℓ} (test : Bool) (e : GoError) (k : Result B) {b : B}
    → (fail_if test e >> k) ≡ ok b
    → (test ≡ false) × (k ≡ ok b)
fail_if->>-eq-ok true e k h = cc
fail_if->>-eq-ok false e k h = (refl, h)

pub ok-injective {ℓ} : {V : Type ℓ} {a b : V} → ok a ≡ ok b → a ≡ b
ok-injective e = cc

abbrev pub is_err {ℓ} : {V : Type ℓ} → Result V → Bool
is_err (err e) = true
is_err (ok v) = false
