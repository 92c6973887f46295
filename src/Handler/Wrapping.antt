-- ===== src/Handler/Wrapping.antt =====
-- Which NACK an error leads to: wrapping does not change it, and its status is that of its class.
use beckn_onix.Base.{
  ℕ, ◌≤◌, Str, Dict, Bool, true, false, Option, none, some, ◌≡◌, refl, ◌∙◌, ◌⊎◌, inl, inr, arith,
  List, ◌∷◌, if◌then◌else◌, [],
}
use beckn_onix.Model.Error.{
  BecknError, GoError, wrapf, Status, status_nack, Errors, errors_as, first_match, chain,
}
use beckn_onix.Model.Error.Laws.{http_status_of_bounds}
use beckn_onix.Handler.Responses.{
  is_v2, Nack, nack_beckn_error, nack_of_schema, nack_of_coded, nack_of_ack, nack_of_errorer,
  internal_nack, as_schema, as_coded, as_ack_no_callback, as_beckn_errorer,
}

-- `fmt.Errorf("…%w", err)` any number of times.
abbrev pub wrap_all : List Str → GoError → GoError
wrap_all [] e = e
wrap_all (p ∷ ps) e = wrapf p (wrap_all ps e)

nack_beckn_error-wrapf :
    (values : Dict Str) (p : Str) (e : GoError)
    → nack_beckn_error values (wrapf p e) ≡ nack_beckn_error values e
unfolding nack_beckn_error errors_as first_match chain as_schema as_coded as_ack_no_callback
    as_beckn_errorer
nack_beckn_error-wrapf values p e = refl

-- Wrapping an error with `%w`, however often, does not change the NACK that is sent for it.
pub nack_beckn_error-wrap_all :
    (values : Dict Str) (prefixes : List Str) (e : GoError)
    → nack_beckn_error values (wrap_all prefixes e) ≡ nack_beckn_error values e
nack_beckn_error-wrap_all values [] e = refl
nack_beckn_error-wrap_all values (p ∷ ps) e =
    nack_beckn_error-wrapf values p (wrap_all ps e) ∙ nack_beckn_error-wrap_all values ps e

-- A status of an error, or 202 where a v2 message is acknowledged without a callback.
abbrev pub IsNackStatus : Dict Str → Nack → Type 0
IsNackStatus values n =
    ((400 ≤ n.http_status) × (n.http_status ≤ 599) × (n.status ≡ status_nack))
    ⊎ ((n.http_status ≡ 202) × (is_v2 values ≡ true))

of_errorer :
    (values : Dict Str) (o : Option BecknError) → IsNackStatus values (nack_of_errorer values o)
unfolding nack_of_errorer internal_nack
of_errorer values none = inl (omega arith, omega arith, refl)
of_errorer values (some b) = inl (omega arith, omega arith, refl)

internal : (values : Dict Str) → IsNackStatus values (internal_nack values)
unfolding internal_nack
internal values = inl (omega arith, omega arith, refl)

of_ack :
    (values : Dict Str) (a : Option (BecknError × Status)) (o : Option BecknError)
    → IsNackStatus values (nack_of_ack values a o)
unfolding nack_of_ack
of_ack values none o = of_errorer values o
of_ack values (some (b, s)) o = by_version (is_v2 values) refl
  where
    by_version :
        (v : Bool)
        → is_v2 values ≡ v
        → IsNackStatus values (
            if v then record { error = b; http_status = 202; status = s } else internal_nack values)
    by_version true v2 = inr (refl, v2)
    by_version false older = internal values

of_coded :
    (values : Dict Str) (coded : Option (BecknError × ℕ)) (a : Option (BecknError × Status))
    (o : Option BecknError)
    → IsNackStatus values (nack_of_coded values coded a o)
unfolding nack_of_coded
of_coded values none a o = of_ack values a o
of_coded values (some (b, n)) a o =
    let (low, high) = http_status_of_bounds n in inl (low, high, refl)

of_schema :
    (values : Dict Str) (es : Option Errors) (coded : Option (BecknError × ℕ))
    (a : Option (BecknError × Status)) (o : Option BecknError)
    → IsNackStatus values (nack_of_schema values es coded a o)
unfolding nack_of_schema
of_schema values none coded a o = of_coded values coded a o
of_schema values (some es) coded a o = inl (omega arith, omega arith, refl)

-- Whatever the error, the NACK for it has a status from 400 to 599 and says NACK, or it has the
-- status 202 and the message is of protocol version 2 or later.
pub nack_beckn_error-IsNackStatus :
    (values : Dict Str) (e : GoError) → IsNackStatus values (nack_beckn_error values e)
unfolding nack_beckn_error
nack_beckn_error-IsNackStatus values e = of_schema values _ _ _ _
