-- ===== src/Signature/Window.antt =====
-- `checkTimestampWindow`: when it accepts, and where the sum of package `time` wraps.
use beckn_onix.Base.{ℕ, ◌+◌, ◌/◌, ◌^◌, ◌≤◌, ◌<◌, Str, pos, ◌≡◌, ◌↔◌, arith}
use beckn_onix.Model.Result.{ok}
use beckn_onix.Signature.Validator.{
  second, unix_to_internal, internal_seconds, is_after, check_timestamp_window,
}

-- The sum of a timestamp and the offset of package `time` fits an int64.
abbrev pub IsRepresentable : ℕ → Type 0
IsRepresentable t = t + unix_to_internal < 2 ^ 63

-- For times that are not negative, the creation time one that package `time` can represent, a message
-- is accepted exactly if it was created no later than the tolerance from now and has not expired, both
-- in whole seconds.
pub check_timestamp_window_iff :
    (prefix : Str) (now tolerance created expires : ℕ)
    → IsRepresentable created
    → (check_timestamp_window prefix now tolerance (pos created) (pos expires) ≡ ok tt)
      ↔ ((created ≤ (now + tolerance) / second) × (now / second ≤ expires))
unfolding check_timestamp_window is_after internal_seconds
check_timestamp_window_iff prefix now tolerance created expires h = ground arith

-- A creation time that is not negative and that package `time` cannot represent is before every
-- deadline: such a message is accepted until it expires, however far in the future it was created.
pub check_timestamp_window_wrapped :
    (prefix : Str) (now tolerance created expires : ℕ)
    → 2 ^ 63 ≤ created + unix_to_internal
    → created < 2 ^ 63
    → now / second ≤ expires
    → check_timestamp_window prefix now tolerance (pos created) (pos expires) ≡ ok tt
unfolding check_timestamp_window is_after internal_seconds
check_timestamp_window_wrapped prefix now tolerance created expires h k e = ground arith
