-- ===== src/Signature.antt =====
-- Signing and validating messages: the headers (core/module/handler/step.go, responsestep.go), the
-- signer (pkg/plugin/implementation/signer) and the validator (…/signvalidator).
pub mod Crypto
pub mod Header
pub mod Signer
pub mod Validator
pub mod Reading
pub mod Extracting
pub mod Window
pub mod Verified
pub mod RoundTrip
pub mod Tests
