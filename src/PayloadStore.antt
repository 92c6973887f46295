-- ===== src/PayloadStore.antt =====
-- pkg/plugin/implementation/payloadstore: stored messages, by message and by transaction.
pub mod Entries
pub mod Store
pub mod RoundTrip
pub mod Tests
