-- ===== src/Outbound.antt =====
-- packages/core/outbound/domain: sending money.
pub mod Codes
pub mod Errors
pub mod Parties
pub mod Redis
pub mod Effects
pub mod Checks
pub mod Answers
pub mod Steps
pub mod Messages
pub mod Handlers
pub mod Views
pub mod Triples
pub mod Storing
pub mod Locking
pub mod Quoting
pub mod Transferring
pub mod Others
pub mod Runs
pub mod AtMostOnce
pub mod Exclusion
pub mod Monitoring
pub mod Translating
mod Memory
mod Tests
