-- ===== src/QuoteServer.antt =====
-- The sample that verifies ECDSA quotes,
-- attestation_abandoned/attestation/quote-validation/QuoteVerificationServer: the enclave that checks
-- the report of Intel's quote verification enclave, and the application around it.
pub mod Enclave
pub mod Reports
pub mod Dcap
pub mod Calls
pub mod App
pub mod Main
pub mod Verdicts
pub mod Lifetimes
pub mod Unauthenticated
pub mod Runs
mod Tests
