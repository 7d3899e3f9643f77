-- ===== src/IsvApp.antt =====
-- The application of the remote attestation sample,
-- attestation_abandoned/erlang-c-node-remote/isv_app/isv_app.cpp: `main`. Each of its two rounds runs the
-- protocol with the service provider, or with a verification index sends precomputed messages, and
-- cleans up. What it prints is left out, but for the outcome of the comparisons with such messages.
pub mod Samples
pub mod Retry
pub mod Calls
pub mod Round
pub mod Main
pub mod Verification
pub mod Retries
pub mod Results
pub mod Delivery
pub mod Keeps
pub mod Rounds
pub mod Precomputed
pub mod Indices
pub mod Mismatch
mod Tests
