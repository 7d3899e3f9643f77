-- ===== src/ServiceProvider.antt =====
-- The service provider of the remote attestation sample,
-- attestation_abandoned/erlang-c-node-remote/service_provider. It speaks SIGMA with the application:
-- message 0 chooses an attestation key, message 1 is answered by message 2, and message 3 by the
-- attestation result with the secret. Each source file has its modules here.
pub mod Steps
pub mod Libcrypto
pub mod Ecp
pub mod Ias
pub mod State
pub mod KeyIds
pub mod Msg0
pub mod Msg1
pub mod Msg3
pub mod Network
pub mod Keeps
pub mod Invariant
pub mod Msg3Safety
pub mod Requests
pub mod Success
pub mod Sizes
pub mod Reachable
pub mod Server
pub mod KeyExchange
pub mod Exchanged
pub mod Acceptance
pub mod Accepted
pub mod Secret
pub mod Toy
mod Tests
