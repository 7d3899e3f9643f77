-- ===== src/Sgx.antt =====
-- The Intel SGX SDK as the application sees it: `sgx_status_t`, and the calls into the enclave.
-- The SDK is not part of the repository. Its status codes are the constants that the source names
-- and `other n` for any further value.
mod Codes
pub mod Errors
pub mod Bridge
pub mod Sdk
pub mod Sha256
pub mod Toy
mod Tests
pub use Codes.*
