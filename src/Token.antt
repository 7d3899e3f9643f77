-- ===== src/Token.antt =====
-- `initialize_enclave` of erlang-nif_SSL/App/App.c: the path of the launch token, the token file,
-- and the creation of the enclave with the token.
pub mod Buffer
pub mod Path
pub mod Launch
pub mod Files
pub mod Saves
mod Tests
