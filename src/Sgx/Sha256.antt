-- ===== src/Sgx/Sha256.antt =====
-- SHA-256 of the SDK's trusted cryptography library, which both attestation enclaves use in steps
-- over a context. It is not part of the repository, so it is a parameter.
use sgx_erlang_extension.Prelude.{ℕ, ◌≡◌, true, List, [], ◌++◌}
use sgx_erlang_extension.Sgx.Codes.{Status, success, eq_status}

pub record Sha256 : Type 1 where
  pub Sha : Type 0
  pub sha256_init : Status × Sha
  pub sha256_update : List ℕ → Sha → Status × Sha
  pub sha256_get_hash : Sha → Status × List ℕ

-- SHA-256 as the SDK documents it, when no call fails: the digest of what has been fed to a new
-- context.
pub record Digests (sha256 : Sha256) : Type 0 where
  pub absorbed : sha256.Sha → List ℕ
  pub digest : List ℕ → List ℕ
  pub absorbed_init : absorbed sha256.sha256_init.1 ≡ []
  pub absorbed_update :
      (bytes : List ℕ) (c : sha256.Sha)
      → absorbed (sha256.sha256_update bytes c).1 ≡ absorbed c ++ bytes
  pub init_succeeds : eq_status sha256.sha256_init.0 success ≡ true
  pub update_succeeds :
      (bytes : List ℕ) (c : sha256.Sha) → eq_status (sha256.sha256_update bytes c).0 success ≡ true
  pub hash_succeeds : (c : sha256.Sha) → eq_status (sha256.sha256_get_hash c).0 success ≡ true
  pub hash_absorbed : (c : sha256.Sha) → (sha256.sha256_get_hash c).1 ≡ digest (absorbed c)
