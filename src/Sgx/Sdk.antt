-- ===== src/Sgx/Sdk.antt =====
-- The untrusted runtime of the SGX SDK: `sgx_create_enclave` and `sgx_destroy_enclave`. It is not
-- part of the repository, so it is a parameter, with what the SDK documents of enclave identifiers.
use sgx_erlang_extension.Prelude.{ℕ, ◌≡◌, ◌≢◌, Bool, true, false}
use sgx_erlang_extension.Sgx.Codes.{Status, success, eq_status}

pub record Sdk : Type 1 where
  pub World : Type 0
  -- The status, and the identifier that is written if the status is SGX_SUCCESS.
  pub create_enclave : World → (Status × ℕ) × World
  pub destroy_enclave : ℕ → World → World
  pub is_live : World → ℕ → Bool
  -- A new enclave is live, under an identifier that no live enclave had, as the SDK's reference has
  -- it; a call that fails makes none; other enclaves are left alone. The README files of erlang-nif
  -- and erlang-nif_SSL say of enclaves after a reload that they have the same identifier.
  pub create_live :
      (w : World)
      → eq_status (create_enclave w).0.0 success ≡ true
      → is_live (create_enclave w).1 (create_enclave w).0.1 ≡ true
  pub create_fresh :
      (w : World)
      → eq_status (create_enclave w).0.0 success ≡ true
      → is_live w (create_enclave w).0.1 ≡ false
  pub create_failed :
      (w : World) (i : ℕ)
      → eq_status (create_enclave w).0.0 success ≡ false
      → is_live (create_enclave w).1 i ≡ is_live w i
  pub create_others :
      (w : World) (i : ℕ)
      → i ≢ (create_enclave w).0.1
      → is_live (create_enclave w).1 i ≡ is_live w i
  -- A destroyed enclave is gone, and no other.
  pub destroy_gone : (w : World) (i : ℕ) → is_live (destroy_enclave i w) i ≡ false
  pub destroy_others : (w : World) (i j : ℕ) → j ≢ i → is_live (destroy_enclave i w) j ≡ is_live w j
