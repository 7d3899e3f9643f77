-- ===== src/IsvEnclave/Derivation.antt =====
-- Which keys the attestation enclave derives from a shared secret.
use sgx_erlang_extension.Prelude.{
  ℕ, ◌≡◌, refl, Option, none, some, List, [], ◌∷◌, ◌++◌, take, drop, if◌then◌else◌, arith, ◌==◌,
}
use sgx_erlang_extension.Sgx.{Status, success}
use sgx_erlang_extension.Sgx.Sha256.{Sha256, Digests}
use sgx_erlang_extension.IsvEnclave.{
  Crypto, key_size, id_u, id_v, hash_buffer, derive_key_in, derive_key, key_derivation,
}

abbrev pub halves : List ℕ → List ℕ × List ℕ
halves m = (take key_size m, take key_size (drop key_size m))

-- What is hashed for a key.
abbrev pub material : {sha256 : Sha256} → Digests sha256 → List ℕ → ℕ → List ℕ
material digests shared key_id = digests.digest ((hash_buffer key_id shared ++ id_u) ++ id_v)

module _ (crypto : Crypto) (digests : Digests crypto.sha256) where
  pub derive_key_lem :
      (shared : List ℕ) (key_id : ℕ)
      → derive_key crypto shared key_id ≡ some (halves (material digests shared key_id))
  unfolding derive_key derive_key_in
  derive_key_lem shared key_id =
      let c₀ = crypto.sha256.sha256_init.1 in
      let c₁ = (crypto.sha256.sha256_update (hash_buffer key_id shared) c₀).1 in
      let c₂ = (crypto.sha256.sha256_update id_u c₁).1 in
      let c₃ = (crypto.sha256.sha256_update id_v c₂).1 in
      ground (
        arith,
        digests.init_succeeds,
        digests.update_succeeds (hash_buffer key_id shared) c₀,
        digests.update_succeeds id_u c₁,
        digests.update_succeeds id_v c₂,
        digests.hash_succeeds c₃,
        digests.absorbed_init,
        digests.absorbed_update (hash_buffer key_id shared) c₀,
        digests.absorbed_update id_u c₁,
        digests.absorbed_update id_v c₂,
        digests.hash_absorbed c₃,
      )

  abbrev pub four : List ℕ × List ℕ → List ℕ × List ℕ → List (List ℕ)
  four (smk, sk) (mk, vk) = smk ∷ sk ∷ mk ∷ vk ∷ []

  -- The keys of a secret, and what is returned where there is none or for another function.
  abbrev pub keys_of : Option (List ℕ) → ℕ → Status × List (List ℕ)
  keys_of none kdf_id = (Status.error_invalid_parameter, [])
  keys_of (some secret) kdf_id =
      if kdf_id == 2
      then (success, four (halves (material digests secret 0)) (halves (material digests secret 1)))
      else (Status.error_kdf_mismatch, [])

  -- Where SHA-256 works as documented, `key_derivation` returns SGX_ERROR_INVALID_PARAMETER
  -- without a secret, SGX_ERROR_KDF_MISMATCH for a function other than 2, and otherwise success
  -- with the keys SMK and SK, the halves of the digest for counter 0, and MK and VK, those for
  -- counter 1.
  pub key_derivation_lem :
      (shared : Option (List ℕ)) (kdf_id : ℕ)
      → key_derivation crypto shared kdf_id ≡ keys_of shared kdf_id
  unfolding key_derivation
  key_derivation_lem none kdf_id = refl
  key_derivation_lem (some secret) kdf_id =
      ground (arith, derive_key_lem secret 0, derive_key_lem secret 1)
