-- ===== src/IsvEnclave.antt =====
-- The enclave of the remote attestation sample,
-- attestation_abandoned/erlang-c-node-remote/isv_enclave/isv_enclave.cpp: the derivation of the
-- session keys, the check of an attestation result's MAC, and the reception of the secret.
pub mod Results
pub mod Derivation
pub mod Contexts
mod Tests
use sgx_erlang_extension.Prelude.{
  ℕ, ◌+◌, ◌≡◌, ◌%◌, ◌^◌, ◌-◌, Option, none, some, Bool, true, false, ◌&&◌, not, List, [], ◌∷◌, ◌++◌,
  length, take, drop, zeros, codes, bytes_eq, ltb, ◌==◌, if◌then◌else◌,
}
use sgx_erlang_extension.Sgx.{Status, success, eq_status}
use sgx_erlang_extension.Sgx.Sha256.{Sha256}

-- SGX_RA_KEY_MK and SGX_RA_KEY_SK
pub data KeyType : Type 0 where
  key_mk key_sk : KeyType

-- The trusted libraries of the SDK, which are not part of the repository: the keys of an attestation
-- context, AES-CMAC, AES-GCM with the array that the plaintext is written to, and SHA-256.
pub record Crypto : Type 1 where
  pub get_keys : ℕ → KeyType → Status × List ℕ
  pub cmac : List ℕ → List ℕ → Status × List ℕ
  pub gcm_decrypt : List ℕ → List ℕ → List ℕ → List ℕ → List ℕ → Status × List ℕ
  pub sha256 : Sha256

abbrev pub mac_size : ℕ
mac_size = 16

abbrev pub key_size : ℕ
key_size = 16

abbrev pub isv_kdf_id : ℕ
isv_kdf_id = 2

-- `sizeof` of both counts the NUL.
abbrev pub id_u : List ℕ
id_u = codes "SGXRAENCLAVE" ++ (0 ∷ [])

abbrev pub id_v : List ℕ
id_v = codes "SGXRASERVER" ++ (0 ∷ [])

-- The loop that turns the bytes of the shared secret round.
unfoldable pub turned : List ℕ → List ℕ
turned [] = []
turned (b ∷ bytes) = turned bytes ++ (b ∷ [])

-- `hash_buffer_t`: the counter in big endian, the turned secret, and the algorithm's identifier.
unfoldable pub hash_buffer : ℕ → List ℕ → List ℕ
unfolding turned
hash_buffer key_id shared = (0 ∷ 0 ∷ 0 ∷ key_id ∷ []) ++ turned shared ++ (0 ∷ 0 ∷ 0 ∷ 0 ∷ [])

-- The loop over the secret: whether each byte is its own index.
unfoldable pub counts_up : ℕ → List ℕ → Bool
counts_up i [] = true
counts_up i (b ∷ bytes) = let rest = counts_up (i + 1) bytes in (b == i) && rest

module _ (crypto : Crypto) where
  open crypto use {get_keys, cmac, gcm_decrypt}
  open crypto.sha256 use {sha256_init, sha256_update, sha256_get_hash}

  -- The array arguments are as long as their size arguments say. A message is cast to a 32-bit size.
  unfoldable pub verify_att_result_mac : ℕ → List ℕ → List ℕ → Status
  verify_att_result_mac context message mac =
      if not (length mac == mac_size)
      then Status.error_invalid_parameter
      else if ltb (2 ^ 32 - 1) (length message)
      then Status.error_invalid_parameter
      else let (found, key) = get_keys context key_mk in
        let (made, expected) = cmac key (take (length message % 2 ^ 32) message) in
        if not (eq_status found success)
        then found
        else if not (eq_status made success)
        then made
        else if bytes_eq mac expected
        then made
        else Status.error_mac_mismatch

  -- The status, and `g_secret` after the call.
  unfoldable pub put_secret_data : ℕ → List ℕ → List ℕ → List ℕ → Status × List ℕ
  put_secret_data context secret gcm_mac g_secret =
      if not (length secret == 8)
      then (Status.error_invalid_parameter, g_secret)
      else let (found, key) = get_keys context key_sk in
        let (ret, plain) = gcm_decrypt key secret (zeros 12) gcm_mac g_secret in
        if not (eq_status found success)
        then (found, g_secret)
        else (if counts_up 0 plain then ret else Status.error_unexpected, plain)

  -- The two keys, or nothing if a step of the hash fails, and the number of SHA contexts that are open.
  unfoldable pub derive_key_in : List ℕ → ℕ → ℕ → Option (List ℕ × List ℕ) × ℕ
  derive_key_in shared key_id contexts =
      let (s₀, c₀) = sha256_init in
      let (s₁, c₁) = sha256_update (hash_buffer key_id shared) c₀ in
      let (s₂, c₂) = sha256_update id_u c₁ in
      let (s₃, c₃) = sha256_update id_v c₂ in
      let (s₄, material) = sha256_get_hash c₃ in
      let opened = contexts + 1 in
      let closed = opened - 1 in
      if not (eq_status s₀ success)
      then (none, contexts)
      else if not (eq_status s₁ success)
      then (none, closed)
      else if not (eq_status s₂ success)
      then (none, closed)
      else if not (eq_status s₃ success)
      then (none, closed)
      else if not (eq_status s₄ success)
      then (none, closed)
      else (some (take key_size material, take key_size (drop key_size material)), closed)

  -- The keys alone.
  unfoldable pub derive_key : List ℕ → ℕ → Option (List ℕ × List ℕ)
  derive_key shared key_id = (derive_key_in shared key_id 0).0

  abbrev derived :
      Option (List ℕ × List ℕ) → (List ℕ × List ℕ → Status × List (List ℕ)) → Status × List (List ℕ)
  derived none f = (Status.error_unexpected, [])
  derived (some keys) f = f keys

  -- The status, and on success the keys SMK, SK, MK and VK.
  unfoldable pub key_derivation : Option (List ℕ) → ℕ → Status × List (List ℕ)
  key_derivation none kdf_id = (Status.error_invalid_parameter, [])
  key_derivation (some shared) kdf_id =
      if not (kdf_id == isv_kdf_id)
      then (Status.error_kdf_mismatch, [])
      else derived (derive_key shared 0)
          λ (smk, sk). derived (derive_key shared 1) λ (mk, vk). (success, smk ∷ sk ∷ mk ∷ vk ∷ [])
