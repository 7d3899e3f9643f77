-- ===== src/ServiceProvider/Ecp.antt =====
-- service_provider/ecp.cpp: `memcpy_s`, `verify_cmac128`, and the two versions of `derive_key`
-- between which the macro SUPPLIED_KEY_DERIVATION chooses.
use sgx_erlang_extension.Prelude.{
  ℕ, Option, none, some, Bool, false, List, [], ◌∷◌, ◌++◌, ℤ, pos, negsuc, take, drop, codes, zeros,
  bytes_eq, ltb, if◌then◌else◌,
}
use sgx_erlang_extension.IsvEnclave.{turned, id_u, id_v}
use sgx_erlang_extension.ServiceProvider.Libcrypto.{Libcrypto}

-- The result, and the destination after the call. Both arrays hold at least what is copied.
unfoldable pub memcpy_s : List ℕ → ℕ → List ℕ → ℕ → ℤ × List ℕ
memcpy_s dest number_of_elements src count =
    if ltb number_of_elements count
    then (negsuc 0, dest)
    else (pos 0, take count src ++ drop count dest)

-- The key types of the version without SUPPLIED_KEY_DERIVATION.
pub data DeriveKeyType : Type 0 where
  derive_key_smk derive_key_sk derive_key_mk derive_key_vk : DeriveKeyType

-- The labels, without their NUL.
abbrev pub label_of : DeriveKeyType → List ℕ
label_of derive_key_smk = codes "SMK"
label_of derive_key_sk = codes "SK"
label_of derive_key_mk = codes "MK"
label_of derive_key_vk = codes "VK"

-- counter(0x01) || label || 0x00 || output_key_len(0x0080), the last in little endian.
abbrev pub derivation_buffer : List ℕ → List ℕ
derivation_buffer label = 1 ∷ (label ++ (0 ∷ 0x80 ∷ 0 ∷ []))

abbrev pub hash_buffer : ℕ → List ℕ → List ℕ
hash_buffer key_id shared = (0 ∷ 0 ∷ 0 ∷ key_id ∷ []) ++ turned shared ++ (0 ∷ 0 ∷ 0 ∷ 0 ∷ [])

module _ (lib : Libcrypto) where
  open lib use {cmac, sha256_init, sha256_update, sha256_get_hash}

  unfoldable pub verify_cmac128 : List ℕ → List ℕ → List ℕ → Bool
  verify_cmac128 mac_key data_buf mac_buf = elim (cmac mac_key data_buf) [
    | none ↦ false
    | some data_mac ↦ bytes_eq mac_buf data_mac
  ]

  unfoldable pub derive_key : List ℕ → DeriveKeyType → Option (List ℕ)
  derive_key shared key_id = elim (cmac (zeros 16) shared) [
    | none ↦ none
    | some key_derive_key ↦ cmac key_derive_key (derivation_buffer (label_of key_id))
  ]

  abbrev pub and_then : {A B : Type 0} → Option A → (A → Option B) → Option B
  and_then o f = elim o [ none ↦ none | some a ↦ f a ]

  -- The version of SUPPLIED_KEY_DERIVATION, which derives two keys at once.
  unfoldable pub derive_key_pair : List ℕ → ℕ → Option (List ℕ × List ℕ)
  derive_key_pair shared key_id = and_then sha256_init λ c₀.
      and_then (sha256_update (hash_buffer key_id shared) c₀) λ c₁.
        and_then (sha256_update id_u c₁) λ c₂. and_then (sha256_update id_v c₂) λ c₃.
          and_then (sha256_get_hash c₃)
            λ material. some (take 16 material, take 16 (drop 16 material))
