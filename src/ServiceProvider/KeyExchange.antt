-- ===== src/ServiceProvider/KeyExchange.antt =====
-- The key derivation at both ends: `derive_key` of service_provider/ecp.cpp, in its version for
-- SUPPLIED_KEY_DERIVATION, and that of isv_enclave/isv_enclave.cpp.
use sgx_erlang_extension.Prelude.{ℕ, ◌≡◌, refl, ◌∙◌, ap, some, true, List, [], ◌∷◌, ◌++◌, arith}
use sgx_erlang_extension.Sgx.{success}
use sgx_erlang_extension.Sgx.Sha256.{Sha256, Digests}
use sgx_erlang_extension.IsvEnclave.{Crypto, turned, id_u, id_v, key_derivation}
use sgx_erlang_extension.IsvEnclave
use sgx_erlang_extension.IsvEnclave.Derivation.{material, halves, key_derivation_lem}
use sgx_erlang_extension.ServiceProvider.Libcrypto.{Libcrypto, Hashes}
use sgx_erlang_extension.ServiceProvider.Steps.{ok}
use sgx_erlang_extension.ServiceProvider.Ecp.{hash_buffer, derive_key_pair}
use sgx_erlang_extension.ServiceProvider.State.{Sp, SpDbItem}
use sgx_erlang_extension.ServiceProvider.Msg1.{derive_keys}

-- The keys in the order in which the enclave gives them.
abbrev pub keys : SpDbItem → List (List ℕ)
keys db = db.smk_key ∷ db.sk_key ∷ db.mk_key ∷ db.vk_key ∷ []

same_hash_buffer :
    (shared : List ℕ) (key_id : ℕ)
    → hash_buffer key_id shared ≡ IsvEnclave.hash_buffer key_id shared
unfolding IsvEnclave.hash_buffer
same_hash_buffer shared key_id = refl

module _ {lib : Libcrypto} (hashes : Hashes lib) {sha256 : Sha256} (digests : Digests sha256)
    (same_digest : (bytes : List ℕ) → hashes.digest bytes ≡ digests.digest bytes) where
  derive_key_pair_lem :
      (shared : List ℕ) (key_id : ℕ)
      → derive_key_pair lib shared key_id
        ≡ some (halves (hashes.digest ((hash_buffer key_id shared ++ id_u) ++ id_v)))
  unfolding derive_key_pair
  derive_key_pair_lem shared key_id =
      let c₁ = hashes.step (hash_buffer key_id shared) hashes.start in
      let c₂ = hashes.step id_u c₁ in
      let c₃ = hashes.step id_v c₂ in
      ground (
        arith,
        hashes.init_start,
        hashes.absorbed_start,
        hashes.update_step (hash_buffer key_id shared) hashes.start,
        hashes.update_step id_u c₁,
        hashes.update_step id_v c₂,
        hashes.absorbed_step (hash_buffer key_id shared) hashes.start,
        hashes.absorbed_step id_u c₁,
        hashes.absorbed_step id_v c₂,
        hashes.hash_digest c₃,
      )

  -- The halves of the digest for a counter.
  abbrev pub half : List ℕ → ℕ → List ℕ × List ℕ
  half shared key_id = halves (material digests shared key_id)

  derive_key_pair-half :
      (shared : List ℕ) (key_id : ℕ) → derive_key_pair lib shared key_id ≡ some (half shared key_id)
  unfolding IsvEnclave.hash_buffer
  derive_key_pair-half shared key_id =
      derive_key_pair_lem shared key_id ∙ ap (λ m. some (halves m)) (same_digest _)

  abbrev pub with_keys : List ℕ → SpDbItem → SpDbItem
  with_keys dh_key db = record db {
    smk_key = (half dh_key 0).0;
    sk_key = (half dh_key 0).1;
    mk_key = (half dh_key 1).0;
    vk_key = (half dh_key 1).1;
  }

  pub derive_keys_lem :
      (dh_key : List ℕ) (s : Sp lib)
      → derive_keys true dh_key s ≡ (ok tt, record s { g_sp_db = with_keys dh_key s.g_sp_db })
  unfolding derive_keys
  derive_keys_lem dh_key s =
      ground (arith, derive_key_pair-half dh_key 0, derive_key_pair-half dh_key 1)

pub key_derivation-with_keys :
    {lib : Libcrypto} (hashes : Hashes lib) (crypto : Crypto) (digests : Digests crypto.sha256)
    (same_digest : (bytes : List ℕ) → hashes.digest bytes ≡ digests.digest bytes) (dh_key : List ℕ)
    (db : SpDbItem)
    → key_derivation crypto (some dh_key) 2
      ≡ (success, keys (with_keys hashes digests same_digest dh_key db))
key_derivation-with_keys hashes crypto digests same_digest dh_key db =
    key_derivation_lem crypto digests (some dh_key) 2
