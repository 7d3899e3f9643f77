-- ===== src/IsvEnclave/Tests.antt =====
-- The attestation enclave at concrete inputs, over toy cryptography.
use sgx_erlang_extension.Prelude.{
  ℕ, ◌≡◌, refl, ◌↔◌, some, true, List, [], ◌∷◌, ◌++◌, zeros, ◌==◌, if◌then◌else◌,
}
use sgx_erlang_extension.Sgx.{Status, success, eq_status}
use sgx_erlang_extension.Sgx.Sha256.{Digests}
use sgx_erlang_extension.IsvEnclave.{
  Crypto, KeyType, key_mk, key_sk, verify_att_result_mac, put_secret_data, key_derivation,
}
use sgx_erlang_extension.IsvEnclave.Results.{
  Authentic, verify_att_result_mac-Authentic, Counting, put_secret_data-Counting,
}
use sgx_erlang_extension.IsvEnclave.Derivation.{keys_of, key_derivation_lem}

abbrev key_of : KeyType → List ℕ
key_of key_mk = zeros 16
key_of key_sk = zeros 16

-- Context 1 has keys. A MAC is 16 zeros, a ciphertext is its plaintext, and a digest is its input.
abbrev toy : Crypto
toy = record {
  get_keys =
      λ context t. (if context == 1 then success else Status.error_invalid_parameter, key_of t);
  cmac = λ key message. (success, zeros 16);
  gcm_decrypt = λ key secret iv mac old. (success, secret);
  sha256 = record {
    Sha = List ℕ;
    sha256_init = (success, []);
    sha256_update = λ bytes c. (success, c ++ bytes);
    sha256_get_hash = λ c. (success, c);
  };
}

toy-Digests : Digests toy.sha256
toy-Digests = record {
  absorbed = λ c. c;
  digest = λ c. c;
  absorbed_init = refl;
  absorbed_update = λ bytes c. refl;
  init_succeeds = refl;
  update_succeeds = λ bytes c. refl;
  hash_succeeds = λ c. refl;
  hash_absorbed = λ c. refl;
}

abbrev counting : List ℕ
counting = 0 ∷ 1 ∷ 2 ∷ 3 ∷ 4 ∷ 5 ∷ 6 ∷ 7 ∷ []

accepted : eq_status (put_secret_data toy 1 counting (zeros 16) (zeros 8)).0 success ≡ true
accepted = (put_secret_data-Counting toy 1 counting (zeros 16) (zeros 8)).1 (refl, refl, refl, refl)

verify_att_result_mac-Authentic_example :
    (eq_status (verify_att_result_mac toy 1 (1 ∷ 2 ∷ []) (zeros 16)) success ≡ true)
    ↔ Authentic toy 1 (1 ∷ 2 ∷ []) (zeros 16)
verify_att_result_mac-Authentic_example =
    verify_att_result_mac-Authentic toy 1 (1 ∷ 2 ∷ []) (zeros 16)

put_secret_data-Counting_run :
    (eq_status (put_secret_data toy 1 counting (zeros 16) (zeros 8)).0 success ≡ true)
    ↔ Counting toy 1 counting (zeros 16) (zeros 8)
put_secret_data-Counting_run = put_secret_data-Counting toy 1 counting (zeros 16) (zeros 8)

key_derivation_lem_run :
    key_derivation toy (some (1 ∷ 2 ∷ [])) 2 ≡ keys_of toy toy-Digests (some (1 ∷ 2 ∷ [])) 2
key_derivation_lem_run = key_derivation_lem toy toy-Digests (some (1 ∷ 2 ∷ [])) 2
