-- ===== src/Rsa/Tests.antt =====
-- The enclave of erlang-nif_SSL at concrete inputs, over a small library that numbers its keys.
use sgx_erlang_extension.Prelude.{
  ℕ, ◌≡◌, ◌↔◌, refl, ◌≤◌, length-append, length-zeros, some, true, false, List, [], ◌∷◌, length,
  take, zeros, if◌then◌else◌, arith,
}
use sgx_erlang_extension.Process.{returned, crashed}
use sgx_erlang_extension.Rsa.{
  Enclave, initial, written, has_size, overwrite, rsa_key_gen, ecall_rsa_key_gen, ecall_rsa_sign,
  ecall_rsa_encrypt, ecall_rsa_get_pubkey,
}
use sgx_erlang_extension.Rsa.Crypto.{OpenSsl}
use sgx_erlang_extension.Rsa.Small.{
  open_ssl, open_ssl-CountsReferences, no_keys, generated, holding,
}
use sgx_erlang_extension.Rsa.Keys.{
  joined, ecall_rsa_key_gen_status, rsa_key_gen-references, use_after_free, generate_key_failed,
}
use sgx_erlang_extension.Rsa.Ciphers.{
  first_8_bytes, short_text, HasKey, ecall_rsa_sign_lem, ecall_rsa_encrypt_lem, handed_out,
  encoding, ecall_rsa_get_pubkey_lem,
}

abbrev sound : OpenSsl
sound = open_ssl true false

abbrev freeing : OpenSsl
freeing = open_ssl true true

abbrev refusing : OpenSsl
refusing = open_ssl false false

abbrev with_key : Enclave sound
with_key = holding true false

abbrev text : List ℕ
text = 1 ∷ 2 ∷ 3 ∷ 4 ∷ 5 ∷ 6 ∷ 7 ∷ 8 ∷ 9 ∷ 0 ∷ []

abbrev other_text : List ℕ
other_text = 1 ∷ 2 ∷ 3 ∷ 4 ∷ 5 ∷ 6 ∷ 7 ∷ 8 ∷ 0 ∷ []

abbrev short : List ℕ
short = 68 ∷ 65 ∷ 0 ∷ []

abbrev array : List ℕ
array = zeros 512

ecall_rsa_key_gen_status_run :
    (ecall_rsa_key_gen refusing (initial refusing no_keys)).0
    ≡ returned (if (refusing.init_crypto no_keys).0 then 0 else 1)
ecall_rsa_key_gen_status_run = ecall_rsa_key_gen_status refusing (initial refusing no_keys)

rsa_key_gen-references_example :
    let e' = (rsa_key_gen sound (initial sound no_keys)).1 in
    ((rsa_key_gen sound (initial sound no_keys)).0 ≡ returned tt)
    × (e'.keypair ≡ some 0)
    × (e'.evp_pkey ≡ some tt)
    × (e'.a ≡ 0)
    × (sound.references e'.world 0
        ≡ (if sound.pkey_ptr_set tt (joined sound (generated false)) then 0 else 1))
rsa_key_gen-references_example =
    rsa_key_gen-references sound (open_ssl-CountsReferences true false) (initial sound no_keys)
      (generated false)

use_after_free_example :
    let e' = (rsa_key_gen freeing (initial freeing no_keys)).1 in
    (((ecall_rsa_sign freeing text array 512 e').0 ≡ crashed)
      ↔ (freeing.pkey_ptr_set tt (joined freeing (generated true)) ≡ true))
    × (((ecall_rsa_encrypt freeing text array 512 e').0 ≡ crashed)
        ↔ (freeing.pkey_ptr_set tt (joined freeing (generated true)) ≡ true))
    × (e'.keypair ≡ some 0)
    × ((freeing.references e'.world 0 ≡ 0)
        ↔ (freeing.pkey_ptr_set tt (joined freeing (generated true)) ≡ true))
unfolding zeros
use_after_free_example =
    use_after_free freeing (open_ssl-CountsReferences true true) (initial freeing no_keys)
      (generated true) text array 512 (omega arith) (omega (arith, length-zeros 512))
      (omega (arith, length-zeros 512))

generate_key_failed_run :
    let r = ecall_rsa_key_gen refusing (holding false false) in
    (r.0 ≡ returned (if (refusing.init_crypto (holding false false).world).0 then 0 else 1))
    × (r.1.keypair ≡ some 1)
    × (r.1.evp_pkey ≡ some tt)
    × (r.1.a ≡ 3)
generate_key_failed_run = generate_key_failed refusing (holding false false) refl refl refl refl

first_8_bytes_run :
    (ecall_rsa_sign sound text array 512 with_key
      ≡ ecall_rsa_sign sound other_text array 512 with_key)
    × (ecall_rsa_encrypt sound text array 512 with_key
        ≡ ecall_rsa_encrypt sound other_text array 512 with_key)
first_8_bytes_run =
    first_8_bytes sound text other_text array 512 with_key (omega arith) (omega arith) refl

short_text_run :
    (ecall_rsa_sign sound short array 512 with_key ≡ (crashed, with_key))
    × (ecall_rsa_encrypt sound short array 512 with_key ≡ (crashed, with_key))
short_text_run = short_text sound short array 512 with_key (omega arith)

with_key-HasKey : HasKey sound with_key 0
with_key-HasKey = (refl, omega arith)

signature_fits : length (sound.rsa_sign 0 (take 8 text) with_key.world).1 ≤ length array
signature_fits = omega (arith, length-zeros 512)

ecall_rsa_sign_lem_run : ecall_rsa_sign sound text array 512 with_key ≡ (
  returned (
    if (sound.rsa_sign 0 (take 8 text) with_key.world).0 then 0 else 1,
    overwrite (sound.rsa_sign 0 (take 8 text) with_key.world).1 array,
  ),
  with_key,
)
ecall_rsa_sign_lem_run =
    ecall_rsa_sign_lem sound text array 512 with_key 0 with_key-HasKey (omega arith) signature_fits

ciphertext_fits :
    length (written (sound.public_encrypt 0 (take 8 text) with_key.world)) ≤ length array
ciphertext_fits =
    omega (arith, length-append (take 8 text) (zeros 504), length-zeros 504, length-zeros 512)

ecall_rsa_encrypt_lem_run : ecall_rsa_encrypt sound text array 512 with_key ≡ (
  returned (
    if has_size (sound.public_encrypt 0 (take 8 text) with_key.world) 512 then 0 else 1,
    overwrite (written (sound.public_encrypt 0 (take 8 text) with_key.world)) array,
  ),
  with_key,
)
ecall_rsa_encrypt_lem_run =
    ecall_rsa_encrypt_lem sound text array 512 with_key 0 with_key-HasKey (omega arith)
      ciphertext_fits

ecall_rsa_get_pubkey_run :
    (ecall_rsa_get_pubkey sound (0 ∷ 0 ∷ []) 2 with_key ≡ (
      returned (handed_out sound (0 ∷ 0 ∷ []) (encoding sound with_key.world (some tt))),
      with_key,
    ))
    × (length (handed_out sound (0 ∷ 0 ∷ []) (encoding sound with_key.world (some tt))).1 ≡ 2)
ecall_rsa_get_pubkey_run =
    ecall_rsa_get_pubkey_lem sound (0 ∷ 0 ∷ []) 3 (some tt) (some 0) with_key.world
      (0, refl, omega arith)
