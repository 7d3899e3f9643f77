-- ===== src/Rsa/Keys.antt =====
-- Key generation in the enclave: the state that it leaves, and what its status says.
use sgx_erlang_extension.Prelude.{
  ℕ, ◌≤◌, ◌≡◌, ◌↔◌, some, true, false, if◌then◌else◌, arith, List, length, take, Bool-cases, inl,
  inr,
}
use sgx_erlang_extension.Process.{returned, crashed}
use sgx_erlang_extension.Rsa.{
  Enclave, rsa_f4, key_bits, sizeof_pointer, written, rsa_key_gen, ecall_rsa_key_gen,
  ecall_rsa_sign, ecall_rsa_encrypt,
}
use sgx_erlang_extension.Rsa.Crypto.{OpenSsl, CountsReferences}

-- OpenSSL grants every step of a key generation that starts in the world `w`.
pub record Generates (ssl : OpenSsl) (w : ssl.World) : Type 0 where
  pub b : ssl.Bn
  pub k : ssl.Rsa
  pub p : ssl.Pkey
  pub w₁ : ssl.World
  pub w₂ : ssl.World
  pub w₃ : ssl.World
  pub w₄ : ssl.World
  pub w₅ : ssl.World
  pub new_bn : ssl.bn_new w ≡ (some b, w₁)
  pub set_word : ssl.bn_set_word b rsa_f4 w₁ ≡ (true, w₂)
  pub new_rsa : ssl.rsa_new w₂ ≡ (some k, w₃)
  pub generated : ssl.generate_key k key_bits b w₃ ≡ (true, w₄)
  pub new_pkey : ssl.pkey_new w₄ ≡ (some p, w₅)

module _ (ssl : OpenSsl) where
  -- The world after the key has been joined to the EVP_PKEY and the number freed.
  abbrev pub joined : {w : ssl.World} → Generates ssl w → ssl.World
  joined g = ssl.bn_free g.b (ssl.assign_rsa g.p g.k g.w₅)

  abbrev pub final : {w : ssl.World} → Generates ssl w → ssl.World
  final g = if ssl.pkey_ptr_set g.p (joined g) then ssl.rsa_free g.k (joined g) else joined g

  rsa_key_gen_lem :
      (e : Enclave ssl) (g : Generates ssl e.world)
      → rsa_key_gen ssl e
        ≡ (returned tt, record { a = 0; evp_pkey = some g.p; keypair = some g.k; world = final g })
  unfolding rsa_key_gen
  rsa_key_gen_lem e g = ground arith

  final_references :
      CountsReferences ssl
      → {w : ssl.World} (g : Generates ssl w)
      → ssl.references (final g) g.k ≡ (if ssl.pkey_ptr_set g.p (joined g) then 0 else 1)
  final_references c g = ground (
    arith,
    c.rsa_new_one g.w₂ g.k,
    c.generate_key_keeps g.k key_bits g.b g.w₃,
    c.pkey_new_keeps g.k g.w₄,
    c.assign_rsa_keeps g.p g.k g.w₅,
    c.bn_free_keeps g.b g.k (ssl.assign_rsa g.p g.k g.w₅),
    c.rsa_free_drops g.k (joined g),
  )

  -- The status of a key generation is decided by OPENSSL_init_crypto alone: the call returns in
  -- every world and every state, with 0 or 1, whether or not a key has been generated.
  pub ecall_rsa_key_gen_status :
      (e : Enclave ssl)
      → (ecall_rsa_key_gen ssl e).0 ≡ returned (if (ssl.init_crypto e.world).0 then 0 else 1)
  unfolding ecall_rsa_key_gen
  ecall_rsa_key_gen_status e = ground arith

  -- A key generation of which OpenSSL grants every step, with the reference counts that its
  -- manual describes, returns with both static pointers set to the new key and with the counter
  -- at 0. The key then has one reference if the field that the source reads as `pkey.ptr` is
  -- NULL, and none, being freed while both pointers still name it, if it is set.
  pub rsa_key_gen-references :
      CountsReferences ssl
      → (e : Enclave ssl) (g : Generates ssl e.world)
      → let e' = (rsa_key_gen ssl e).1 in
        ((rsa_key_gen ssl e).0 ≡ returned tt)
        × (e'.keypair ≡ some g.k)
        × (e'.evp_pkey ≡ some g.p)
        × (e'.a ≡ 0)
        × (ssl.references e'.world g.k ≡ (if ssl.pkey_ptr_set g.p (joined g) then 0 else 1))
  rsa_key_gen-references c e g = ground (arith, rsa_key_gen_lem e g, final_references c g)

  -- The same of the call into the enclave, where the field is NULL.
  pub ecall_rsa_key_gen_granted :
      CountsReferences ssl
      → (e : Enclave ssl) (g : Generates ssl (ssl.init_crypto e.world).1)
      → ssl.pkey_ptr_set g.p (joined g) ≡ false
      → (ecall_rsa_key_gen ssl e ≡ (
        returned (if (ssl.init_crypto e.world).0 then 0 else 1),
        record { a = 0; evp_pkey = some g.p; keypair = some g.k; world = joined g },
      ))
        × (ssl.references (joined g) g.k ≡ 1)
  unfolding ecall_rsa_key_gen
  ecall_rsa_key_gen_granted c e g h = ground (
    arith,
    rsa_key_gen_lem (record e { world = (ssl.init_crypto e.world).1 }) g,
    final_references c g,
  )

  -- After a key generation of which OpenSSL grants every step, with the reference counts that
  -- its manual describes, signing and encrypting a text of at least 8 bytes, with room for the
  -- result, crash exactly if the field read as `pkey.ptr` was set: `keypair` then names a key
  -- that has no reference left.
  pub use_after_free :
      CountsReferences ssl
      → (e : Enclave ssl) (g : Generates ssl e.world) (plaintext ciphertext : List ℕ) (n : ℕ)
      → sizeof_pointer ≤ length plaintext
      → length (ssl.rsa_sign g.k (take sizeof_pointer plaintext) (rsa_key_gen ssl e).1.world).1
        ≤ length ciphertext
      → length (
          written
            (ssl.public_encrypt g.k (take sizeof_pointer plaintext) (rsa_key_gen ssl e).1.world))
        ≤ length ciphertext
      → let e' = (rsa_key_gen ssl e).1 in
        (((ecall_rsa_sign ssl plaintext ciphertext n e').0 ≡ crashed)
          ↔ (ssl.pkey_ptr_set g.p (joined g) ≡ true))
        × (((ecall_rsa_encrypt ssl plaintext ciphertext n e').0 ≡ crashed)
            ↔ (ssl.pkey_ptr_set g.p (joined g) ≡ true))
        × (e'.keypair ≡ some g.k)
        × ((ssl.references e'.world g.k ≡ 0) ↔ (ssl.pkey_ptr_set g.p (joined g) ≡ true))
  unfolding ecall_rsa_sign ecall_rsa_encrypt
  use_after_free c e g plaintext ciphertext n h k l =
      elim (Bool-cases (ssl.pkey_ptr_set g.p (joined g))) [
        | inl d ↦ ground (arith, d, rsa_key_gen-references c e g)
        | inr d ↦ ground (arith, d, rsa_key_gen-references c e g)
      ]

  -- When the earlier steps of a key generation are granted and RSA_generate_key_ex fails, the
  -- call still returns the status of OPENSSL_init_crypto. The key pair has been replaced by the
  -- new RSA object, while the EVP_PKEY, from which the public key is handed out, and the counter
  -- have not changed.
  pub generate_key_failed :
      (e : Enclave ssl) {b : ssl.Bn} {k : ssl.Rsa}
      → (ssl.bn_new (ssl.init_crypto e.world).1).0 ≡ some b
      → (ssl.bn_set_word b rsa_f4 (ssl.bn_new (ssl.init_crypto e.world).1).1).0 ≡ true
      → (ssl.rsa_new (ssl.bn_set_word b rsa_f4 (ssl.bn_new (ssl.init_crypto e.world).1).1).1).0
        ≡ some k
      → (ssl.generate_key k key_bits b
          (ssl.rsa_new (ssl.bn_set_word b rsa_f4 (ssl.bn_new (ssl.init_crypto e.world).1).1).1).1).0
        ≡ false
      → let r = ecall_rsa_key_gen ssl e in
        (r.0 ≡ returned (if (ssl.init_crypto e.world).0 then 0 else 1))
        × (r.1.keypair ≡ some k)
        × (r.1.evp_pkey ≡ e.evp_pkey)
        × (r.1.a ≡ e.a)
  unfolding ecall_rsa_key_gen
  generate_key_failed e h₁ h₂ h₃ h₄ = ground arith
