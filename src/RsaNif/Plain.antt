-- ===== src/RsaNif/Plain.antt =====
-- The NIFs of erlang-nif_SSL with and without the enclave, compared.
use sgx_erlang_extension.Prelude.{
  ℕ, pos, int32, ◌≡◌, sym, ◌∙◌, ap, ◌≤◌, Option, some, Bool, true, List, [], ◌∷◌, ◌++◌, length,
  zeros, length-zeros, take, take_all, if◌then◌else◌, arith, NonZero, ◌==◌,
}
use sgx_erlang_extension.Process.{returned, aborted, follow, pure}
use sgx_erlang_extension.Sgx.Bridge.{Bridge}
use sgx_erlang_extension.Rsa.{Enclave, overwrite, written, has_size, ecall_rsa_get_pubkey}
use sgx_erlang_extension.Rsa.Crypto.{OpenSsl}
use sgx_erlang_extension.Rsa.Ciphers.{
  HasKey, ecall_rsa_sign_lem, ecall_rsa_encrypt_lem, overwrite_whole, HasLive, encoding, handed_out,
  ecall_rsa_get_pubkey_lem,
}
use sgx_erlang_extension.Rsa.Keys.{ecall_rsa_key_gen_status}
use sgx_erlang_extension.RsaNif.{
  ErlNif, argument, plain_rsa_sign, plain_rsa_encrypt, abort_unless_zero, cipher_nif,
  plain_rsa_key_gen, plain_rsa_get_pubkey, rsa_sign_nif, plain_rsa_sign_nif, plain_rsa_encrypt_nif,
  plain_rsa_get_pubkey_nif, plain_rsa_key_gen_nif, pubkey_nif, status_nif,
}
use sgx_erlang_extension.RsaNif.Laws.{
  IsWorking, worked_on, rsa_sign_nif_lem, length_with_nul, length-overwrite,
}

module _ (ssl : OpenSsl) (nif : ErlNif) (junk : List ℕ) (hj : length junk ≡ 512) where
  junk_filled : (bytes : List ℕ) → length bytes ≤ 512 → length (overwrite bytes junk) ≤ 512
  junk_filled bytes h = omega (arith, hj, length-overwrite bytes junk (omega (arith, hj)))

  -- Without the enclave, with a key that has not been freed, `rsa_sign` of a text of at least 7
  -- characters returns the bytes that RSA_sign writes, at most 512, over the 512 bytes that
  -- `malloc` has given, and aborts the process if RSA_sign fails.
  pub plain_rsa_sign_nif_lem :
      (t : nif.Term) (text : List ℕ) (e : Enclave ssl) (k : ssl.Rsa)
      → argument nif t ≡ some text
      → 7 ≤ length text
      → HasKey ssl e k
      → length (ssl.rsa_sign k (worked_on text) e.world).1 ≤ 512
      → plain_rsa_sign_nif ssl nif junk t e ≡ (
          if (ssl.rsa_sign k (worked_on text) e.world).0
          then (
            returned (
                some
                  (nif.make_binary (overwrite (ssl.rsa_sign k (worked_on text) e.world).1 junk))),
            e,
          )
          else (aborted, e))
  unfolding cipher_nif plain_rsa_sign
  plain_rsa_sign_nif_lem t text e k ht h7 hk hs =
      let sig = (ssl.rsa_sign k (worked_on text) e.world).1 in
      ground (
        arith,
        ecall_rsa_sign_lem ssl (text ++ (0 ∷ [])) junk 512 e k hk (length_with_nul text h7)
            (omega (arith, hj)),
        take_all 512 (overwrite sig junk) (junk_filled sig hs),
      )

  -- Without the enclave, with a key that has not been freed, `rsa_encrypt` of a text of at least
  -- 7 characters returns the bytes that RSA_public_encrypt writes, at most 512, over the 512
  -- bytes that `malloc` has given, and aborts the process if it does not return 512 bytes.
  pub plain_rsa_encrypt_nif_lem :
      (t : nif.Term) (text : List ℕ) (e : Enclave ssl) (k : ssl.Rsa)
      → argument nif t ≡ some text
      → 7 ≤ length text
      → HasKey ssl e k
      → length (written (ssl.public_encrypt k (worked_on text) e.world)) ≤ 512
      → plain_rsa_encrypt_nif ssl nif junk t e ≡ (
          if has_size (ssl.public_encrypt k (worked_on text) e.world) 512
          then (
            returned (
                some (
                  nif.make_binary
                    (overwrite (written (ssl.public_encrypt k (worked_on text) e.world)) junk))),
            e,
          )
          else (aborted, e))
  unfolding cipher_nif plain_rsa_encrypt
  plain_rsa_encrypt_nif_lem t text e k ht h7 hk hs =
      let made = written (ssl.public_encrypt k (worked_on text) e.world) in
      ground (
        arith,
        ecall_rsa_encrypt_lem ssl (text ++ (0 ∷ [])) junk 512 e k hk (length_with_nul text h7)
            (omega (arith, hj)),
        take_all 512 (overwrite made junk) (junk_filled made hs),
      )

  -- Where OpenSSL signs with 512 bytes, under a key that has not been freed, a text of at least
  -- 7 characters, none of them NUL, the library with the enclave, over a bridge whose calls
  -- succeed, returns the same term as the one without it, whatever `malloc` has left in the
  -- array of 512 bytes.
  pub rsa_sign_nif-plain :
      (bridge : Bridge (Enclave ssl))
      → IsWorking bridge
      → (t : nif.Term) (text : List ℕ) (e : Enclave ssl) (k : ssl.Rsa) → argument nif t ≡ some text
      → NonZero text
      → 7 ≤ length text
      → HasKey ssl e k
      → (ssl.rsa_sign k (worked_on text) e.world).0 ≡ true
      → length (ssl.rsa_sign k (worked_on text) e.world).1 ≡ 512
      → rsa_sign_nif ssl nif bridge t e ≡ plain_rsa_sign_nif ssl nif junk t e
  rsa_sign_nif-plain bridge w t text e k ht h0 h7 hk ok hs =
      let sig = (ssl.rsa_sign k (worked_on text) e.world).1 in
      ground (
        arith,
        rsa_sign_nif_lem ssl nif bridge w t text e k ht h0 h7 hk (omega (arith, hs)),
        plain_rsa_sign_nif_lem t text e k ht h7 hk (omega (arith, hs)),
        overwrite_whole sig junk (hs ∙ sym hj),
        overwrite_whole sig (zeros 512) (hs ∙ sym (length-zeros 512)),
      )

module _ (ssl : OpenSsl) (nif : ErlNif) where
  -- Key generation without the enclave returns 0 if OPENSSL_init_crypto succeeds and aborts the
  -- process if not. Whether a key has been generated does not matter to it either.
  pub plain_rsa_key_gen_nif_lem :
      (e : Enclave ssl)
      → (plain_rsa_key_gen_nif ssl nif e).0
        ≡ (if (ssl.init_crypto e.world).0 then returned (some (nif.make_int (pos 0))) else aborted)
  unfolding status_nif plain_rsa_key_gen int32
  plain_rsa_key_gen_nif_lem e = ground (arith, ecall_rsa_key_gen_status ssl e)

  ends :
      {S : Type 0} (b : Bool) (out : ℕ × List ℕ) (s : S)
      → length out.1 ≤ 526
      → follow {B = Option nif.Term}
          (if b then (returned out, s) else (aborted, s))
          (λ r. pure (some (nif.make_binary (take 526 r.1))))
        ≡ (if b then (returned (some (nif.make_binary out.1)), s) else (aborted, s))
  ends b out s h = ground (arith, take_all 526 out.1 h)

  abort_unless_zero_lem :
      (out : ℕ × List ℕ) (e : Enclave ssl)
      → abort_unless_zero ssl out e ≡ (if out.0 == 0 then (returned out, e) else (aborted, e))
  abort_unless_zero_lem (ret, array) e = ground arith

  plain_rsa_get_pubkey_lem :
      (array : List ℕ) (n : ℕ) (e : Enclave ssl)
      → length array ≡ n
      → HasLive ssl e.world e.evp_pkey
      → plain_rsa_get_pubkey ssl array n e ≡ (
          if (handed_out ssl array (encoding ssl e.world e.evp_pkey)).0 == 0
          then (returned (handed_out ssl array (encoding ssl e.world e.evp_pkey)), e)
          else (aborted, e))
  unfolding plain_rsa_get_pubkey
  plain_rsa_get_pubkey_lem array n e h l =
      let found = ecall_rsa_get_pubkey_lem ssl array e.a e.evp_pkey e.keypair e.world l in
      rw (sym (ap (λ n. ecall_rsa_get_pubkey ssl array n e) h) ∙ found.0)
        (abort_unless_zero_lem (handed_out ssl array (encoding ssl e.world e.evp_pkey)) e)

  -- Without the enclave, if a key that is set has not been freed, `rsa_get_pubkey` with an array
  -- of 526 bytes returns the encoding of the public key, and aborts the process where the key is
  -- missing or its encoding has not 526 bytes.
  pub plain_rsa_get_pubkey_nif_lem :
      (array : List ℕ) (e : Enclave ssl)
      → length array ≡ 526
      → HasLive ssl e.world e.evp_pkey
      → plain_rsa_get_pubkey_nif ssl nif array e ≡ (
          if (handed_out ssl array (encoding ssl e.world e.evp_pkey)).0 == 0
          then (
            returned
                (some (nif.make_binary (handed_out ssl array (encoding ssl e.world e.evp_pkey)).1)),
            e,
          )
          else (aborted, e))
  unfolding pubkey_nif
  plain_rsa_get_pubkey_nif_lem array e h l =
      let found = ecall_rsa_get_pubkey_lem ssl array e.a e.evp_pkey e.keypair e.world l in
      let out = handed_out ssl array (encoding ssl e.world e.evp_pkey) in
      rw (plain_rsa_get_pubkey_lem array 526 e h l)
        (ends (out.0 == 0) out e (omega (arith, found.1, h)))
