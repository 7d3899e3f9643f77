-- ===== src/RsaNif/Keys.antt =====
-- Handing out the public key and generating a key through the NIFs.
use sgx_erlang_extension.Prelude.{
  ℕ, ◌≡◌, refl, sym, ◌∙◌, ap, ◌≤◌, some, false, List, int32, length, zeros, length-zeros, take_all,
  if◌then◌else◌, arith, NonZero,
}
use sgx_erlang_extension.Process.{returned, ◌>>◌, >>-returned}
use sgx_erlang_extension.Sgx.Bridge.{Bridge}
use sgx_erlang_extension.Rsa.{Enclave, overwrite, ecall_rsa_get_pubkey, ecall_rsa_key_gen}
use sgx_erlang_extension.Rsa.Crypto.{OpenSsl, CountsReferences}
use sgx_erlang_extension.Rsa.Keys.{Generates, joined, ecall_rsa_key_gen_granted}
use sgx_erlang_extension.Rsa.Ciphers.{HasLive, encoding, handed_out, ecall_rsa_get_pubkey_lem}
use sgx_erlang_extension.RsaNif.{
  ErlNif, argument, my_rsa_get_pubkey, my_rsa_key_gen, rsa_get_pubkey_nif, rsa_key_gen_nif,
  pubkey_size, rsa_sign_nif, pubkey_nif, status_nif,
}
use sgx_erlang_extension.RsaNif.Laws.{IsWorking, ecall_working, worked_on, rsa_sign_nif_lem}

module _ (ssl : OpenSsl) (nif : ErlNif) (bridge : Bridge (Enclave ssl)) (w : IsWorking bridge) where
  my_rsa_get_pubkey_lem :
      (n : ℕ) (e : Enclave ssl)
      → HasLive ssl e.world e.evp_pkey
      → (my_rsa_get_pubkey ssl bridge n e
          ≡ (returned (handed_out ssl (zeros n) (encoding ssl e.world e.evp_pkey)), e))
        × (length (handed_out ssl (zeros n) (encoding ssl e.world e.evp_pkey)).1 ≡ n)
  unfolding my_rsa_get_pubkey
  my_rsa_get_pubkey_lem n e h =
      let found = ecall_rsa_get_pubkey_lem ssl (zeros n) e.a e.evp_pkey e.keypair e.world h in
      (
        ecall_working bridge w (ecall_rsa_get_pubkey ssl (zeros n) n) e
            ∙ sym (ap (λ k. ecall_rsa_get_pubkey ssl (zeros n) k e) (length-zeros n))
            ∙ found.0,
        found.1 ∙ length-zeros n,
      )

  -- Over a bridge whose calls succeed, if a key that is set has not been freed, `rsa_get_pubkey`
  -- returns a binary of 526 bytes: the encoding of the public key if there is a key and its
  -- encoding has that length, and zeros otherwise.
  pub rsa_get_pubkey_nif_lem :
      (e : Enclave ssl)
      → HasLive ssl e.world e.evp_pkey
      → rsa_get_pubkey_nif ssl nif bridge e ≡ (
        returned (
            some (
              nif.make_binary
                (handed_out ssl (zeros pubkey_size) (encoding ssl e.world e.evp_pkey)).1)),
        e,
      )
  unfolding pubkey_nif
  rsa_get_pubkey_nif_lem e h =
      let found = my_rsa_get_pubkey_lem 526 e h in
      rw (
        found.0,
        take_all 526 (handed_out ssl (zeros 526) (encoding ssl e.world e.evp_pkey)).1
            (omega (arith, found.1)),
      )

  -- Generating a key and then signing a text of at least 7 characters, none of them NUL, over a
  -- bridge whose calls succeed: if OpenSSL grants every step, counts references as its manual
  -- describes and writes at most 512 bytes, and `pkey.ptr` reads as NULL, the binary is what
  -- RSA_sign writes under the new key for the first 8 bytes of the text with its NUL, over 512
  -- zeros.
  pub rsa_key_gen-rsa_sign :
      CountsReferences ssl
      → (e : Enclave ssl) (g : Generates ssl (ssl.init_crypto e.world).1)
      → ssl.pkey_ptr_set g.p (joined ssl g) ≡ false
      → (t : nif.Term) (text : List ℕ) → argument nif t ≡ some text
      → NonZero text
      → 7 ≤ length text
      → length (ssl.rsa_sign g.k (worked_on text) (joined ssl g)).1 ≤ 512
      → (rsa_key_gen_nif ssl nif bridge >> rsa_sign_nif ssl nif bridge t) e ≡ (
        returned (
            some (
              nif.make_binary
                (overwrite (ssl.rsa_sign g.k (worked_on text) (joined ssl g)).1 (zeros 512)))),
        record { a = 0; evp_pkey = some g.p; keypair = some g.k; world = joined ssl g },
      )
  unfolding status_nif my_rsa_key_gen
  rsa_key_gen-rsa_sign c e g s t text ht h0 h7 hs =
      let made = ecall_rsa_key_gen_granted ssl c e g s in
      let e' : Enclave ssl = record {
        a = 0;
        evp_pkey = some g.p;
        keypair = some g.k;
        world = joined ssl g;
      } in
      >>-returned (rsa_key_gen_nif ssl nif bridge) (rsa_sign_nif ssl nif bridge t) e
        {a = some (nif.make_int (int32 (if (ssl.init_crypto e.world).0 then 0 else 1)))} {t = e'}
        (rw (ecall_working bridge w (ecall_rsa_key_gen ssl) e ∙ made.0))
      ∙ rsa_sign_nif_lem ssl nif bridge w t text e' g.k ht h0 h7 (refl, omega (arith, made.1)) hs
