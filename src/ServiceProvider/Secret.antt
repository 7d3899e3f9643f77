-- ===== src/ServiceProvider/Secret.antt =====
-- The secret on its way from `sp_ra_proc_msg3_req` to `put_secret_data` of
-- isv_enclave/isv_enclave.cpp.
use sgx_erlang_extension.Prelude.{
  ℕ, ◌*◌, ◌^◌, ◌<◌, ◌≡◌, refl, ◌∙◌, ap, some, true, List, [], ◌∷◌, pos, length, zeros,
  bytes_eq_refl, Option-cases, inl, inr, arith, length-append,
}
use sgx_erlang_extension.Process.{returned}
use sgx_erlang_extension.Sgx.{success}
use sgx_erlang_extension.IsvEnclave.{
  Crypto, key_mk, key_sk, counts_up, verify_att_result_mac, put_secret_data,
}
use sgx_erlang_extension.IsvEnclave.Results.{whole}
use sgx_erlang_extension.ServiceProvider.Libcrypto.{Libcrypto, Hashes}
use sgx_erlang_extension.ServiceProvider.Ias.{
  words, signed_part, blob_bytes, clear_blob, swap_endian_32b, ias_verify_attestation_evidence,
  g_rk_priv_key,
}
use sgx_erlang_extension.ServiceProvider.State.{Sp, SpDbItem, Response, ias_group, g_secret}
use sgx_erlang_extension.ServiceProvider.Msg3.{AttResult, msg3_quote, sp_ra_proc_msg3_req}
use sgx_erlang_extension.ServiceProvider.Acceptance.{verified}
use sgx_erlang_extension.ServiceProvider.Accepted.{sp_ra_proc_msg3_req-IsAccepted}

length-words : (ws : List ℕ) → length (words ws) ≡ 4 * length ws
unfolding words
length-words [] = refl
length-words (w ∷ ws) = omega (arith, length-words ws)

length-swap_endian_32b : (ws : List ℕ) → length ws ≡ 8 → length (swap_endian_32b ws) ≡ 8
unfolding swap_endian_32b
length-swap_endian_32b [] k = cc
length-swap_endian_32b (a ∷ []) k = omega arith
length-swap_endian_32b (a ∷ b ∷ []) k = omega arith
length-swap_endian_32b (a ∷ b ∷ c ∷ []) k = omega arith
length-swap_endian_32b (a ∷ b ∷ c ∷ d ∷ []) k = omega arith
length-swap_endian_32b (a ∷ b ∷ c ∷ d ∷ e ∷ []) k = omega arith
length-swap_endian_32b (a ∷ b ∷ c ∷ d ∷ e ∷ f ∷ []) k = omega arith
length-swap_endian_32b (a ∷ b ∷ c ∷ d ∷ e ∷ f ∷ g ∷ []) k = omega arith
length-swap_endian_32b (a ∷ b ∷ c ∷ d ∷ e ∷ f ∷ g ∷ h ∷ rest) k = k

-- The blob with a signature of eight words in each half has 97 bytes.
length-blob_bytes :
    (x y : List ℕ)
    → length x ≡ 8
    → length y ≡ 8
    → length (blob_bytes (record clear_blob { signature_x = x; signature_y = y })) ≡ 97
unfolding blob_bytes signed_part zeros
length-blob_bytes x y h k =
    omega (arith, length-append (words x) (words y), length-words x, length-words y)

small : (n : ℕ) → n ≡ 97 → n < 2 ^ 32
small n h = omega arith

-- What the SDK's cryptography in the enclave and the sample's have in common: CMAC, and AES-GCM,
-- which opens what was sealed. The enclave's attestation context holds the session's keys, and a
-- signature is twice eight words.
pub record Session (lib : Libcrypto) (crypto : Crypto) (context : ℕ) (db : SpDbItem) : Type 0 where
  pub mk_found : crypto.get_keys context key_mk ≡ (success, db.mk_key)
  pub sk_found : crypto.get_keys context key_sk ≡ (success, db.sk_key)
  pub same_cmac :
      (key message mac : List ℕ)
      → lib.cmac key message ≡ some mac
      → (crypto.cmac key message ≡ (success, mac)) × (length mac ≡ 16)
  pub opens :
      (key text iv old : List ℕ)
      → (lib.gcm_encrypt key text iv).0 ≡ pos 0
      → (crypto.gcm_decrypt key
            (lib.gcm_encrypt key text iv).1
            iv
            (lib.gcm_encrypt key text iv).2
            old
          ≡ (success, text))
        × (length (lib.gcm_encrypt key text iv).1 ≡ length text)
  pub signature_sized :
      (message key : List ℕ) (w : lib.World) (x y : List ℕ)
      → (lib.ecdsa_sign message key w).0 ≡ some (x, y)
      → (length x ≡ 8) × (length y ≡ 8)

module _ {lib : Libcrypto} (crypto : Crypto) (context : ℕ) {db : SpDbItem}
    (session : Session lib crypto context db) where
  verify_att_result_mac-success :
      (message mac : List ℕ)
      → length message < 2 ^ 32
      → lib.cmac db.mk_key message ≡ some mac
      → verify_att_result_mac crypto context message mac ≡ success
  unfolding verify_att_result_mac
  verify_att_result_mac-success message mac l h = ground (
    arith,
    whole crypto message,
    bytes_eq_refl mac,
    session.mk_found,
    session.same_cmac db.mk_key message mac,
  )

  put_secret_data-g_secret :
      (old : List ℕ)
      → (lib.gcm_encrypt db.sk_key g_secret (zeros 12)).0 ≡ pos 0
      → put_secret_data crypto context
          (lib.gcm_encrypt db.sk_key g_secret (zeros 12)).1
          (lib.gcm_encrypt db.sk_key g_secret (zeros 12)).2
          old
        ≡ (success, g_secret)
  unfolding put_secret_data counts_up
  put_secret_data-g_secret old h =
      ground (arith, session.sk_found, session.opens db.sk_key g_secret (zeros 12) old)

module _ {lib : Libcrypto} (hashes : Hashes lib) (crypto : Crypto) (context : ℕ) (s : Sp lib)
    (session : Session lib crypto context s.g_sp_db) where
  length-verified :
      (quote : List ℕ)
      → (verified hashes quote s).0.0 ≡ pos 0
      → length (blob_bytes (verified hashes quote s).0.1.info_blob) ≡ 97
  unfolding ias_verify_attestation_evidence
  length-verified quote h =
      let w = (lib.open_context s.library.world).1 in
      elim (Option-cases (lib.ecdsa_sign (signed_part clear_blob) g_rk_priv_key w).0) [
        | inl n ↦ ground arith
        | inr (signature, e) ↦
            let (x, y) = signature in
            let (k, l) = session.signature_sized (signed_part clear_blob) g_rk_priv_key w x y e in
            ground (
              arith,
              length-blob_bytes (swap_endian_32b x) (swap_endian_32b y) (length-swap_endian_32b x k)
                  (length-swap_endian_32b y l),
            )
      ]

  -- What the service provider hands out for message 3 arrives: if the enclave's context holds
  -- the session's MK and SK, both ends compute the same CMAC, decryption opens what encryption
  -- has sealed, and a signature is twice eight words, then the enclave returns SGX_SUCCESS for
  -- the MAC of the blob in every such response, and SGX_SUCCESS for its secret, which is then
  -- the eight bytes 0 to 7. SHA-256 works as documented, and a registered provider has its
  -- group.
  pub put_secret_data-sp_ra_proc_msg3_req :
      (msg3 old : List ℕ) (r : Response AttResult)
      → (s.g_is_sp_registered ≡ true → s.group ≡ some (ias_group lib))
      → (sp_ra_proc_msg3_req (some msg3) s).0 ≡ returned (pos 0, some r)
      → (verify_att_result_mac crypto context (blob_bytes r.body.platform_info_blob) r.body.mac
          ≡ success)
        × (put_secret_data crypto context r.body.payload r.body.payload_tag old
            ≡ (success, g_secret))
  put_secret_data-sp_ra_proc_msg3_req msg3 old r g h =
      let v = (sp_ra_proc_msg3_req-IsAccepted hashes msg3 s r g).0 h in
      let (m, z, e) = v.answered in
      let l = length-verified (msg3_quote msg3) v.good.1 in
      (
        ap
              (λ x.
                verify_att_result_mac crypto context (blob_bytes x.body.platform_info_blob)
                  r.body.mac)
              e
            ∙ verify_att_result_mac-success crypto context session _ r.body.mac (small _ l) m,
        ap (λ x. put_secret_data crypto context x.body.payload x.body.payload_tag old) e
            ∙ put_secret_data-g_secret crypto context session old z,
      )
