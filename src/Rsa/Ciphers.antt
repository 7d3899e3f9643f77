-- ===== src/Rsa/Ciphers.antt =====
-- Signing, encrypting and handing out the public key in the enclave.
use sgx_erlang_extension.Prelude.{
  ℕ, ◌≡◌, refl, ◌≤◌, ◌<◌, Option, none, some, List, length, take, le→leb, ◌==◌, append-nil,
  drop_all, if◌then◌else◌, arith,
}
use sgx_erlang_extension.Process.{returned, crashed}
use sgx_erlang_extension.Rsa.{
  Enclave, ecall_rsa_sign, ecall_rsa_encrypt, ecall_rsa_get_pubkey, written, has_size, overwrite,
}
use sgx_erlang_extension.Rsa.Crypto.{OpenSsl}

pub overwrite_whole : (bytes c : List ℕ) → length bytes ≡ length c → overwrite bytes c ≡ bytes
overwrite_whole bytes c h = rw (drop_all (length bytes) c (omega arith)) (append-nil bytes)

module _ (ssl : OpenSsl) where
  -- Of texts of at least 8 bytes, the NUL counted, only the first 8 bytes are signed and
  -- encrypted: two such texts that agree in them give the same status, the same bytes and the
  -- same state.
  pub first_8_bytes :
      (p q c : List ℕ) (n : ℕ) (e : Enclave ssl)
      → 8 ≤ length p
      → 8 ≤ length q
      → take 8 p ≡ take 8 q
      → (ecall_rsa_sign ssl p c n e ≡ ecall_rsa_sign ssl q c n e)
        × (ecall_rsa_encrypt ssl p c n e ≡ ecall_rsa_encrypt ssl q c n e)
  unfolding ecall_rsa_sign ecall_rsa_encrypt
  first_8_bytes p q c n e hp hq h = (
    simp (le→leb 8 (length p) hp, le→leb 8 (length q) hq, h),
    simp (le→leb 8 (length p) hp, le→leb 8 (length q) hq, h),
  )

  -- Of a text of fewer than 8 bytes, the NUL counted, signing and encrypting both read past the
  -- end of the enclave's copy.
  pub short_text :
      (p c : List ℕ) (n : ℕ) (e : Enclave ssl)
      → length p < 8
      → (ecall_rsa_sign ssl p c n e ≡ (crashed, e)) × (ecall_rsa_encrypt ssl p c n e ≡ (crashed, e))
  unfolding ecall_rsa_sign ecall_rsa_encrypt
  short_text p c n e h = ground arith

  -- The key pair is set, and has not been freed.
  abbrev pub HasKey : Enclave ssl → ssl.Rsa → Type 0
  HasKey e k = (e.keypair ≡ some k) × (0 < ssl.references e.world k)

  -- With a key and a text of at least 8 bytes, signing returns OpenSSL's signature of the text's
  -- first 8 bytes with status 0, or status 1 if OpenSSL refuses, provided that the bytes written
  -- fit. It changes nothing in the enclave.
  pub ecall_rsa_sign_lem :
      (p c : List ℕ) (n : ℕ) (e : Enclave ssl) (k : ssl.Rsa)
      → HasKey e k
      → 8 ≤ length p
      → length (ssl.rsa_sign k (take 8 p) e.world).1 ≤ length c
      → ecall_rsa_sign ssl p c n e ≡ (
        returned (
          if (ssl.rsa_sign k (take 8 p) e.world).0 then 0 else 1,
          overwrite (ssl.rsa_sign k (take 8 p) e.world).1 c,
        ),
        e,
      )
  unfolding ecall_rsa_sign
  ecall_rsa_sign_lem p c n e k h hp hn = ground arith

  -- Encryption has status 0 exactly if OpenSSL returns 512 bytes.
  pub ecall_rsa_encrypt_lem :
      (p c : List ℕ) (n : ℕ) (e : Enclave ssl) (k : ssl.Rsa)
      → HasKey e k
      → 8 ≤ length p
      → length (written (ssl.public_encrypt k (take 8 p) e.world)) ≤ length c
      → ecall_rsa_encrypt ssl p c n e ≡ (
        returned (
          if has_size (ssl.public_encrypt k (take 8 p) e.world) 512 then 0 else 1,
          overwrite (written (ssl.public_encrypt k (take 8 p) e.world)) c,
        ),
        e,
      )
  unfolding ecall_rsa_encrypt
  ecall_rsa_encrypt_lem p c n e k h hp hn = ground arith

  -- The public key as it is handed out: status 1 without a key, status 2 if its encoding has not the
  -- requested length, both with the array left alone, and otherwise status 0 and the encoding.
  abbrev pub handed_out : List ℕ → Option (List ℕ) → ℕ × List ℕ
  handed_out c none = (1, c)
  handed_out c (some der) = if length der == length c then (0, der) else (2, c)

  -- The EVP_PKEY, if it is set, holds a key that has not been freed.
  abbrev pub HasLive : ssl.World → Option ssl.Pkey → Type 0
  HasLive w none = Unit
  HasLive w (some p) = (k : ssl.Rsa) × (ssl.pkey_rsa p w ≡ some k) × (0 < ssl.references w k)

  abbrev pub encoding : ssl.World → Option ssl.Pkey → Option (List ℕ)
  encoding w none = none
  encoding w (some p) = some (ssl.public_der p w)

  -- If a key that is set has not been freed, a request for the public key with an array of the
  -- requested length returns, changes nothing in the enclave and keeps the array's length. The
  -- status is 1 without a key, 2 if the key's encoding has another length, both with the array
  -- left alone, and otherwise 0 with the encoding in the array.
  pub ecall_rsa_get_pubkey_lem :
      (c : List ℕ) (a : ℕ) (pkey : Option ssl.Pkey) (key : Option ssl.Rsa) (w : ssl.World)
      → HasLive w pkey
      → let e : Enclave ssl = record { a = a; evp_pkey = pkey; keypair = key; world = w } in
        (ecall_rsa_get_pubkey ssl c (length c) e ≡ (returned (handed_out c (encoding w pkey)), e))
        × (length (handed_out c (encoding w pkey)).1 ≡ length c)
  unfolding ecall_rsa_get_pubkey
  ecall_rsa_get_pubkey_lem c a none key w h = (refl, refl)
  ecall_rsa_get_pubkey_lem c a (some p) key w h =
      ground (arith, overwrite_whole (ssl.public_der p w) c)
