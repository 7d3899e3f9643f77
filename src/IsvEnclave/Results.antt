-- ===== src/IsvEnclave/Results.antt =====
-- When the attestation enclave accepts a result and a secret.
use sgx_erlang_extension.Prelude.{
  ℕ, zero, suc, ◌+◌, ◌^◌, ◌%◌, ◌<◌, ◌≡◌, refl, ◌↔◌, true, List, [], ◌∷◌, length, take, take_all,
  zeros, bytes_eq→eq, bytes_eq_refl, arith,
}
use sgx_erlang_extension.Sgx.{success, eq_status}
use sgx_erlang_extension.IsvEnclave.{
  Crypto, key_mk, key_sk, counts_up, verify_att_result_mac, put_secret_data,
}

-- The bytes i, i + 1, …, n of them.
abbrev pub upwards : ℕ → ℕ → List ℕ
upwards i zero = []
upwards i (suc n) = i ∷ upwards (i + 1) n

counts_up→upwards :
    (i : ℕ) (bytes : List ℕ) → counts_up i bytes ≡ true → bytes ≡ upwards i (length bytes)
unfolding counts_up
counts_up→upwards i [] h = refl
counts_up→upwards i (b ∷ bytes) h = ground (arith, counts_up→upwards (i + 1) bytes)

upwards→counts_up :
    (i : ℕ) (bytes : List ℕ) → bytes ≡ upwards i (length bytes) → counts_up i bytes ≡ true
unfolding counts_up
upwards→counts_up i [] h = refl
upwards→counts_up i (b ∷ bytes) h = ground (arith, upwards→counts_up (i + 1) bytes)

module _ (crypto : Crypto) where
  -- What a message's MAC has to satisfy.
  abbrev pub Authentic : ℕ → List ℕ → List ℕ → Type 0
  Authentic context message mac =
      (length mac ≡ 16)
      × (length message < 2 ^ 32)
      × (eq_status (crypto.get_keys context key_mk).0 success ≡ true)
      × (eq_status (crypto.cmac (crypto.get_keys context key_mk).1 message).0 success ≡ true)
      × (mac ≡ (crypto.cmac (crypto.get_keys context key_mk).1 message).1)

  pub whole :
      (message : List ℕ)
      → length message < 2 ^ 32
      → take (length message % 2 ^ 32) message ≡ message
  whole message h = take_all (length message % 2 ^ 32) message (omega arith)

  -- `verify_att_result_mac` returns SGX_SUCCESS exactly if the MAC has 16 bytes, the message is
  -- shorter than 2 ^ 32, the context has its MK key, the CMAC can be computed, and the MAC is
  -- the CMAC of the whole message under that key: the cast of the size to 32 bits never cuts a
  -- message short.
  pub verify_att_result_mac-Authentic :
      (context : ℕ) (message mac : List ℕ)
      → (eq_status (verify_att_result_mac crypto context message mac) success ≡ true)
        ↔ Authentic context message mac
  unfolding verify_att_result_mac
  verify_att_result_mac-Authentic context message mac = (
    λ h. ground (
      arith,
      whole message,
      bytes_eq→eq mac (crypto.cmac (crypto.get_keys context key_mk).1 message).1,
    ),
    λ h. ground (arith, whole message, bytes_eq_refl mac),
  )

  -- What a secret has to satisfy.
  abbrev pub Counting : ℕ → List ℕ → List ℕ → List ℕ → Type 0
  Counting context secret gcm_mac g_secret =
      let opened =
        crypto.gcm_decrypt (crypto.get_keys context key_sk).1 secret (zeros 12) gcm_mac g_secret in
      (length secret ≡ 8)
      × (eq_status (crypto.get_keys context key_sk).0 success ≡ true)
      × (eq_status opened.0 success ≡ true)
      × (opened.1 ≡ upwards 0 (length opened.1))

  -- `put_secret_data` returns SGX_SUCCESS exactly if the ciphertext has 8 bytes, the context has
  -- its SK key, its decryption with a zero IV succeeds, and the array after it holds the bytes
  -- 0, 1, 2 and so on.
  pub put_secret_data-Counting :
      (context : ℕ) (secret gcm_mac g_secret : List ℕ)
      → (eq_status (put_secret_data crypto context secret gcm_mac g_secret).0 success ≡ true)
        ↔ Counting context secret gcm_mac g_secret
  unfolding put_secret_data
  put_secret_data-Counting context secret gcm_mac g_secret =
      let opened =
        crypto.gcm_decrypt (crypto.get_keys context key_sk).1 secret (zeros 12) gcm_mac g_secret in
      (
        λ h. ground (arith, counts_up→upwards 0 opened.1),
        λ h. ground (arith, upwards→counts_up 0 opened.1),
      )
