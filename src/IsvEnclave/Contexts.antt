-- ===== src/IsvEnclave/Contexts.antt =====
-- The contexts of the key exchange, `enclave_init_ra` and `enclave_ra_close` of
-- isv_enclave/isv_enclave.cpp, and those of SHA-256 in the key derivation.
use sgx_erlang_extension.Prelude.{ℕ, ◌≡◌, Option, Bool, List, [], ◌∷◌, if◌then◌else◌, arith}
use sgx_erlang_extension.Sgx.{Status}
use sgx_erlang_extension.IsvEnclave.{Crypto, derive_key_in, key_derivation}

-- The public key of the service provider: its two coordinates.
unfoldable pub g_sp_pub_key : List ℕ × List ℕ
g_sp_pub_key = (
  0x72 ∷ 0x12 ∷ 0x8a ∷ 0x7a ∷ 0x17 ∷ 0x52 ∷ 0x6e ∷ 0xbf ∷ 0x85 ∷ 0xd0 ∷ 0x3a ∷ 0x62 ∷ 0x37 ∷ 0x30
      ∷ 0xae ∷ 0xad ∷ 0x3e ∷ 0x3d ∷ 0xaa ∷ 0xee ∷ 0x9c ∷ 0x60 ∷ 0x73 ∷ 0x1d ∷ 0xb0 ∷ 0x5b ∷ 0xe8
      ∷ 0x62 ∷ 0x1c ∷ 0x4b ∷ 0xeb ∷ 0x38 ∷ [],
  0xd4 ∷ 0x81 ∷ 0x40 ∷ 0xd9 ∷ 0x50 ∷ 0xe2 ∷ 0x57 ∷ 0x7b ∷ 0x26 ∷ 0xee ∷ 0xb7 ∷ 0x41 ∷ 0xe7 ∷ 0xc6
      ∷ 0x14 ∷ 0xe2 ∷ 0x24 ∷ 0xb7 ∷ 0xbd ∷ 0xc9 ∷ 0x03 ∷ 0xf2 ∷ 0x9a ∷ 0x28 ∷ 0xa8 ∷ 0x3c ∷ 0xc8
      ∷ 0x10 ∷ 0x11 ∷ 0x14 ∷ 0x5e ∷ 0x06 ∷ [],
)

-- The SDK's trusted key exchange, which is not part of the repository. A key derivation takes the
-- shared secret and a function's identifier, and gives a status and the keys.
abbrev pub KeyDerivation : Type 0
KeyDerivation = Option (List ℕ) → ℕ → Status × List (List ℕ)

pub record KeyExchange : Type 1 where
  pub World : Type 0
  pub ra_init : List ℕ × List ℕ → ℕ → World → (Status × ℕ) × World
  pub ra_init_ex : List ℕ × List ℕ → ℕ → KeyDerivation → World → (Status × ℕ) × World
  pub ra_close : ℕ → World → Status × World

module _ (exchange : KeyExchange) where
  -- `supplied` is whether the macro SUPPLIED_KEY_DERIVATION is set. The status, and the context that
  -- is written.
  unfoldable pub enclave_init_ra :
      Crypto → Bool → ℕ → exchange.World → (Status × ℕ) × exchange.World
  enclave_init_ra crypto supplied b_pse w =
      if supplied
      then exchange.ra_init_ex g_sp_pub_key b_pse (key_derivation crypto) w
      else exchange.ra_init g_sp_pub_key b_pse w

  unfoldable pub enclave_ra_close : ℕ → exchange.World → Status × exchange.World
  enclave_ra_close context w = exchange.ra_close context w

module _ (crypto : Crypto) where
  -- The key derivation closes the context that it opens, also where a step fails.
  pub derive_key_in_closes :
      (shared : List ℕ) (key_id contexts : ℕ)
      → (derive_key_in crypto shared key_id contexts).1 ≡ contexts
  unfolding derive_key_in
  derive_key_in_closes shared key_id contexts = ground arith
