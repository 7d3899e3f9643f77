-- ===== src/Rsa/Crypto.antt =====
-- What erlang-nif_SSL/Enclave/Enclave.cpp uses of OpenSSL, which is not part of the repository.
use sgx_erlang_extension.Prelude.{ℕ, ◌-◌, ◌≡◌, Option, some, Bool, List}

-- Objects are named by their addresses. `references w k` is the reference count of an RSA object,
-- 0 once it is freed. `rsa_sign` is RSA_sign with NID_sha1 over the given bytes: whether it returns
-- 1, and the bytes that it writes. `public_encrypt` is RSA_public_encrypt with RSA_PKCS1_PADDING:
-- the bytes that it writes, or nothing if it returns -1. `public_der` is what i2d_PublicKey
-- encodes. `pkey_ptr_set` is what the source reads as `evp_pkey->pkey.ptr != NULL` through its own
-- copy of `struct evp_pkey_st`, which need not have the layout of the library's.
pub record OpenSsl : Type 1 where
  pub World : Type 0
  pub Bn : Type 0
  pub Rsa : Type 0
  pub Pkey : Type 0
  pub init_crypto : World → Bool × World
  pub bn_new : World → Option Bn × World
  pub bn_set_word : Bn → ℕ → World → Bool × World
  pub bn_free : Bn → World → World
  pub rsa_new : World → Option Rsa × World
  pub generate_key : Rsa → ℕ → Bn → World → Bool × World
  pub rsa_free : Rsa → World → World
  pub pkey_new : World → Option Pkey × World
  pub assign_rsa : Pkey → Rsa → World → World
  pub pkey_ptr_set : Pkey → World → Bool
  pub pkey_rsa : Pkey → World → Option Rsa
  pub public_der : Pkey → World → List ℕ
  pub rsa_sign : Rsa → List ℕ → World → Bool × List ℕ
  pub public_encrypt : Rsa → List ℕ → World → Option (List ℕ)
  pub references : World → Rsa → ℕ

-- What the manual pages say of the reference count: RSA_new gives the one reference,
-- EVP_PKEY_assign_RSA passes it to the EVP_PKEY without adding one, RSA_free drops one, and the
-- other calls leave the count alone.
pub record CountsReferences (ssl : OpenSsl) : Type 0 where
  pub rsa_new_one :
      (w : ssl.World) (k : ssl.Rsa)
      → (ssl.rsa_new w).0 ≡ some k
      → ssl.references (ssl.rsa_new w).1 k ≡ 1
  pub generate_key_keeps :
      (k : ssl.Rsa) (bits : ℕ) (b : ssl.Bn) (w : ssl.World)
      → ssl.references (ssl.generate_key k bits b w).1 k ≡ ssl.references w k
  pub pkey_new_keeps :
      (k : ssl.Rsa) (w : ssl.World) → ssl.references (ssl.pkey_new w).1 k ≡ ssl.references w k
  pub assign_rsa_keeps :
      (p : ssl.Pkey) (k : ssl.Rsa) (w : ssl.World)
      → ssl.references (ssl.assign_rsa p k w) k ≡ ssl.references w k
  pub bn_free_keeps :
      (b : ssl.Bn) (k : ssl.Rsa) (w : ssl.World)
      → ssl.references (ssl.bn_free b w) k ≡ ssl.references w k
  pub rsa_free_drops :
      (k : ssl.Rsa) (w : ssl.World) → ssl.references (ssl.rsa_free k w) k ≡ ssl.references w k - 1
