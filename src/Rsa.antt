-- ===== src/Rsa.antt =====
-- The enclave of erlang-nif_SSL: the functions of erlang-nif_SSL/Enclave/Enclave.cpp, which
-- erlang-nif_SSL/App_no-sgx/EnclavedErlangCFunc/Enclave.cpp repeats for the version without SGX.
-- The DER encodings that `rsa_key_gen` makes only to print them are left out: `printf` is an empty
-- function in the enclave, and the calls are comments in the other version.
pub mod Crypto
pub mod Keys
pub mod Ciphers
pub mod Small
mod Tests
use sgx_erlang_extension.Prelude.{
  ℕ, ◌+◌, ◌%◌, ◌^◌, ◌≡◌, Option, none, some, Bool, true, false, List, [], ◌∷◌, ◌++◌, length, take,
  drop, replicate, leb, not, ◌==◌, if◌then◌else◌,
}
use sgx_erlang_extension.Process.{Run, pure, stop, gets, modify, deref, crashed, ◌>>=◌, ◌>>◌}
use Crypto.{OpenSsl}

-- RSA_F4, and the length of a key in bits.
abbrev pub rsa_f4 : ℕ
rsa_f4 = 65537

abbrev pub key_bits : ℕ
key_bits = 4096

-- What RSA_public_encrypt has written, and whether it returned the given size.
abbrev pub written : Option (List ℕ) → List ℕ
written none = []
written (some bytes) = bytes

abbrev pub has_size : Option (List ℕ) → ℕ → Bool
has_size none n = false
has_size (some bytes) n = length bytes == n

-- `sizeof` of a pointer, which is what `sizeof(plaintext)` gives.
abbrev pub sizeof_pointer : ℕ
sizeof_pointer = 8

-- The static variables: the counter, the key as an EVP_PKEY and as an RSA, and what OpenSSL holds.
pub record Enclave (ssl : OpenSsl) : Type 0 where
  pub a : ℕ
  pub evp_pkey : Option ssl.Pkey
  pub keypair : Option ssl.Rsa
  pub world : ssl.World

-- The enclave before the first call. `evp_pkey` and `keypair` start as NULL.
abbrev pub initial : (ssl : OpenSsl) → ssl.World → Enclave ssl
initial ssl w = record { a = 0; evp_pkey = none; keypair = none; world = w }

-- The bytes of an array that stand before its first NUL.
unfoldable pub before_nul : List ℕ → List ℕ
before_nul [] = []
before_nul (b ∷ s) = if b == 0 then [] else b ∷ before_nul s

-- `[in, string]` copies a string with its NUL into the enclave. The bytes given are those of the
-- caller's array up to its end.
abbrev pub in_string : List ℕ → List ℕ
in_string bytes = before_nul bytes ++ (0 ∷ [])

-- Bytes that are written to an array must fit; the array after the write.
abbrev pub fits : List ℕ → List ℕ → Bool
fits bytes array = leb (length bytes) (length array)

abbrev pub overwrite : List ℕ → List ℕ → List ℕ
overwrite bytes array = bytes ++ drop (length bytes) array

module _ {ssl : OpenSsl} where
  open ssl use {World, Bn, Rsa, Pkey}

  abbrev pub on_world : {A : Type 0} → (World → A × World) → Run (Enclave ssl) A
  on_world f e = let (a, w) = f e.world in pure a (record e { world = w })

  abbrev pub change_world : (World → World) → Run (Enclave ssl) (Unit {0})
  change_world f = modify (λ e. record e { world = f e.world })

  -- `if (p == NULL) return;`
  abbrev pub unless_null :
      {A : Type 0} → Option A → (A → Run (Enclave ssl) (Unit {0})) → Run (Enclave ssl) (Unit {0})
  unless_null none f = pure tt
  unless_null (some x) f = f x

  -- A pointer to a key is used: it must not be NULL, and the key must not have been freed.
  abbrev pub live_key : Option Rsa → Run (Enclave ssl) Rsa
  live_key none e = (crashed, e)
  live_key (some k) e = if ssl.references e.world k == 0 then (crashed, e) else pure k e

module _ (ssl : OpenSsl) where
  open ssl use {
    World, Bn, Rsa, Pkey, init_crypto, bn_new, bn_set_word, bn_free, rsa_new, generate_key,
    rsa_free, pkey_new, assign_rsa, pkey_ptr_set, pkey_rsa, public_der, rsa_sign, public_encrypt,
    references,
  }

  -- `rsa_key_gen` from the EVP_PKEY on: the keys are joined, the number is freed, and the reference
  -- to the RSA is dropped if the field that is taken for the pointer to it is set.
  unfoldable pub keep_key : Bn → Rsa → Pkey → Run (Enclave ssl) (Unit {0})
  keep_key b k p = do
    change_world (assign_rsa p k)
    change_world (bn_free b)
    set ← gets (λ e. pkey_ptr_set p e.world)
    if set then change_world (rsa_free k) else pure tt
    modify (λ e. record e { a = 0 })

  unfoldable pub generate : Bn → Run (Enclave ssl) (Unit {0})
  unfolding keep_key
  generate b = do
    key ← on_world rsa_new
    modify (λ e. record e { keypair = key })
    unless_null key λ k. do
      ok ← on_world (generate_key k key_bits b)
      if not ok then pure tt else do
        pkey ← on_world pkey_new
        modify (λ e. record e { evp_pkey = pkey })
        unless_null pkey (keep_key b k)

  unfoldable pub rsa_key_gen : Run (Enclave ssl) (Unit {0})
  unfolding generate
  rsa_key_gen = do
    bn ← on_world bn_new
    unless_null bn
        λ b. do ok ← on_world (bn_set_word b rsa_f4); if not ok then pure tt else generate b

  unfoldable pub t_sgxssl_call_apis : Run (Enclave ssl) (Unit {0})
  unfolding rsa_key_gen
  t_sgxssl_call_apis = do on_world init_crypto; rsa_key_gen

  unfoldable pub ecall_increment : Run (Enclave ssl) (Unit {0})
  ecall_increment = modify (λ e. record e { a = (e.a + 1) % 2 ^ 32 })

  unfoldable pub ecall_return_a : Run (Enclave ssl) ℕ
  ecall_return_a = gets (λ e. e.a)

  -- The status and the array `ciphertext` after the call. `plaintext` and `ciphertext` are the
  -- arrays that the function is given; a read or write past the end of one is undefined. The last
  -- argument reaches OpenSSL only as the variable that RSA_sign overwrites with the length.
  unfoldable pub ecall_rsa_sign : List ℕ → List ℕ → ℕ → Run (Enclave ssl) (ℕ × List ℕ)
  ecall_rsa_sign plaintext ciphertext ciphertext_len = do
    if leb sizeof_pointer (length plaintext) then pure tt else stop crashed
    key ← gets (λ e. e.keypair)
    k ← live_key key
    (ok, bytes) ← gets (λ e. rsa_sign k (take sizeof_pointer plaintext) e.world)
    if fits bytes ciphertext then pure tt else stop crashed
    pure (if ok then 0 else 1, overwrite bytes ciphertext)

  unfoldable pub ecall_rsa_encrypt : List ℕ → List ℕ → ℕ → Run (Enclave ssl) (ℕ × List ℕ)
  ecall_rsa_encrypt plaintext ciphertext ciphertext_len = do
    if leb sizeof_pointer (length plaintext) then pure tt else stop crashed
    key ← gets (λ e. e.keypair)
    k ← live_key key
    made ← gets (λ e. public_encrypt k (take sizeof_pointer plaintext) e.world)
    let bytes = written made
    if fits bytes ciphertext then pure tt else stop crashed
    pure (if has_size made 512 then 0 else 1, overwrite bytes ciphertext)

  -- The status and the array `pubkey_return_ptr` after the call.
  unfoldable pub ecall_rsa_get_pubkey : List ℕ → ℕ → Run (Enclave ssl) (ℕ × List ℕ)
  ecall_rsa_get_pubkey pubkey requested_len = do
    pkey ← gets (λ e. e.evp_pkey)
    elim pkey [
      | none ↦ pure (1, pubkey)
      | some p ↦ do
        key ← gets (λ e. pkey_rsa p e.world)
        k ← live_key key
        der ← gets (λ e. public_der p e.world)
        if not (length der == requested_len)
            then pure (2, pubkey)
            else if fits der pubkey
            then pure (0, overwrite der pubkey)
            else stop crashed
    ]

  -- `ret` is set from OPENSSL_init_crypto before the key is generated.
  unfoldable pub ecall_rsa_key_gen : Run (Enclave ssl) ℕ
  unfolding rsa_key_gen
  ecall_rsa_key_gen = do ok ← on_world init_crypto; rsa_key_gen; pure (if ok then 0 else 1)
