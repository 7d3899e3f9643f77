-- ===== src/RsaNif.antt =====
-- The NIFs of erlang-nif_SSL: the wrappers in App/EnclavedErlangCFunc/Test.c and the functions
-- `rsa_sign_nif`, `rsa_encrypt_nif`, `rsa_get_pubkey_nif`, `rsa_key_gen_nif`, `increment_nif` and
-- `rtrn_nif` of App/App.c, and the same of App_no-sgx, where there is no enclave.
pub mod Table
pub mod Laws
pub mod Keys
pub mod Plain
mod Tests
use sgx_erlang_extension.Prelude.{
  ℕ, ◌+◌, ◌%◌, ◌^◌, Option, none, some, List, [], ◌∷◌, ◌++◌, ℤ, pos, int32, length, take, zeros,
  ◌==◌, if◌then◌else◌,
}
use sgx_erlang_extension.Process.{Outcome, Run, returned, aborted, pure, stop, ◌>>=◌, ◌>>◌}
use sgx_erlang_extension.Sgx.{success, eq_status}
use sgx_erlang_extension.Sgx.Bridge.{Bridge}
use sgx_erlang_extension.Rsa.{
  Enclave, in_string, ecall_increment, ecall_return_a, ecall_rsa_sign, ecall_rsa_encrypt,
  ecall_rsa_get_pubkey, ecall_rsa_key_gen,
}
use sgx_erlang_extension.Rsa.Crypto.{OpenSsl}

-- The terms of the virtual machine and the calls of erl_nif, which are not part of the repository.
-- `list_length` is enif_get_list_length, `none` for 0. `get_string t n` is enif_get_string with
-- ERL_NIF_LATIN1 and an array of n bytes: the bytes before the NUL that it adds, or `none` if it
-- returns less than 1. `make_binary` is a new binary with these bytes.
pub record ErlNif : Type 1 where
  pub Term : Type 0
  pub make_int : ℤ → Term
  pub make_binary : List ℕ → Term
  pub list_length : Term → Option ℕ
  pub get_string : Term → ℕ → Option (List ℕ)

abbrev pub signature_size : ℕ
signature_size = 512

abbrev pub pubkey_size : ℕ
pubkey_size = 526

module _ {ssl : OpenSsl} where
  -- A call into the enclave, and `if (ret != SGX_SUCCESS) abort();`. A trusted function that does
  -- not return ends the call as it ended.
  abbrev pub ecall : {A : Type 0} → Bridge (Enclave ssl) → Run (Enclave ssl) A → Run (Enclave ssl) A
  ecall bridge f e =
      let ((ret, o), e') = bridge.call f e in (if eq_status ret success then o else aborted, e')

module _ (ssl : OpenSsl) where
  module _ (bridge : Bridge (Enclave ssl)) where
    unfoldable pub my_increment : Run (Enclave ssl) (Unit {0})
    my_increment = ecall bridge (ecall_increment ssl)

    unfoldable pub my_return_a : Run (Enclave ssl) ℕ
    my_return_a = ecall bridge (ecall_return_a ssl)

    -- The status and the array `ciphertext` after the call. `[out]` gives the enclave an array of
    -- zeros, which is copied over the caller's when the call succeeds.
    unfoldable pub my_rsa_sign : List ℕ → ℕ → Run (Enclave ssl) (ℕ × List ℕ)
    my_rsa_sign plaintext ciphertext_len =
        ecall bridge
          (ecall_rsa_sign ssl (in_string plaintext) (zeros ciphertext_len) ciphertext_len)

    unfoldable pub my_rsa_encrypt : List ℕ → ℕ → Run (Enclave ssl) (ℕ × List ℕ)
    my_rsa_encrypt plaintext ciphertext_len =
        ecall bridge
          (ecall_rsa_encrypt ssl (in_string plaintext) (zeros ciphertext_len) ciphertext_len)

    unfoldable pub my_rsa_get_pubkey : ℕ → Run (Enclave ssl) (ℕ × List ℕ)
    my_rsa_get_pubkey requested_len =
        ecall bridge (ecall_rsa_get_pubkey ssl (zeros requested_len) requested_len)

    unfoldable pub my_rsa_key_gen : Run (Enclave ssl) ℕ
    my_rsa_key_gen = ecall bridge (ecall_rsa_key_gen ssl)

  -- The versions without SGX. They check the status of the operation itself. The array of the
  -- caller holds what `malloc` has left there, and the text is used where it stands, with its NUL.
  unfoldable pub plain_increment : Run (Enclave ssl) (Unit {0})
  plain_increment = ecall_increment ssl

  unfoldable pub plain_return_a : Run (Enclave ssl) ℕ
  plain_return_a = ecall_return_a ssl

  abbrev pub abort_unless_zero : ℕ × List ℕ → Run (Enclave ssl) (ℕ × List ℕ)
  abort_unless_zero (ret, array) = if ret == 0 then pure (ret, array) else stop aborted

  unfoldable pub plain_rsa_sign : List ℕ → List ℕ → ℕ → Run (Enclave ssl) (ℕ × List ℕ)
  plain_rsa_sign plaintext ciphertext ciphertext_len = do
    r ← ecall_rsa_sign ssl (plaintext ++ (0 ∷ [])) ciphertext ciphertext_len
    abort_unless_zero r

  unfoldable pub plain_rsa_encrypt : List ℕ → List ℕ → ℕ → Run (Enclave ssl) (ℕ × List ℕ)
  plain_rsa_encrypt plaintext ciphertext ciphertext_len = do
    r ← ecall_rsa_encrypt ssl (plaintext ++ (0 ∷ [])) ciphertext ciphertext_len
    abort_unless_zero r

  unfoldable pub plain_rsa_get_pubkey : List ℕ → ℕ → Run (Enclave ssl) (ℕ × List ℕ)
  plain_rsa_get_pubkey pubkey requested_len = do
    r ← ecall_rsa_get_pubkey ssl pubkey requested_len
    abort_unless_zero r

  unfoldable pub plain_rsa_key_gen : Run (Enclave ssl) ℕ
  plain_rsa_key_gen = do ret ← ecall_rsa_key_gen ssl; if ret == 0 then pure ret else stop aborted

module _ (nif : ErlNif) where
  open nif use {Term, list_length, get_string}

  -- The argument as a string: its length, the array of that length and one more, and the bytes.
  abbrev pub argument : Term → Option (List ℕ)
  argument t = elim (list_length t) [ none ↦ none | some len ↦ get_string t ((len + 1) % 2 ^ 32) ]

-- A NIF returns a term, or nothing definite after `return;`, which is `none`.
module _ (nif : ErlNif) {S : Type 0} where
  open nif use {Term, make_int, make_binary}

  -- `rsa_sign_nif` and `rsa_encrypt_nif` around the operation. Its status is not used.
  unfoldable pub cipher_nif : (List ℕ → ℕ → Run S (ℕ × List ℕ)) → Term → Run S (Option Term)
  cipher_nif operation t = elim (argument nif t) [
    | none ↦ pure none
    | some cleartext ↦ do
      (ret, ciphertext) ← operation cleartext signature_size
      pure (some (make_binary (take signature_size ciphertext)))
  ]

  unfoldable pub pubkey_nif : (ℕ → Run S (ℕ × List ℕ)) → Run S (Option Term)
  pubkey_nif operation = do
    (ret, pubkey) ← operation pubkey_size
    pure (some (make_binary (take pubkey_size pubkey)))

  -- `rsa_key_gen_nif` and `rtrn_nif` return the number of the operation.
  unfoldable pub status_nif : Run S ℕ → Run S (Option Term)
  status_nif operation = do ret ← operation; pure (some (make_int (int32 ret)))

  unfoldable pub counting_nif : Run S (Unit {0}) → Run S (Option Term)
  counting_nif operation = do operation; pure (some (make_int (pos 0)))

-- The functions of the table `nif_funcs`, with the operations that they call. In the version without
-- an enclave an array is given with what `malloc` has left in it.
module _ (ssl : OpenSsl) (nif : ErlNif) where
  open nif use {Term}

  module _ (bridge : Bridge (Enclave ssl)) where
    abbrev pub rsa_sign_nif : Term → Run (Enclave ssl) (Option Term)
    rsa_sign_nif t = cipher_nif nif (my_rsa_sign ssl bridge) t

    abbrev pub rsa_encrypt_nif : Term → Run (Enclave ssl) (Option Term)
    rsa_encrypt_nif t = cipher_nif nif (my_rsa_encrypt ssl bridge) t

    abbrev pub rsa_get_pubkey_nif : Run (Enclave ssl) (Option Term)
    rsa_get_pubkey_nif = pubkey_nif nif (my_rsa_get_pubkey ssl bridge)

    abbrev pub rsa_key_gen_nif : Run (Enclave ssl) (Option Term)
    rsa_key_gen_nif = status_nif nif (my_rsa_key_gen ssl bridge)

    abbrev pub increment_nif : Run (Enclave ssl) (Option Term)
    increment_nif = counting_nif nif (my_increment ssl bridge)

    abbrev pub rtrn_nif : Run (Enclave ssl) (Option Term)
    rtrn_nif = status_nif nif (my_return_a ssl bridge)

  abbrev pub plain_rsa_sign_nif : List ℕ → Term → Run (Enclave ssl) (Option Term)
  plain_rsa_sign_nif junk t = cipher_nif nif (λ text n. plain_rsa_sign ssl text junk n) t

  abbrev pub plain_rsa_encrypt_nif : List ℕ → Term → Run (Enclave ssl) (Option Term)
  plain_rsa_encrypt_nif junk t = cipher_nif nif (λ text n. plain_rsa_encrypt ssl text junk n) t

  abbrev pub plain_rsa_get_pubkey_nif : List ℕ → Run (Enclave ssl) (Option Term)
  plain_rsa_get_pubkey_nif junk = pubkey_nif nif (plain_rsa_get_pubkey ssl junk)

  abbrev pub plain_rsa_key_gen_nif : Run (Enclave ssl) (Option Term)
  plain_rsa_key_gen_nif = status_nif nif (plain_rsa_key_gen ssl)

  abbrev pub plain_increment_nif : Run (Enclave ssl) (Option Term)
  plain_increment_nif = counting_nif nif (plain_increment ssl)

  abbrev pub plain_rtrn_nif : Run (Enclave ssl) (Option Term)
  plain_rtrn_nif = status_nif nif (plain_return_a ssl)
