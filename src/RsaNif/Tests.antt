-- ===== src/RsaNif/Tests.antt =====
-- The NIFs of erlang-nif_SSL at concrete inputs.
use sgx_erlang_extension.Prelude.{
  ℕ, ◌-◌, ◌≡◌, refl, ◌≤◌, Option, none, some, true, false, List, [], ◌∷◌, ◌++◌, ℤ, pos, length,
  take, zeros, length-zeros, length-append, ◌==◌, if◌then◌else◌, arith, NonZero,
}
use sgx_erlang_extension.Process.{returned, aborted, ◌>>◌}
use sgx_erlang_extension.Sgx.Bridge.{working}
use sgx_erlang_extension.Rsa.{Enclave, initial, written, has_size, overwrite}
use sgx_erlang_extension.Rsa.Crypto.{OpenSsl}
use sgx_erlang_extension.Rsa.Ciphers.{HasKey, handed_out, encoding}
use sgx_erlang_extension.Rsa.Keys.{joined}
use sgx_erlang_extension.Rsa.Small.{
  open_ssl, open_ssl-CountsReferences, no_keys, generated, holding,
}
use sgx_erlang_extension.RsaNif.{
  ErlNif, rsa_get_pubkey_nif, rsa_key_gen_nif, pubkey_size, rsa_sign_nif, rsa_encrypt_nif,
  plain_rsa_sign_nif, plain_rsa_encrypt_nif, plain_rsa_get_pubkey_nif, plain_rsa_key_gen_nif,
}
use sgx_erlang_extension.RsaNif.Laws.{
  IsWorking, worked_on, rsa_sign_nif_lem, rsa_encrypt_nif_lem, cipher_nif-prefix,
}
use sgx_erlang_extension.RsaNif.Keys.{rsa_get_pubkey_nif_lem, rsa_key_gen-rsa_sign}
use sgx_erlang_extension.RsaNif.Plain.{
  plain_rsa_sign_nif_lem, plain_rsa_encrypt_nif_lem, rsa_sign_nif-plain, plain_rsa_key_gen_nif_lem,
  plain_rsa_get_pubkey_nif_lem,
}

-- Terms of the virtual machine: integers, binaries and lists of character codes.
data Term : Type 0 where
  int : ℤ → Term
  binary : List ℕ → Term
  chars : List ℕ → Term

abbrev list_length : Term → Option ℕ
list_length (int n) = none
list_length (binary s) = none
list_length (chars s) = some (length s)

abbrev get_string : Term → ℕ → Option (List ℕ)
get_string (int n) size = none
get_string (binary s) size = none
get_string (chars s) size = if size == 0 then none else some (take (size - 1) s)

abbrev nif : ErlNif
nif = record {
  Term = Term;
  make_int = int;
  make_binary = binary;
  list_length = list_length;
  get_string = get_string;
}

abbrev ssl : OpenSsl
ssl = open_ssl true false

working-IsWorking : (s : OpenSsl) → IsWorking {ssl = s} working
working-IsWorking s = record { succeeds = λ f e. refl }

abbrev holder : Enclave ssl
holder = holding true false

holder-HasKey : HasKey ssl holder 0
holder-HasKey = (refl, omega arith)

abbrev text : List ℕ
text = 68 ∷ 65 ∷ 84 ∷ 65 ∷ 68 ∷ 65 ∷ 84 ∷ 65 ∷ 46 ∷ []

abbrev start : List ℕ
start = 68 ∷ 65 ∷ 84 ∷ 65 ∷ 68 ∷ 65 ∷ 84 ∷ 65 ∷ []

text-NonZero : NonZero text
text-NonZero = omega arith

text_fits : length (ssl.rsa_sign 0 (worked_on text) holder.world).1 ≤ 512
text_fits = omega arith

encrypted_fits : length (written (ssl.public_encrypt 0 (worked_on text) holder.world)) ≤ 512
encrypted_fits = omega (arith, length-append (worked_on text) (zeros 504), length-zeros 504)

rsa_sign_nif_lem_example : rsa_sign_nif ssl nif working (chars text) holder ≡ (
  returned (some (binary (overwrite (ssl.rsa_sign 0 (worked_on text) holder.world).1 (zeros 512)))),
  holder,
)
rsa_sign_nif_lem_example =
    rsa_sign_nif_lem ssl nif working (working-IsWorking ssl) (chars text) text holder 0 refl
      text-NonZero (omega arith) holder-HasKey text_fits

rsa_encrypt_nif_run : rsa_encrypt_nif ssl nif working (chars text) holder ≡ (
  returned (
      some (
        binary
          (overwrite (written (ssl.public_encrypt 0 (worked_on text) holder.world)) (zeros 512)))),
  holder,
)
rsa_encrypt_nif_run =
    rsa_encrypt_nif_lem ssl nif working (working-IsWorking ssl) (chars text) text holder 0 refl
      text-NonZero (omega arith) holder-HasKey encrypted_fits

cipher_nif-prefix_example :
    (rsa_sign_nif ssl nif working (chars text) holder
      ≡ rsa_sign_nif ssl nif working (chars start) holder)
    × (rsa_encrypt_nif ssl nif working (chars text) holder
        ≡ rsa_encrypt_nif ssl nif working (chars start) holder)
cipher_nif-prefix_example =
    cipher_nif-prefix ssl nif working (working-IsWorking ssl) (chars text) (chars start) start
      (46 ∷ []) [] holder refl refl refl text-NonZero (omega arith)

rsa_get_pubkey_nif_lem_run : rsa_get_pubkey_nif ssl nif working holder ≡ (
  returned
      (some (binary (handed_out ssl (zeros pubkey_size) (encoding ssl holder.world (some tt))).1)),
  holder,
)
rsa_get_pubkey_nif_lem_run =
    rsa_get_pubkey_nif_lem ssl nif working (working-IsWorking ssl) holder (0, refl, omega arith)

rsa_key_gen-rsa_sign_example :
    (rsa_key_gen_nif ssl nif working >> rsa_sign_nif ssl nif working (chars text))
      (initial ssl no_keys)
    ≡ (
      returned (
          some (
            binary (
              overwrite
                (ssl.rsa_sign 0 (worked_on text) (joined ssl (generated false))).1
                (zeros 512)))),
      record { a = 0; evp_pkey = some tt; keypair = some 0; world = joined ssl (generated false) },
    )
rsa_key_gen-rsa_sign_example =
    rsa_key_gen-rsa_sign ssl nif working (working-IsWorking ssl)
      (open_ssl-CountsReferences true false) (initial ssl no_keys) (generated false) refl
      (chars text) text refl text-NonZero (omega arith) (omega arith)

-- What `malloc` has left.
abbrev junk : List ℕ
junk = 170 ∷ zeros 511

junk-length : length junk ≡ 512
junk-length = omega (arith, length-zeros 511)

plain_rsa_sign_nif_run : plain_rsa_sign_nif ssl nif junk (chars text) holder ≡ (
    if (ssl.rsa_sign 0 (worked_on text) holder.world).0
    then (
      returned (some (binary (overwrite (ssl.rsa_sign 0 (worked_on text) holder.world).1 junk))),
      holder,
    )
    else (aborted, holder))
plain_rsa_sign_nif_run =
    plain_rsa_sign_nif_lem ssl nif junk junk-length (chars text) text holder 0 refl (omega arith)
      holder-HasKey text_fits

plain_rsa_encrypt_nif_run : plain_rsa_encrypt_nif ssl nif junk (chars text) holder ≡ (
    if has_size (ssl.public_encrypt 0 (worked_on text) holder.world) 512
    then (
      returned (
          some (
            binary
              (overwrite (written (ssl.public_encrypt 0 (worked_on text) holder.world)) junk))),
      holder,
    )
    else (aborted, holder))
plain_rsa_encrypt_nif_run =
    plain_rsa_encrypt_nif_lem ssl nif junk junk-length (chars text) text holder 0 refl (omega arith)
      holder-HasKey encrypted_fits

-- A library that signs with the text and zeros behind it, 512 bytes in all, the length of a
-- signature under a key of 4096 bits.
abbrev long_ssl : OpenSsl
long_ssl = record ssl { rsa_sign = λ k m w. (true, m ++ zeros 504) }

abbrev long_holder : Enclave long_ssl
long_holder = record { a = 3; evp_pkey = some tt; keypair = some 0; world = holder.world }

rsa_sign_nif-plain_example :
    rsa_sign_nif long_ssl nif working (chars text) long_holder
    ≡ plain_rsa_sign_nif long_ssl nif junk (chars text) long_holder
rsa_sign_nif-plain_example =
    rsa_sign_nif-plain long_ssl nif junk junk-length working (working-IsWorking long_ssl)
      (chars text) text long_holder 0 refl text-NonZero (omega arith) (refl, omega arith) refl
      (omega (arith, length-append (worked_on text) (zeros 504), length-zeros 504))

plain_rsa_key_gen_nif_lem_run :
    (plain_rsa_key_gen_nif ssl nif holder).0
    ≡ (if (ssl.init_crypto holder.world).0 then returned (some (int (pos 0))) else aborted)
plain_rsa_key_gen_nif_lem_run = plain_rsa_key_gen_nif_lem ssl nif holder

abbrev pubkey_junk : List ℕ
pubkey_junk = zeros 526

plain_rsa_get_pubkey_nif_run : plain_rsa_get_pubkey_nif ssl nif pubkey_junk holder ≡ (
    if (handed_out ssl pubkey_junk (encoding ssl holder.world (some tt))).0 == 0
    then (
      returned (some (binary (handed_out ssl pubkey_junk (encoding ssl holder.world (some tt))).1)),
      holder,
    )
    else (aborted, holder))
plain_rsa_get_pubkey_nif_run =
    plain_rsa_get_pubkey_nif_lem ssl nif pubkey_junk holder (length-zeros 526)
      (0, refl, omega arith)
