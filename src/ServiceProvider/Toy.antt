-- ===== src/ServiceProvider/Toy.antt =====
-- Toy cryptography for the tests, and a service provider over it.
use sgx_erlang_extension.Prelude.{
  ℕ, ◌≡◌, refl, some, true, List, [], ◌++◌, pos, length, zeros, length-zeros, bytes_eq, arith,
}
use sgx_erlang_extension.Process.{returned}
use sgx_erlang_extension.Sgx.{success}
use sgx_erlang_extension.Sgx.Sha256.{Digests}
use sgx_erlang_extension.IsvEnclave.{Crypto}
use sgx_erlang_extension.ServiceProvider.Libcrypto.{Libcrypto, Hashes}
use sgx_erlang_extension.ServiceProvider.Ias.{
  blob_bytes, clear_blob, words, signed_part, swap_endian_32b, ias_verify_attestation_evidence,
}
use sgx_erlang_extension.ServiceProvider.State.{Sp, Response, ias_group, initial_sp, g_secret}
use sgx_erlang_extension.ServiceProvider.Msg3.{
  AttResult, report_data, check_msg3, compare_report_data, check_report_data, verify_quote,
  check_quote, make_result, sp_ra_proc_msg3_req,
}
use sgx_erlang_extension.ServiceProvider.Secret.{Session}
use sgx_erlang_extension.ServiceProvider.Sizes.{Sizes}

-- A MAC is 16 zeros, a digest 32 zeros, a ciphertext its plaintext, and a signature is zero.
abbrev pub toy : Libcrypto
toy = record {
  World = Unit;
  open_context = λ w. (true, w);
  create_key_pair = λ w. (some (zeros 32, zeros 64), w);
  shared_dhkey = λ b g. some (zeros 32);
  ecdsa_sign = λ message key w. (some (zeros 8, zeros 8), w);
  cmac = λ key message. some (zeros 16);
  gcm_encrypt = λ key text iv. (pos 0, text, zeros 16);
  Sha = List ℕ;
  sha256_init = some [];
  sha256_update = λ bytes c. some (c ++ bytes);
  sha256_get_hash = λ c. some (zeros 32);
}

abbrev pub toy-Hashes : Hashes toy
toy-Hashes = record {
  absorbed = λ c. c;
  digest = λ c. zeros 32;
  start = [];
  init_start = refl;
  absorbed_start = refl;
  step = λ bytes c. c ++ bytes;
  update_step = λ bytes c. refl;
  absorbed_step = λ bytes c. refl;
  hash_digest = λ c. refl;
}

-- The enclave's cryptography, with the keys of a provider that has just started.
abbrev pub enclave : Crypto
enclave = record {
  get_keys = λ context t. (success, zeros 16);
  cmac = λ key message. (success, zeros 16);
  gcm_decrypt = λ key secret iv mac old. (success, secret);
  sha256 = record {
    Sha = List ℕ;
    sha256_init = (success, []);
    sha256_update = λ bytes c. (success, c ++ bytes);
    sha256_get_hash = λ c. (success, zeros 32);
  };
}

abbrev pub enclave-Digests : Digests enclave.sha256
enclave-Digests = record {
  absorbed = λ c. c;
  digest = λ c. zeros 32;
  absorbed_init = refl;
  absorbed_update = λ bytes c. refl;
  init_succeeds = refl;
  update_succeeds = λ bytes c. refl;
  hash_succeeds = λ c. refl;
  hash_absorbed = λ c. refl;
}

-- A registered provider before any key has been exchanged.
abbrev pub registered : Sp toy
registered = record (initial_sp toy tt) { group = some (ias_group toy); g_is_sp_registered = true }

abbrev pub zero_answer : Response AttResult
zero_answer = record {
  type = 4;
  status = (0, 0);
  size = 145;
  body = record {
    platform_info_blob = clear_blob;
    mac = zeros 16;
    payload_size = 8;
    payload_tag = zeros 16;
    payload = g_secret;
  };
}

-- 768 zero bytes are an authentic message of such a provider.
pub answered :
    (sp_ra_proc_msg3_req (some (zeros 768)) registered).0 ≡ returned (pos 0, some zero_answer)
unfolding sp_ra_proc_msg3_req check_msg3 report_data compare_report_data check_report_data
    verify_quote check_quote make_result ias_verify_attestation_evidence swap_endian_32b blob_bytes
    signed_part words zeros bytes_eq
answered = refl

toy_same_cmac :
    (key message mac : List ℕ)
    → toy.cmac key message ≡ some mac
    → (enclave.cmac key message ≡ (success, mac)) × (length mac ≡ 16)
unfolding zeros
toy_same_cmac key message mac h = ground arith

toy_opens :
    (key text iv old : List ℕ)
    → (toy.gcm_encrypt key text iv).0 ≡ pos 0
    → (enclave.gcm_decrypt key
          (toy.gcm_encrypt key text iv).1
          iv
          (toy.gcm_encrypt key text iv).2
          old
        ≡ (success, text))
      × (length (toy.gcm_encrypt key text iv).1 ≡ length text)
toy_opens key text iv old h = (refl, refl)

toy_signature_sized :
    (message key : List ℕ) (w : toy.World) (x y : List ℕ)
    → (toy.ecdsa_sign message key w).0 ≡ some (x, y)
    → (length x ≡ 8) × (length y ≡ 8)
unfolding zeros
toy_signature_sized message key w x y h = ground arith

pub toy-Session : Session toy enclave 1 registered.g_sp_db
toy-Session = record {
  mk_found = refl;
  sk_found = refl;
  same_cmac = toy_same_cmac;
  opens = toy_opens;
  signature_sized = toy_signature_sized;
}

pub toy-Sizes : Sizes toy
toy-Sizes = record {
  key_pair_sized = λ w pair h. ground (arith, length-zeros 32, length-zeros 64);
  cmac_sized = λ key text mac h. ground (arith, length-zeros 16);
  hash_sized = λ c hash h. ground (arith, length-zeros 32);
}
