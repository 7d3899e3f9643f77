-- ===== src/ServiceProvider/Tests.antt =====
-- The service provider at concrete inputs, over toy cryptography.
use sgx_erlang_extension.Prelude.{
  ◌≡◌, refl, ◌↔◌, Option, none, some, true, false, ◌||◌, [], ◌∷◌, pos, take, zeros, bytes_eq, arith,
  if◌then◌else◌,
}
use sgx_erlang_extension.Process.{returned, crashed}
use sgx_erlang_extension.Sgx.{success}
use sgx_erlang_extension.IsvEnclave.{verify_att_result_mac, put_secret_data}
use sgx_erlang_extension.ServiceProvider.Ias.{
  blob_bytes, clear_blob, words, swap_endian_32b, ias_enroll, ias_get_sigrl,
}
use sgx_erlang_extension.ServiceProvider.State.{Sp, Response, ias_group, initial_sp, g_secret}
use sgx_erlang_extension.ServiceProvider.Ecp.{derive_key_pair}
use sgx_erlang_extension.ServiceProvider.KeyIds.{g_ecdsa_p256_att_key_id_list}
use sgx_erlang_extension.ServiceProvider.Msg0.{read_le32, sp_ra_proc_msg0_req}
use sgx_erlang_extension.ServiceProvider.Msg1.{
  Msg2, sp_ra_proc_msg1_req, exchange_keys, derive_keys, assemble_msg2,
}
use sgx_erlang_extension.ServiceProvider.Msg3.{
  report_data, check_msg3, compare_report_data, check_report_data, check_quote, sp_ra_proc_msg3_req,
}
use sgx_erlang_extension.ServiceProvider.Network.{Request, ra_network_send_receive}
use sgx_erlang_extension.ServiceProvider.Requests.{IsShortMsg3}
use sgx_erlang_extension.ServiceProvider.Sizes.{Sized}
use sgx_erlang_extension.ServiceProvider.Sizes.Requests.{Reach-Sized}
use sgx_erlang_extension.ServiceProvider.Reachable.{started, served, Reach_registered, Reach_crash}
use sgx_erlang_extension.ServiceProvider.Server.{
  Words, swap_endian_32b_twice, enrols, sp_ra_proc_msg0_req_lem,
}
use sgx_erlang_extension.ServiceProvider.Accepted.{IsAccepted, sp_ra_proc_msg3_req-IsAccepted}
use sgx_erlang_extension.ServiceProvider.Secret.{put_secret_data-sp_ra_proc_msg3_req}
use sgx_erlang_extension.ServiceProvider.Exchanged.{IsExchanged, sp_ra_proc_msg1_req-IsExchanged}
use sgx_erlang_extension.ServiceProvider.Toy.{
  toy, toy-Hashes, enclave, enclave-Digests, registered, zero_answer, answered, toy-Session,
  toy-Sizes,
}

sp_ra_proc_msg3_req-IsAccepted_example :
    ((sp_ra_proc_msg3_req (some (zeros 768)) registered).0 ≡ returned (pos 0, some zero_answer))
    ↔ IsAccepted toy-Hashes (zeros 768) registered zero_answer
sp_ra_proc_msg3_req-IsAccepted_example =
    sp_ra_proc_msg3_req-IsAccepted toy-Hashes (zeros 768) registered zero_answer λ h. refl

put_secret_data-sp_ra_proc_msg3_req_run :
    (verify_att_result_mac enclave 1 (blob_bytes clear_blob) (zeros 16) ≡ success)
    × (put_secret_data enclave 1 g_secret (zeros 16) (zeros 8) ≡ (success, g_secret))
put_secret_data-sp_ra_proc_msg3_req_run =
    put_secret_data-sp_ra_proc_msg3_req toy-Hashes enclave 1 registered toy-Session (zeros 768)
      (zeros 8) zero_answer (λ h. refl) answered

eight-Words : Words (1 ∷ 2 ∷ 3 ∷ 4 ∷ 5 ∷ 6 ∷ 7 ∷ 8 ∷ [])
eight-Words = ground arith

swap_endian_32b_twice_run :
    swap_endian_32b (swap_endian_32b (1 ∷ 2 ∷ 3 ∷ 4 ∷ 5 ∷ 6 ∷ 7 ∷ 8 ∷ []))
    ≡ 1 ∷ 2 ∷ 3 ∷ 4 ∷ 5 ∷ 6 ∷ 7 ∷ 8 ∷ []
swap_endian_32b_twice_run = swap_endian_32b_twice (1 ∷ 2 ∷ 3 ∷ 4 ∷ 5 ∷ 6 ∷ 7 ∷ 8 ∷ []) eight-Words

-- A message 1 of zeros, answered by a message 2 of zeros.
abbrev zero_msg2 : Response Msg2
zero_msg2 = record {
  type = 2;
  status = (0, 0);
  size = 168;
  body = record {
    g_b = zeros 64;
    spid = zeros 16;
    quote_type = 1;
    kdf_id = 2;
    sign_x = zeros 8;
    sign_y = zeros 8;
    mac = zeros 16;
    sig_rl_size = 0;
    sig_rl = [];
  };
}

exchanged :
    (sp_ra_proc_msg1_req true (some (zeros 68)) registered).0 ≡ returned (pos 0, some zero_msg2)
unfolding sp_ra_proc_msg1_req exchange_keys derive_keys derive_key_pair assemble_msg2 ias_get_sigrl
    words zeros
exchanged = refl

sp_ra_proc_msg1_req-IsExchanged_example :
    IsExchanged toy-Hashes enclave enclave-Digests
      (λ bytes. refl)
      (take 64 (zeros 68))
      (zeros 16)
      (sp_ra_proc_msg1_req true (some (zeros 68)) registered).1.g_sp_db
      zero_msg2
sp_ra_proc_msg1_req-IsExchanged_example =
    sp_ra_proc_msg1_req-IsExchanged toy-Hashes enclave enclave-Digests (λ bytes. refl) (zeros 68)
      registered zero_msg2 (λ h. refl) exchanged

-- A first message 0 registers the group.
abbrev first : Option Request
first = some (record { type = 0; body = zeros 4 })

abbrev after_first : Sp toy
after_first = (ra_network_send_receive true first (initial_sp toy tt)).1

Reach_registered_example :
    (after_first.g_is_sp_registered ≡ true → after_first.group ≡ some (ias_group toy))
    × (after_first.library.contexts ≡ 0)
Reach_registered_example = Reach_registered true tt (served started first)

-- A message 3 with an empty quote.
abbrev short : Option Request
short = some (record { type = 3; body = zeros 336 })

short_crashes : (ra_network_send_receive true short after_first).0 ≡ crashed
unfolding ra_network_send_receive sp_ra_proc_msg0_req read_le32 ias_enroll sp_ra_proc_msg3_req
    check_msg3 report_data compare_report_data check_report_data check_quote zeros bytes_eq
short_crashes = refl

Reach_crash_example : IsShortMsg3 short
Reach_crash_example = Reach_crash true tt (served started first) short short_crashes

sp_ra_proc_msg0_req_lem_example :
    let t = (sp_ra_proc_msg0_req (some (0 ∷ 0 ∷ 0 ∷ 0 ∷ [])) (initial_sp toy tt)).1 in
    ((sp_ra_proc_msg0_req (some (0 ∷ 0 ∷ 0 ∷ 0 ∷ [])) (initial_sp toy tt)).0
      ≡ returned (
        pos 0,
        some
            (record { type = 0; status = (0, 0); size = 264; body = g_ecdsa_p256_att_key_id_list }),
      ))
    × (t.g_is_sp_registered
        ≡ (false || enrols (read_le32 (0 ∷ 0 ∷ 0 ∷ 0 ∷ [])) (initial_sp toy tt)))
    × (t.group ≡ (
        if enrols (read_le32 (0 ∷ 0 ∷ 0 ∷ 0 ∷ [])) (initial_sp toy tt)
        then some (ias_group toy)
        else none))
    × (t.g_return_ecdsa_att_key_id ≡ false)
    × (t.g_sp_db ≡ (initial_sp toy tt).g_sp_db)
sp_ra_proc_msg0_req_lem_example =
    sp_ra_proc_msg0_req_lem (0 ∷ 0 ∷ 0 ∷ 0 ∷ []) (initial_sp toy tt) refl

-- A message 1 after it.
abbrev second : Option Request
second = some (record { type = 1; body = zeros 68 })

Reach-Sized_example : Sized (ra_network_send_receive true second after_first).1.g_sp_db
Reach-Sized_example = Reach-Sized toy-Sizes true (served (served started first) second)
