-- ===== src/IsvApp/Tests.antt =====
-- The application at concrete inputs, over toy cryptography.
use sgx_erlang_extension.Prelude.{
  ℕ, ◌+◌, ◌≡◌, ◌↔◌, refl, ◌≤◌, Option, none, some, true, false, ◌&&◌, not, List, [], ◌∷◌, pos,
  negsuc, codes, zeros, bytes_eq, take, length, arith,
}
use sgx_erlang_extension.Process.{waiting, returned}
use sgx_erlang_extension.IsvEnclave.{verify_att_result_mac, put_secret_data, counts_up}
use sgx_erlang_extension.ServiceProvider.Ias.{
  blob_bytes, signed_part, words, ias_enroll, ias_get_sigrl, ias_verify_attestation_evidence,
  swap_endian_32b,
}
use sgx_erlang_extension.ServiceProvider.Network.{Request, ra_network_send_receive}
use sgx_erlang_extension.ServiceProvider.Msg0.{
  read_le32, sp_ra_proc_msg0_req, register, key_id_response,
}
use sgx_erlang_extension.Sgx.{Status, success, eq_status}
use sgx_erlang_extension.Sgx.Bridge.{working}
use sgx_erlang_extension.ServiceProvider.State.{Response, g_secret, initial_sp}
use sgx_erlang_extension.ServiceProvider.Msg3.{
  AttResult, sp_ra_proc_msg3_req, check_msg3, report_data, compare_report_data, check_report_data,
  verify_quote, check_quote, make_result,
}
use sgx_erlang_extension.ServiceProvider.Toy.{
  toy, toy-Hashes, enclave, registered, zero_answer, answered, toy-Session, toy-Sizes,
}
use sgx_erlang_extension.IsvApp.Retry.{retry}
use sgx_erlang_extension.ServiceProvider.Ecp.{derive_key_pair}
use sgx_erlang_extension.ServiceProvider.Msg1.{
  sp_ra_proc_msg1_req, exchange_keys, derive_keys, assemble_msg2,
}
use sgx_erlang_extension.IsvApp.Main.{main, initial_app, rounds, attest, round}
use sgx_erlang_extension.IsvApp.Round.{
  send_msg1, get_msg3, send_msg3, get_msg1, put_secret, receive, clean_up, is_context, send,
  select_key, create_enclaves,
}
use sgx_erlang_extension.IsvApp.Calls.{
  number, destroyed, created, closed, Answers, attested, code, App, go, cleanup, leave, failed,
}
use sgx_erlang_extension.IsvApp.Retries.{retry_lem, asks_again, get_msg1_busy}
use sgx_erlang_extension.IsvApp.Results.{checked, opened, trusted, passes, accepts, receive_go}
use sgx_erlang_extension.IsvApp.Delivery.{IsWorking, receive-sp_ra_proc_msg3_req, receive_rejected}
use sgx_erlang_extension.IsvApp.Rounds.{destructions, rounds_destroy}
use sgx_erlang_extension.IsvApp.Samples.{
  Sample, verification_index_is_valid, array_index, sample_at, digits_from, atoi,
}
use sgx_erlang_extension.IsvApp.Verification.{main_with, chosen, verify_msg1}
use sgx_erlang_extension.IsvApp.Mismatch.{Unmatched, verify_msg1-Unmatched}
use sgx_erlang_extension.ServiceProvider.Reachable.{started, served}
use sgx_erlang_extension.IsvApp.Precomputed.{attestations, main_with-attestations}
use sgx_erlang_extension.IsvApp.Indices.{
  first_sample, first_sample-Matching, Matching, sample_at-Matching,
}

abbrev no_answers : Answers
no_answers = record {
  groups = [];
  selections = [];
  creations = [];
  msg1s = [];
  msg3s = [];
  closes = [];
}

-- The application with context 1.
abbrev app : App toy
app = record (initial_app no_answers registered) { context = 1 }

working-IsWorking : IsWorking working
working-IsWorking = record { succeeds = λ f e. refl }

abbrev busy : Status × List ℕ
busy = (Status.error_busy, [])

retry_lem_example :
    (a : Status × List ℕ) × ((retry asks_again (busy ∷ busy ∷ (success, zeros 68) ∷ []) (pos 2)).0
      ≡ some a)
    × (3 ≤ length (retry asks_again (busy ∷ busy ∷ (success, zeros 68) ∷ []) (pos 2)).1 + 2 + 1)
retry_lem_example = retry_lem asks_again (busy ∷ busy ∷ (success, zeros 68) ∷ []) 2 (omega arith)

abbrev busy_app : App toy
busy_app = record app {
  busy_retry_time = pos 4;
  answers = record no_answers { msg1s = busy ∷ busy ∷ busy ∷ busy ∷ busy ∷ busy ∷ busy ∷ [] };
}

get_msg1_busy_example :
    ((get_msg1 busy_app).0 ≡ cleanup failed) × ((get_msg1 (get_msg1 busy_app).1).0 ≡ leave waiting)
get_msg1_busy_example =
    get_msg1_busy busy_app 4 refl (refl, (refl, (refl, (refl, (refl, (refl, (refl, tt)))))))
      (omega arith) (omega arith)

bad_checked : eq_status (checked enclave working zero_answer app) success ≡ true
unfolding verify_att_result_mac blob_bytes signed_part words zeros bytes_eq
bad_checked = refl

bad_opened :
    eq_status (put_secret_data enclave 1 (take 8 (zeros 8)) (zeros 16) (zeros 8)).0 success ≡ false
unfolding put_secret_data counts_up zeros
bad_opened = refl

-- A response whose status bytes say that the attestation has failed.
abbrev untrusted_answer : Response AttResult
untrusted_answer = record zero_answer { status = (1, 0) }

untrusted_run : (receive enclave working untrusted_answer app).0 ≡ go tt
unfolding receive verify_att_result_mac blob_bytes signed_part words zeros bytes_eq
untrusted_run = refl

receive_go_example :
    (((receive enclave working untrusted_answer app).0 ≡ go tt) ↔ (
      (passes enclave working untrusted_answer app ≡ true)
      × ((trusted untrusted_answer && not (accepts enclave working untrusted_answer app)) ≡ false)))
    × (passes enclave working untrusted_answer app ≡ true
        → eq_status (checked enclave working untrusted_answer app) success ≡ true)
    × (passes enclave working untrusted_answer app ≡ true
        → trusted untrusted_answer ≡ false
        → receive enclave working untrusted_answer app
          ≡ (go tt, record app { events = attested ∷ app.events }))
    × ((receive enclave working untrusted_answer app).0 ≡ go tt
        → trusted untrusted_answer ≡ true
        → (eq_status (opened enclave working untrusted_answer app).0 success ≡ true)
          × ((receive enclave working untrusted_answer app).1.g_secret
              ≡ (opened enclave working untrusted_answer app).1))
receive_go_example = receive_go enclave working untrusted_answer app

-- A response with a secret that the enclave rejects.
abbrev bad_answer : Response AttResult
bad_answer = record zero_answer { body = record zero_answer.body { payload = zeros 8 } }

receive_rejected_example :
    (status : Status) × ((receive enclave working bad_answer app).0 ≡ cleanup (code status))
    × (eq_status status success ≡ true)
receive_rejected_example =
    receive_rejected enclave working working-IsWorking bad_answer app bad_checked refl bad_opened

-- An answer to each call of two rounds that fail when the enclave is created.
abbrev start : App toy
start =
    initial_app
      (record no_answers {
        groups = (success, 0) ∷ (success, 0) ∷ [];
        selections = Status.error_unexpected ∷ Status.error_unexpected ∷ [];
      })
      registered

rounds_end : (rounds true enclave working start).0 ≡ go failed
unfolding rounds round attest clean_up send select_key create_enclaves is_context
    ra_network_send_receive sp_ra_proc_msg0_req read_le32
rounds_end = refl

rounds_destroy_example : destructions (rounds true enclave working start).1.events ≡ 0 + 2
rounds_destroy_example = rounds_destroy true enclave working start failed rounds_end

receive-sp_ra_proc_msg3_req_example :
    receive enclave working zero_answer app
    ≡ (go tt, record app { g_secret = g_secret; events = attested ∷ [] })
receive-sp_ra_proc_msg3_req_example =
    receive-sp_ra_proc_msg3_req enclave working working-IsWorking toy-Hashes registered (zeros 768)
      zero_answer app toy-Session (λ h. refl) answered

-- Two honest rounds, the first of them after a busy SDK, with a provider that has just started.
abbrev honest : App toy
honest =
    initial_app
      (record {
        groups = (success, 0) ∷ (success, 0) ∷ [];
        selections = success ∷ success ∷ [];
        creations =
            ((success, 7), (success, success), 1) ∷ ((success, 8), (success, success), 2) ∷ [];
        msg1s = busy ∷ (success, zeros 68) ∷ (success, zeros 68) ∷ [];
        msg3s = (success, some (zeros 768)) ∷ (success, some (zeros 768)) ∷ [];
        closes = (success, success) ∷ (success, success) ∷ [];
      })
      (initial_sp toy tt)

honest_run : (main true enclave working honest).0 ≡ returned (number (pos 0))
unfolding main rounds round attest clean_up send select_key create_enclaves get_msg1 send_msg1
    get_msg3 send_msg3 retry receive put_secret is_context ra_network_send_receive
    sp_ra_proc_msg0_req register key_id_response read_le32 ias_enroll ias_get_sigrl
    sp_ra_proc_msg1_req exchange_keys derive_keys derive_key_pair assemble_msg2 sp_ra_proc_msg3_req
    check_msg3 report_data compare_report_data check_report_data verify_quote check_quote
    make_result ias_verify_attestation_evidence swap_endian_32b verify_att_result_mac
    put_secret_data counts_up blob_bytes signed_part words zeros bytes_eq
honest_run = refl

honest_events :
    (main true enclave working honest).1.events
    ≡ destroyed 8
      ∷ closed 8 2
      ∷ attested
      ∷ created 8
      ∷ destroyed 7
      ∷ closed 7 1
      ∷ attested
      ∷ created 7
      ∷ []
unfolding main rounds round attest clean_up send select_key create_enclaves get_msg1 send_msg1
    get_msg3 send_msg3 retry receive put_secret is_context ra_network_send_receive
    sp_ra_proc_msg0_req register key_id_response read_le32 ias_enroll ias_get_sigrl
    sp_ra_proc_msg1_req exchange_keys derive_keys derive_key_pair assemble_msg2 sp_ra_proc_msg3_req
    check_msg3 report_data compare_report_data check_report_data verify_quote check_quote
    make_result ias_verify_attestation_evidence swap_endian_32b verify_att_result_mac
    put_secret_data counts_up blob_bytes signed_part words zeros bytes_eq
honest_events = refl

atoi_run : atoi (codes " -12a") ≡ negsuc 11
unfolding atoi digits_from
atoi_run = refl

chosen_run : chosen (codes "3") ≡ none
unfolding chosen atoi digits_from verification_index_is_valid
chosen_run = refl

sample_at-Matching_example :
    ((verification_index_is_valid (pos 2) ≡ true)
      ↔ ((sample : Sample) × (sample_at (array_index (pos 2)) ≡ some sample)))
    × ((sample : Sample) → sample_at (array_index (pos 2)) ≡ some sample → Matching sample)
sample_at-Matching_example = sample_at-Matching (pos 2)

-- A round with the first precomputed messages.
abbrev first_index : List (List ℕ)
first_index = codes "isv_app" ∷ codes "1" ∷ []

main_with-attestations_example :
    attestations (main_with true enclave working first_index honest).1.events
    ≡ attestations honest.events
main_with-attestations_example =
    main_with-attestations true enclave working (codes "isv_app") (codes "1") [] honest

-- A provider that has answered a message 0.
abbrev greeting : Option Request
greeting = some (record { type = 0; body = zeros 4 })

abbrev greeted : App toy
greeted = record app { sp = (ra_network_send_receive true greeting (initial_sp toy tt)).1 }

greeted_spid : length greeted.sp.g_spid ≡ 16
unfolding ra_network_send_receive sp_ra_proc_msg0_req read_le32 ias_enroll zeros
greeted_spid = refl

verify_msg1-Unmatched_example :
    Unmatched (verify_msg1 true first_sample greeted).1.events greeted.events
verify_msg1-Unmatched_example =
    verify_msg1-Unmatched first_sample toy-Sizes greeted first_sample-Matching
      (served started greeting) greeted_spid
