-- ===== src/QuoteServer/Tests.antt =====
-- The quote server at concrete inputs, over toy libraries.
use sgx_erlang_extension.Prelude.{
  ℕ, ◌≡◌, refl, ◌↔◌, ◌⊎◌, some, Bool, true, false, List, [], ◌∷◌, ◌++◌, length, take, zeros,
  bytes_eq, pos, codes, arith,
}
use sgx_erlang_extension.Sgx.{Status, success, eq_status}
use sgx_erlang_extension.Sgx.Bridge.{working}
use sgx_erlang_extension.Sgx.Sha256.{Sha256, Digests}
use sgx_erlang_extension.Sgx.Toy.{Enclaves, is_live, create_enclave, sdk}
use sgx_erlang_extension.QuoteServer.Enclave.{
  Trusted, Buffer, Evidence, invalid_arguments, report_data, content, little_endian, hash_evidence,
  check_identity, ecall_verify_report,
}
use sgx_erlang_extension.QuoteServer.Reports.{
  vouched, Identified, Reported, ecall_verify_report-Identified, ecall_verify_report_unhashed,
}
use sgx_erlang_extension.QuoteServer.Dcap.{ql_success, QvResult, result_ok, ReportInfo, Dcap}
use sgx_erlang_extension.QuoteServer.Calls.{State}
use sgx_erlang_extension.QuoteServer.App.{ecdsa_quote_verification}
use sgx_erlang_extension.QuoteServer.Lifetimes.{ecdsa_quote_verification_destroys}
use sgx_erlang_extension.QuoteServer.Verdicts.{Settled, ecdsa_quote_verification-result_ok}
use sgx_erlang_extension.QuoteServer.Unauthenticated.{ecdsa_quote_verification_same}

-- A digest is the first 32 bytes of its input.
abbrev toy_sha256 : Sha256
toy_sha256 = record {
  Sha = List ℕ;
  sha256_init = (success, []);
  sha256_update = λ bytes c. (success, c ++ bytes);
  sha256_get_hash = λ c. (success, take 32 c);
}

abbrev toy_Digests : Digests toy_sha256
toy_Digests = record {
  absorbed = λ c. c;
  digest = take 32;
  absorbed_init = refl;
  absorbed_update = λ bytes c. refl;
  init_succeeds = refl;
  update_succeeds = λ bytes c. refl;
  hash_succeeds = λ c. refl;
  hash_absorbed = λ c. refl;
}

-- An SDK that verifies every report, and a library that accepts every identity or none.
abbrev toy : Sha256 → Bool → Trusted
toy sha256 accepts = record {
  self_target = (success, 7 ∷ []);
  verify_report = λ report. success;
  sha256 = sha256;
  verify_enclave_identity = λ id chain crl root date. accepts;
  verify_enclave_report = λ report id. accepts;
}

abbrev broken_sha256 : Sha256
broken_sha256 = record toy_sha256 { sha256_init = (Status.error_out_of_memory, []) }

abbrev buffer : List ℕ → Buffer
buffer b = record { bytes = some b; size = length b }

abbrev evidence_with : List ℕ → Evidence
evidence_with data_of_report = record {
  report = buffer (zeros 320 ++ data_of_report ++ zeros 48);
  rand = buffer (1 ∷ 2 ∷ []);
  quote = buffer (3 ∷ []);
  qveid = buffer (4 ∷ []);
  qveid_issue_chain = buffer (5 ∷ []);
  root_ca_crl = buffer (6 ∷ []);
  expiration_check_date = 258;
  collateral_expiration_status = 1;
  verification_result = 0;
  supplemental_data = buffer (9 ∷ zeros 20);
}

abbrev right : Evidence
right = evidence_with ((1 ∷ 2 ∷ 3 ∷ 2 ∷ 1 ∷ zeros 6) ++ (1 ∷ zeros 7) ++ (9 ∷ zeros 12) ++ zeros 32)

accepted : ecall_verify_report (toy toy_sha256 true) right ≡ success
unfolding ecall_verify_report zeros invalid_arguments content hash_evidence little_endian
    report_data check_identity bytes_eq
accepted = refl

refused :
    ecall_verify_report (toy toy_sha256 true) (evidence_with (zeros 64)) ≡ Status.error_unexpected
unfolding ecall_verify_report zeros invalid_arguments content hash_evidence little_endian
    report_data check_identity bytes_eq
refused = refl

ecall_verify_report-Identified_example :
    (eq_status (ecall_verify_report (toy toy_sha256 true) right) success ≡ true) ↔ (
      Reported (toy toy_sha256 true) right
      × (report_data right ≡ toy_Digests.digest (vouched right) ++ zeros 32)
      × Identified (toy toy_sha256 true) right)
ecall_verify_report-Identified_example =
    ecall_verify_report-Identified (toy toy_sha256 true) toy_Digests right

-- Here the report data are wrong and every identity is refused.
ecall_verify_report_unhashed_example :
    (eq_status (ecall_verify_report (toy broken_sha256 false) (evidence_with (zeros 64))) success
      ≡ true)
    ↔ Reported (toy broken_sha256 false) (evidence_with (zeros 64))
unfolding hash_evidence
ecall_verify_report_unhashed_example =
    ecall_verify_report_unhashed (toy broken_sha256 false) (evidence_with (zeros 64)) refl

-- A library that gives every quote one result.
abbrev library : QvResult → Dcap Enclaves
library r = record {
  code = λ result. 0;
  sizeof_supplemental = 8;
  set_enclave_load_policy = λ w. (ql_success, w);
  get_quote_supplemental_data_size = λ w. ((ql_success, 8), w);
  verify_quote = λ quote date size out w. ((ql_success, record out { verification_result = r }), w);
  get_qve_identity = λ identity w. (
    (
      ql_success,
      record {
        qveid = buffer (4 ∷ []);
        qveid_issue_chain = buffer (5 ∷ []);
        root_ca_crl = buffer (6 ∷ []);
      },
    ),
    w,
  );
  free_qve_identity = λ identity w. w;
  time = λ w. (258, w);
  malloc = λ size w. (some (zeros size), w);
  open_file = λ path w. (some (record { file_size = 2; stored = 3 ∷ 4 ∷ [] }), w);
}

abbrev settled : (r : QvResult) (quote : List ℕ) → Settled (library r) quote
settled r quote = record {
  result = r;
  found = true;
  verifies = λ date size out w. refl;
  finds = λ w. refl;
}

abbrev uninit : ReportInfo
uninit = record { nonce = []; app_enclave_target_info = []; qe_report = [] }

abbrev begin : State Enclaves
begin = record { world = record { next = 2; kept = λ i. true }; printed = [] }

ecdsa_quote_verification_destroys_example :
    is_live
      (ecdsa_quote_verification sdk
        (library result_ok)
        working
        (toy toy_sha256 true)
        uninit
        (3 ∷ [])
        true
        begin).1.world
      (create_enclave begin.world).0.1
    ≡ false
unfolding create_enclave
ecdsa_quote_verification_destroys_example =
    ecdsa_quote_verification_destroys sdk (library result_ok) working (toy toy_sha256 true) uninit
      (3 ∷ []) begin refl (omega arith)

ecdsa_quote_verification-result_ok_example :
    ((ecdsa_quote_verification sdk
        (library result_ok)
        working
        (toy toy_sha256 true)
        uninit
        (3 ∷ [])
        true
        begin).0
      ≡ pos 0)
    ↔ ((result_ok ≡ result_ok)
        × ((true ≡ false)
            ⊎ ((eq_status (create_enclave begin.world).0.0 success ≡ true) × (true ≡ true))))
ecdsa_quote_verification-result_ok_example =
    ecdsa_quote_verification-result_ok sdk (library result_ok) (settled result_ok (3 ∷ [])) working
      (toy toy_sha256 true) uninit true begin

-- One side accepts every report, the other has no hash and refuses every identity.
ecdsa_quote_verification_same_example :
    (ecdsa_quote_verification sdk
      (library result_ok)
      working
      (toy toy_sha256 true)
      uninit
      (3 ∷ [])
      true
      begin).0
    ≡ (ecdsa_quote_verification sdk
        (library result_ok)
        working
        (toy toy_sha256 false)
        uninit
        (3 ∷ [])
        true
        begin).0
ecdsa_quote_verification_same_example =
    ecdsa_quote_verification_same sdk (library result_ok) working (toy toy_sha256 true)
      (toy toy_sha256 false) uninit (3 ∷ []) true begin refl

abbrev arguments : List (List ℕ)
arguments = codes "app" ∷ codes "-quote" ∷ codes "q.dat" ∷ []
