-- ===== src/QuoteServer/Calls.antt =====
-- The calls of `ecdsa_quote_verification` in QuoteVerificationServer/App/App.cpp, and what it prints.
use sgx_erlang_extension.Prelude.{
  ℕ, ◌%◌, ◌^◌, Option, none, some, ◌&&◌, ◌||◌, not, List, [], ◌∷◌, ◌++◌, ℤ, pos, negsuc, codes,
  take, length, ◌==◌, if◌then◌else◌,
}
use sgx_erlang_extension.Sgx.{Status, success, eq_status}
use sgx_erlang_extension.Sgx.Bridge.{Bridge}
use sgx_erlang_extension.QuoteServer.Enclave.{
  Trusted, Buffer, Evidence, sizeof_report, ecall_get_target_info, ecall_verify_report,
}
use sgx_erlang_extension.QuoteServer.Dcap.{
  Quote3Error, ql_error_unexpected, is_ql_success, QvResult, result_ok, result_config_needed,
  result_out_of_date, result_out_of_date_config_needed, result_sw_hardening_needed,
  result_config_and_sw_hardening_needed, result_unspecified, ReportInfo, Outputs, Identity, Dcap,
}

-- The lines that are printed.
pub data Print : Type 0 where
  cannot_load : Status → Print
  target_info_failed : Quote3Error → Print
  got_target_info policy_set : Print
  policy_failed : Quote3Error → Print
  size_found : Print
  size_failed : Quote3Error → Print
  verify_returned : Print
  verify_failed : Quote3Error → Print
  identity_failed : Quote3Error → Print
  identity_found : Print
  report_failed : Status → Print
  report_verified completed : Print
  non_terminal : QvResult → Print
  terminal : QvResult → Print
  cannot_open : List ℕ → Print
  usage_text : Print
  quote_path_is : List ℕ → Print
  trusted_heading separator untrusted_heading newline : Print

pub record State (World : Type 0) : Type 0 where
  pub world : World
  pub printed : List Print

-- `rand_nonce`: fifteen characters and the NUL.
unfoldable pub rand_nonce : List ℕ
rand_nonce = codes "59jslk201fgjmm;" ++ (0 ∷ [])

-- What is behind a pointer after a call that may have written there: a pointer stays as it is.
abbrev pub written : {A : Type 0} → Option A → Option A → Option A
written none after = none
written (some a) none = some a
written (some a) (some b) = some b

-- The switch over the result: `ret`, and the line that is printed.
unfoldable pub check_result : QvResult → ℤ × Print
check_result result_ok = (pos 0, completed)
check_result result_config_needed = (pos 1, non_terminal result_config_needed)
check_result result_out_of_date = (pos 1, non_terminal result_out_of_date)
check_result result_out_of_date_config_needed =
    (pos 1, non_terminal result_out_of_date_config_needed)
check_result result_sw_hardening_needed = (pos 1, non_terminal result_sw_hardening_needed)
check_result result_config_and_sw_hardening_needed =
    (pos 1, non_terminal result_config_and_sw_hardening_needed)
check_result r = (negsuc 0, terminal r)

module _ {World : Type 0} where
  abbrev pub say : Print → State World → State World
  say p s = record s { printed = s.printed ++ (p ∷ []) }

  abbrev pub at : World → State World → State World
  at w s = record s { world = w }

module _ {World : Type 0} (dcap : Dcap World) where
  open dcap use {
    code, sizeof_supplemental, set_enclave_load_policy, get_quote_supplemental_data_size,
    verify_quote, time, malloc,
  }

  unfoldable pub set_policy : State World → State World
  set_policy s =
      let (qve_ret, w) = set_enclave_load_policy s.world in
      say (if is_ql_success qve_ret then policy_set else policy_failed qve_ret) (at w s)

  -- The size of the supplemental data and the array for them.
  unfoldable pub allocate_supplemental : State World → (ℕ × Option (List ℕ)) × State World
  allocate_supplemental s =
      let ((qve_ret, size), w) = get_quote_supplemental_data_size s.world in
      if is_ql_success qve_ret && (size == sizeof_supplemental)
      then (let (p, v) = malloc size w in ((size, p), at v (say size_found s)))
      else ((0, none), say (size_failed qve_ret) (at w s))

  -- The size of the quote is cast to 32 bits.
  unfoldable pub call_verify_quote :
      List ℕ → ℕ → Option ReportInfo → ℕ × Option (List ℕ) → State World → Outputs × State World
  call_verify_quote quote current_time info (size, p) s =
      let ((qve_ret, out), w) =
        verify_quote (take (length quote % 2 ^ 32) quote) current_time size
          (record {
            collateral_expiration_status = 1;
            verification_result = result_unspecified;
            qve_report_info = info;
            supplemental_data = p;
          })
          s.world in
      (
        record out {
          qve_report_info = written info out.qve_report_info;
          supplemental_data = written p out.supplemental_data;
        },
        say (if is_ql_success qve_ret then verify_returned else verify_failed qve_ret) (at w s),
      )

  abbrev array : List ℕ → Buffer
  array bytes = record { bytes = some bytes; size = length bytes }

  abbrev report_of : Option ReportInfo → Option (List ℕ)
  report_of none = none
  report_of (some info) = some info.qe_report

  abbrev nonce_of : Option ReportInfo → Option (List ℕ)
  nonce_of none = none
  nonce_of (some info) = some info.nonce

  -- The arguments of `ecall_verify_report`.
  unfoldable pub evidence : List ℕ → ℕ → ℕ → Outputs → Identity → Evidence
  evidence quote current_time size out identity = record {
    report = record { bytes = report_of out.qve_report_info; size = sizeof_report };
    rand = record { bytes = nonce_of out.qve_report_info; size = 16 };
    quote = array quote;
    qveid = identity.qveid;
    qveid_issue_chain = identity.qveid_issue_chain;
    root_ca_crl = identity.root_ca_crl;
    expiration_check_date = current_time;
    collateral_expiration_status = out.collateral_expiration_status;
    verification_result = code out.verification_result;
    supplemental_data = record { bytes = out.supplemental_data; size = size };
  }

module _ {World : Type 0} where
  -- `qve_ret`, which the message prints, is still SGX_QL_ERROR_UNEXPECTED.
  unfoldable pub note_target_info :
      (Status × (Status × List ℕ)) × World → State World → List ℕ × State World
  note_target_info ((sgx_ret, (ret, target_info)), w) s = (
    target_info,
    say
        (if not (eq_status sgx_ret success) || not (eq_status ret success)
          then target_info_failed ql_error_unexpected
          else got_target_info)
        (at w s),
  )

-- The proxies write the status of the enclave's function beside that of the call. The enclave keeps no
-- state, so the bridge stands over the world.
module _ {World : Type 0} (bridge : Bridge World) (trusted : Trusted) where
  unfoldable pub get_target_info : State World → List ℕ × State World
  get_target_info s =
      note_target_info (bridge.call (λ (w : World). (ecall_get_target_info trusted, w)) s.world) s

  -- The check of the report: only a line is printed of its outcome.
  unfoldable pub call_verify_report : Evidence → State World → State World
  call_verify_report e s =
      let ((sgx_ret, ret), w) =
        bridge.call (λ (w : World). (ecall_verify_report trusted e, w)) s.world in
      say
        (if not (eq_status sgx_ret success) || not (eq_status ret success)
          then report_failed ret
          else report_verified)
        (at w s)
