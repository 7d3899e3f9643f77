-- ===== src/QuoteServer/Dcap.antt =====
-- What the quote server uses of the world around it: Intel's quote verification library (DCAP), the
-- clock, the allocator and files. None of it is in the repository, so it is a parameter.
use sgx_erlang_extension.Prelude.{ℕ, Option, none, Bool, true, false, List}
use sgx_erlang_extension.QuoteServer.Enclave.{Buffer}

-- `quote3_error_t`, with the values that the source names.
pub data Quote3Error : Type 0 where
  ql_success ql_error_unexpected : Quote3Error
  other_error : ℕ → Quote3Error

abbrev pub is_ql_success : Quote3Error → Bool
is_ql_success ql_success = true
is_ql_success _ = false

-- `sgx_ql_qv_result_t`, with the values that the source names.
pub data QvResult : Type 0 where
  result_ok result_config_needed result_out_of_date result_out_of_date_config_needed : QvResult
  result_sw_hardening_needed result_config_and_sw_hardening_needed : QvResult
  result_invalid_signature result_revoked result_unspecified : QvResult
  other_result : ℕ → QvResult

-- `sgx_ql_qe_report_info_t`
pub record ReportInfo : Type 0 where
  pub nonce : List ℕ
  pub app_enclave_target_info : List ℕ
  pub qe_report : List ℕ

-- What `sgx_qv_verify_quote` may write to, before and after it: its out parameters, and the arrays
-- of the report and of the supplemental data where their pointers are not NULL.
pub record Outputs : Type 0 where
  pub collateral_expiration_status : ℕ
  pub verification_result : QvResult
  pub qve_report_info : Option ReportInfo
  pub supplemental_data : Option (List ℕ)

-- The pointers and sizes of `sgx_qv_get_qve_identity`.
pub record Identity : Type 0 where
  pub qveid : Buffer
  pub qveid_issue_chain : Buffer
  pub root_ca_crl : Buffer

abbrev null : Buffer
null = record { bytes = none; size = 0 }

unfoldable pub no_identity : Identity
no_identity = record { qveid = null; qveid_issue_chain = null; root_ca_crl = null }

-- A file that has been opened: what `tellg` says at its end, and the bytes that `read` gets.
pub record File : Type 0 where
  pub file_size : ℕ
  pub stored : List ℕ

-- `verify_quote` takes the quote, the date and the size of the supplemental data. `code` is the
-- number behind a result, and `sizeof_supplemental` the size of `sgx_ql_qv_supplemental_t`.
pub record Dcap (World : Type 0) : Type 0 where
  pub code : QvResult → ℕ
  pub sizeof_supplemental : ℕ
  pub set_enclave_load_policy : World → Quote3Error × World
  pub get_quote_supplemental_data_size : World → (Quote3Error × ℕ) × World
  pub verify_quote : List ℕ → ℕ → ℕ → Outputs → World → (Quote3Error × Outputs) × World
  pub get_qve_identity : Identity → World → (Quote3Error × Identity) × World
  pub free_qve_identity : Identity → World → World
  pub time : World → ℕ × World
  pub malloc : ℕ → World → Option (List ℕ) × World
  pub open_file : List ℕ → World → Option File × World
