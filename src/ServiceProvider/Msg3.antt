-- ===== src/ServiceProvider/Msg3.antt =====
-- `sp_ra_proc_msg3_req` of service_provider/service_provider.cpp. What it prints of the report and of
-- the quote is left out.
use sgx_erlang_extension.Prelude.{
  ℕ, ◌+◌, Option, none, some, Bool, ◌&&◌, not, List, ◌++◌, ℤ, is_zero, length, take, drop, zeros,
  bytes_eq, ltb, if◌then◌else◌,
}
use sgx_erlang_extension.Process.{Outcome, returned}
use sgx_erlang_extension.ServiceProvider.Libcrypto.{Libcrypto}
use sgx_erlang_extension.ServiceProvider.Steps.{
  Steps, pure, gets, modify, fail_if, crash_if, require, ◌>>=◌, ◌>>◌, finish,
}
use sgx_erlang_extension.ServiceProvider.Ias.{
  AttReport, PlatformInfoBlob, blob_bytes, is_quote_ok, is_pse_ok,
}
use sgx_erlang_extension.ServiceProvider.State.{
  Sp, Response, change_db, g_secret, sp_ias_failed, sp_internal_error, sp_integrity_failed,
  sp_protocol_error, sp_unsupported_extended_epid_group, type_ra_att_result,
}
use sgx_erlang_extension.ServiceProvider.Msg1.{group_of}

-- `sample_ra_att_result_msg_t`
pub record AttResult : Type 0 where
  pub platform_info_blob : PlatformInfoBlob
  pub mac : List ℕ
  pub payload_size : ℕ
  pub payload_tag : List ℕ
  pub payload : List ℕ

-- `sample_ra_msg3_t`: the MAC at 0, g_a at 16, the property descriptor at 80, and the quote at 336.
abbrev pub sizeof_msg3 : ℕ
sizeof_msg3 = 336

abbrev pub msg3_mac : List ℕ → List ℕ
msg3_mac msg3 = take 16 msg3

abbrev pub msg3_g_a : List ℕ → List ℕ
msg3_g_a msg3 = take 64 (drop 16 msg3)

abbrev pub msg3_ps_sec_prop : List ℕ → List ℕ
msg3_ps_sec_prop msg3 = take 256 (drop 80 msg3)

abbrev pub msg3_quote : List ℕ → List ℕ
msg3_quote msg3 = drop 336 msg3

-- In a quote the report data stand from 368 to 432.
abbrev pub report_data_end : ℕ
report_data_end = 432

abbrev pub quote_report_data : List ℕ → List ℕ
quote_report_data quote = take 64 (drop 368 quote)

-- 113 bytes before the secret and 32 bytes of its header.
abbrev pub sizeof_att_result : ℕ
sizeof_att_result = 145

-- A status byte of the response.
abbrev pub flag : Bool → ℕ
flag passed = if passed then 0 else 0xff

module _ {lib : Libcrypto} where
  open lib use {Sha, cmac, sha256_init, sha256_update, sha256_get_hash, gcm_encrypt}

  -- The context of the hash is never closed.
  abbrev open_sha : Steps (Sp lib) (Unit {0})
  open_sha = modify (λ s. record s { sha_contexts = s.sha_contexts + 1 })

  -- The hash of ga | gb | vk over 64 zeros.
  unfoldable pub report_data : Steps (Sp lib) (List ℕ)
  report_data = do
    db ← gets (λ s. s.g_sp_db)
    c₀ ← require sha256_init sp_internal_error
    open_sha
    c₁ ← require (sha256_update db.g_a c₀) sp_internal_error
    c₂ ← require (sha256_update db.g_b c₁) sp_internal_error
    c₃ ← require (sha256_update db.vk_key c₂) sp_internal_error
    hash ← require (sha256_get_hash c₃) sp_internal_error
    pure (hash ++ zeros 32)

  -- The checks of the message itself.
  unfoldable pub check_msg3 : List ℕ → Steps (Sp lib) (Unit {0})
  check_msg3 msg3 = do
    db ← gets (λ s. s.g_sp_db)
    fail_if (not (bytes_eq db.g_a (msg3_g_a msg3))) sp_protocol_error
    mac ← require (cmac db.smk_key (drop 16 msg3)) sp_internal_error
    fail_if (not (bytes_eq (msg3_mac msg3) mac)) sp_integrity_failed
    change_db (λ d. record d { ps_sec_prop = msg3_ps_sec_prop msg3 })

  -- The check of the quote's report data.
  unfoldable pub compare_report_data : List ℕ → List ℕ → Steps (Sp lib) (Unit {0})
  compare_report_data quote expected = do
    crash_if (ltb (length quote) report_data_end)
    fail_if (not (bytes_eq expected (quote_report_data quote))) sp_integrity_failed

  unfoldable pub check_report_data : List ℕ → Steps (Sp lib) (Unit {0})
  check_report_data quote = do expected ← report_data; compare_report_data quote expected

  -- The verification of the quote by the server.
  unfoldable pub verify_quote : List ℕ → Steps (Sp lib) AttReport
  verify_quote quote = do
    group ← group_of
    library ← gets (λ s. s.library)
    let verified = group.verify_attestation_evidence quote library
    modify (λ s. record s { library = verified.1 })
    fail_if (not (is_zero verified.0.0)) sp_ias_failed
    pure verified.0.1

  unfoldable pub check_quote : List ℕ → Steps (Sp lib) AttReport
  check_quote quote = do check_report_data quote; verify_quote quote

  -- The attestation result. The policy check always passes. The status of the encryption becomes the
  -- handler's result.
  unfoldable pub make_result : AttReport → Steps (Sp lib) (Response AttResult)
  make_result report = do
    db ← gets (λ s. s.g_sp_db)
    mac ← require (cmac db.mk_key (blob_bytes report.info_blob)) sp_internal_error
    let passed = is_quote_ok report.status && is_pse_ok report.pse_status
    let made = gcm_encrypt db.sk_key g_secret (zeros 12)
    fail_if (passed && not (is_zero made.0)) made.0
    pure (record {
      type = type_ra_att_result;
      status = (flag (is_quote_ok report.status), flag (is_pse_ok report.pse_status));
      size = sizeof_att_result;
      body = record {
        platform_info_blob = report.info_blob;
        mac = mac;
        payload_size = 8;
        payload_tag = if passed then made.2 else zeros 16;
        payload = if passed then made.1 else zeros 8;
      };
    })

  unfoldable pub sp_ra_proc_msg3_req :
      Option (List ℕ) → Sp lib → Outcome (ℤ × Option (Response AttResult)) × Sp lib
  sp_ra_proc_msg3_req none s = (returned (sp_internal_error, none), s)
  sp_ra_proc_msg3_req (some msg3) s =
      if ltb (length msg3) sizeof_msg3
      then (returned (sp_internal_error, none), s)
      else if not s.g_is_sp_registered
      then (returned (sp_unsupported_extended_epid_group, none), s)
      else finish
          ((do check_msg3 msg3; report ← check_quote (msg3_quote msg3); make_result report) s)
