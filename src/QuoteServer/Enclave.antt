-- ===== src/QuoteServer/Enclave.antt =====
-- `ecall_get_target_info` and `ecall_verify_report` of QuoteVerificationServer/Enclave/Enclave.cpp.
use sgx_erlang_extension.Prelude.{
  ℕ, zero, suc, ◌/◌, ◌%◌, ◌^◌, Option, none, some, Bool, true, false, ◌&&◌, ◌||◌, not, List, [],
  ◌∷◌, ◌++◌, codes, take, drop, zeros, bytes_eq, ◌==◌, if◌then◌else◌,
}
use sgx_erlang_extension.Sgx.{Status, success, eq_status}
use sgx_erlang_extension.Sgx.Sha256.{Sha256}

-- The SDK's trusted libraries and the attestation library of Intel's quote verification, which are
-- not part of the repository. `sgxAttestationVerifyEnclaveIdentity` takes the identity, its issuers'
-- chain, the revocation list of the root CA, the trusted root certificate and the date; for it and
-- for `sgxAttestationVerifyEnclaveReport` the model has only whether the result is STATUS_OK.
pub record Trusted : Type 1 where
  pub self_target : Status × List ℕ
  pub verify_report : List ℕ → Status
  pub sha256 : Sha256
  pub verify_enclave_identity : List ℕ → List ℕ → List ℕ → List ℕ → ℕ → Bool
  pub verify_enclave_report : List ℕ → List ℕ → Bool

-- A pointer with the size that is passed beside it. The proxy copies that many bytes into the
-- enclave.
pub record Buffer : Type 0 where
  pub bytes : Option (List ℕ)
  pub size : ℕ

-- The arguments of `ecall_verify_report`. The date is kept as its 64 bits.
pub record Evidence : Type 0 where
  pub report : Buffer
  pub rand : Buffer
  pub quote : Buffer
  pub qveid : Buffer
  pub qveid_issue_chain : Buffer
  pub root_ca_crl : Buffer
  pub expiration_check_date : ℕ
  pub collateral_expiration_status : ℕ
  pub verification_result : ℕ
  pub supplemental_data : Buffer

-- `sizeof(sgx_report_t)`, and where in it the 64 bytes of `body.report_data` begin.
abbrev pub sizeof_report : ℕ
sizeof_report = 432

abbrev pub report_data_offset : ℕ
report_data_offset = 320

abbrev pub sizeof_report_data : ℕ
sizeof_report_data = 64

unfoldable pub trusted_root_ca_cert : List ℕ
trusted_root_ca_cert =
    codes "-----BEGIN CERTIFICATE-----"
    ++ (10 ∷ [])
    ++ codes "MIICjjCCAjSgAwIBAgIUImUM1lqdNInzg7SVUr9QGzknBqwwCgYIKoZIzj0EAwIw"
    ++ (10 ∷ [])
    ++ codes "aDEaMBgGA1UEAwwRSW50ZWwgU0dYIFJvb3QgQ0ExGjAYBgNVBAoMEUludGVsIENv"
    ++ (10 ∷ [])
    ++ codes "cnBvcmF0aW9uMRQwEgYDVQQHDAtTYW50YSBDbGFyYTELMAkGA1UECAwCQ0ExCzAJ"
    ++ (10 ∷ [])
    ++ codes "BgNVBAYTAlVTMB4XDTE4MDUyMTEwNDExMVoXDTMzMDUyMTEwNDExMFowaDEaMBgG"
    ++ (10 ∷ [])
    ++ codes "A1UEAwwRSW50ZWwgU0dYIFJvb3QgQ0ExGjAYBgNVBAoMEUludGVsIENvcnBvcmF0"
    ++ (10 ∷ [])
    ++ codes "aW9uMRQwEgYDVQQHDAtTYW50YSBDbGFyYTELMAkGA1UECAwCQ0ExCzAJBgNVBAYT"
    ++ (10 ∷ [])
    ++ codes "AlVTMFkwEwYHKoZIzj0CAQYIKoZIzj0DAQcDQgAEC6nEwMDIYZOj/iPWsCzaEKi7"
    ++ (10 ∷ [])
    ++ codes "1OiOSLRFhWGjbnBVJfVnkY4u3IjkDYYL0MxO4mqsyYjlBalTVYxFP2sJBK5zlKOB"
    ++ (10 ∷ [])
    ++ codes "uzCBuDAfBgNVHSMEGDAWgBQiZQzWWp00ifODtJVSv1AbOScGrDBSBgNVHR8ESzBJ"
    ++ (10 ∷ [])
    ++ codes "MEegRaBDhkFodHRwczovL2NlcnRpZmljYXRlcy50cnVzdGVkc2VydmljZXMuaW50"
    ++ (10 ∷ [])
    ++ codes "ZWwuY29tL0ludGVsU0dYUm9vdENBLmNybDAdBgNVHQ4EFgQUImUM1lqdNInzg7SV"
    ++ (10 ∷ [])
    ++ codes "Ur9QGzknBqwwDgYDVR0PAQH/BAQDAgEGMBIGA1UdEwEB/wQIMAYBAf8CAQEwCgYI"
    ++ (10 ∷ [])
    ++ codes "KoZIzj0EAwIDSAAwRQIgQQs/08rycdPauCFk8UPQXCMAlsloBe7NwaQGTcdpa0EC"
    ++ (10 ∷ [])
    ++ codes "IQCUt8SGvxKmjpcM/z0WP9Dvo8h2k5du1iWDdBkAn+0iiA=="
    ++ (10 ∷ [])
    ++ codes "-----END CERTIFICATE-----"

abbrev pub is_null : {A : Type 0} → Option A → Bool
is_null none = true
is_null (some a) = false

-- `p == NULL || size == 0`
abbrev pub is_missing : Buffer → Bool
is_missing b = is_null b.bytes || (b.size == 0)

unfoldable pub invalid_arguments : Evidence → Bool
invalid_arguments e =
    is_null e.report.bytes
    || (not (e.report.size == sizeof_report)
        || (is_missing e.rand
            || (is_missing e.quote
                || (is_missing e.qveid
                    || (is_missing e.qveid_issue_chain
                        || (is_missing e.root_ca_crl
                            || (not (is_null e.supplemental_data.bytes)
                                && (e.supplemental_data.size == 0))))))))

-- The bytes behind a pointer that is not NULL.
abbrev pub pointed : ℕ → Option (List ℕ) → List ℕ
pointed n none = []
pointed n (some bytes) = take n bytes

unfoldable pub content : Buffer → List ℕ
content b = pointed b.size b.bytes

-- `p_qve_report->body.report_data`
unfoldable pub report_data : Evidence → List ℕ
report_data e = take sizeof_report_data (drop report_data_offset (content e.report))

-- An unsigned integer of n bytes in memory, the lowest first.
unfoldable pub little_endian : ℕ → ℕ → List ℕ
little_endian zero w = []
little_endian (suc n) w = w % 256 ∷ little_endian n (w / 256)

-- `SGX_ERR_BREAK` after a call: what the call gives, if its status is SGX_SUCCESS.
abbrev pub or_break : {A : Type 0} → Status × A → Option A
or_break (s, a) = if eq_status s success then some a else none

abbrev pub unless_break : {A B : Type 0} → Option A → (A → Option B) → Option B
unless_break none f = none
unless_break (some a) f = f a

module _ (trusted : Trusted) where
  open trusted use {
    self_target, verify_report, sha256, verify_enclave_identity, verify_enclave_report,
  }
  open trusted.sha256 use {Sha, sha256_init, sha256_update, sha256_get_hash}

  -- The status, and the target info that is written.
  unfoldable pub ecall_get_target_info : Status × List ℕ
  ecall_get_target_info = self_target

  abbrev pub update : List ℕ → Sha → Option Sha
  update bytes c = or_break (sha256_update bytes c)

  -- `if (p_supplemental_data)`
  abbrev pub update_supplemental : Buffer → Sha → Option Sha
  update_supplemental b c = if is_null b.bytes then some c else update (content b) c

  -- `report_data` after the calls of SHA-256, or nothing if one of them breaks out of the block. The
  -- size of the quote is cast to 32 bits. The digest is written to the first 32 bytes of an array of
  -- 64 zeros.
  unfoldable pub hash_evidence : Evidence → Option (List ℕ)
  hash_evidence e = unless_break (or_break sha256_init) λ c₀.
      unless_break (update (content e.rand) c₀) λ c₁.
        unless_break (update (take (e.quote.size % 2 ^ 32) (content e.quote)) c₁) λ c₂.
          unless_break (update (little_endian 8 e.expiration_check_date) c₂) λ c₃.
            unless_break (update (little_endian 4 e.collateral_expiration_status) c₃) λ c₄.
              unless_break (update (little_endian 4 e.verification_result) c₄) λ c₅.
                unless_break (update_supplemental e.supplemental_data c₅)
                  λ c₆. unless_break (or_break (sha256_get_hash c₆)) λ hash. some (hash ++ zeros 32)

  -- From the comparison of the report data on.
  unfoldable pub check_identity : Evidence → List ℕ → Status
  check_identity e d =
      if not (bytes_eq (report_data e) d)
      then Status.error_unexpected
      else if not (
          verify_enclave_identity (content e.qveid) (content e.qveid_issue_chain)
            (content e.root_ca_crl) trusted_root_ca_cert e.expiration_check_date)
      then Status.error_unexpected
      else if not (verify_enclave_report (content e.report) (content e.qveid))
      then Status.error_unexpected
      else success

  -- A break out of the hash leaves `ret` as `sgx_verify_report` has set it.
  abbrev pub checked : Evidence → Status → Option (List ℕ) → Status
  checked e ret none = ret
  checked e ret (some report_data) = check_identity e report_data

  unfoldable pub ecall_verify_report : Evidence → Status
  ecall_verify_report e =
      if invalid_arguments e
      then Status.error_unexpected
      else let ret = verify_report (content e.report) in
        if not (eq_status ret success) then ret else checked e ret (hash_evidence e)
