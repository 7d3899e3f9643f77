-- ===== src/QuoteServer/Reports.antt =====
-- When the quote server's enclave accepts the report of the quote verification enclave.
use sgx_erlang_extension.Prelude.{
  ℕ, ◌%◌, ◌^◌, ◌≡◌, ◌≢◌, ◌⊎◌, ◌↔◌, Option, none, some, true, false, List, ◌++◌, take, append-nil,
  zeros, bytes_eq→eq, bytes_eq_refl, if◌then◌else◌, arith, Option-cases, inl, inr,
}
use sgx_erlang_extension.Sgx.{success, eq_status}
use sgx_erlang_extension.Sgx.Sha256.{Digests}
use sgx_erlang_extension.QuoteServer.Enclave.{
  Trusted, Buffer, Evidence, report_data, trusted_root_ca_cert, invalid_arguments, content,
  little_endian, is_null, is_missing, update, update_supplemental, hash_evidence, check_identity,
  ecall_verify_report,
}

-- The quote as it is hashed.
abbrev pub cast_quote : Evidence → List ℕ
cast_quote e = take (e.quote.size % 2 ^ 32) (content e.quote)

-- What the report has to vouch for.
abbrev pub vouched : Evidence → List ℕ
vouched e =
    (((((content e.rand ++ cast_quote e) ++ little_endian 8 e.expiration_check_date)
          ++ little_endian 4 e.collateral_expiration_status)
        ++ little_endian 4 e.verification_result)
      ++ content e.supplemental_data)

-- A pointer that is not NULL, with a size that is not 0.
abbrev pub Present : Buffer → Type 0
Present b = (b.bytes ≢ none) × (b.size ≢ 0)

-- The arguments are complete.
abbrev pub Complete : Evidence → Type 0
Complete e =
    (e.report.bytes ≢ none)
    × (e.report.size ≡ 432)
    × Present e.rand
    × Present e.quote
    × Present e.qveid
    × Present e.qveid_issue_chain
    × Present e.root_ca_crl
    × ((e.supplemental_data.bytes ≡ none) ⊎ (e.supplemental_data.size ≢ 0))

is_null-none : (o : Option (List ℕ)) → (is_null o ≡ false) ↔ (o ≢ none)
is_null-none o = ground arith

is_missing-Present : (b : Buffer) → (is_missing b ≡ false) ↔ Present b
is_missing-Present b = ground (arith, is_null-none b.bytes)

invalid_arguments-Complete : (e : Evidence) → (invalid_arguments e ≡ false) ↔ Complete e
unfolding invalid_arguments
invalid_arguments-Complete e = ground (
  arith,
  is_missing-Present e.rand,
  is_missing-Present e.quote,
  is_missing-Present e.qveid,
  is_missing-Present e.qveid_issue_chain,
  is_missing-Present e.root_ca_crl,
)

module _ (trusted : Trusted) where
  -- The report and the identity of the enclave that has made it are right.
  abbrev pub Identified : Evidence → Type 0
  Identified e =
      (trusted.verify_enclave_identity (content e.qveid) (content e.qveid_issue_chain)
          (content e.root_ca_crl) trusted_root_ca_cert e.expiration_check_date
        ≡ true)
      × (trusted.verify_enclave_report (content e.report) (content e.qveid) ≡ true)

  abbrev pub Reported : Evidence → Type 0
  Reported e = Complete e × (eq_status (trusted.verify_report (content e.report)) success ≡ true)

  check_identity-Identified :
      (e : Evidence) (d : List ℕ)
      → (eq_status (check_identity trusted e d) success ≡ true)
        ↔ ((report_data e ≡ d) × Identified e)
  unfolding check_identity
  check_identity-Identified e d =
      (λ h. ground (arith, bytes_eq→eq (report_data e) d), λ h. ground (arith, bytes_eq_refl d))

module _ (trusted : Trusted) (digests : Digests trusted.sha256) where
  open trusted.sha256 use {Sha, sha256_init, sha256_update, sha256_get_hash}

  abbrev step : List ℕ → Sha → Sha
  step bytes c = (sha256_update bytes c).1

  update-step : (bytes : List ℕ) (c : Sha) → update trusted bytes c ≡ some (step bytes c)
  update-step bytes c = ground (arith, digests.update_succeeds bytes c)

  -- Without supplemental data nothing is fed.
  abbrev fed : Buffer → Sha → Sha
  fed b c = if is_null b.bytes then c else step (content b) c

  update_supplemental-fed :
      (b : Buffer) (c : Sha) → update_supplemental trusted b c ≡ some (fed b c)
  update_supplemental-fed b c = ground (arith, update-step (content b) c)

  absorbed-fed :
      (b : Buffer) (c : Sha) → digests.absorbed (fed b c) ≡ digests.absorbed c ++ content b
  unfolding content
  absorbed-fed b c = elim (Option-cases b.bytes) [
    | inl h ↦ ground (arith, append-nil (digests.absorbed c))
    | inr (bytes, h) ↦ ground (arith, digests.absorbed_update (content b) c)
  ]

  hash_evidence-digest :
      (e : Evidence) → hash_evidence trusted e ≡ some (digests.digest (vouched e) ++ zeros 32)
  unfolding hash_evidence
  hash_evidence-digest e =
      let c₀ = sha256_init.1 in
      let c₁ = step (content e.rand) c₀ in
      let c₂ = step (cast_quote e) c₁ in
      let c₃ = step (little_endian 8 e.expiration_check_date) c₂ in
      let c₄ = step (little_endian 4 e.collateral_expiration_status) c₃ in
      let c₅ = step (little_endian 4 e.verification_result) c₄ in
      let c₆ = fed e.supplemental_data c₅ in
      ground (
        arith,
        digests.init_succeeds,
        update-step (content e.rand) c₀,
        update-step (cast_quote e) c₁,
        update-step (little_endian 8 e.expiration_check_date) c₂,
        update-step (little_endian 4 e.collateral_expiration_status) c₃,
        update-step (little_endian 4 e.verification_result) c₄,
        update_supplemental-fed e.supplemental_data c₅,
        digests.hash_succeeds c₆,
        digests.hash_absorbed c₆,
        digests.absorbed_init,
        digests.absorbed_update (content e.rand) c₀,
        digests.absorbed_update (cast_quote e) c₁,
        digests.absorbed_update (little_endian 8 e.expiration_check_date) c₂,
        digests.absorbed_update (little_endian 4 e.collateral_expiration_status) c₃,
        digests.absorbed_update (little_endian 4 e.verification_result) c₄,
        absorbed-fed e.supplemental_data c₅,
      )

  -- Where SHA-256 works as documented, `ecall_verify_report` returns SGX_SUCCESS exactly if the
  -- arguments are complete, with a report of 432 bytes, the SDK verifies the report, its report
  -- data are the digest of the nonce, the quote with its size cast to 32 bits, the date, the
  -- expiration status, the result and the supplemental data, over 32 zeros, and the attestation
  -- library accepts, under the root certificate of the source, the identity of the enclave that
  -- made the report, and the report under that identity.
  pub ecall_verify_report-Identified :
      (e : Evidence)
      → (eq_status (ecall_verify_report trusted e) success ≡ true) ↔ (
          Reported trusted e
          × (report_data e ≡ digests.digest (vouched e) ++ zeros 32)
          × Identified trusted e)
  unfolding ecall_verify_report
  ecall_verify_report-Identified e =
      let d = digests.digest (vouched e) ++ zeros 32 in
      (
        λ h. ground (
          arith,
          hash_evidence-digest e,
          invalid_arguments-Complete e,
          check_identity-Identified trusted e d,
        ),
        λ h. ground (
          arith,
          hash_evidence-digest e,
          invalid_arguments-Complete e,
          check_identity-Identified trusted e d,
        ),
      )

module _ (trusted : Trusted) where
  -- If one of the calls of SHA-256 fails, `ecall_verify_report` returns SGX_SUCCESS exactly if
  -- the arguments are complete and the SDK verifies the report: nothing of the report data, of
  -- the identity or of the report's enclave is compared.
  pub ecall_verify_report_unhashed :
      (e : Evidence)
      → hash_evidence trusted e ≡ none
      → (eq_status (ecall_verify_report trusted e) success ≡ true) ↔ Reported trusted e
  unfolding ecall_verify_report
  ecall_verify_report_unhashed e h = ground (arith, invalid_arguments-Complete e)
