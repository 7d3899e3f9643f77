-- ===== src/ServiceProvider/Ias.antt =====
-- service_provider/ias_ra.cpp, which plays the attestation server: enrolment, the revocation list, and
-- the report on a quote.
use sgx_erlang_extension.Prelude.{
  ℕ, ◌+◌, ◌*◌, ◌/◌, ◌%◌, Option, none, some, Bool, true, false, List, [], ◌∷◌, ◌++◌, ℤ, pos, negsuc,
  codes, zeros,
}
use sgx_erlang_extension.ServiceProvider.Libcrypto.{Libcrypto, Library, open_ecc, close_ecc}

pub data QuoteStatus : Type 0 where
  quote_ok quote_signature_invalid quote_group_revoked quote_signature_revoked : QuoteStatus
  quote_key_revoked quote_sigrl_version_mismatch quote_group_out_of_date : QuoteStatus

pub data PseStatus : Type 0 where
  pse_ok pse_desc_type_not_supported pse_isvsvn_out_of_date pse_miscselect_invalid : PseStatus
  pse_attributes_invalid pse_mrsigner_invalid ps_hw_gid_revoked : PseStatus
  ps_hw_privkey_rlver_mismatch ps_hw_sig_rlver_mismatch ps_hw_ca_id_invalid : PseStatus
  ps_hw_sec_info_invalid ps_hw_psda_svn_out_of_date : PseStatus

abbrev pub is_quote_ok : QuoteStatus → Bool
is_quote_ok quote_ok = true
is_quote_ok _ = false

abbrev pub is_pse_ok : PseStatus → Bool
is_pse_ok pse_ok = true
is_pse_ok _ = false

-- `ias_platform_info_blob_t`. The signature is two arrays of eight words.
pub record PlatformInfoBlob : Type 0 where
  pub sample_epid_group_status : ℕ
  pub sample_tcb_evaluation_status : ℕ
  pub pse_evaluation_status : ℕ
  pub latest_equivalent_tcb_psvn : List ℕ
  pub latest_pse_isvsvn : List ℕ
  pub latest_psda_svn : List ℕ
  pub performance_rekey_gid : List ℕ
  pub signature_x : List ℕ
  pub signature_y : List ℕ

-- `ias_att_report_t`, without the policy reports that are never sent.
pub record AttReport : Type 0 where
  pub id : ℕ
  pub status : QuoteStatus
  pub revocation_reason : ℕ
  pub info_blob : PlatformInfoBlob
  pub pse_status : PseStatus
  pub policy_report_size : ℕ

-- A 16-bit and a 32-bit number as they stand in memory, and an array of words.
abbrev pub le16 : ℕ → List ℕ
le16 n = n % 256 ∷ n / 256 % 256 ∷ []

abbrev pub le32 : ℕ → List ℕ
le32 n = n % 256 ∷ n / 256 % 256 ∷ n / 65536 % 256 ∷ n / 16777216 % 256 ∷ []

unfoldable pub words : List ℕ → List ℕ
words [] = []
words (w ∷ ws) = le32 w ++ words ws

-- The packed structure in memory: what is signed, and all of it.
unfoldable pub signed_part : PlatformInfoBlob → List ℕ
signed_part b =
    (b.sample_epid_group_status ∷ [])
    ++ le16 b.sample_tcb_evaluation_status
    ++ le16 b.pse_evaluation_status
    ++ b.latest_equivalent_tcb_psvn
    ++ b.latest_pse_isvsvn
    ++ b.latest_psda_svn
    ++ b.performance_rekey_gid

unfoldable pub blob_bytes : PlatformInfoBlob → List ℕ
unfolding signed_part words
blob_bytes b = signed_part b ++ words b.signature_x ++ words b.signature_y

-- The macro SWAP_ENDIAN_DW: its four summands have no bit in common.
abbrev pub swap_endian_dw : ℕ → ℕ
swap_endian_dw dw =
    dw % 256 * 16777216 + dw / 256 % 256 * 65536 + dw / 65536 % 256 * 256 + dw / 16777216 % 256

-- The macro SWAP_ENDIAN_32B on an array of eight words: words i and 7 - i change places.
unfoldable pub swap_endian_32b : List ℕ → List ℕ
swap_endian_32b (a ∷ b ∷ c ∷ d ∷ e ∷ f ∷ g ∷ h ∷ rest) =
    swap_endian_dw h
    ∷ swap_endian_dw g
    ∷ swap_endian_dw f
    ∷ swap_endian_dw e
    ∷ swap_endian_dw d
    ∷ swap_endian_dw c
    ∷ swap_endian_dw b
    ∷ swap_endian_dw a
    ∷ rest
swap_endian_32b shorter = shorter

-- The key that signs the blob, and the SPID, which its array fills up with NULs.
abbrev pub g_rk_priv_key : List ℕ
g_rk_priv_key =
    0x63 ∷ 0x2c ∷ 0xd4 ∷ 0x02 ∷ 0x7a ∷ 0xdc ∷ 0x56 ∷ 0xa5 ∷ 0x59 ∷ 0x6c ∷ 0x44 ∷ 0x3e ∷ 0x43 ∷ 0xca
    ∷ 0x4e ∷ 0x0b ∷ 0x58 ∷ 0xcd ∷ 0x78 ∷ 0xcb ∷ 0x3c ∷ 0x7e ∷ 0xd5 ∷ 0xb9 ∷ 0xf2 ∷ 0x91 ∷ 0x5b
    ∷ 0x39 ∷ 0x0d ∷ 0xb3 ∷ 0xb5 ∷ 0xfb ∷ []

abbrev pub g_sim_spid : List ℕ
g_sim_spid = codes "Service X" ++ (0 ∷ 0 ∷ 0 ∷ 0 ∷ 0 ∷ 0 ∷ 0 ∷ [])

-- `p_spid` is a pointer to an SPID, or NULL.
unfoldable pub ias_enroll : Option (List ℕ) → ℤ × Option (List ℕ)
ias_enroll none = (pos 1, none)
ias_enroll (some spid) = (pos 0, some g_sim_spid)

-- The revocation list for a group is always empty.
unfoldable pub ias_get_sigrl : List ℕ → ℤ × List ℕ
ias_get_sigrl gid = (pos 0, [])

-- The blob before it is signed: every status bit is 0.
abbrev pub clear_blob : PlatformInfoBlob
clear_blob = record {
  sample_epid_group_status = 0;
  sample_tcb_evaluation_status = 0;
  pse_evaluation_status = 0;
  latest_equivalent_tcb_psvn = zeros 18;
  latest_pse_isvsvn = zeros 2;
  latest_psda_svn = zeros 4;
  performance_rekey_gid = zeros 4;
  signature_x = zeros 8;
  signature_y = zeros 8;
}

abbrev pub report_of : PlatformInfoBlob → AttReport
report_of blob = record {
  id = 0x12345678;
  status = quote_ok;
  revocation_reason = 0;
  info_blob = blob;
  pse_status = pse_ok;
  policy_report_size = 0;
}

module _ (lib : Libcrypto) where
  open lib use {ecdsa_sign}

  -- SP_INTERNAL_ERROR is 5. The context is closed whether or not the signature succeeds; the report
  -- is filled in on every path.
  unfoldable pub ias_verify_attestation_evidence :
      List ℕ → Library lib → (ℤ × AttReport) × Library lib
  ias_verify_attestation_evidence quote l =
      let (opened, l₁) = open_ecc l in
      let (made, w) = ecdsa_sign (signed_part clear_blob) g_rk_priv_key l₁.world in
      let l₂ = record l₁ { world = w } in
      elim opened [
        | false ↦ ((negsuc 0, report_of clear_blob), l₁)
        | true ↦ elim made [
          | none ↦ ((pos 5, report_of clear_blob), close_ecc l₂)
          | some signature ↦
              let (x, y) = signature in
              (
                (
                  pos 0,
                  report_of (record clear_blob {
                    signature_x = swap_endian_32b x;
                    signature_y = swap_endian_32b y;
                  }),
                ),
                close_ecc l₂,
              )
        ]
      ]
