-- ===== src/ServiceProvider/State.antt =====
-- The data of the service provider: service_provider/service_provider.h and the static variables of
-- service_provider/service_provider.cpp.
use sgx_erlang_extension.Prelude.{ℕ, Option, none, Bool, true, false, List, [], ◌∷◌, ℤ, pos, zeros}
use sgx_erlang_extension.ServiceProvider.Libcrypto.{Libcrypto, Library}
use sgx_erlang_extension.ServiceProvider.Steps.{Steps, modify}
use sgx_erlang_extension.ServiceProvider.Ias.{
  AttReport, ias_enroll, ias_get_sigrl, ias_verify_attestation_evidence,
}

-- `sp_ra_msg_status_t`
abbrev pub sp_unsupported_extended_epid_group : ℤ
sp_unsupported_extended_epid_group = pos 1

abbrev pub sp_integrity_failed : ℤ
sp_integrity_failed = pos 2

abbrev pub sp_ias_failed : ℤ
sp_ias_failed = pos 4

abbrev pub sp_internal_error : ℤ
sp_internal_error = pos 5

abbrev pub sp_protocol_error : ℤ
sp_protocol_error = pos 6

-- `ra_msg_type_t`
abbrev pub type_ra_msg0 : ℕ
type_ra_msg0 = 0

abbrev pub type_ra_msg1 : ℕ
type_ra_msg1 = 1

abbrev pub type_ra_msg2 : ℕ
type_ra_msg2 = 2

abbrev pub type_ra_msg3 : ℕ
type_ra_msg3 = 3

abbrev pub type_ra_att_result : ℕ
type_ra_att_result = 4

-- The private key of the service provider.
abbrev pub g_sp_priv_key : List ℕ
g_sp_priv_key =
    0x90 ∷ 0xe7 ∷ 0x6c ∷ 0xbb ∷ 0x2d ∷ 0x52 ∷ 0xa1 ∷ 0xce ∷ 0x3b ∷ 0x66 ∷ 0xde ∷ 0x11 ∷ 0x43 ∷ 0x9c
    ∷ 0x87 ∷ 0xec ∷ 0x1f ∷ 0x86 ∷ 0x6a ∷ 0x3b ∷ 0x65 ∷ 0xb6 ∷ 0xae ∷ 0xea ∷ 0xad ∷ 0x57 ∷ 0x34
    ∷ 0x53 ∷ 0xd1 ∷ 0x03 ∷ 0x8c ∷ 0x01 ∷ []

abbrev pub g_secret : List ℕ
g_secret = 0 ∷ 1 ∷ 2 ∷ 3 ∷ 4 ∷ 5 ∷ 6 ∷ 7 ∷ []

-- `sample_extended_epid_group`, with its function pointers.
pub record ExtendedEpidGroup (lib : Libcrypto) : Type 0 where
  pub extended_epid_group_id : ℕ
  pub enroll : Option (List ℕ) → ℤ × Option (List ℕ)
  pub get_sigrl : List ℕ → ℤ × List ℕ
  pub verify_attestation_evidence : List ℕ → Library lib → (ℤ × AttReport) × Library lib

-- The one group that is supported.
abbrev pub ias_group : (lib : Libcrypto) → ExtendedEpidGroup lib
ias_group lib = record {
  extended_epid_group_id = 0;
  enroll = ias_enroll;
  get_sigrl = ias_get_sigrl;
  verify_attestation_evidence = ias_verify_attestation_evidence lib;
}

abbrev pub g_extended_epid_groups : (lib : Libcrypto) → List (ExtendedEpidGroup lib)
g_extended_epid_groups lib = ias_group lib ∷ []

-- `sp_db_item_t`
pub record SpDbItem : Type 0 where
  pub g_a : List ℕ
  pub g_b : List ℕ
  pub vk_key : List ℕ
  pub mk_key : List ℕ
  pub sk_key : List ℕ
  pub smk_key : List ℕ
  pub b : List ℕ
  pub ps_sec_prop : List ℕ

-- The static variables, the cryptographic library, and how many of its SHA contexts are open.
pub record Sp (lib : Libcrypto) : Type 0 where
  pub g_sp_db : SpDbItem
  pub group : Option (ExtendedEpidGroup lib)
  pub g_is_sp_registered : Bool
  pub g_return_ecdsa_att_key_id : Bool
  pub g_spid : List ℕ
  pub library : Library lib
  pub sha_contexts : ℕ

abbrev pub zero_db : SpDbItem
zero_db = record {
  g_a = zeros 64;
  g_b = zeros 64;
  vk_key = zeros 16;
  mk_key = zeros 16;
  sk_key = zeros 16;
  smk_key = zeros 16;
  b = zeros 32;
  ps_sec_prop = zeros 256;
}

-- The service provider when it starts.
abbrev pub initial_sp : (lib : Libcrypto) → lib.World → Sp lib
initial_sp lib w = record {
  g_sp_db = zero_db;
  group = none;
  g_is_sp_registered = false;
  g_return_ecdsa_att_key_id = true;
  g_spid = zeros 16;
  library = record { world = w; contexts = 0 };
  sha_contexts = 0;
}

-- `ra_samp_response_header_t` with its body. `size` need not be the length of the body.
pub record Response (B : Type 0) : Type 0 where
  pub type : ℕ
  pub status : ℕ × ℕ
  pub size : ℕ
  pub body : B

module _ {lib : Libcrypto} where
  abbrev pub change_db : (SpDbItem → SpDbItem) → Steps (Sp lib) (Unit {0})
  change_db f = modify (λ s. record s { g_sp_db = f s.g_sp_db })
