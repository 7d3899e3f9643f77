-- ===== src/Sgx/Codes.antt =====
-- `sgx_status_t`, with the constants that erlang-c-node/App/App.c, erlang-nif/App/App.c and
-- erlang-nif_SSL/App/App.c name, two that the attestation enclave returns, and one for which its
-- application waits.
use sgx_erlang_extension.Prelude.{ℕ, ◌+◌, Bool, ◌==◌}

pub data Status : Type 0 where
  success error_unexpected error_invalid_parameter error_out_of_memory error_enclave_lost : Status
  error_invalid_enclave error_invalid_enclave_id error_invalid_signature error_out_of_epc : Status
  error_no_device error_memory_map_conflict error_invalid_metadata error_device_busy : Status
  error_invalid_version error_invalid_attribute error_enclave_file_access : Status
  error_kdf_mismatch error_mac_mismatch error_busy : Status
  other : ℕ → Status

-- A number for each status, by which two are compared. It is not the SDK's numbering.
abbrev pub tag : Status → ℕ
tag success = 0
tag error_unexpected = 1
tag error_invalid_parameter = 2
tag error_out_of_memory = 3
tag error_enclave_lost = 4
tag error_invalid_enclave = 5
tag error_invalid_enclave_id = 6
tag error_invalid_signature = 7
tag error_out_of_epc = 8
tag error_no_device = 9
tag error_memory_map_conflict = 10
tag error_invalid_metadata = 11
tag error_device_busy = 12
tag error_invalid_version = 13
tag error_invalid_attribute = 14
tag error_enclave_file_access = 15
tag error_kdf_mismatch = 16
tag error_mac_mismatch = 17
tag error_busy = 18
tag (other n) = 19 + n

-- `a == b` on statuses.
abbrev pub eq_status : Status → Status → Bool
eq_status a b = tag a == tag b
