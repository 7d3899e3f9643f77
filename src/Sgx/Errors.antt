-- ===== src/Sgx/Errors.antt =====
-- `sgx_errlist` and `print_error_message`, the same text in erlang-c-node/App/App.c,
-- erlang-nif/App/App.c and erlang-nif_SSL/App/App.c.
use sgx_erlang_extension.Prelude.{
  ℕ, suc, ◌+◌, ◌≡◌, String, Option, none, some, List, [], ◌∷◌, ◌==◌, if◌then◌else◌, length, arith,
}
use sgx_erlang_extension.Sgx.Codes.{Status, eq_status}

-- `sgx_errlist_t`
pub record SgxErrlist : Type 0 where
  pub err : Status
  pub msg : String
  pub sug : Option String

abbrev plain : Status → String → SgxErrlist
plain e m = record { err = e; msg = m; sug = none }

abbrev suggesting : Status → String → String → SgxErrlist
suggesting e m s = record { err = e; msg = m; sug = some s }

unfoldable pub sgx_errlist : List SgxErrlist
sgx_errlist =
    plain Status.error_unexpected "Unexpected error occurred."
    ∷ plain Status.error_invalid_parameter "Invalid parameter."
    ∷ plain Status.error_out_of_memory "Out of memory."
    ∷ suggesting Status.error_enclave_lost "Power transition occurred."
        "Please refer to the sample \"PowerTransition\" for details."
    ∷ plain Status.error_invalid_enclave "Invalid enclave image."
    ∷ plain Status.error_invalid_enclave_id "Invalid enclave identification."
    ∷ plain Status.error_invalid_signature "Invalid enclave signature."
    ∷ plain Status.error_out_of_epc "Out of EPC memory."
    ∷ suggesting Status.error_no_device "Invalid SGX device."
        "Please make sure SGX module is enabled in the BIOS, and install SGX driver afterwards."
    ∷ plain Status.error_memory_map_conflict "Memory map conflicted."
    ∷ plain Status.error_invalid_metadata "Invalid enclave metadata."
    ∷ plain Status.error_device_busy "SGX device was busy."
    ∷ plain Status.error_invalid_version "Enclave version was invalid."
    ∷ plain Status.error_invalid_attribute "Enclave was not authorized."
    ∷ plain Status.error_enclave_file_access "Can't open enclave file."
    ∷ []

-- What is printed on the console: the lines `Info: %s` and `Error: %s`, and `Error code is 0x%X.`
-- with its reference to the SDK's manual.
pub data Line : Type 0 where
  info : String → Line
  error : String → Line
  error_code : Status → Line

-- `if (NULL != sug) printf(...); printf(...);`
abbrev print_entry : Option String → String → List Line
print_entry none m = error m ∷ []
print_entry (some s) m = info s ∷ error m ∷ []

-- The loop of `print_error_message` from index `idx` on: the index after it and what it printed.
print_loop : Status → ℕ → List SgxErrlist → ℕ × List Line
print_loop ret idx [] = (idx, [])
print_loop ret idx (e ∷ es) =
    if eq_status ret e.err then (idx, print_entry e.sug e.msg) else print_loop ret (suc idx) es

unfoldable pub print_error_message : Status → List Line
unfolding print_loop sgx_errlist
print_error_message ret =
    let (idx, lines) = print_loop ret 0 sgx_errlist in
    if idx == length sgx_errlist then error_code ret ∷ lines else lines

-- The entry of the table for a status, the first if there were several.
abbrev pub find_entry : Status → List SgxErrlist → Option SgxErrlist
find_entry ret [] = none
find_entry ret (e ∷ es) = if eq_status ret e.err then some e else find_entry ret es

abbrev pub message_of : Status → Option SgxErrlist → List Line
message_of ret none = error_code ret ∷ []
message_of ret (some e) = print_entry e.sug e.msg

-- The loop leaves the index below the table's end exactly when it has found an entry.
print_loop-find :
    (ret : Status) (idx : ℕ) (es : List SgxErrlist)
    → (let (end, lines) = print_loop ret idx es in
        if end == idx + length es then error_code ret ∷ lines else lines)
      ≡ message_of ret (find_entry ret es)
unfolding print_loop
print_loop-find ret idx [] = ground arith
print_loop-find ret idx (e ∷ es) = ground (arith, print_loop-find ret (suc idx) es)

-- For every status `print_error_message` prints the message of its entry in the table, preceded
-- by the entry's suggestion if it has one, and for a status with no entry the bare code.
pub print_error_message-find :
    (ret : Status) → print_error_message ret ≡ message_of ret (find_entry ret sgx_errlist)
unfolding print_error_message
print_error_message-find ret = print_loop-find ret 0 sgx_errlist
